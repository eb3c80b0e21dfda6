-- ===== src/Windows/StrConvert/Terminator.antt =====
-- Whether the buffers are large enough.
use fineftp_server.Base.{
  ℕ, suc, ◌-◌, ◌≡◌, ◌≢◌, refl, none, some, List, [], ◌∷◌, ◌++◌, append-nil, arith, Bytes, length,
  length-append,
}
use fineftp_server.Session.Paths.{NoNul, c_str-eq}
use fineftp_server.Windows.StrConvert.{
  CodePage, cp_utf8, Conversion, fill, narrow, widen, wide_to_utf8, utf8_to_wide,
}

-- A terminator is one byte more.
abbrev pub KeepsTerminator : Conversion → Type 0
KeepsTerminator api =
    (page : CodePage) (text : List ℕ)
    → api.wide_char_to_multi_byte page (text ++ 0 ∷ [])
      ≡ api.wide_char_to_multi_byte page text ++ 0 ∷ []

fill_exactly : (text : List ℕ) → fill (length text) text ≡ some text
unfolding fill
fill_exactly [] = refl
fill_exactly (c ∷ text) =
    let same : suc (length text) - suc (length text) ≡ 0 = omega arith in
    ground (arith, same, append-nil (c ∷ text))

fill_short : (c : ℕ) (text : List ℕ) → fill (length (c ∷ text)) ((c ∷ text) ++ 0 ∷ []) ≡ none
unfolding fill
fill_short c text = ground (arith, length-append text (0 ∷ []))

fill_too_short : (text : List ℕ) → text ≢ [] → fill (length text) (text ++ 0 ∷ []) ≡ none
fill_too_short [] h = absurd (h refl)
fill_too_short (c ∷ text) h = fill_short c text

narrow-none :
    (api : Conversion) (page : CodePage) (wstr : List ℕ)
    → KeepsTerminator api
    → NoNul wstr
    → api.wide_char_to_multi_byte page wstr ≢ []
    → narrow api page wstr ≡ none
unfolding narrow
narrow-none api page wstr keeps h some_text =
    rw (c_str-eq wstr h, keeps page wstr) (fill_too_short _ some_text)

-- Every conversion to wide characters has room for the text.
pub utf8_to_wide-some :
    (api : Conversion) (str : Bytes)
    → utf8_to_wide api str ≡ some (api.multi_byte_to_wide_char cp_utf8 str)
unfolding utf8_to_wide widen
utf8_to_wide-some api str = fill_exactly (api.multi_byte_to_wide_char cp_utf8 str)

-- `WideToUtf8` fails on every text that does not convert to nothing and has no terminator in it: its
-- buffer is one byte too small for the terminator that it asks for.
pub wide_to_utf8-none :
    (api : Conversion) (wstr : List ℕ)
    → KeepsTerminator api
    → NoNul wstr
    → api.wide_char_to_multi_byte cp_utf8 wstr ≢ []
    → wide_to_utf8 api wstr ≡ none
unfolding wide_to_utf8
wide_to_utf8-none api wstr keeps h some_text = narrow-none api cp_utf8 wstr keeps h some_text
