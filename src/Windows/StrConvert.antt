-- ===== src/Windows/StrConvert.antt =====
-- fineftp-server/src/win_str_convert.cpp. What the Windows API converts a whole text to is the record
-- `Conversion`; here is what becomes of the buffers. A wide string is the list of its units. Where
-- the API fails, the content of the buffer is not specified: that is `none`.
pub mod Terminator
use fineftp_server.Base.{
  ℕ, ◌-◌, Option, none, some, List, [], ◌∷◌, ◌++◌, Bytes, length, replicate, ltb, ◌==◌,
  if◌then◌else◌,
}
use fineftp_server.Os.{c_str}

pub data CodePage : Type 0 where
  cp_acp cp_utf8 : CodePage

pub record Conversion : Type 0 where
  pub wide_char_to_multi_byte : CodePage → List ℕ → Bytes
  pub multi_byte_to_wide_char : CodePage → Bytes → List ℕ

-- A string of `count` zeros that the text is written over; the API fails if it does not fit. For a
-- buffer of no bytes it only measures the text.
unfoldable pub fill : ℕ → List ℕ → Option (List ℕ)
fill count text =
    if count == 0
    then some []
    else if ltb count (length text)
    then none
    else some (text ++ replicate (count - length text) 0)

-- The length -1 stands for the text up to its terminator, and the terminator.
abbrev pub with_terminator : List ℕ → List ℕ
with_terminator text = c_str text ++ 0 ∷ []

module _ (api : Conversion) where
  -- The bodies of `WideToAnsi` and `WideToUtf8`.
  narrow : CodePage → List ℕ → Option Bytes
  unfolding fill
  narrow page wstr =
      let count = length (api.wide_char_to_multi_byte page wstr) in
      fill count (api.wide_char_to_multi_byte page (with_terminator wstr))

  -- The bodies of `AnsiToWide` and `Utf8ToWide`.
  widen : CodePage → Bytes → Option (List ℕ)
  unfolding fill
  widen page str =
      let count = length (api.multi_byte_to_wide_char page str) in
      fill count (api.multi_byte_to_wide_char page str)

  unfoldable pub wide_to_ansi : List ℕ → Option Bytes
  unfolding narrow
  wide_to_ansi wstr = narrow cp_acp wstr

  unfoldable pub ansi_to_wide : Bytes → Option (List ℕ)
  unfolding widen
  ansi_to_wide str = widen cp_acp str

  unfoldable pub wide_to_utf8 : List ℕ → Option Bytes
  unfolding narrow
  wide_to_utf8 wstr = narrow cp_utf8 wstr

  unfoldable pub utf8_to_wide : Bytes → Option (List ℕ)
  unfolding widen
  utf8_to_wide str = widen cp_utf8 str

  unfoldable pub ansi_to_utf8 : Bytes → Option Bytes
  unfolding ansi_to_wide wide_to_utf8
  ansi_to_utf8 str = elim (ansi_to_wide str) [ none ↦ none | some wstr ↦ wide_to_utf8 wstr ]

  unfoldable pub utf8_to_ansi : Bytes → Option Bytes
  unfolding utf8_to_wide wide_to_ansi
  utf8_to_ansi str = elim (utf8_to_wide str) [ none ↦ none | some wstr ↦ wide_to_ansi wstr ]
