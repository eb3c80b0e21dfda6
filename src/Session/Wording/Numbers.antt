-- ===== src/Session/Wording/Numbers.antt =====
-- What MDTM and PASV answer, and all that a data connection makes a session answer.
use fineftp_server.Base.{
  ℕ, ◌≡◌, refl, Bool, true, false, Option, none, some, ◌++◌, arith, Bytes, codes, All-append,
  to_string, set_w, set_w-All, if◌then◌else◌,
}
use fineftp_server.Message.Framing.{IsInline}
use fineftp_server.Os.{Os}
use fineftp_server.FileStatus.{FileStatus, Tm, generalized_time_string}
use fineftp_server.Session.{
  Session, Env, Acceptor, Address, v4, v6, close_data_acceptor, is_open, status_of,
}
use fineftp_server.Session.Download.{handle_mdtm}
use fineftp_server.Session.Parameters.{
  handle_pasv, start_listening, passive_failed, passive_reply, passive_text,
}
use fineftp_server.Session.Wording.{
  IsText, IsTidy, IsTidying, inline, inline-IsText, to_string-IsText, send-IsTidy, say-IsTidy,
  if-IsTidy, user-IsTidy,
}
use fineftp_server.Session.Wording.Paths.{local_path-IsText, IsText-append}

-- The same as a record, whose text the rules see.
record IsWord (s : Bytes) : Type 0 where
  text : IsText s

both : {s t : Bytes} → IsWord s → IsWord t → IsWord (s ++ t)
both {s} {t} h k = record { text = All-append IsInline s t h.text k.text }

fixed : (s : Bytes) → inline s ≡ true → IsWord s
fixed s e = record { text = inline-IsText s e }

number : (n : ℕ) → IsWord (to_string n)
number n = record { text = to_string-IsText n }

blanks : (width n : ℕ) → IsWord (set_w width b' ' (to_string n))
blanks width n = record {
  text = set_w-All IsInline width b' ' (to_string n) (ground arith) (to_string-IsText n);
}

zeros : (width n : ℕ) → IsWord (set_w width b'0' (to_string n))
zeros width n = record {
  text = set_w-All IsInline width b'0' (to_string n) (ground arith) (to_string-IsText n);
}

if-IsWord : {s t : Bytes} (b : Bool) → IsWord s → IsWord t → IsWord (if b then s else t)
if-IsWord true h k = h
if-IsWord false h k = k

ruleset words = (both, fixed, number, blanks, zeros, if-IsWord, refl)

generalized_time_string-IsWord :
    (gmtime : ℕ → Tm) (f : FileStatus) → IsWord (generalized_time_string gmtime f)
unfolding generalized_time_string codes
generalized_time_string-IsWord gmtime f = search words depth 12

passive_text-IsWord : (a b c d port : ℕ) → IsWord (passive_text a b c d port)
unfolding passive_text codes
passive_text-IsWord a b c d port = search words depth 16

module _ {os : Os} where
  pub mdtm-IsTidying : (env : Env) → IsTidying (handle_mdtm {os = os} env)
  unfolding handle_mdtm codes status_of
  mdtm-IsTidying env param s t v = user-IsTidy s.logged_in_user (say-IsTidy _ _ refl v) (λ user e.
      let path = local_path-IsText param s e t v in
      search (
        if-IsTidy,
        say-IsTidy,
        send-IsTidy,
        IsText-append,
        path,
        (generalized_time_string-IsWord env.gmtime (status_of user param s)).text,
        refl,
      ))

  acceptor-IsTidy :
      (a : Acceptor) {s : Session os} → IsTidy s → IsTidy (record s { data_acceptor = a })
  acceptor-IsTidy a v = record { directory = v.directory; root = v.root; replies = v.replies }

  pub close-IsTidy : {s : Session os} → IsTidy s → IsTidy (close_data_acceptor s)
  unfolding close_data_acceptor
  close-IsTidy v = search (if-IsTidy, acceptor-IsTidy)

  failed-IsTidy : {s : Session os} → IsTidy s → IsTidy (passive_failed s)
  unfolding passive_failed codes
  failed-IsTidy v = say-IsTidy _ _ refl v

  passive_reply-IsTidy :
      (address : Address) (port : ℕ) (s : Session os)
      → IsTidy s
      → IsTidy (passive_reply address port s)
  unfolding passive_reply codes
  passive_reply-IsTidy (v4 a b c d) port s v =
      send-IsTidy _ _
        (both (fixed (codes "Entering passive mode ") refl) (passive_text-IsWord a b c d port)).text
        v
  passive_reply-IsTidy (v6 bytes) port s v = record {
    directory = v.directory;
    root = v.root;
    replies = v.replies;
  }

  start_listening-IsTidy :
      (env : Env) (address : Address) (s : Session os)
      → IsTidy s
      → IsTidy (start_listening env address s)
  unfolding start_listening
  start_listening-IsTidy env address s v =
      search (if-IsTidy, passive_reply-IsTidy, failed-IsTidy, acceptor-IsTidy)

  address-IsTidy :
      {t : Session os} {u : Address → Session os} (o : Option Address)
      → IsTidy t
      → ((address : Address) → IsTidy (u address))
      → IsTidy (elim o [ none ↦ t | some address ↦ u address ])
  address-IsTidy none f g = f
  address-IsTidy (some address) f g = g address

  pub pasv-IsTidying : (env : Env) → IsTidying (handle_pasv {os = os} env)
  unfolding handle_pasv codes
  pasv-IsTidying env param s t v =
      let ready : IsTidy (if is_open s.data_acceptor then close_data_acceptor s else s) =
        if-IsTidy _ (close-IsTidy v) v in
      user-IsTidy s.logged_in_user (say-IsTidy _ _ refl v) (λ user e.
        address-IsTidy env.local_endpoint (failed-IsTidy ready)
          (λ address. start_listening-IsTidy env address _ ready))
