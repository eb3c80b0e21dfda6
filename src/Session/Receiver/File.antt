-- ===== src/Session/Receiver/File.antt =====
-- The calls on the stream of a received file: what was written, and whether it is closed.
use fineftp_server.Base.{
  ◌≡◌, refl, sym, Bool, true, false, List, [], ◌∷◌, ◌++◌, append_assoc, append-nil, Bytes,
}
use fineftp_server.Session.Receiver.{StreamCall, opens, writes, flushes, closes, write, close}

-- What was written to the stream.
abbrev pub written : List StreamCall → Bytes
written [] = []
written (writes bytes ∷ file) = bytes ++ written file
written (opens filename mode ∷ file) = written file
written (flushes ∷ file) = written file
written (closes ∷ file) = written file

abbrev pub is_closed : List StreamCall → Bool
is_closed [] = false
is_closed (closes ∷ file) = true
is_closed (opens filename mode ∷ file) = is_closed file
is_closed (writes bytes ∷ file) = is_closed file
is_closed (flushes ∷ file) = is_closed file

abbrev pub is_unwritten : List StreamCall → Bool
is_unwritten [] = true
is_unwritten (writes bytes ∷ file) = false
is_unwritten (opens filename mode ∷ file) = is_unwritten file
is_unwritten (flushes ∷ file) = is_unwritten file
is_unwritten (closes ∷ file) = is_unwritten file

-- Nothing is written behind a close.
abbrev pub is_orderly : List StreamCall → Bool
is_orderly [] = true
is_orderly (closes ∷ file) = is_unwritten file
is_orderly (opens filename mode ∷ file) = is_orderly file
is_orderly (writes bytes ∷ file) = is_orderly file
is_orderly (flushes ∷ file) = is_orderly file

pub written-write :
    (bytes : Bytes) (file : List StreamCall) → written (write bytes file) ≡ written file ++ bytes
unfolding write
written-write bytes [] = append-nil bytes
written-write bytes (writes b ∷ file) =
    rw (written-write bytes file) (sym (append_assoc b (written file) bytes))
written-write bytes (opens filename mode ∷ file) = written-write bytes file
written-write bytes (flushes ∷ file) = written-write bytes file
written-write bytes (closes ∷ file) = written-write bytes file

pub written-close : (file : List StreamCall) → written (close file) ≡ written file
unfolding close
written-close [] = refl
written-close (writes b ∷ file) = rw (written-close file) refl
written-close (opens filename mode ∷ file) = written-close file
written-close (flushes ∷ file) = written-close file
written-close (closes ∷ file) = written-close file

pub is_closed-write :
    (bytes : Bytes) (file : List StreamCall) → is_closed (write bytes file) ≡ is_closed file
unfolding write
is_closed-write bytes [] = refl
is_closed-write bytes (closes ∷ file) = refl
is_closed-write bytes (writes b ∷ file) = is_closed-write bytes file
is_closed-write bytes (opens filename mode ∷ file) = is_closed-write bytes file
is_closed-write bytes (flushes ∷ file) = is_closed-write bytes file

pub is_closed-close : (file : List StreamCall) → is_closed (close file) ≡ true
unfolding close
is_closed-close [] = refl
is_closed-close (closes ∷ file) = refl
is_closed-close (writes b ∷ file) = is_closed-close file
is_closed-close (opens filename mode ∷ file) = is_closed-close file
is_closed-close (flushes ∷ file) = is_closed-close file

is_unwritten-close : (file : List StreamCall) → is_unwritten (close file) ≡ is_unwritten file
unfolding close
is_unwritten-close [] = refl
is_unwritten-close (closes ∷ file) = is_unwritten-close file
is_unwritten-close (writes b ∷ file) = refl
is_unwritten-close (opens filename mode ∷ file) = is_unwritten-close file
is_unwritten-close (flushes ∷ file) = is_unwritten-close file

pub is_orderly-close : (file : List StreamCall) → is_orderly (close file) ≡ is_orderly file
unfolding close
is_orderly-close [] = refl
is_orderly-close (closes ∷ file) = is_unwritten-close file
is_orderly-close (writes b ∷ file) = is_orderly-close file
is_orderly-close (opens filename mode ∷ file) = is_orderly-close file
is_orderly-close (flushes ∷ file) = is_orderly-close file

pub is_orderly-write :
    (bytes : Bytes) (file : List StreamCall)
    → is_closed file ≡ false
    → is_orderly (write bytes file) ≡ is_orderly file
unfolding write
is_orderly-write bytes [] e = refl
is_orderly-write bytes (closes ∷ file) e = cc
is_orderly-write bytes (writes b ∷ file) e = is_orderly-write bytes file e
is_orderly-write bytes (opens filename mode ∷ file) e = is_orderly-write bytes file e
is_orderly-write bytes (flushes ∷ file) e = is_orderly-write bytes file e
