-- ===== src/Session/Receiver/Laws.antt =====
-- The file holds what was read, and is closed before the transfer is answered.
use fineftp_server.Base.{
  ◌≤◌, ◌<◌, ◌≡◌, refl, sym, ap, ◌∙◌, true, false, [], ◌∷◌, ◌++◌, append-nil, arith, Bytes,
}
use fineftp_server.Os.{OpenMode}
use fineftp_server.Session.Receiver.{
  writeable_file, write, ReadStatus, success, eof, failed, Receiver, receive, begin,
  write_data_to_file, end_data_receiving, read_completed, data_received, release, ReceiverStep,
  reads, ends, releases, ReceiverRun, stays, steps,
}
use fineftp_server.Session.Receiver.File.{
  written, is_closed, is_orderly, written-write, written-close, is_closed-write, is_closed-close,
  is_orderly-close, is_orderly-write,
}

-- What holds while a file is received.
pub record IsReceiver (r : Receiver) : Type 0 where
  pub whole : written r.file ≡ r.received
  pub orderly : is_orderly r.file ≡ true
  pub single : r.reading ≡ true → r.ending ≡ false
  pub busy_reading : r.reading ≡ true → (r.answers ≡ 0) × (is_closed r.file ≡ false)
  pub busy_ending : r.ending ≡ true → (r.answers ≡ 0) × (is_closed r.file ≡ false)
  pub once : r.answers ≤ 1
  pub closed_first : 0 < r.answers → is_closed r.file ≡ true

still_open :
    (bytes : Bytes) (r : Receiver)
    → (r.answers ≡ 0) × (is_closed r.file ≡ false)
    → (r.answers ≡ 0) × (is_closed (write bytes r.file) ≡ false)
still_open bytes r (none, open_yet) = (none, is_closed-write bytes r.file ∙ open_yet)

more-IsReceiver :
    (bytes : Bytes) (r : Receiver)
    → r.reading ≡ true
    → IsReceiver r
    → IsReceiver (read_completed bytes success r)
unfolding read_completed write_data_to_file receive
more-IsReceiver [] r e h = record {
  whole = h.whole ∙ sym (append-nil r.received);
  orderly = h.orderly;
  single = λ f. cc;
  busy_reading = λ f. cc;
  busy_ending = λ f. h.busy_reading e;
  once = h.once;
  closed_first = λ p. h.closed_first p;
}
more-IsReceiver (b ∷ bytes) r e h = record {
  whole = written-write (b ∷ bytes) r.file ∙ ap (λ s. s ++ b ∷ bytes) h.whole;
  orderly = is_orderly-write (b ∷ bytes) r.file (h.busy_reading e).1 ∙ h.orderly;
  single = λ f. h.single e;
  busy_reading = λ f. still_open (b ∷ bytes) r (h.busy_reading e);
  busy_ending = λ f. still_open (b ∷ bytes) r (h.busy_reading e);
  once = h.once;
  closed_first = λ p. is_closed-write (b ∷ bytes) r.file ∙ h.closed_first p;
}

last-IsReceiver :
    (bytes : Bytes) (r : Receiver)
    → r.reading ≡ true
    → IsReceiver r
    → IsReceiver (read_completed bytes eof r)
unfolding read_completed write_data_to_file end_data_receiving
last-IsReceiver [] r e h = record {
  whole = h.whole ∙ sym (append-nil r.received);
  orderly = h.orderly;
  single = λ f. cc;
  busy_reading = λ f. cc;
  busy_ending = λ f. h.busy_reading e;
  once = h.once;
  closed_first = λ p. h.closed_first p;
}
last-IsReceiver (b ∷ bytes) r e h = record {
  whole = written-write (b ∷ bytes) r.file ∙ ap (λ s. s ++ b ∷ bytes) h.whole;
  orderly = is_orderly-write (b ∷ bytes) r.file (h.busy_reading e).1 ∙ h.orderly;
  single = λ f. cc;
  busy_reading = λ f. still_open (b ∷ bytes) r (h.busy_reading e);
  busy_ending = λ f. still_open (b ∷ bytes) r (h.busy_reading e);
  once = h.once;
  closed_first = λ p. is_closed-write (b ∷ bytes) r.file ∙ h.closed_first p;
}

-- An error other than the end of the data is treated alike.
read_failed-eof :
    (bytes : Bytes) (r : Receiver) → read_completed bytes failed r ≡ read_completed bytes eof r
unfolding read_completed
read_failed-eof bytes r = refl

read-IsReceiver :
    (bytes : Bytes) (status : ReadStatus) (r : Receiver)
    → r.reading ≡ true
    → IsReceiver r
    → IsReceiver (read_completed bytes status r)
read-IsReceiver bytes success r e h = more-IsReceiver bytes r e h
read-IsReceiver bytes eof r e h = last-IsReceiver bytes r e h
read-IsReceiver bytes failed r e h = rw (read_failed-eof bytes r) (last-IsReceiver bytes r e h)

step-IsReceiver : {r s : Receiver} → IsReceiver r → ReceiverStep r s → IsReceiver s
unfolding data_received release
step-IsReceiver {r} h (reads bytes status e) = read-IsReceiver bytes status r e h
step-IsReceiver {r} h (ends e) = record {
  whole = written-close r.file ∙ h.whole;
  orderly = is_orderly-close r.file ∙ h.orderly;
  single = λ f. refl;
  busy_reading = λ f. cc (f, e, h.single f);
  busy_ending = λ f. cc;
  once = omega (arith, (h.busy_ending e).0);
  closed_first = λ p. is_closed-close r.file;
}
step-IsReceiver {r} h (releases e f g) = record {
  whole = written-close r.file ∙ h.whole;
  orderly = is_orderly-close r.file ∙ h.orderly;
  single = λ i. cc;
  busy_reading = λ i. cc;
  busy_ending = λ i. cc;
  once = h.once;
  closed_first = λ p. is_closed-close r.file;
}

pub begin-IsReceiver : (filename : Bytes) (mode : OpenMode) → IsReceiver (begin filename mode)
unfolding begin writeable_file receive
begin-IsReceiver filename mode = record {
  whole = refl;
  orderly = refl;
  single = λ e. refl;
  busy_reading = λ e. (refl, refl);
  busy_ending = λ e. cc;
  once = omega arith;
  closed_first = λ p. absurd (omega (arith, p));
}

run-IsReceiver : {r s : Receiver} → IsReceiver r → ReceiverRun r s → IsReceiver s
run-IsReceiver h stays = h
run-IsReceiver h (steps st run) = run-IsReceiver (step-IsReceiver h st) run

-- In every run that receives a file: what was written to it is what was read, in order, and nothing
-- is written behind a close; no read is under way while the end waits; and the transfer is answered
-- once at most, only after the file was closed, and never while a read or the end is
-- still to come.
pub ReceiverRun-IsReceiver :
    (filename : Bytes) (mode : OpenMode) {r : Receiver}
    → ReceiverRun (begin filename mode) r
    → IsReceiver r
ReceiverRun-IsReceiver filename mode run = run-IsReceiver (begin-IsReceiver filename mode) run
