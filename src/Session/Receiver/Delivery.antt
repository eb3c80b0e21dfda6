-- ===== src/Session/Receiver/Delivery.antt =====
-- A file that is received to its end.
use fineftp_server.Base.{
  ◌≡◌, refl, sym, ap, ◌∙◌, Bool, true, false, List, [], ◌∷◌, ◌++◌, append_assoc, arith, Bytes, All,
}
use fineftp_server.Os.{OpenMode}
use fineftp_server.Session.Connection.Laws.{concat}
use fineftp_server.Session.Receiver.{
  ReadStatus, success, eof, failed, Receiver, receive, begin, write_data_to_file, is_nothing,
  read_completed, data_received, release, ReceiverStep, ends, releases, ReceiverRun, stays, steps,
}
use fineftp_server.Session.Receiver.File.{written, is_closed}
use fineftp_server.Session.Receiver.Laws.{ReceiverRun-IsReceiver}

abbrev pub is_end : ReadStatus → Bool
is_end success = false
is_end eof = true
is_end failed = true

reads_more :
    {r : Receiver} (bytes : Bytes) (status : ReadStatus)
    → r.reading ≡ true
    → ReceiverStep r (read_completed bytes status r)
reads_more bytes status e = ReceiverStep.reads bytes status e

-- A read that brings something is followed by another.
read_on :
    (bytes : Bytes) (r : Receiver)
    → is_nothing bytes ≡ false
    → ((read_completed bytes success r).reading ≡ true)
      × ((read_completed bytes success r).ending ≡ r.ending)
      × ((read_completed bytes success r).released ≡ r.released)
      × ((read_completed bytes success r).answers ≡ r.answers)
      × ((read_completed bytes success r).received ≡ r.received ++ bytes)
unfolding read_completed write_data_to_file receive
read_on bytes r e = ground (arith, e)

read_end :
    (bytes : Bytes) (status : ReadStatus) (r : Receiver)
    → is_end status ≡ true
    → ((read_completed bytes status r).reading ≡ false)
      × ((read_completed bytes status r).ending ≡ true)
      × ((read_completed bytes status r).released ≡ r.released)
      × ((read_completed bytes status r).answers ≡ r.answers)
      × ((read_completed bytes status r).received ≡ r.received ++ bytes)
unfolding read_completed write_data_to_file
read_end bytes success r e = cc
read_end bytes eof r e = ground arith
read_end bytes failed r e = ground arith

-- The run over reads that bring something, and a last one.
receive_on :
    (bs : List Bytes) (last : Bytes) (status : ReadStatus) (r : Receiver)
    → All (λ b. is_nothing b ≡ false) bs
    → is_end status ≡ true
    → r.reading ≡ true
    → r.ending ≡ false
    → r.released ≡ false
    → r.answers ≡ 0
    → (s : Receiver) × ReceiverRun r s
      × (s.received ≡ r.received ++ (concat bs ++ last))
      × (s.answers ≡ 1)
      × (s.released ≡ true)
unfolding data_received release
receive_on [] last status r h e reading ending released none_yet =
    let r' = read_completed last status r in
    let (reading', ending', released', answers', received') = read_end last status r e in
    (
      release (data_received r'),
      steps (reads_more last status reading)
          (steps (ends ending') (steps (releases reading' refl (released' ∙ released)) stays)),
      received',
      omega (arith, answers', none_yet),
      refl,
    )
receive_on (b ∷ bs) last status r h e reading ending released none_yet =
    let (reading', ending', released', answers', received') = read_on b r h.0 in
    let (s, run, all, once, gone) =
      receive_on bs last status (read_completed b success r) h.1 e reading' (ending' ∙ ending)
        (released' ∙ released) (answers' ∙ none_yet) in
    (
      s,
      steps (reads_more b success reading) run,
      all
          ∙ rw received' (
              append_assoc r.received b _
              ∙ ap (λ t. r.received ++ t) (sym (append_assoc b (concat bs) last))),
      once,
      gone,
    )

begin_lem :
    (filename : Bytes) (mode : OpenMode)
    → ((begin filename mode).reading ≡ true)
      × ((begin filename mode).ending ≡ false)
      × ((begin filename mode).released ≡ false)
      × ((begin filename mode).answers ≡ 0)
      × ((begin filename mode).received ≡ [])
unfolding begin receive
begin_lem filename mode = (refl, refl, refl, refl, refl)

-- A file that is received in this way, to its end.
pub receive_file :
    (filename : Bytes) (mode : OpenMode) (bs : List Bytes) (last : Bytes) (status : ReadStatus)
    → All (λ b. is_nothing b ≡ false) bs
    → is_end status ≡ true
    → (r : Receiver) × ReceiverRun (begin filename mode) r
      × (written r.file ≡ concat bs ++ last)
      × (is_closed r.file ≡ true)
      × (r.answers ≡ 1)
      × (r.released ≡ true)
receive_file filename mode bs last status h e =
    let (reading, ending, released, none_yet, nothing) = begin_lem filename mode in
    let (r, run, all, once, gone) =
      receive_on bs last status (begin filename mode) h e reading ending released none_yet in
    let sound = ReceiverRun-IsReceiver filename mode run in
    (
      r,
      run,
      sound.whole ∙ all ∙ ap (λ t. t ++ (concat bs ++ last)) nothing,
      sound.closed_first (omega (arith, once)),
      once,
      gone,
    )
