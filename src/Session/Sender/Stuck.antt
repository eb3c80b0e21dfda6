-- ===== src/Session/Sender/Stuck.antt =====
-- A write of a listing that fails stops all later listings.
use fineftp_server.Base.{◌≡◌, refl, ◌∙◌, true, false, Option, List, ◌∷◌, arith, Bytes}
use fineftp_server.Session.Sender.{
  Sender, is_empty, write_data_to_socket, add_data, write_failed, SenderStep, adds, starts, writes,
  fails, SenderRun, stays, steps,
}
use fineftp_server.Session.Sender.Laws.{IsSender, is_empty-snoc}

-- Nothing is posted and nothing is written, but the buffer is not empty.
pub record IsStuck (s : Sender) : Type 0 where
  pub no_task : s.tasks ≡ 0
  pub no_write : s.writing ≡ false
  pub full : is_empty s.data_buffer ≡ false

step-IsStuck :
    {s t : Sender} → IsStuck s → SenderStep s t → IsStuck t × (t.sent ≡ s.sent) × (t.done ≡ s.done)
unfolding add_data write_data_to_socket
step-IsStuck {s} h (adds d) = (
  record {
    no_task = ground (arith, h.no_task, h.full);
    no_write = ground (arith, h.no_write);
    full = ground (arith, is_empty-snoc s.data_buffer d);
  },
  ground arith,
  ground arith,
)
step-IsStuck h (starts p e) = absurd (omega (arith, h.no_task, p))
step-IsStuck h (writes w) = absurd (ground (arith, h.no_write, w))
step-IsStuck h (fails w) = absurd (ground (arith, h.no_write, w))

-- A stuck sender sends nothing more and never answers, whatever is added.
pub IsStuck-SenderRun :
    {s t : Sender} → IsStuck s → SenderRun s t → (t.sent ≡ s.sent) × (t.done ≡ s.done)
IsStuck-SenderRun h stays = (refl, refl)
IsStuck-SenderRun h (steps st r) =
    let (h', sent, done) = step-IsStuck h st in
    let (sent', done') = IsStuck-SenderRun h' r in (sent' ∙ sent, done' ∙ done)

failed-IsStuck :
    (s : Sender) (d e : Option Bytes) (rest : List (Option Bytes))
    → IsSender s
    → s.writing ≡ true
    → s.data_buffer ≡ d ∷ e ∷ rest
    → IsStuck (write_failed s)
unfolding write_failed
failed-IsStuck s d e rest h w b = record {
  no_task = h.single w;
  no_write = refl;
  full = ground (arith, b);
}

-- When the write of a listing fails, with the end marker behind it, no listing of the session is
-- sent any more: whatever is added, nothing is written and no transfer is answered.
pub failed-stuck :
    (s t : Sender) (d e : Option Bytes) (rest : List (Option Bytes))
    → IsSender s
    → s.writing ≡ true
    → s.data_buffer ≡ d ∷ e ∷ rest
    → SenderRun (write_failed s) t
    → (t.sent ≡ s.sent) × (t.done ≡ s.done)
failed-stuck s t d e rest h w b r =
    unfold write_failed in IsStuck-SenderRun (failed-IsStuck s d e rest h w b) r
