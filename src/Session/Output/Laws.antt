-- ===== src/Session/Output/Laws.antt =====
-- Replies are sent in order, one at a time, and none is forgotten while the connection stands.
use mathlib.Core.Path.{subst}
use fineftp_server.Base.{
  ◌≡◌, refl, sym, ◌∙◌, true, false, List, [], ◌∷◌, ◌++◌, append_assoc, append-nil, arith, Bytes,
}
use fineftp_server.Session.Output.{
  Output, is_empty, start_sending_messages, push_message, request_shutdown, continue_sending,
  written_from, written, write_failed, OutputStep, pushes, quits, writes, fails, OutputRun, stays,
  steps,
}

-- What was sent and what waits is what was posted, in that order; a write is of a reply that waits;
-- and while replies wait, one is being written, unless a write failed or the socket was closed.
pub record IsOutput (o : Output) : Type 0 where
  pub order : o.sent ++ o.command_output_queue ≡ o.posted
  pub busy : o.writing ≡ true → is_empty o.command_output_queue ≡ false
  pub awake :
      is_empty o.command_output_queue ≡ false
      → o.is_open ≡ true
      → o.failed ≡ false
      → o.writing ≡ true

is_empty-snoc : (q : List Bytes) (raw : Bytes) → is_empty (q ++ raw ∷ []) ≡ false
is_empty-snoc [] raw = refl
is_empty-snoc (r ∷ q) raw = refl

snoc : (s q : List Bytes) (raw : Bytes) → s ++ (q ++ raw ∷ []) ≡ (s ++ q) ++ raw ∷ []
snoc s q raw = sym (append_assoc s q (raw ∷ []))

snoc-cons : (s : List Bytes) (raw : Bytes) (q : List Bytes) → (s ++ raw ∷ []) ++ q ≡ s ++ raw ∷ q
snoc-cons s raw q = append_assoc s (raw ∷ []) q

push-IsOutput : (raw : Bytes) (o : Output) → IsOutput o → IsOutput (push_message raw o)
unfolding push_message start_sending_messages
push-IsOutput raw o h = record {
  order = ground (arith, h.order, snoc o.sent o.command_output_queue raw);
  busy = λ e. ground (arith, is_empty-snoc o.command_output_queue raw, e);
  awake = λ e i f. ground (arith, h.awake, e, i, f);
}

written_from-IsOutput :
    (q : List Bytes) (o : Output)
    → o.command_output_queue ≡ q
    → IsOutput o
    → IsOutput (written_from q o)
unfolding written_from continue_sending start_sending_messages
written_from-IsOutput [] o e h = h
written_from-IsOutput (raw ∷ rest) o e h = record {
  order = ground (arith, e, h.order, snoc-cons o.sent raw rest);
  busy = λ w. ground (arith, w);
  awake = λ n i f. ground (arith, n, i, f);
}

step-IsOutput : {o p : Output} → IsOutput o → OutputStep o p → IsOutput p
unfolding request_shutdown write_failed written
step-IsOutput {o} h (pushes raw) = push-IsOutput raw o h
step-IsOutput h quits = record { order = h.order; busy = h.busy; awake = h.awake }
step-IsOutput {o} h (writes w i) = written_from-IsOutput o.command_output_queue o refl h
step-IsOutput h (fails w) = record { order = h.order; busy = λ e. cc; awake = λ n i f. cc }

-- From a sound state of the queue every run leads to sound states: what was sent, followed by what
-- waits, is what was posted, in the order of posting; a write in progress is of a reply that waits;
-- and while replies wait on an open socket and no write has failed, a write is in progress.
pub OutputRun-IsOutput : {o p : Output} → IsOutput o → OutputRun o p → IsOutput p
OutputRun-IsOutput h stays = h
OutputRun-IsOutput h (steps s r) = OutputRun-IsOutput (step-IsOutput h s) r

-- A write that completes before any QUIT.
written_from_lem :
    (raw : Bytes) (rest : List Bytes) (o : Output)
    → o.shutdown_requested ≡ false
    → ((written_from (raw ∷ rest) o).command_output_queue ≡ rest)
      × ((written_from (raw ∷ rest) o).is_open ≡ o.is_open)
      × ((written_from (raw ∷ rest) o).shutdown_requested ≡ false)
      × ((written_from (raw ∷ rest) o).failed ≡ o.failed)
      × ((written_from (raw ∷ rest) o).posted ≡ o.posted)
unfolding written_from continue_sending start_sending_messages
written_from_lem raw rest o s = ground (arith, s)

-- The step of a write that completes.
completes :
    {o : Output} (raw : Bytes) (rest : List Bytes)
    → o.command_output_queue ≡ raw ∷ rest
    → IsOutput o
    → o.is_open ≡ true
    → o.failed ≡ false
    → OutputStep o (written_from (raw ∷ rest) o)
unfolding written
completes {o} raw rest e h i f =
    subst (λ q. OutputStep o (written_from q o)) e (writes (h.awake (rw e refl) i f) i)

deliver_from :
    (q : List Bytes) (o : Output)
    → o.command_output_queue ≡ q
    → IsOutput o
    → o.is_open ≡ true
    → o.shutdown_requested ≡ false
    → o.failed ≡ false
    → (p : Output) × OutputRun o p × (p.sent ≡ o.posted) × (p.posted ≡ o.posted)
deliver_from [] o e h i s f = (o, stays, ground (arith, append-nil o.sent, e, h.order), refl)
deliver_from (raw ∷ rest) o e h i s f =
    let (e', i', s', f', posted) = written_from_lem raw rest o s in
    let (p, r, sent, same) =
      deliver_from rest (written_from (raw ∷ rest) o) e' (written_from-IsOutput (raw ∷ rest) o e h)
        (i' ∙ i) s' (f' ∙ f) in
    (p, steps (completes raw rest e h i f) r, sent ∙ posted, same ∙ posted)

-- From every sound state of an open connection, before QUIT and without a failed write, there is a
-- run in which nothing more is posted and all that was posted is sent.
pub deliver :
    (o : Output)
    → IsOutput o
    → o.is_open ≡ true
    → o.shutdown_requested ≡ false
    → o.failed ≡ false
    → (p : Output) × OutputRun o p × (p.sent ≡ o.posted) × (p.posted ≡ o.posted)
deliver o h i s f = deliver_from o.command_output_queue o refl h i s f

step_closed :
    {o p : Output} → o.is_open ≡ false → OutputStep o p → (p.is_open ≡ false) × (p.sent ≡ o.sent)
unfolding push_message request_shutdown write_failed start_sending_messages
step_closed i (pushes raw) = ground (arith, i)
step_closed i quits = (i, refl)
step_closed i (writes w j) = cc
step_closed i (fails w) = (i, refl)

run_closed : {o p : Output} → o.is_open ≡ false → OutputRun o p → p.sent ≡ o.sent
run_closed i stays = refl
run_closed i (steps s r) = let (j, e) = step_closed i s in run_closed j r ∙ e

written_last :
    (raw : Bytes) (rest : List Bytes) (o : Output)
    → o.shutdown_requested ≡ true
    → ((written_from (raw ∷ rest) o).is_open ≡ false)
      × ((written_from (raw ∷ rest) o).sent ≡ o.sent ++ raw ∷ [])
unfolding written_from continue_sending
written_last raw rest o s = ground (arith, s)

-- When a write completes after QUIT, the replies behind it are lost: whatever happens then, nothing
-- but the reply that was in front has been sent.
pub written-lost :
    (raw : Bytes) (rest : List Bytes) (o p : Output)
    → o.command_output_queue ≡ raw ∷ rest
    → o.shutdown_requested ≡ true
    → OutputRun (written o) p
    → p.sent ≡ o.sent ++ raw ∷ []
unfolding written
written-lost raw rest o p e s r =
    let (closed, sent) = written_last raw rest o s in
    run_closed closed (subst (λ q. OutputRun (written_from q o) p) e r) ∙ sent
