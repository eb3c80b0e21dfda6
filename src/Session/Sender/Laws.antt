-- ===== src/Session/Sender/Laws.antt =====
-- Listings are sent whole and in order.
use mathlib.Core.Path.{subst}
use fineftp_server.Base.{
  ℕ, ◌+◌, ◌-◌, ◌<◌, ◌≤◌, ◌≡◌, refl, sym, ◌∙◌, Bool, true, false, Option, none, some, List, [], ◌∷◌,
  ◌++◌, append_assoc, append-nil, arith, Bytes,
}
use fineftp_server.Session.Sender.{
  Sender, is_empty, bytes_of, idle, write_data_to_socket, add_data, start_from, start_writing,
  written_from, written, write_failed, SenderStep, adds, starts, writes, fails, SenderRun, stays,
  steps,
}

abbrev pub all_bytes : List (Option Bytes) → Bytes
all_bytes [] = []
all_bytes (d ∷ q) = bytes_of d ++ all_bytes q

abbrev pub starts_with_data : List (Option Bytes) → Bool
starts_with_data (some d ∷ q) = true
starts_with_data _ = false

-- Either one function is posted, or one write is under way, or neither; the first two only with
-- something in the buffer; and nothing is lost while no write has failed.
pub record IsSender (s : Sender) : Type 0 where
  pub single : s.writing ≡ true → s.tasks ≡ 0
  pub once : s.tasks ≤ 1
  pub ready : 0 < s.tasks → is_empty s.data_buffer ≡ false
  pub data_in_front : s.writing ≡ true → starts_with_data s.data_buffer ≡ true
  pub kept : s.failed ≡ false → s.sent ++ all_bytes s.data_buffer ≡ s.added

all_bytes-snoc :
    (q : List (Option Bytes)) (d : Option Bytes)
    → all_bytes (q ++ d ∷ []) ≡ all_bytes q ++ bytes_of d
all_bytes-snoc [] d = append-nil (bytes_of d)
all_bytes-snoc (e ∷ q) d =
    rw (all_bytes-snoc q d) (sym (append_assoc (bytes_of e) (all_bytes q) (bytes_of d)))

-- Data that is added stands behind all other.
kept-add :
    (sent added : Bytes) (q : List (Option Bytes)) (d : Option Bytes)
    → sent ++ all_bytes q ≡ added
    → sent ++ all_bytes (q ++ d ∷ []) ≡ added ++ bytes_of d
kept-add sent added q d e =
    rw (all_bytes-snoc q d) (sym (append_assoc sent (all_bytes q) (bytes_of d)) ∙ (rw e refl))

kept-written :
    (sent added : Bytes) (d : Option Bytes) (q : List (Option Bytes))
    → sent ++ all_bytes (d ∷ q) ≡ added
    → (sent ++ bytes_of d) ++ all_bytes q ≡ added
kept-written sent added d q e = append_assoc sent (bytes_of d) (all_bytes q) ∙ e

pub is_empty-snoc : (q : List (Option Bytes)) (d : Option Bytes) → is_empty (q ++ d ∷ []) ≡ false
is_empty-snoc [] d = refl
is_empty-snoc (e ∷ q) d = refl

in_front-is_empty : (q : List (Option Bytes)) → starts_with_data q ≡ true → is_empty q ≡ false
in_front-is_empty [] e = cc
in_front-is_empty (d ∷ q) e = refl

in_front-snoc :
    (q : List (Option Bytes)) (d : Option Bytes)
    → starts_with_data q ≡ true
    → starts_with_data (q ++ d ∷ []) ≡ true
in_front-snoc [] d e = cc
in_front-snoc (none ∷ q) d e = cc
in_front-snoc (some b ∷ q) d e = refl

add_from-IsSender : (d : Option Bytes) (s : Sender) → IsSender s → IsSender (add_data d s)
unfolding add_data write_data_to_socket
add_from-IsSender d s h = record {
  single = λ w. ground (arith, h.single, h.data_in_front, w, in_front-is_empty s.data_buffer);
  once = ground (arith, h.once, h.ready);
  ready = λ p. ground (arith, is_empty-snoc s.data_buffer d, p);
  data_in_front = λ w. ground (arith, w, h.data_in_front, in_front-snoc s.data_buffer d);
  kept = λ f. ground (arith, f, h.kept, kept-add s.sent s.added s.data_buffer d);
}

-- A write of data begins.
begin-IsSender :
    (d : Bytes) (rest : List (Option Bytes)) (s : Sender)
    → s.data_buffer ≡ some d ∷ rest
    → 0 < s.tasks
    → IsSender s
    → IsSender (record s { tasks = s.tasks - 1; writing = true })
begin-IsSender d rest s b p h = record {
  single = λ w. ground (arith, h.once, p);
  once = ground (arith, h.once);
  ready = λ r. ground (arith, h.once, p, r);
  data_in_front = λ w. ground (arith, b);
  kept = h.kept;
}

-- The end of a transmission is met.
end-IsSender :
    (rest : List (Option Bytes)) (s : Sender)
    → s.data_buffer ≡ none ∷ rest
    → 0 < s.tasks
    → IsSender s
    → IsSender (record s { tasks = s.tasks - 1; data_buffer = rest; done = s.done + 1 })
end-IsSender rest s b p h = record {
  single = λ w. ground (arith, h.single, w, p);
  once = ground (arith, h.once);
  ready = λ r. ground (arith, h.once, p, r);
  data_in_front = λ w. ground (arith, h.single, w, p);
  kept = λ f. ground (arith, f, b, h.kept);
}

some-injective : {s t : Sender} → ◌≡◌ {A = Option Sender} (some s) (some t) → s ≡ t
some-injective e = cc

start_from-IsSender :
    (q : List (Option Bytes)) (s : Sender) {t : Sender}
    → s.data_buffer ≡ q
    → 0 < s.tasks
    → IsSender s
    → start_from q (record s { tasks = s.tasks - 1 }) ≡ some t
    → IsSender t
unfolding start_from
start_from-IsSender [] s b p h e = cc
start_from-IsSender (some d ∷ rest) s b p h e =
    subst IsSender (some-injective e) (begin-IsSender d rest s b p h)
start_from-IsSender (none ∷ rest) s b p h e =
    subst IsSender (some-injective e) (end-IsSender rest s b p h)

written_from-IsSender :
    (q : List (Option Bytes)) (s : Sender)
    → s.data_buffer ≡ q
    → s.writing ≡ true
    → IsSender s
    → IsSender (written_from q s)
unfolding written_from write_data_to_socket
written_from-IsSender [] s b w h = h
written_from-IsSender (d ∷ rest) s b w h = record {
  single = λ v. ground (arith, v);
  once = ground (arith, h.single w);
  ready = λ p. ground (arith, h.single w, p);
  data_in_front = λ v. ground (arith, v);
  kept = λ f. ground (arith, f, b, h.kept, kept-written s.sent s.added d rest);
}

step-IsSender : {s t : Sender} → IsSender s → SenderStep s t → IsSender t
unfolding written write_failed start_writing
step-IsSender {s} h (adds d) = add_from-IsSender d s h
step-IsSender {s} h (starts p e) = start_from-IsSender s.data_buffer s refl p h e
step-IsSender {s} h (writes w) = written_from-IsSender s.data_buffer s refl w h
step-IsSender {s} h (fails w) = record {
  single = λ v. cc;
  once = h.once;
  ready = λ r. ground (arith, h.single w, r);
  data_in_front = λ v. cc;
  kept = λ f. cc;
}

-- In every run from a sound state: one function at most is posted to write, none while a write is
-- under way; it finds something in the buffer; a write under way is of data; and while no write
-- fails, what was written, followed by what is in the buffer, is what was added.
pub SenderRun-IsSender : {s t : Sender} → IsSender s → SenderRun s t → IsSender t
SenderRun-IsSender h stays = h
SenderRun-IsSender h (steps st r) = SenderRun-IsSender (step-IsSender h st) r

-- A sender with nothing to do.
abbrev pub waiting : Bytes → Bytes → ℕ → Sender
waiting added sent done = record idle { added = added; sent = sent; done = done }

-- A listing that is handed to a sender with nothing to do, and its end marker, can be sent whole
-- and answered once, which leaves the sender with nothing to do again.
pub transmits :
    (added sent listing : Bytes) (done : ℕ)
    → SenderRun
        (waiting added sent done)
        (waiting ((added ++ listing) ++ []) (sent ++ listing) (done + 1))
unfolding add_data write_data_to_socket start_writing start_from written
transmits added sent listing done = steps (adds (some listing)) (
    steps (adds none) (
      steps (starts (omega arith) refl)
        (steps (writes refl) (steps (starts (omega arith) refl) stays))))
