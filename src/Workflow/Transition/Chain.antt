-- ===== src/Workflow/Transition/Chain.antt =====
-- The chain of digests through a Task's events (packages/core/src/workflow.ts).
use say_hi.Prelude.{
  ℕ, ◌+◌, ◌≡◌, refl, ◌∙◌, String, Option, none, some, List, [], ◌∷◌, ◌++◌, length, arith,
}
use say_hi.Workflow.Events.{WorkflowEvent, Host}
use say_hi.Workflow.History.{count_repair_attempts, is_repair, as_one}
use say_hi.Workflow.Transition.{tail_digest}

-- From the digest and the sequence of the event before, each event has the next sequence, refers to the
-- event before and has the digest of its own content.
abbrev pub Chain : Host → Option String → ℕ → List WorkflowEvent → Type 0
Chain host previous n [] = Unit
Chain host previous n (e ∷ events) =
    ((e.content.sequence ≡ n + 1)
      × (e.content.previous_chain_digest ≡ previous)
      × (e.chain_digest ≡ host.event_digest e.content))
    × Chain host (some e.chain_digest) (n + 1) events

abbrev tail_from : Option String → List WorkflowEvent → Option String
tail_from previous [] = previous
tail_from previous (e ∷ events) = tail_from (some e.chain_digest) events

tail_digest-tail_from :
    (e : WorkflowEvent) (events : List WorkflowEvent)
    → tail_digest (e ∷ events) ≡ tail_from (some e.chain_digest) events
tail_digest-tail_from e [] = refl
tail_digest-tail_from e (f ∷ events) = tail_digest-tail_from f events

tail_of : (events : List WorkflowEvent) → tail_digest events ≡ tail_from none events
tail_of [] = refl
tail_of (e ∷ events) = tail_digest-tail_from e events

append_from :
    (host : Host) (previous : Option String) (n : ℕ) (events : List WorkflowEvent)
    (e : WorkflowEvent)
    → Chain host previous n events
    → e.content.sequence ≡ n + length events + 1
    → e.content.previous_chain_digest ≡ tail_from previous events
    → e.chain_digest ≡ host.event_digest e.content
    → Chain host previous n (events ++ e ∷ [])
append_from host previous n [] e c s p d = ((ground arith, p, d), tt)
append_from host previous n (f ∷ events) e (here, c) s p d =
    (here, append_from host (some f.chain_digest) (n + 1) events e c (ground arith) p d)

pub Chain-append :
    (host : Host) (events : List WorkflowEvent) (e : WorkflowEvent)
    → Chain host none 0 events
    → e.content.sequence ≡ length events + 1
    → e.content.previous_chain_digest ≡ tail_digest events
    → e.chain_digest ≡ host.event_digest e.content
    → Chain host none 0 (events ++ e ∷ [])
Chain-append host events e c s p d =
    append_from host none 0 events e c (ground arith) (p ∙ tail_of events) d

pub length-append :
    (events : List WorkflowEvent) (e : WorkflowEvent)
    → length (events ++ e ∷ []) ≡ length events + 1
length-append [] e = refl
length-append (f ∷ events) e = ground (arith, length-append events e)

pub count_repair_attempts-append :
    (events : List WorkflowEvent) (e : WorkflowEvent)
    → count_repair_attempts (events ++ e ∷ []) ≡ count_repair_attempts events + as_one (is_repair e)
unfolding count_repair_attempts
count_repair_attempts-append [] e = ground arith
count_repair_attempts-append (f ∷ events) e = ground (arith, count_repair_attempts-append events e)
