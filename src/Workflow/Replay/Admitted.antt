-- ===== src/Workflow/Replay/Admitted.antt =====
-- What the replay asks of every event (replayWorkflowEvents of packages/core/src/workflow.ts).
use say_hi.Prelude.{
  ◌≡◌, ◌≢◌, refl, sym, ap, inl, inr, ◌+◌, ==_iff, String, str_eq, str_eq_iff, true, not, Option,
  none, some, List, [], ◌∷◌, ◌++◌, any, all, length, All, Bool-cases, arith,
}
use say_hi.Workflow.Events.{WorkflowEvent, Host}
use say_hi.Workflow.Transition.{tail_digest}
use say_hi.Workflow.Payloads.{is_text, is_workflow_position, is_event_record, validate_replay_event}
use say_hi.Workflow.Replay.{same_digest, admission_failure}

-- No two events have the same text.
abbrev pub Distinct : (WorkflowEvent → String) → List WorkflowEvent → Type 0
Distinct f [] = Unit
Distinct f (e ∷ events) = All (λ o. f o ≢ f e) events × Distinct f events

abbrev pub key_of : WorkflowEvent → String
key_of e = e.content.idempotency_key

abbrev pub id_of : WorkflowEvent → String
id_of e = e.content.event_id

pub All-append :
    (P : WorkflowEvent → Type 0) (events : List WorkflowEvent) (e : WorkflowEvent)
    → All P events
    → P e
    → All P (events ++ e ∷ [])
All-append P [] e h p = (p, tt)
All-append P (f ∷ events) e (here, h) p = (here, All-append P events e h p)

pub Distinct-append :
    (f : WorkflowEvent → String) (events : List WorkflowEvent) (e : WorkflowEvent)
    → Distinct f events
    → All (λ o. f o ≢ f e) events
    → Distinct f (events ++ e ∷ [])
Distinct-append f [] e d h = (tt, tt)
Distinct-append f (o ∷ events) e (apart, d) (here, h) =
    (All-append (λ x. f x ≢ f o) events e apart (λ q. here (sym q)), Distinct-append f events e d h)

pub no_text :
    (f : WorkflowEvent → String) (t : String) (events : List WorkflowEvent)
    → not (any (λ o. str_eq (f o) t) events) ≡ true
    → All (λ o. f o ≢ t) events
no_text f t [] h = tt
no_text f t (o ∷ events) h = elim (Bool-cases (str_eq (f o) t)) [
  | inl hit ↦ ground (arith, hit)
  | inr miss ↦ (
    (λ q. ground (arith, miss, (str_eq_iff (f o) t).1 q)),
    no_text f t events (ground (arith, miss)),
  )
]

same_digest-true : (a b : Option String) → same_digest a b ≡ true → a ≡ b
same_digest-true none none h = refl
same_digest-true none (some b) h = cc
same_digest-true (some a) none h = cc
same_digest-true (some a) (some b) h = ap some ((str_eq_iff a b).0 h)

-- What an admitted event has.
abbrev pub IsAdmitted : Host → List WorkflowEvent → WorkflowEvent → Type 0
IsAdmitted host events e =
    All (λ o. key_of o ≢ key_of e) events
    × All (λ o. id_of o ≢ id_of e) events
    × (e.content.sequence ≡ length events + 1)
    × (e.content.previous_chain_digest ≡ tail_digest events)
    × (e.chain_digest ≡ host.event_digest e.content)
    × (is_workflow_position e.content.to ≡ true)
    × (all is_text e.content.blockers ≡ true)

pub admission_failure-IsAdmitted :
    (host : Host) (events : List WorkflowEvent) (e : WorkflowEvent)
    → admission_failure host events e ≡ none
    → IsAdmitted host events e
unfolding admission_failure validate_replay_event is_event_record
admission_failure-IsAdmitted host events e h = (
  no_text key_of (key_of e) events (ground arith),
  no_text id_of (id_of e) events (ground arith),
  (==_iff e.content.sequence (length events + 1)).0 (ground arith),
  same_digest-true e.content.previous_chain_digest (tail_digest events) (ground arith),
  (str_eq_iff e.chain_digest (host.event_digest e.content)).0 (ground arith),
  ground arith,
  ground arith,
)
