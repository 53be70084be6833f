-- ===== src/Workflow/Changes/Accepted.antt =====
-- What is known of a change that was accepted (packages/core/src/workflow.ts).
use say_hi.Prelude.{
  ◌≡◌, refl, ◌⊎◌, inl, inr, Bool, true, false, Option, none, some, Bool-cases, arith,
}
use say_hi.Workflow.Events.{Content, WorkflowEvent, State, Diagnostic}
use say_hi.Workflow.Transition.{Result, ok}
use say_hi.Workflow.Changes.{unless_refused, retry_or}

pub unless_refused-ok :
    (o : Option Diagnostic) (s : State) (r : Result) (s2 : State) (e : WorkflowEvent)
    → unless_refused o s r ≡ ok s2 e
    → (o ≡ none) × (r ≡ ok s2 e)
unless_refused-ok none s r s2 e h = (refl, h)
unless_refused-ok (some d) s r s2 e h = cc

pub retry_or-ok :
    (b : Bool) (found : Option WorkflowEvent) (matches : Content → Bool) (s : State) (rest : Result)
    (s2 : State) (e : WorkflowEvent)
    → retry_or b found matches s rest ≡ ok s2 e
    → (s2 ≡ s) ⊎ (((b ≡ false) ⊎ (found ≡ none)) × (rest ≡ ok s2 e))
retry_or-ok true none matches s rest s2 e h = inr (inr refl, h)
retry_or-ok true (some f) matches s rest s2 e h = elim (Bool-cases (matches f.content)) [
  | inl m ↦ inl (ground (arith, m))
  | inr m ↦ ground (arith, m)
]
retry_or-ok false none matches s rest s2 e h = inr (inl refl, h)
retry_or-ok false (some f) matches s rest s2 e h = inr (inl refl, h)

-- An accepted change is a retry that leaves the state, or a change that passed its tests and whose key is
-- new, provided that the tests begin with those that have a retry looked at.
pub change-ok :
    (b : Bool) (found : Option WorkflowEvent) (matches : Content → Bool) (s : State)
    (o : Option Diagnostic) (r : Result) (s2 : State) (e : WorkflowEvent)
    → (o ≡ none → b ≡ true)
    → retry_or b found matches s (unless_refused o s r) ≡ ok s2 e
    → (s2 ≡ s) ⊎ ((found ≡ none) × (o ≡ none) × (r ≡ ok s2 e))
change-ok b found matches s o r s2 e looks h =
    elim (retry_or-ok b found matches s (unless_refused o s r) s2 e h) [
      | inl same ↦ inl same
      | inr (fresh, rest) ↦
          let (passes, is) = unless_refused-ok o s r s2 e rest in
          elim fresh [
            | inl blind ↦ ground (arith, blind, looks passes)
            | inr new ↦ inr (new, passes, is)
          ]
    ]
