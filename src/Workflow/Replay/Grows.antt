-- ===== src/Workflow/Replay/Grows.antt =====
-- From the replay of an operation's event to the replay of the history that the operation leaves
-- (packages/core/src/workflow.ts).
use say_hi.Prelude.{◌≡◌, sym, ap, ◌∙◌, subst, Bool, true, arith}
use say_hi.Workflow.Events.{Projection, WorkflowEvent, State, Host}
use say_hi.Workflow.Transition.{Result, ok}
use say_hi.Workflow.Changes.{appended}
use say_hi.Workflow.Replay.{replayed, replay_event, state_matches_accepted_history}
use say_hi.Workflow.Replay.Snapshots.{next}
use say_hi.Workflow.Replay.Sound.{IsRecorded, replay_workflow_events-IsRecorded}
use say_hi.Workflow.Replay.Appends.{
  IsReplayed, replay_workflow_events-append, state_matches_accepted_history-exact,
}

pub IsReplayed-IsRecorded : (host : Host) (s : State) → IsReplayed host s → IsRecorded host s
IsReplayed-IsRecorded host s h = (replay_workflow_events-IsRecorded host s.events s h).1

-- A state whose last event replays is replayed.
pub next-IsReplayed :
    (host : Host) (s : State) (e : WorkflowEvent) (p : Projection) (s2 : State)
    → IsReplayed host s
    → replay_event host s e ≡ replayed (next s e p)
    → s2 ≡ next s e p
    → IsReplayed host s2
next-IsReplayed host s e p s2 known replays is =
    subst (IsReplayed host) (sym is)
      (replay_workflow_events-append host s.events e s known ∙ replays)

pub appended-IsReplayed :
    (host : Host) (s : State) (e : WorkflowEvent) (p : Projection) (s2 : State) (e2 : WorkflowEvent)
    → IsReplayed host s
    → replay_event host s e ≡ replayed (next s e p)
    → appended s e p ≡ ok s2 e2
    → IsReplayed host s2
appended-IsReplayed host s e p s2 e2 known replays h =
    next-IsReplayed host s e p s2 known replays (ground arith)

-- An operation on a replayed state runs as on a consistent one.
pub on_consistent :
    (host : Host) (s : State) (operation : Bool → Result) (r : Result)
    → IsReplayed host s
    → operation (state_matches_accepted_history host s) ≡ r
    → operation true ≡ r
on_consistent host s operation r known h =
    sym (ap operation ((state_matches_accepted_history-exact host s).1 known)) ∙ h
