-- ===== src/Workflow/Replay/Appends.antt =====
-- The replay of a history with one event more (replayWorkflowEvents and stateMatchesAcceptedHistory of
-- packages/core/src/workflow.ts).
use say_hi.Prelude.{◌≡◌, refl, ap, ◌∙◌, ◌↔◌, true, List, [], ◌∷◌, ◌++◌}
use say_hi.Workflow.Events.{WorkflowEvent, State, Host}
use say_hi.Workflow.Transition.Retry.{decided_refl}
use say_hi.Workflow.Replay.{
  Replayed, replayed, replay_failure, replay_event, replay_first, replay_rest,
  replay_workflow_events, same_projection, Projection-discrete, state_matches_accepted_history,
}
use say_hi.Workflow.Replay.Sound.{decided-true, replay_workflow_events-IsRecorded}

-- A state that the replay of its history yields.
abbrev pub IsReplayed : Host → State → Type 0
IsReplayed host s = replay_workflow_events host s.events ≡ replayed s

rest-append :
    (host : Host) (r : Replayed) (events : List WorkflowEvent) (e : WorkflowEvent)
    → replay_rest host r (events ++ e ∷ []) ≡ replay_rest host (replay_rest host r events) (e ∷ [])
unfolding replay_rest
rest-append host r [] e = refl
rest-append host (replay_failure d) (f ∷ events) e = refl
rest-append host (replayed s) (f ∷ events) e = rest-append host (replay_event host s f) events e

-- A history with one event more replays as its last event replays on the state before.
pub replay_workflow_events-append :
    (host : Host) (events : List WorkflowEvent) (e : WorkflowEvent) (s : State)
    → replay_workflow_events host events ≡ replayed s
    → replay_workflow_events host (events ++ e ∷ []) ≡ replay_event host s e
unfolding replay_workflow_events replay_rest
replay_workflow_events-append host [] e s h = cc
replay_workflow_events-append host (f ∷ events) e s h =
    rest-append host (replay_first host f) events e ∙ ap (λ r. replay_rest host r (e ∷ [])) h

matching :
    (host : Host) (s : State) (r : Replayed)
    → replay_workflow_events host s.events ≡ r
    → same_projection s.projection r ≡ true
    → IsReplayed host s
matching host s (replay_failure d) h m = cc
matching host s (replayed t) h m =
    let events : t.events ≡ s.events = (replay_workflow_events-IsRecorded host s.events t h).0 in
    let p : t.projection ≡ s.projection =
      decided-true (Projection-discrete t.projection s.projection) m in
    h ∙ λ i. replayed (record { events = events i; projection = p i })

-- The engine takes a state for consistent exactly when the replay of its history yields that very state.
pub state_matches_accepted_history-exact :
    (host : Host) (s : State) → (state_matches_accepted_history host s ≡ true) ↔ IsReplayed host s
unfolding state_matches_accepted_history
state_matches_accepted_history-exact host s = (
  (λ h. matching host s (replay_workflow_events host s.events) refl h),
  (λ h. ap (same_projection s.projection) h ∙ decided_refl Projection-discrete s.projection),
)
