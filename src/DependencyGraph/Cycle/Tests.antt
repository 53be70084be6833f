-- ===== src/DependencyGraph/Cycle/Tests.antt =====
-- Searches for a cycle in concrete graphs.
use say_hi.Prelude.{String, ◌≡◌, refl, ◌⊎◌, inl, inr, List, [], ◌∷◌}
use say_hi.DependencyGraph.Cycle.{
  DirectedEdge, Marks, find_cycle_task_id, found, exhausted, search, drain, round, outgoing, mark,
  contains, initial_marks, enough_fuel,
}
use say_hi.DependencyGraph.Cycle.Walks.{Walk}
use say_hi.DependencyGraph.Cycle.Decides.{find_cycle_task_id-decides}

abbrev ring : List DirectedEdge
ring =
    record { from = "a"; to = "b" }
    ∷ record { from = "b"; to = "c" }
    ∷ record { from = "c"; to = "b" }
    ∷ []

ring_found : find_cycle_task_id ("a" ∷ "b" ∷ "c" ∷ []) ring ≡ found "b"
unfolding find_cycle_task_id search drain round outgoing mark contains initial_marks enough_fuel
ring_found = refl

find_cycle_task_id-decides_example :
    ((d : String) × (find_cycle_task_id ("a" ∷ "b" ∷ "c" ∷ []) ring ≡ found d) × Walk ring d d)
    ⊎ (((st : Marks) × (find_cycle_task_id ("a" ∷ "b" ∷ "c" ∷ []) ring ≡ exhausted st))
        × ((v : String) → ¬ Walk ring v v))
find_cycle_task_id-decides_example = find_cycle_task_id-decides ("a" ∷ "b" ∷ "c" ∷ []) ring (
  (inl refl, inr (inl refl)),
  ((inr (inl refl), inr (inr (inl refl))), ((inr (inr (inl refl)), inr (inl refl)), tt)),
)
