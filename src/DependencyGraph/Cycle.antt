-- ===== src/DependencyGraph/Cycle.antt =====
-- The search for a directed cycle (`findCycleTaskId` of packages/core/src/dependency-graph.ts): a
-- depth-first search with an explicit stack.
pub mod Walks
pub mod Invariant
pub mod Rounds
pub mod Fuel
pub mod Drain
pub mod Decides
mod Tests
use say_hi.Prelude.{
  ℕ, zero, suc, ◌+◌, String, str_eq, Bool, true, false, ◌||◌, Option, none, some, List, [], ◌∷◌,
  map, get_elem?, length, weigh, if◌then◌else◌,
}

pub record DirectedEdge : Type 0 where
  pub from : String
  pub to : String

-- The numbers 0, 1 and 2 of `state`.
pub data Mark : Type 0 where
  unvisited on_stack finished : Mark

-- A JavaScript Map from texts, as a function.
abbrev pub Marks : Type 0
Marks = String → Option Mark

pub record Frame : Type 0 where
  pub task_id : String
  pub next_index : ℕ

pub record Search : Type 0 where
  pub state : Marks
  pub stack : List Frame

-- `outgoing.get(taskId)`, once every edge has been pushed.
unfoldable pub outgoing : List DirectedEdge → String → List String
outgoing [] u = []
outgoing (e ∷ es) u = let rest = outgoing es u in if str_eq e.from u then e.to ∷ rest else rest

unfoldable pub contains : List String → String → Bool
contains [] u = false
contains (v ∷ vs) u = str_eq v u || contains vs u

unfoldable pub initial_marks : List String → Marks
unfolding contains
initial_marks order v = if contains order v then some unvisited else none

-- `state.set(taskId, m)`
unfoldable pub mark : Marks → String → Mark → Marks
mark st u m v = if str_eq v u then some m else st v

-- One round of the `while` loop.
pub data Round : Type 0 where
  empty : Round
  cycle : String → Round
  again : Search → Round

abbrev pub visit : Marks → Frame → List Frame → String → Option Mark → Round
visit st f rest d (some on_stack) = cycle d
visit st f rest d (some unvisited) = again (record {
  state = mark st d on_stack;
  stack = record { task_id = d; next_index = 0 } ∷ f ∷ rest;
})
visit st f rest d _ = again (record { state = st; stack = f ∷ rest })

abbrev pub follow : Marks → Frame → List Frame → Option String → Round
follow st f rest none = again (record { state = mark st f.task_id finished; stack = rest })
follow st f rest (some d) = visit st (record f { next_index = f.next_index + 1 }) rest d (st d)

unfoldable pub round : List DirectedEdge → Marks → List Frame → Round
round es st [] = empty
round es st (f ∷ rest) = follow st f rest (get_elem? (outgoing es f.task_id) f.next_index)

-- `found` carries the task id that is returned, `exhausted` the marks where the code goes on or
-- returns null. `out_of_fuel` never comes: see `Fuel`.
pub data Outcome : Type 0 where
  found : String → Outcome
  exhausted : Marks → Outcome
  out_of_fuel : Outcome

-- The `while` loop.
unfoldable pub drain : List DirectedEdge → ℕ → Marks → List Frame → Outcome
drain es zero st stack = elim (round es st stack) [
  | empty ↦ exhausted st
  | cycle d ↦ found d
  | again s ↦ out_of_fuel
]
drain es (suc fuel) st stack = elim (round es st stack) [
  | empty ↦ exhausted st
  | cycle d ↦ found d
  | again s ↦ drain es fuel s.state s.stack
]

-- `state.get(start) !== 0`
abbrev pub is_unvisited : Option Mark → Bool
is_unvisited (some unvisited) = true
is_unvisited m = false

-- The `for` loop over `nodeOrder`.
unfoldable pub search : List DirectedEdge → ℕ → List String → Marks → Outcome
search es fuel [] st = exhausted st
search es fuel (v ∷ vs) st = elim (is_unvisited (st v)) [
  | false ↦ search es fuel vs st
  | true ↦ elim (drain es fuel (mark st v on_stack) (record { task_id = v; next_index = 0 } ∷ [])) [
    | found d ↦ found d
    | exhausted st' ↦ search es fuel vs st'
    | out_of_fuel ↦ out_of_fuel
  ]
]

-- A round either moves along an edge or finishes a node.
unfoldable pub enough_fuel : List DirectedEdge → List String → ℕ
enough_fuel es order = weigh (λ v. length (outgoing es v) + 1) order

unfoldable pub find_cycle_task_id : List String → List DirectedEdge → Outcome
find_cycle_task_id order es = search es (enough_fuel es order) order (initial_marks order)
