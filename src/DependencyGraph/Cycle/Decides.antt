-- ===== src/DependencyGraph/Cycle/Decides.antt =====
-- The search decides whether the edges have a cycle.
use say_hi.Prelude.{
  ℕ, ◌≤◌, String, ◌≡◌, refl, ◌⊎◌, inl, inr, Option, none, some, List, [], ◌∷◌, arith, In, sym,
  subst, true, false, Bool-cases,
}
use say_hi.DependencyGraph.Cycle.{
  DirectedEdge, Mark, Marks, unvisited, on_stack, finished, is_unvisited, Outcome, found, exhausted,
  out_of_fuel, search, find_cycle_task_id, enough_fuel, initial_marks,
}
use say_hi.DependencyGraph.Cycle.Walks.{Walk, edge, step, AreDeclared, HasEdge-AreDeclared}
use say_hi.DependencyGraph.Cycle.Invariant.{
  Inv, mark_self, initial_marks-In, initial_marks-only, initial_marks-unvisited,
}
use say_hi.DependencyGraph.Cycle.Fuel.{Grows, mark-Grows, unseen, IsBounded}
use say_hi.DependencyGraph.Cycle.Drain.{DrainSpec, is_found, is_exhausted, start_spec}

module _ (es : List DirectedEdge) (order : List String) (declared : AreDeclared order es) where
  -- What the `for` loop comes to.
  data SearchSpec : Outcome → Type 0 where
    is_cyclic : {d : String} → Walk es d d → SearchSpec (found d)
    is_complete :
        {st : Marks}
        → Inv es st []
        → IsBounded es order st []
        → ((v : String) → In v order → is_unvisited (st v) ≡ false)
        → SearchSpec (exhausted st)

  visited_known : (m : Option Mark) → is_unvisited m ≡ true → m ≡ some unvisited
  visited_known (some unvisited) h = refl
  visited_known _ h = cc

  abbrev IsRest : List String → Marks → Type 0
  IsRest vs st = (v : String) → In v order → In v vs ⊎ (is_unvisited (st v) ≡ false)

  -- The outcome of the loop, and what the search makes of it.
  after_drain :
      {st : Marks} {bound : ℕ} (k : Marks → Outcome) (o : Outcome)
      → DrainSpec es order declared st bound o
      → ((st' : Marks)
          → Inv es st' []
          → IsBounded es order st' []
          → Grows st st'
          → unseen es st' order ≤ bound
          → SearchSpec (k st'))
      → SearchSpec
          (elim o [ found d ↦ found d | exhausted st' ↦ k st' | out_of_fuel ↦ out_of_fuel ])
  after_drain k (found d) (is_found w) go = is_cyclic w
  after_drain k (exhausted st') (is_exhausted inv b g le) go = go st' inv b g le
  after_drain k out_of_fuel h go = elim h [ ]

  IsRest-tail :
      (v : String) (vs : List String) (st st' : Marks)
      → IsRest (v ∷ vs) st
      → Grows st st'
      → is_unvisited (st' v) ≡ false
      → IsRest vs st'
  IsRest-tail v vs st st' rest g q u h = elim (rest u h) [
    | inl (inl e) ↦ inr (subst (λ x. is_unvisited (st' x) ≡ false) (sym e) q)
    | inl (inr p) ↦ inl p
    | inr p ↦ inr (g u p)
  ]

  search_spec :
      (fuel : ℕ) (vs : List String) (st : Marks)
      → Inv es st []
      → IsBounded es order st []
      → unseen es st order ≤ fuel
      → ((v : String) → In v vs → In v order)
      → IsRest vs st
      → SearchSpec (search es fuel vs st)
  unfolding search
  search_spec fuel [] st inv b le sub rest =
      is_complete inv b (λ v h. elim (rest v h) [ inl q ↦ elim q [ ] | inr q ↦ q ])
  search_spec fuel (v ∷ vs) st inv b le sub rest = elim (Bool-cases (is_unvisited (st v))) [
    | inr old ↦
        rw (old, search)
          (search_spec fuel vs st inv b le (λ u h. sub u (inr h))
            (IsRest-tail v vs st st rest (λ u p. p) old))
    | inl new ↦
        rw (new, search)
          (after_drain (search es fuel vs) _
            (start_spec es order declared fuel st v inv b le (sub v (inl refl))
              (visited_known (st v) new))
            (λ st' inv' b' g le'.
              search_spec fuel vs st' inv' b' (omega arith) (λ u h. sub u (inr h))
                (IsRest-tail v vs st st' rest (λ u p. g u (mark-Grows st v on_stack (λ e. cc) u p))
                  (g v (rw (mark_self st v on_stack) refl)))))
  ]

  initial-Inv : Inv es (initial_marks order) []
  initial-Inv = record {
    path = tt;
    stacked = λ v h. ground (arith, initial_marks-unvisited order v on_stack h);
    closed = λ u v h e. ground (arith, initial_marks-unvisited order u finished h);
    tame = λ u h. ground (arith, initial_marks-unvisited order u finished h);
  }

  initial-IsBounded : IsBounded es order (initial_marks order) []
  initial-IsBounded = record {
    has = λ v h. rw (initial_marks-In order v h) (λ e. cc);
    only = initial_marks-only order;
    within = tt;
  }

  unseen-le-enough_fuel : (st : Marks) (vs : List String) → unseen es st vs ≤ enough_fuel es vs
  unfolding enough_fuel
  unseen-le-enough_fuel st [] = omega arith
  unseen-le-enough_fuel st (v ∷ vs) = ground (arith, unseen-le-enough_fuel st vs)

  -- If every node has been visited and none is left on the stack, then all are finished.
  all_finished :
      {st : Marks}
      → Inv es st []
      → IsBounded es order st []
      → ((v : String) → In v order → is_unvisited (st v) ≡ false)
      → (v : String) → In v order
      → st v ≡ some finished
  all_finished {st} inv b seen v h = by_mark (st v) refl
    where
      by_mark : (m : Option Mark) → st v ≡ m → st v ≡ some finished
      by_mark none p = absurd (b.has v h p)
      by_mark (some unvisited) p = ground (arith, seen v h)
      by_mark (some on_stack) p = absurd (inv.stacked v p)
      by_mark (some finished) p = p

  find_spec : SearchSpec (find_cycle_task_id order es)
  unfolding find_cycle_task_id
  find_spec =
      search_spec (enough_fuel es order) order (initial_marks order) initial-Inv initial-IsBounded
        (unseen-le-enough_fuel (initial_marks order) order) (λ v h. h) (λ v h. inl h)

  acyclic :
      {st : Marks}
      → Inv es st []
      → ((v : String) → In v order → st v ≡ some finished)
      → (v : String) → ¬ Walk es v v
  acyclic inv done v w = inv.tame v (done v (start_declared w)) w
    where
      start_declared : {u : String} → Walk es v u → In v order
      start_declared (edge {v = u} h) = (HasEdge-AreDeclared order es v u declared h).0
      start_declared (step p h) = start_declared p

-- The search for a cycle in a graph whose edges join declared nodes never runs out of fuel. It
-- returns a node that lies on a cycle, or it returns none and no node lies on a cycle.
pub find_cycle_task_id-decides :
    (order : List String) (es : List DirectedEdge)
    → AreDeclared order es
    → ((d : String) × (find_cycle_task_id order es ≡ found d) × Walk es d d)
      ⊎ (((st : Marks) × (find_cycle_task_id order es ≡ exhausted st))
          × ((v : String) → ¬ Walk es v v))
find_cycle_task_id-decides order es declared =
    by_outcome (find_cycle_task_id order es) (find_spec es order declared)
  where
    by_outcome :
        (o : Outcome)
        → SearchSpec es order declared o
        → ((d : String) × (o ≡ found d) × Walk es d d)
          ⊎ (((st : Marks) × (o ≡ exhausted st)) × ((v : String) → ¬ Walk es v v))
    by_outcome (found d) (is_cyclic w) = inl (d, refl, w)
    by_outcome (exhausted st) (is_complete inv b seen) =
        inr ((st, refl), acyclic es order declared inv (all_finished es order declared inv b seen))
    by_outcome out_of_fuel h = elim h [ ]
