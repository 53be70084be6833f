-- ===== src/DependencyGraph/Cycle/Drain.antt =====
-- The `while` loop of the search: it ends, with a cycle or with all that it reached finished.
use say_hi.Prelude.{
  ℕ, zero, suc, ◌+◌, ◌<◌, ◌≤◌, String, ◌≡◌, refl, ◌≢◌, inl, inr, Option, none, some, List, [], ◌∷◌,
  arith, In, get_elem?, sym, ◌∙◌, ap, subst, str_eq-cases,
}
use say_hi.DependencyGraph.Cycle.{
  DirectedEdge, outgoing, Mark, Marks, unvisited, on_stack, finished, Frame, mark, Search, Round,
  round, again, cycle, empty, follow, visit, Outcome, found, exhausted, out_of_fuel, drain,
}
use say_hi.DependencyGraph.Cycle.Walks.{Walk, AreDeclared, HasEdge-AreDeclared}
use say_hi.DependencyGraph.Cycle.Invariant.{Inv, mark_self, mark-ne}
use say_hi.DependencyGraph.Cycle.Rounds.{pop-Inv, push-Inv, skip-Inv, cycle-Walk, target_edge}
use say_hi.DependencyGraph.Cycle.Fuel.{
  Grows, mark-Grows, unseen, unpassed, unseen-le, unseen-mark, IsBounded, mark-has, mark-only,
  index_le, index_lt_length,
}

module _ (es : List DirectedEdge) (order : List String) (declared : AreDeclared order es) where
  -- What a step of the search goes on with.
  record Goes (st : Marks) (stack : List Frame) (st' : Marks) (stack' : List Frame) : Type 0 where
    inv : Inv es st' stack'
    bounded : IsBounded es order st' stack'
    grows : Grows st st'
    less : unseen es st' order + unpassed es stack' < unseen es st order + unpassed es stack

  data RoundSpec (st : Marks) (stack : List Frame) : Round → Type 0 where
    is_empty : stack ≡ [] → RoundSpec st stack empty
    is_cycle : {d : String} → Walk es d d → RoundSpec st stack (cycle d)
    is_again : {s : Search} → Goes st stack s.state s.stack → RoundSpec st stack (again s)

  module _ (st : Marks) (f : Frame) (rest : List Frame) (inv : Inv es st (f ∷ rest))
      (b : IsBounded es order st (f ∷ rest)) where
    pop-Goes :
        get_elem? (outgoing es f.task_id) f.next_index ≡ none
        → Goes st (f ∷ rest) (mark st f.task_id finished) rest
    pop-Goes last =
        let grows = mark-Grows st f.task_id finished (λ e. cc) in
        record {
          inv = pop-Inv es st f rest inv last;
          bounded = record {
            has = mark-has es order st f.task_id finished b.has;
            only =
                mark-only es order st f.task_id finished (b.only f.task_id on_stack inv.path.0)
                  b.only;
            within = b.within.1;
          };
          grows = grows;
          less = omega (
            arith,
            unseen-le es st (mark st f.task_id finished) order grows,
            index_le (outgoing es f.task_id) f.next_index b.within.0 last,
          );
        }

    module _ (d : String) (at : get_elem? (outgoing es f.task_id) f.next_index ≡ some d) where
      abbrev moved_frame : Frame
      moved_frame = record f { next_index = f.next_index + 1 }

      visit_spec :
          (m : Option Mark) → st d ≡ m → RoundSpec st (f ∷ rest) (visit st moved_frame rest d m)
      visit_spec none h = absurd (
          b.has d
            (HasEdge-AreDeclared order es f.task_id d declared
              (target_edge es st f rest inv d at)).1
            h)
      visit_spec (some on_stack) h = is_cycle (cycle-Walk es st f rest inv d at h)
      visit_spec (some finished) h = is_again (record {
        inv = skip-Inv es st f rest inv d at h;
        bounded = record {
          has = b.has;
          only = b.only;
          within = (ground (arith, index_lt_length _ f.next_index at), b.within.1);
        };
        grows = λ v q. q;
        less = omega (arith, index_lt_length _ f.next_index at);
      })
      visit_spec (some unvisited) h = is_again (record {
        inv = push-Inv es st f rest inv d at h;
        bounded = record {
          has = mark-has es order st d on_stack b.has;
          only = mark-only es order st d on_stack (b.only d unvisited h) b.only;
          within = (omega arith, (ground (arith, index_lt_length _ f.next_index at), b.within.1));
        };
        grows = mark-Grows st d on_stack (λ e. cc);
        less = omega (
          arith,
          index_lt_length _ f.next_index at,
          unseen-mark es st d on_stack order (λ e. cc) (rw h refl) (b.only d unvisited h),
        );
      })

    follow_spec :
        (o : Option String)
        → get_elem? (outgoing es f.task_id) f.next_index ≡ o
        → RoundSpec st (f ∷ rest) (follow st f rest o)
    follow_spec none h = is_again (pop-Goes h)
    follow_spec (some d) h = visit_spec d h (st d) refl

  round_spec :
      (st : Marks) (stack : List Frame)
      → Inv es st stack
      → IsBounded es order st stack
      → RoundSpec st stack (round es st stack)
  unfolding round
  round_spec st [] inv b = is_empty refl
  round_spec st (f ∷ rest) inv b = follow_spec st f rest inv b _ refl

  -- What the loop and the search come to.
  pub data DrainSpec (st : Marks) (bound : ℕ) : Outcome → Type 0 where
    is_found : {d : String} → Walk es d d → DrainSpec st bound (found d)
    is_exhausted :
        {st' : Marks}
        → Inv es st' []
        → IsBounded es order st' []
        → Grows st st'
        → unseen es st' order ≤ bound
        → DrainSpec st bound (exhausted st')

  DrainSpec-Grows :
      {st st' : Marks} {n m : ℕ} {o : Outcome}
      → Grows st st'
      → m ≤ n
      → DrainSpec st' m o
      → DrainSpec st n o
  DrainSpec-Grows g le (is_found w) = is_found w
  DrainSpec-Grows g le (is_exhausted inv b g' le') =
      is_exhausted inv b (λ v q. g' v (g v q)) (omega arith)

  -- A round, and what the loop makes of it.
  by_round :
      (st : Marks) (stack : List Frame) (k : Search → Outcome) (r : Round)
      → Inv es st stack
      → IsBounded es order st stack
      → ((s : Search)
          → Goes st stack s.state s.stack
          → DrainSpec st (unseen es st order + unpassed es stack) (k s))
      → RoundSpec st stack r
      → DrainSpec st
          (unseen es st order + unpassed es stack)
          (elim r [ empty ↦ exhausted st | cycle d ↦ found d | again s ↦ k s ])
  by_round st stack k empty inv b go (is_empty e) =
      is_exhausted (subst (λ x. Inv es st x) e inv) (subst (λ x. IsBounded es order st x) e b)
        (λ v q. q) (omega arith)
  by_round st stack k (cycle d) inv b go (is_cycle w) = is_found w
  by_round st stack k (again s) inv b go (is_again goes) = go s goes

  drain_spec :
      (fuel : ℕ) (st : Marks) (stack : List Frame)
      → Inv es st stack
      → IsBounded es order st stack
      → unseen es st order + unpassed es stack ≤ fuel
      → DrainSpec st (unseen es st order + unpassed es stack) (drain es fuel st stack)
  unfolding drain
  drain_spec zero st stack inv b le =
      by_round st stack (λ s. out_of_fuel) (round es st stack) inv b
        (λ s goes. absurd (omega (arith, goes.less))) (round_spec st stack inv b)
  drain_spec (suc fuel) st stack inv b le =
      by_round st stack (λ s. drain es fuel s.state s.stack) (round es st stack) inv b
        (λ s goes.
          DrainSpec-Grows goes.grows (omega (arith, goes.less))
            (drain_spec fuel s.state s.stack goes.inv goes.bounded (omega (arith, goes.less))))
        (round_spec st stack inv b)

  -- From a node that is not visited yet.
  pub start_spec :
      (fuel : ℕ) (st : Marks) (v : String)
      → Inv es st []
      → IsBounded es order st []
      → unseen es st order ≤ fuel
      → In v order
      → st v ≡ some unvisited
      → DrainSpec
          (mark st v on_stack)
          (unseen es st order)
          (drain es fuel (mark st v on_stack) (record { task_id = v; next_index = 0 } ∷ []))
  start_spec fuel st v inv b le h q =
      let less = unseen-mark es st v on_stack order (λ e. cc) (rw q refl) h in
      DrainSpec-Grows (λ u g. g) (omega (arith, less))
        (drain_spec fuel (mark st v on_stack) _ started
          (record {
            has = mark-has es order st v on_stack b.has;
            only = mark-only es order st v on_stack h b.only;
            within = (omega arith, tt);
          })
          (omega (arith, less)))
    where
      was : (a : String) (m : Mark) → on_stack ≢ m → mark st v on_stack a ≡ some m → st a ≡ some m
      was a m ne p = elim (str_eq-cases a v) [
        | inl e ↦ absurd (
            ne (ground (arith, mark_self st v on_stack, ap (mark st v on_stack) {x = a} {y = v} e)))
        | inr other ↦ sym (mark-ne st v a on_stack other.0) ∙ p
      ]

      kept : (a : String) → st a ≡ some finished → mark st v on_stack a ≡ some finished
      kept a p = elim (str_eq-cases a v) [
        | inl e ↦ absurd (ground (arith, ap st {x = a} {y = v} e))
        | inr other ↦ mark-ne st v a on_stack other.0 ∙ p
      ]

      started : Inv es (mark st v on_stack) (record { task_id = v; next_index = 0 } ∷ [])
      started = record {
        path = (
          mark_self st v on_stack,
          λ j u lt at. absurd (omega arith),
          λ a e. cc,
          λ h. elim h [ ],
          tt,
        );
        stacked = λ u p. elim (str_eq-cases u v) [
          | inl e ↦ inl e
          | inr other ↦ absurd (inv.stacked u (sym (mark-ne st v u on_stack other.0) ∙ p))
        ];
        closed = λ a b p e. kept b (inv.closed a b (was a finished (λ x. cc) p) e);
        tame = λ a p. inv.tame a (was a finished (λ x. cc) p);
      }
