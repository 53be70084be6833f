-- ===== src/DependencyGraph/Cycle/Rounds.antt =====
-- Every round keeps the invariant, and a round that reports a node has found a cycle through it.
use native.Mathlib.Decide.{ℕ_discrete}
use say_hi.Prelude.{
  ℕ, zero, suc, ◌+◌, ◌<◌, String, str_eq-cases, ◌≡◌, ◌≢◌, ◌⊎◌, inl, inr, Option, none, some, List,
  [], ◌∷◌, arith, In, get_elem?, sym, ◌∙◌, ap, subst, In-get_elem?,
}
use say_hi.DependencyGraph.Cycle.{
  DirectedEdge, outgoing, Mark, Marks, unvisited, on_stack, finished, Frame, mark,
}
use say_hi.DependencyGraph.Cycle.Walks.{
  HasEdge, Walk, edge, step, outgoing-HasEdge, HasEdge-outgoing,
}
use say_hi.DependencyGraph.Cycle.Invariant.{
  Inv, IsPath, IsPath-mono, IsPath-pop, IsPath-Walk, Walk-finished, mark_self, mark-ne, task_ids,
}

In-index : (v : String) (xs : List String) → In v xs → (j : ℕ) × (get_elem? xs j ≡ some v)
In-index v (x ∷ xs) (inl e) = (0, ap some (sym e))
In-index v (x ∷ xs) (inr h) = let (j, at) = In-index v xs h in (suc j, at)
In-index v [] h = elim h [ ]

index_lt :
    (xs : List String) (i j : ℕ) (v : String)
    → get_elem? xs i ≡ none
    → get_elem? xs j ≡ some v
    → j < i
index_lt [] i j v p q = cc
index_lt (x ∷ xs) zero j v p q = cc
index_lt (x ∷ xs) (suc i) zero v p q = omega arith
index_lt (x ∷ xs) (suc i) (suc j) v p q = omega (arith, index_lt xs i j v p q)

-- A mark other than the one that a node had is another node's.
mark_kept :
    (st : Marks) (u v : String) (m k n : Mark)
    → st u ≡ some k
    → k ≢ n
    → st v ≡ some n
    → mark st u m v ≡ some n
mark_kept st u v m k n h ne q =
    mark-ne st u v m (λ e. ground (arith, ne, ap st {x = v} {y = u} e)) ∙ q

finished_kept :
    (st : Marks) (u v : String) → st v ≡ some finished → mark st u finished v ≡ some finished
finished_kept st u v h = elim (str_eq-cases v u) [
  | inl e ↦ rw e (mark_self st u finished)
  | inr ne ↦ mark-ne st u v finished ne.0 ∙ h
]

module _ (es : List DirectedEdge) where
  stack_marks :
      (st : Marks) (a : Option String) (stack : List Frame) (v : String)
      → IsPath es st a stack
      → In v (task_ids stack)
      → st v ≡ some on_stack
  stack_marks st a [] v p h = elim h [ ]
  stack_marks st a (f ∷ rest) v p (inl e) = rw e p.0
  stack_marks st a (f ∷ rest) v p (inr h) = stack_marks st (some f.task_id) rest v p.4 h

  module _ (st : Marks) (f : Frame) (rest : List Frame) (inv : Inv es st (f ∷ rest)) where
    pop_targets :
        get_elem? (outgoing es f.task_id) f.next_index ≡ none
        → (v : String) → HasEdge es f.task_id v
        → st v ≡ some finished
    pop_targets last v h =
        let (j, at) = In-index v _ (HasEdge-outgoing es f.task_id v h) in
        let lt = index_lt _ f.next_index j v last at in
        elim (inv.path.1 j v lt at) [ inl done ↦ done | inr above ↦ cc ]

    -- A frame with no target left is finished.
    pub pop-Inv :
        get_elem? (outgoing es f.task_id) f.next_index ≡ none
        → Inv es (mark st f.task_id finished) rest
    pop-Inv last = record {
      path = IsPath-pop es st' u rest (mark_self st u finished) (
          IsPath-mono es st st' (some u) rest
            (λ v h q.
              mark-ne st u v finished (λ e. inv.path.3 (subst (λ x. In x (task_ids rest)) e h)) ∙ q)
            (finished_kept st u) inv.path.4);
      stacked = stacked;
      closed = λ a b h e. finished_kept st u b (closed a b h e);
      tame = tame;
    }
      where
        u : String
        u = f.task_id

        st' : Marks
        st' = mark st f.task_id finished

        others :
            (v : String) (m : Mark) → st' v ≡ some m → (v ≡ u) × (m ≡ finished) ⊎ (st v ≡ some m)
        others v m h = elim (str_eq-cases v u) [
          | inl e ↦ inl (e, ground (arith, mark_self st u finished, ap st' {x = v} {y = u} e))
          | inr ne ↦ inr (sym (mark-ne st u v finished ne.0) ∙ h)
        ]

        stacked : (v : String) → st' v ≡ some on_stack → In v (task_ids rest)
        stacked v h = elim (str_eq-cases v u) [
          | inl e ↦ absurd (ground (arith, mark_self st u finished, ap st' {x = v} {y = u} e))
          | inr ne ↦ elim (inv.stacked v (sym (mark-ne st u v finished ne.0) ∙ h)) [
            | inl e ↦ absurd (ne.0 e)
            | inr q ↦ q
          ]
        ]

        closed : (a b : String) → st' a ≡ some finished → HasEdge es a b → st b ≡ some finished
        closed a b h e = elim (others a finished h) [
          | inl q ↦ pop_targets last b (subst (λ x. HasEdge es x b) q.0 e)
          | inr q ↦ inv.closed a b q e
        ]

        tame : (a : String) → st' a ≡ some finished → ¬ Walk es a a
        tame a h w = elim (others a finished h) [
          | inr q ↦ inv.tame a q w
          | inl q ↦
              let w' = subst (λ x. Walk es x x) q.0 w in
              absurd (
                ground
                  (arith, inv.path.0, Walk-finished es st u (pop_targets last) inv.closed u w'))
        ]

    module _ (d : String) (at : get_elem? (outgoing es f.task_id) f.next_index ≡ some d) where
      pub target_edge : HasEdge es f.task_id d
      target_edge = outgoing-HasEdge es f.task_id d (In-get_elem? _ f.next_index at)

      abbrev next_frame : Frame
      next_frame = record f { next_index = f.next_index + 1 }

      -- What the frame has passed after one more target.
      passed_next :
          (j : ℕ) (v : String)
          → j < f.next_index + 1
          → get_elem? (outgoing es f.task_id) j ≡ some v
          → (st v ≡ some finished) ⊎ (d ≡ v)
      passed_next j v lt h = elim (ℕ_discrete j f.next_index) [
        | yes e ↦
            inr (ground (arith, at, subst (λ k. get_elem? (outgoing es f.task_id) k ≡ some v) e h))
        | no ne ↦ elim (inv.path.1 j v (omega arith) h) [ inl done ↦ inl done | inr above ↦ cc ]
      ]

      -- A target that is finished is passed over.
      pub skip-Inv : st d ≡ some finished → Inv es st (next_frame ∷ rest)
      skip-Inv done = record {
        path = (
          inv.path.0,
          λ j v lt h. inl (elim (passed_next j v lt h) [ inl q ↦ q | inr e ↦ rw (← e) done ]),
          λ a e. cc,
          inv.path.3,
          inv.path.4,
        );
        stacked = inv.stacked;
        closed = inv.closed;
        tame = inv.tame;
      }

      -- A target that is not visited yet goes on the stack.
      pub push-Inv :
          st d ≡ some unvisited
          → Inv es (mark st d on_stack) (record { task_id = d; next_index = 0 } ∷ next_frame ∷ rest)
      push-Inv new = record {
        path = (
          mark_self st d on_stack,
          λ j v lt h. absurd (omega arith),
          λ a e. cc,
          λ h. ground (arith, new, stack_marks st none (f ∷ rest) d inv.path h),
          (
            kept on_stack (λ e. cc) f.task_id inv.path.0,
            λ j v lt h. elim (passed_next j v lt h) [
              | inl q ↦ inl (kept finished (λ e. cc) v q)
              | inr e ↦ inr (ap some e)
            ],
            λ a e. subst (λ x. HasEdge es f.task_id x) (ground arith) target_edge,
            inv.path.3,
            IsPath-mono es st st' (some f.task_id) rest (λ v h q. kept on_stack (λ e. cc) v q)
                (kept finished (λ e. cc)) inv.path.4,
          ),
        );
        stacked = λ v h. elim (str_eq-cases v d) [
          | inl e ↦ inl e
          | inr ne ↦ inr (inv.stacked v (sym (mark-ne st d v on_stack ne.0) ∙ h))
        ];
        closed = λ a b h e. kept finished (λ q. cc) b (inv.closed a b (was_finished a h) e);
        tame = λ a h. inv.tame a (was_finished a h);
      }
        where
          st' : Marks
          st' = mark st d on_stack

          kept : (m : Mark) → unvisited ≢ m → (v : String) → st v ≡ some m → st' v ≡ some m
          kept m ne v q = mark_kept st d v on_stack unvisited m new ne q

          was_finished : (a : String) → st' a ≡ some finished → st a ≡ some finished
          was_finished a h = elim (str_eq-cases a d) [
            | inl e ↦ absurd (ground (arith, mark_self st d on_stack, ap st' {x = a} {y = d} e))
            | inr ne ↦ sym (mark-ne st d a on_stack ne.0) ∙ h
          ]

      -- A target on the stack closes a cycle.
      pub cycle-Walk : st d ≡ some on_stack → Walk es d d
      cycle-Walk on = elim (inv.stacked d on) [
        | inl e ↦ edge (subst (λ x. HasEdge es x d) (sym e) target_edge)
        | inr h ↦ step (IsPath-Walk es st f.task_id d rest inv.path.4 h) target_edge
      ]
