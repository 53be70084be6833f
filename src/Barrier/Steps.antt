-- ===== src/Barrier/Steps.antt =====
-- What a step of the system is made of: the call that moves, and its effect on the others.
use say_hi.Prelude.{
  ℕ, ◌≡◌, refl, ◌≢◌, inl, inr, Bool, true, false, Option, none, some, arith, get_elem?, set,
  get_elem?-set, get_elem?-map,
}
use say_hi.Barrier.{
  Call, Event, Effect, System, advance, notify, wake, step, step_call, apply_effect,
}

-- A step of the `i`-th call, taken apart.
pub record Stepped (e : Event) (i : ℕ) (s t : System) : Type 0 where
  pub call : Call
  pub effect : Effect
  pub at : get_elem? s.calls i ≡ some call
  pub moves : advance e call.owner call.pc s.barrier ≡ some effect
  pub barrier : t.barrier ≡ effect.barrier
  pub calls :
      t.calls
      ≡ set (notify effect.notifies s.calls) i (record { owner = call.owner; pc = effect.pc })

module _ (e : Event) (i : ℕ) (s t : System) where
  Stepped-effect :
      (c : Call) (f : Option Effect)
      → get_elem? s.calls i ≡ some c
      → advance e c.owner c.pc s.barrier ≡ f
      → apply_effect s i c.owner f ≡ some t
      → Stepped e i s t
  Stepped-effect c none p q h = cc
  Stepped-effect c (some f) p q h = record {
    call = c;
    effect = f;
    at = p;
    moves = q;
    barrier = ground arith;
    calls = ground arith;
  }

  Stepped-call :
      (c : Option Call) → get_elem? s.calls i ≡ c → step_call e s i c ≡ some t → Stepped e i s t
  Stepped-call none p h = cc
  Stepped-call (some c) p h = Stepped-effect c (advance e c.owner c.pc s.barrier) p refl h

  pub step-Stepped : step e i s ≡ some t → Stepped e i s t
  unfolding step
  step-Stepped h = Stepped-call (get_elem? s.calls i) refl h

-- Where a call of the new state comes from: it is the one that moved, or another, perhaps woken.
pub data Origin (s : System) (i : ℕ) (c : Call) (f : Effect) (j : ℕ) (d : Call) : Type 0 where
  moved : i ≡ j → d ≡ record { owner = c.owner; pc = f.pc } → Origin s i c f j d
  kept : i ≢ j → f.notifies ≡ false → get_elem? s.calls j ≡ some d → Origin s i c f j d
  roused :
      (b : Call)
      → i ≢ j
      → f.notifies ≡ true
      → get_elem? s.calls j ≡ some b
      → d ≡ wake b
      → Origin s i c f j d

module _ {e : Event} {i : ℕ} {s t : System} (st : Stepped e i s t) where
  kept_or_roused :
      (n : Bool) (j : ℕ) (d : Call)
      → st.effect.notifies ≡ n
      → i ≢ j
      → get_elem? (notify n s.calls) j ≡ some d
      → Origin s i st.call st.effect j d
  unfolding notify
  kept_or_roused false j d q ne h = kept ne q h
  kept_or_roused true j d q ne h =
      let (b, at, eq) = get_elem?-map wake s.calls j h in roused b ne q at eq

  pub origin : (j : ℕ) (d : Call) → get_elem? t.calls j ≡ some d → Origin s i st.call st.effect j d
  origin j d h = elim (get_elem?-set (notify st.effect.notifies s.calls) i j _ (rw st.calls at h)) [
    | inl (p, q) ↦ moved p q
    | inr (p, q) ↦ kept_or_roused st.effect.notifies j d refl p q
  ]
