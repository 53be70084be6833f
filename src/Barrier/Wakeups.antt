-- ===== src/Barrier/Wakeups.antt =====
-- No wakeup is lost, and the calls never wait for one another in a circle.
use say_hi.Prelude.{
  ℕ, ◌≤◌, ◌≡◌, ◌≢◌, Bool, true, false, some, none, arith, get_elem?, ◌⊎◌, inl, inr, ap, is_none,
  get_elem?-le-weigh, all_or_fails, Option-cases,
}
use say_hi.Barrier.{
  Barrier, Call, Event, Effect, System, WriterOwner, Pc, Wait, advance, wake, step, Reach, here,
  next, IsStart, run, resolve, to_read, to_persist, to_write, parked, woken, reading, holding,
  settled, read_called, admits,
}
use say_hi.Barrier.Steps.{Stepped, step-Stepped, Origin, moved, kept, roused, origin}
use say_hi.Barrier.Counts.{Counts, Reach-Counts, tally, tally-zero, tally-step, reads, waits_for}

abbrev pub holds : Pc → ℕ
holds holding = 1
holds pc = 0

-- A waiter is parked only while its condition fails, and an owner stands for a call that holds.
pub record IsLive (s : System) : Type 0 where
  pub stalled :
      (j : ℕ) (d : Call) (w : Wait)
      → get_elem? s.calls j ≡ some d
      → d.pc ≡ parked w
      → admits w s.barrier ≡ false
  pub owned : is_none s.barrier.active_writer_owner ≡ false → 1 ≤ tally holds s.calls

-- A condition that fails goes on failing until a step notifies.
advance-admits :
    (e : Event) (o : WriterOwner) (pc : Pc) (b : Barrier) (f : Effect) (w : Wait)
    → advance e o pc b ≡ some f
    → f.notifies ≡ false
    → admits w b ≡ false
    → admits w f.barrier ≡ false
unfolding advance admits
advance-admits run o read_called b f w h n q = ground arith
advance-admits e o pc b f w h n q = ground arith

advance-parked :
    (e : Event) (o : WriterOwner) (pc : Pc) (b : Barrier) (f : Effect) (w : Wait)
    → advance e o pc b ≡ some f
    → f.pc ≡ parked w
    → admits w f.barrier ≡ false
unfolding advance admits
advance-parked run o read_called b f w h p = ground arith
advance-parked e o pc b f w h p = ground arith

advance-owned :
    (e : Event) (o : WriterOwner) (pc : Pc) (b : Barrier) (f : Effect)
    → advance e o pc b ≡ some f
    → is_none f.barrier.active_writer_owner ≡ false
    → (f.pc ≡ holding) ⊎ ((is_none b.active_writer_owner ≡ false) × (holds pc ≡ 0))
unfolding advance
advance-owned run o read_called b f h q = ground arith
advance-owned e o pc b f h q = ground arith

not-wake-parked : (c : Call) (w : Wait) → (wake c).pc ≢ parked w
unfolding wake
not-wake-parked c w h = ground arith

pub awake-holds : (c : Call) → holds (wake c).pc ≡ holds c.pc
unfolding wake
awake-holds c = ground arith

Origin-admits :
    {e : Event} {i : ℕ} {s t : System} (st : Stepped e i s t)
    → IsLive s
    → (j : ℕ) (d : Call) (w : Wait) → Origin s i st.call st.effect j d
    → d.pc ≡ parked w
    → admits w t.barrier ≡ false
Origin-admits {e} {i} {s} st inv j d w (moved p q) h =
    rw st.barrier
      (advance-parked e st.call.owner st.call.pc s.barrier st.effect w st.moves (ground arith))
Origin-admits {e} {i} {s} st inv j d w (kept p n at) h = rw st.barrier (
    advance-admits e st.call.owner st.call.pc s.barrier st.effect w st.moves n
      (inv.stalled j d w at h))
Origin-admits st inv j d w (roused b p n at q) h =
    absurd (not-wake-parked b w (ground (arith, h, q)))

step-IsLive : {e : Event} {i : ℕ} {s t : System} → Stepped e i s t → IsLive s → IsLive t
step-IsLive {e} {i} {s} st inv = record {
  stalled = λ j d w at h. Origin-admits st inv j d w (origin st j d at) h;
  owned = λ h. ground (
    arith,
    tally-step holds awake-holds st,
    get_elem?-le-weigh (λ c. holds c.pc) s.calls i st.at,
    advance-owned e st.call.owner st.call.pc s.barrier st.effect st.moves,
    inv.owned,
    ap holds {x = st.effect.pc} {y = holding},
  );
}

IsStart-IsLive : (s : System) → IsStart s → IsLive s
IsStart-IsLive s h = record {
  stalled = λ j d w at p. ground (arith, h.1 j d at);
  owned = λ p. ground (arith, h.0);
}

-- In every state that the event loop can reach from a start, a call that is parked among the
-- waiters has a condition that fails: no call is left parked once its condition holds. And if
-- the barrier names a writer as owner, then some call holds it.
pub Reach-IsLive : {s t : System} → IsStart s → Reach s t → IsLive t
Reach-IsLive {s} h here = IsStart-IsLive s h
Reach-IsLive h (next {t} {u} e i r st) = step-IsLive (step-Stepped e i t u st) (Reach-IsLive h r)

-- What can move a call that neither has settled nor is parked.
abbrev mover : Pc → Event
mover reading = resolve
mover holding = resolve
mover pc = run

abbrev is_quiet : Pc → Bool
is_quiet settled = true
is_quiet (parked w) = true
is_quiet pc = false

mover_moves :
    (o : WriterOwner) (pc : Pc) (b : Barrier)
    → is_quiet pc ≡ false
    → advance (mover pc) o pc b ≢ none
unfolding advance
mover_moves o (woken w) b h q = ground arith
mover_moves o pc b h q = ground arith

step_moves :
    (i : ℕ) (s : System) (c : Call)
    → get_elem? s.calls i ≡ some c
    → is_quiet c.pc ≡ false
    → step (mover c.pc) i s ≢ none
unfolding step
step_moves i s c at h q = ground (
  arith,
  mover_moves c.owner c.pc s.barrier h,
  Option-cases (advance (mover c.pc) c.owner c.pc s.barrier),
)

-- If no call can move, then none waits: by the counters, no condition can fail.
module _ {s : System} (counts : Counts s) (live : IsLive s) where
  module _ (quiet : (i : ℕ) (c : Call) → get_elem? s.calls i ≡ some c → is_quiet c.pc ≡ true) where
    idle : (s.barrier.active_read_waves ≡ 0) × (is_none s.barrier.active_writer_owner ≡ true)
    idle = ground (
      arith,
      counts.active,
      live.owned,
      tally-zero reads s.calls (λ i c at. ground (arith, quiet i c at)),
      tally-zero holds s.calls (λ i c at. ground (arith, quiet i c at)),
    )

    pending-zero : s.barrier.pending_read_wave_writes ≡ 0
    unfolding admits
    pending-zero = ground (
      arith,
      counts.pending,
      tally-zero (waits_for to_persist) s.calls
          (λ i c at. ground (arith, idle, quiet i c at, live.stalled i c to_persist at)),
    )

    waiting-zero : s.barrier.waiting_writers ≡ 0
    unfolding admits
    waiting-zero = ground (
      arith,
      counts.waiting,
      tally-zero (waits_for to_write) s.calls (λ i c at.
          ground (arith, idle, pending-zero, quiet i c at, live.stalled i c to_write at)),
    )

    quiet-settled : (i : ℕ) (c : Call) → get_elem? s.calls i ≡ some c → c.pc ≡ settled
    unfolding admits
    quiet-settled i c at = ground (
      arith,
      idle,
      pending-zero,
      waiting-zero,
      quiet i c at,
      live.stalled i c to_read at,
      live.stalled i c to_persist at,
      live.stalled i c to_write at,
    )

-- From every state that the event loop can reach, either all calls have settled, or some call
-- can make a step: the barrier never deadlocks. (An operation that runs is taken to settle.)
pub Reach-progress :
    {s t : System}
    → IsStart s
    → Reach s t
    → ((i : ℕ) (c : Call) → get_elem? t.calls i ≡ some c → c.pc ≡ settled)
      ⊎ ((e : Event) × (i : ℕ) × (u : System) × (step e i t ≡ some u))
Reach-progress {t} h r = elim (all_or_fails (λ c. is_quiet c.pc) t.calls) [
  | inl quiet ↦ inl (quiet-settled (Reach-Counts h r) (Reach-IsLive h r) quiet)
  | inr (i, c, at, loud) ↦ elim (Option-cases (step (mover c.pc) i t)) [
    | inl stuck ↦ absurd (step_moves i t c at loud stuck)
    | inr (u, st) ↦ inr (mover c.pc, i, u, st)
  ]
]
