-- ===== src/Barrier/Counts.antt =====
-- The three counters of the barrier count the calls that stand at the points they speak of.
use say_hi.Prelude.{
  ℕ, zero, suc, ◌+◌, ◌≤◌, ◌≡◌, refl, Bool, true, false, some, List, [], ◌∷◌, arith, get_elem?,
  weigh, weigh-set, weigh-map, get_elem?-le-weigh, ap,
}
use say_hi.Barrier.{
  Barrier, Call, run, read_called, write_called, wait_until, Event, Effect, System, WriterOwner, Pc,
  Wait, advance, notify, wake, Reach, here, next, IsStart, to_persist, to_write, parked, woken,
  cleared, reading,
}
use say_hi.Barrier.Steps.{Stepped, step-Stepped}

abbrev pub waits_for : Wait → Pc → ℕ
waits_for to_persist (parked to_persist) = 1
waits_for to_persist (woken to_persist) = 1
waits_for to_persist (cleared to_persist) = 1
waits_for to_write (parked to_write) = 1
waits_for to_write (woken to_write) = 1
waits_for to_write (cleared to_write) = 1
waits_for w pc = 0

abbrev pub reads : Pc → ℕ
reads reading = 1
reads pc = 0

-- How many calls stand at a point that the weight picks.
abbrev pub tally : (Pc → ℕ) → List Call → ℕ
tally w = weigh (λ c. w c.pc)

pub record Counts (s : System) : Type 0 where
  pub active : s.barrier.active_read_waves ≡ tally reads s.calls
  pub pending : s.barrier.pending_read_wave_writes ≡ tally (waits_for to_persist) s.calls
  pub waiting : s.barrier.waiting_writers ≡ tally (waits_for to_write) s.calls

module _ (w : Pc → ℕ) (awake : (c : Call) → w (wake c).pc ≡ w c.pc) where
  tally-notify : (n : Bool) (cs : List Call) → tally w (notify n cs) ≡ tally w cs
  unfolding notify
  tally-notify false cs = refl
  tally-notify true cs = weigh-map (λ c. w c.pc) wake cs awake

  get-notify :
      (n : Bool) (cs : List Call) (i : ℕ) {c : Call}
      → get_elem? cs i ≡ some c
      → (d : Call) × (get_elem? (notify n cs) i ≡ some d) × (w d.pc ≡ w c.pc)
  unfolding notify
  get-notify false cs i {c} h = (c, h, refl)
  get-notify true [] i h = cc
  get-notify true (x ∷ cs) zero {c} h = (wake x, refl, ground (arith, awake x))
  get-notify true (x ∷ cs) (suc i) h = get-notify true cs i h

  -- A step moves the weight of the call that it moves, and no other.
  pub tally-step :
      {e : Event} {i : ℕ} {s t : System} (st : Stepped e i s t)
      → tally w t.calls + w st.call.pc ≡ tally w s.calls + w st.effect.pc
  tally-step {i} {s} st =
      let cs = notify st.effect.notifies s.calls in
      let (d, at, same) = get-notify st.effect.notifies s.calls i st.at in
      omega (
        arith,
        same,
        tally-notify st.effect.notifies s.calls,
        weigh-set (λ c. w c.pc) cs i (record { owner = st.call.owner; pc = st.effect.pc }) at,
        ap (tally w) st.calls,
      )

pub awake-reads : (c : Call) → reads (wake c).pc ≡ reads c.pc
unfolding wake
awake-reads c = ground arith

awake-waits_for : (w : Wait) (c : Call) → waits_for w (wake c).pc ≡ waits_for w c.pc
unfolding wake
awake-waits_for w c = ground arith

-- Each assignment to a counter goes with a move of the call that makes it.
record Moves (b : Barrier) (pc : Pc) (f : Effect) : Type 0 where
  active : f.barrier.active_read_waves + reads pc ≡ b.active_read_waves + reads f.pc
  pending :
      f.barrier.pending_read_wave_writes + waits_for to_persist pc
      ≡ b.pending_read_wave_writes + waits_for to_persist f.pc
  waiting :
      f.barrier.waiting_writers + waits_for to_write pc
      ≡ b.waiting_writers + waits_for to_write f.pc

advance-Moves :
    (e : Event) (o : WriterOwner) (pc : Pc) (b : Barrier) (f : Effect)
    → reads pc ≤ b.active_read_waves
    → waits_for to_persist pc ≤ b.pending_read_wave_writes
    → waits_for to_write pc ≤ b.waiting_writers
    → advance e o pc b ≡ some f
    → Moves b pc f
unfolding advance wait_until
advance-Moves run o read_called b f p q r h = ground arith
advance-Moves e o pc b f p q r h = ground arith

pub step-Counts : {e : Event} {i : ℕ} {s t : System} → Stepped e i s t → Counts s → Counts t
step-Counts {e} {i} {s} {t} st inv = ground (
  arith,
  get_elem?-le-weigh (λ c. reads c.pc) s.calls i st.at,
  get_elem?-le-weigh (λ c. waits_for to_persist c.pc) s.calls i st.at,
  get_elem?-le-weigh (λ c. waits_for to_write c.pc) s.calls i st.at,
  tally-step reads awake-reads st,
  tally-step (waits_for to_persist) (awake-waits_for to_persist) st,
  tally-step (waits_for to_write) (awake-waits_for to_write) st,
  advance-Moves e st.call.owner st.call.pc s.barrier st.effect,
)

pub tally-zero :
    (w : Pc → ℕ) (cs : List Call)
    → ((i : ℕ) (c : Call) → get_elem? cs i ≡ some c → w c.pc ≡ 0)
    → tally w cs ≡ 0
tally-zero w [] h = refl
tally-zero w (c ∷ cs) h = ground (arith, h 0 c refl, tally-zero w cs (λ i d p. h (suc i) d p))

-- A weight of no call that is yet to run sums to nothing at the start.
pub tally-start :
    (w : Pc → ℕ) (s : System)
    → IsStart s
    → w read_called ≡ 0
    → w write_called ≡ 0
    → tally w s.calls ≡ 0
tally-start w s h r v = tally-zero w s.calls λ i c p.
    ground (arith, h.1 i c p, ap w {x = c.pc} {y = read_called}, ap w {x = c.pc} {y = write_called})

pub IsStart-Counts : (s : System) → IsStart s → Counts s
IsStart-Counts s h = ground (
  arith,
  h.0,
  tally-start reads s h refl refl,
  tally-start (waits_for to_persist) s h refl refl,
  tally-start (waits_for to_write) s h refl refl,
)

-- In every state that the event loop can reach from a start, whatever the order of its steps,
-- `active_read_waves` is the number of read waves whose operation runs,
-- `pending_read_wave_writes` is the number of read waves that wait to persist, and
-- `waiting_writers` is the number of writers that wait.
pub Reach-Counts : {s t : System} → IsStart s → Reach s t → Counts t
Reach-Counts {s} h here = IsStart-Counts s h
Reach-Counts h (next {t} {u} e i r st) = step-Counts (step-Stepped e i t u st) (Reach-Counts h r)
