-- ===== src/Barrier.antt =====
-- The reader-writer barrier of the Initiative scheduler (class InitiativeReadWriteBarrier of
-- packages/core/src/initiative-scheduler.ts). Each call of `runReadWave` and `runWriter` is a
-- small machine: `Pc` names the point at which the call awaits. The event loop runs one
-- continuation at a time, so that a step moves one call, and an `await` ends a step even if the
-- awaited promise has settled. The waiters of `#waiters` are the calls at `parked`.
pub mod Steps
pub mod Counts
pub mod Wakeups
pub mod Race
mod Tests
use say_hi.Prelude.{
  ℕ, ◌+◌, ◌-◌, ◌==◌, ◌≡◌, ◌⊎◌, Bool, true, false, ◌&&◌, Option, none, some, List, map, String,
  get_elem?, set, is_none, if◌then◌else◌,
}

-- InitiativeWriterOwner
pub data WriterOwner : Type 0 where
  read_wave_results : List String → WriterOwner
  node : String → WriterOwner
  integration : String → WriterOwner

pub record Barrier : Type 0 where
  pub active_read_waves : ℕ
  pub active_writer_owner : Option WriterOwner
  pub pending_read_wave_writes : ℕ
  pub waiting_writers : ℕ

-- The fields' initial values.
abbrev pub new_barrier : Barrier
new_barrier = record {
  active_read_waves = 0;
  active_writer_owner = none;
  pending_read_wave_writes = 0;
  waiting_writers = 0;
}

-- The three conditions that are handed to `#waitUntil`.
pub data Wait : Type 0 where
  to_read to_persist to_write : Wait

unfoldable pub admits : Wait → Barrier → Bool
admits to_read b =
    is_none b.active_writer_owner && b.pending_read_wave_writes == 0 && b.waiting_writers == 0
admits to_persist b = is_none b.active_writer_owner && b.active_read_waves == 0
admits to_write b =
    is_none b.active_writer_owner && b.active_read_waves == 0 && b.pending_read_wave_writes == 0

-- Where a call stands. `parked`: its resolver is in `#waiters`. `woken`: the resolver was called,
-- and the loop of `#waitUntil` is to test its condition again. `cleared`: `#waitUntil` has
-- returned, and the call's continuation is queued. `reading`: a read wave's `operation` runs.
-- `holding`: `persist`, or a writer's `operation`, runs.
pub data Pc : Type 0 where
  read_called write_called reading holding settled : Pc
  parked woken cleared : Wait → Pc

pub record Call : Type 0 where
  pub owner : WriterOwner
  pub pc : Pc

-- `run`: the event loop runs the call's next continuation. `resolve`, `reject`: the operation
-- that the call awaits settles, and its continuation runs.
pub data Event : Type 0 where
  run resolve reject : Event

-- `#waitUntil`, up to its first `await`.
unfoldable pub wait_until : Wait → Barrier → Pc
unfolding admits
wait_until w b = if admits w b then cleared w else parked w

-- What a step of a call makes of the barrier, where it leaves the call, and whether it calls
-- `#notify`.
pub record Effect : Type 0 where
  pub barrier : Barrier
  pub pc : Pc
  pub notifies : Bool

-- The code of `runReadWave` and `runWriter` between two awaits.
unfoldable pub advance : Event → WriterOwner → Pc → Barrier → Option Effect
unfolding wait_until
advance run o read_called b =
    some (record { barrier = b; pc = wait_until to_read b; notifies = false })
advance run o write_called b =
    let b' = record b { waiting_writers = b.waiting_writers + 1 } in
    some (record { barrier = b'; pc = wait_until to_write b'; notifies = false })
advance run o (woken w) b = some (record { barrier = b; pc = wait_until w b; notifies = false })
advance run o (cleared to_read) b =
    let b' = record b { active_read_waves = b.active_read_waves + 1 } in
    some (record { barrier = b'; pc = reading; notifies = false })
advance run o (cleared to_persist) b =
    let b' = record b {
      pending_read_wave_writes = b.pending_read_wave_writes - 1;
      active_writer_owner = some o;
    } in
    some (record { barrier = b'; pc = holding; notifies = false })
advance run o (cleared to_write) b =
    let b' = record b { waiting_writers = b.waiting_writers - 1; active_writer_owner = some o } in
    some (record { barrier = b'; pc = holding; notifies = false })
advance resolve o reading b =
    let b' = record b {
      pending_read_wave_writes = b.pending_read_wave_writes + 1;
      active_read_waves = b.active_read_waves - 1;
    } in
    some (record { barrier = b'; pc = wait_until to_persist b'; notifies = true })
advance reject o reading b =
    let b' = record b { active_read_waves = b.active_read_waves - 1 } in
    some (record { barrier = b'; pc = settled; notifies = true })
advance resolve o holding b =
    some
      (record { barrier = record b { active_writer_owner = none }; pc = settled; notifies = true })
advance reject o holding b =
    some
      (record { barrier = record b { active_writer_owner = none }; pc = settled; notifies = true })
advance _ _ _ _ = none

-- The barrier and the calls made on it.
pub record System : Type 0 where
  pub barrier : Barrier
  pub calls : List Call

-- `#notify` resolves every waiter, which queues the rest of its `#waitUntil`.
abbrev pub wake_pc : Pc → Pc
wake_pc (parked w) = woken w
wake_pc pc = pc

unfoldable pub wake : Call → Call
wake c = record c { pc = wake_pc c.pc }

unfoldable pub notify : Bool → List Call → List Call
unfolding wake
notify true calls = map wake calls
notify false calls = calls

-- The barrier's waiters are resolved before the call that notifies tests its next condition, so
-- this call is written after the others are woken.
abbrev pub apply_effect : System → ℕ → WriterOwner → Option Effect → Option System
apply_effect s i o none = none
apply_effect s i o (some e) = some (record {
  barrier = e.barrier;
  calls = set (notify e.notifies s.calls) i (record { owner = o; pc = e.pc });
})

abbrev pub step_call : Event → System → ℕ → Option Call → Option System
step_call e s i none = none
step_call e s i (some c) = apply_effect s i c.owner (advance e c.owner c.pc s.barrier)

-- One step of the `i`-th call.
unfoldable pub step : Event → ℕ → System → Option System
step e i s = step_call e s i (get_elem? s.calls i)

-- A run of the event loop from a state.
pub data Reach (s : System) : System → Type 0 where
  here : Reach s s
  next : {t u : System} (e : Event) (i : ℕ) → Reach s t → step e i t ≡ some u → Reach s u

-- No call has run yet.
abbrev pub IsStart : System → Type 0
IsStart s =
    (s.barrier ≡ new_barrier)
    × ((i : ℕ) (c : Call)
        → get_elem? s.calls i ≡ some c
        → (c.pc ≡ read_called) ⊎ (c.pc ≡ write_called))
