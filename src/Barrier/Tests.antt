-- ===== src/Barrier/Tests.antt =====
-- Runs of the barrier at concrete calls.
use say_hi.Prelude.{ℕ, zero, suc, ◌≡◌, refl, ◌⊎◌, some, none, List, [], ◌∷◌, arith, get_elem?}
use say_hi.Barrier.{
  Call, Event, System, node, read_wave_results, Reach, here, next, run, reading, holding, settled,
  parked, to_write, read_called, write_called, step, advance, notify, admits, wait_until, IsStart,
}
use say_hi.Barrier.Counts.{Counts, Reach-Counts}
use say_hi.Barrier.Wakeups.{IsLive, Reach-IsLive, Reach-progress}
use say_hi.Barrier.Race.{at, unowned, unowned-two_writers, unowned-reader_and_writer}

-- A read wave and a writer that are called one after the other.
abbrev two_calls : List Call
two_calls = at (read_wave_results ("a" ∷ [])) read_called ∷ at (node "b") write_called ∷ []

two_calls-IsStart : IsStart (unowned 0 two_calls)
two_calls-IsStart = (refl, called)
  where
    called :
        (i : ℕ) (c : Call)
        → get_elem? two_calls i ≡ some c
        → (c.pc ≡ read_called) ⊎ (c.pc ≡ write_called)
    called zero c h = ground arith
    called (suc zero) c h = ground arith
    called (suc (suc i)) c h = cc

-- The read wave runs before the writer is called, which then waits.
abbrev reader_first : System
reader_first = record {
  barrier = record {
    active_read_waves = 1;
    active_writer_owner = none;
    pending_read_wave_writes = 0;
    waiting_writers = 1;
  };
  calls = at (read_wave_results ("a" ∷ [])) reading ∷ at (node "b") (parked to_write) ∷ [];
}

reader_first-Reach : Reach (unowned 0 two_calls) reader_first
unfolding step advance notify wait_until admits
reader_first-Reach = next run 1 (next run 0 (next run 0 here refl) refl) refl

Reach-Counts_example : Counts reader_first
Reach-Counts_example = Reach-Counts two_calls-IsStart reader_first-Reach

Reach-IsLive_example : IsLive reader_first
Reach-IsLive_example = Reach-IsLive two_calls-IsStart reader_first-Reach

Reach-progress_example :
    ((i : ℕ) (c : Call) → get_elem? reader_first.calls i ≡ some c → c.pc ≡ settled)
    ⊎ ((e : Event) × (i : ℕ) × (u : System) × (step e i reader_first ≡ some u))
Reach-progress_example = Reach-progress two_calls-IsStart reader_first-Reach

unowned-two_writers_example :
    (t : System) × Reach
      (unowned 0 (at (node "a") write_called ∷ at (node "b") write_called ∷ []))
      t
    × (t.calls ≡ at (node "a") holding ∷ at (node "b") holding ∷ [])
unowned-two_writers_example = unowned-two_writers (node "a") (node "b") 0 []

unowned-reader_and_writer_example :
    (t : System) × Reach (unowned 0 (at (node "a") read_called ∷ at (node "b") write_called ∷ [])) t
    × (t.calls ≡ at (node "a") reading ∷ at (node "b") holding ∷ [])
unowned-reader_and_writer_example = unowned-reader_and_writer (node "a") (node "b") []
