-- ===== src/Barrier/Race.antt =====
-- `#waitUntil` returns through a promise, so that other calls run between the test of a condition
-- and the assignments that it guards: the barrier does not exclude calls that are made together.
use say_hi.Prelude.{ℕ, ◌≡◌, refl, none, List, ◌∷◌}
use say_hi.Barrier.{
  Call, Pc, System, WriterOwner, Reach, here, next, run, reading, holding, read_called,
  write_called, step, advance, notify, admits, wait_until,
}

-- The barrier when nothing runs and `n` writers wait.
abbrev pub unowned : ℕ → List Call → System
unowned n calls = record {
  barrier = record {
    active_read_waves = 0;
    active_writer_owner = none;
    pending_read_wave_writes = 0;
    waiting_writers = n;
  };
  calls = calls;
}

abbrev pub at : WriterOwner → Pc → Call
at o pc = record { owner = o; pc = pc }

-- Whenever two writers call `runWriter` in the same turn of the event loop while nothing runs,
-- both of their operations can run at once, whatever other calls are made.
pub unowned-two_writers :
    (a b : WriterOwner) (n : ℕ) (rest : List Call)
    → (t : System) × Reach (unowned n (at a write_called ∷ at b write_called ∷ rest)) t
      × (t.calls ≡ at a holding ∷ at b holding ∷ rest)
unfolding step advance notify wait_until admits
unowned-two_writers a b n rest =
    (_, next run 1 (next run 0 (next run 1 (next run 0 here refl) refl) refl) refl, refl)

-- A read wave and a writer that are called in the same turn while nothing runs or waits can both
-- run their operations at once, whatever other calls are made.
pub unowned-reader_and_writer :
    (a b : WriterOwner) (rest : List Call)
    → (t : System) × Reach (unowned 0 (at a read_called ∷ at b write_called ∷ rest)) t
      × (t.calls ≡ at a reading ∷ at b holding ∷ rest)
unfolding step advance notify wait_until admits
unowned-reader_and_writer a b rest =
    (_, next run 1 (next run 0 (next run 1 (next run 0 here refl) refl) refl) refl, refl)
