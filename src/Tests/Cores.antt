-- ===== src/Tests/Cores.antt =====
-- A run of the counter with a local count for each core: one thread makes its one update, with a
-- transfer to the global count.
use osvcp.Prelude.{ℕ, true, false, [], ◌∷◌}
use osvcp.SloppyCounter.Cores.{Place, between, releasing, Thread, State, set_lock}
use osvcp.SloppyCounter.Cores.Progress
use osvcp.SloppyCounter.Cores.Schedule

-- Before the unlock of the global lock.
abbrev midway : State
midway = record {
  counter = record { global_count = 1; local_counts = 1 ∷ [] };
  global_lock = true;
  local_locks = set_lock 0 true (λ core. false);
  threads = record { cpu_core = 0; increments = 0; place = releasing } ∷ [];
}

abbrev thread : Place → ℕ → Thread
thread p n = record { cpu_core = 0; increments = n; place = p }

abbrev finished : State
finished = record {
  counter = record { global_count = 1; local_counts = 0 ∷ [] };
  global_lock = false;
  local_locks = set_lock 0 false (set_lock 0 true (λ core. false));
  threads = thread between 0 ∷ [];
}
