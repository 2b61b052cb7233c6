-- ===== src/Process/Semaphore/Tests.antt =====
-- Runs of the semaphore.
use haoud_os.Base.{ℕ, ◌<◌, ◌≤◌, ◌≡◌, some, inl, inr, [], ◌∷◌, refl, arith}
use haoud_os.Process.Task.{running, blocked_uninterruptible, zero_process, Table}
use haoud_os.Process.Sleep.Wake.{Waits}
use haoud_os.Process.Semaphore.{Semaphore, trydown_semaphore, down_test}
use haoud_os.Process.Semaphore.Wakeup.{InTable, NoLostWakeup}
use haoud_os.Process.Semaphore.Exclusion.{
  Sys, downs, tries_in_vain, Steps, done, next, Balanced, Steps-Balanced,
}

abbrev table : Table
table = record {
  process_list =
      record zero_process { state = running }
      ∷ record zero_process { state = blocked_uninterruptible }
      ∷ [];
  current = 0;
  tss_ss0 = 16;
  tss_esp0 = 900;
  current_mm_context = 0;
}

-- Held, and process 1 waits.
abbrev held : Semaphore
held = record { value = 0; wait = record { id = 70; process = some 1 } ∷ [] }

abbrev mutex : Semaphore
mutex = record { value = 1; wait = [] }

in_table : (p : ℕ) (o : ℕ) → some o ≡ some p → o < 2 → p < 2
in_table p o e h = ground arith

held-InTable : InTable held.wait table
unfolding InTable Waits
held-InTable p (inl e) = in_table p 1 e (omega arith)
held-InTable p (inr e) = absurd (ground arith)

held-NoLostWakeup : NoLostWakeup held table
unfolding NoLostWakeup
held-NoLostWakeup free p w = absurd (ground arith)

abbrev start : Sys
start = record { sem = mutex; table = table; held = 0 }

abbrev locked : Sys
locked = record { sem = record { value = 0; wait = [] }; table = table; held = 1 }

-- One process takes the mutex, and a second one tries in vain.
two_steps : Steps start locked
unfolding down_test trydown_semaphore
two_steps =
    next start locked locked (downs 80 locked.sem refl)
      (next locked locked locked (tries_in_vain locked.sem refl) (done locked))

Steps-Balanced_example : Balanced 1 locked × (1 ≤ 1)
Steps-Balanced_example = Steps-Balanced 1 start locked (omega arith) two_steps (omega arith)
