-- ===== src/Process/Sleep/Tests.antt =====
-- Runs of the sleep functions.
use haoud_os.Base.{ℕ, ◌≡◌, some, inl, inr, List, [], ◌∷◌, refl, arith, neg32, ok}
use haoud_os.Process.Task.{
  TaskState, running, blocked_interruptible, blocked_uninterruptible, Process, zero_process, Table,
}
use haoud_os.Process.Sleep.{
  Waiter, unlink, sleep_on, sleep_end, release_wait_queue, schedule_timeout_begin,
}
use haoud_os.Process.Sleep.Wake.{Waits, WillWake, schedule_timeout_lem}
use haoud_os.Time.Clock.{process_timeout}

abbrev task : TaskState → Process
task s = record zero_process { state = s; priority = 5; current_priority = 3 }

abbrev table : Table
table = record {
  process_list = task running ∷ task blocked_uninterruptible ∷ task blocked_interruptible ∷ [];
  current = 0;
  tss_ss0 = 16;
  tss_esp0 = 900;
  current_mm_context = 0;
}

abbrev queue : List Waiter
queue = record { id = 70; process = some 1 } ∷ []

one-Waits : Waits 1 queue
unfolding Waits
one-Waits = inl refl

two_does_not : ¬ Waits 2 queue
unfolding Waits
two_does_not (inl e) = absurd (ground arith)
two_does_not (inr e) = absurd (ground arith)

abbrev call : ℕ → ℕ → Table → Table
call f d t = process_timeout d t

schedule_timeout_lem_example :
    WillWake call 0 5 30 0
      (schedule_timeout_begin call 0 5 30 80 250 (record { timer_list = []; world = table }))
schedule_timeout_lem_example =
    schedule_timeout_lem call 0 5 30 (λ d t. refl) 80 250
      (record { timer_list = []; world = table }) (omega arith)

-- The entry of a sleep is gone after it.
sleep_and_end : let (q, t) = sleep_on 71 queue table in sleep_end 71 q t ≡ ok queue
unfolding unlink
sleep_and_end = refl

release_used : release_wait_queue (some []) ≡ neg32 2
release_used = refl
