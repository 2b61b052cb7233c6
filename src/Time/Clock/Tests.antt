-- ===== src/Time/Clock/Tests.antt =====
-- A tick with one sleeping process.
use haoud_os.Base.{ℕ, zero, suc, [], ◌∷◌, refl, arith}
use haoud_os.Process.Task.{
  running, blocked_uninterruptible, TaskState, Process, zero_process, Table,
}
use haoud_os.Process.Schedule.Running.{OnlyRuns}
use haoud_os.Time.Clock.{Kernel, process_timeout, timer_tick}
use haoud_os.Time.Clock.Tick.{CallsKeep, process_timeout-Sound, timer_tick-OnlyRuns}

abbrev task : TaskState → Process
task s = record zero_process { state = s; priority = 5; current_priority = 3 }

abbrev table : Table
table = record {
  process_list = task running ∷ task blocked_uninterruptible ∷ [];
  current = 0;
  tss_ss0 = 16;
  tss_esp0 = 900;
  current_mm_context = 0;
}

-- The kernel's one callback.
abbrev call : ℕ → ℕ → Table → Table
call f d t = process_timeout d t

abbrev kernel : Kernel
kernel = record {
  sec = 3;
  tick = 99;
  current_frequency = 100;
  timers = record {
    timer_list =
        record { id = 1; sec_expire = 4; tick_expire = 0; data_arg = 1; expire_function = 0 } ∷ [];
    world = table;
  };
}

table-OnlyRuns : OnlyRuns table
unfolding OnlyRuns
table-OnlyRuns zero h = refl
table-OnlyRuns (suc zero) h = absurd (ground arith)
table-OnlyRuns (suc (suc i)) h = absurd (ground arith)

kernel-CallsKeep : CallsKeep call kernel.timers.timer_list
unfolding CallsKeep
kernel-CallsKeep = (λ t s. process_timeout-Sound 1 t s, refl)

timer_tick-OnlyRuns_example : let (e, k) = timer_tick call 27 70 kernel in OnlyRuns k.timers.world
timer_tick-OnlyRuns_example =
    timer_tick-OnlyRuns call 27 70 kernel kernel-CallsKeep (omega arith) table-OnlyRuns
