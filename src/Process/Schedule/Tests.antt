-- ===== src/Process/Schedule/Tests.antt =====
-- Runs of the scheduler on a table of three processes.
use haoud_os.Base.{ℕ, suc, zero, ◌≡◌, Bool, true, false, [], ◌∷◌, refl, arith}
use haoud_os.Process.Task.{
  TaskState, ready, running, blocked_interruptible, Process, zero_process, Table, entry,
}
use haoud_os.Process.Schedule.{
  find_ready, find_eligible_process, switch_to, wake, resume, scheduler_core,
}
use haoud_os.Process.Schedule.Choice.{Chosen, find_eligible_process_lem}
use haoud_os.Process.Schedule.Running.{OnlyRuns, scheduler_core-OnlyRuns}
use haoud_os.Process.Schedule.Context.{scheduler_core_lem}

abbrev task : TaskState → ℕ → Bool → ℕ → Process
task s left pending place = record zero_process {
  state = s;
  priority = 5;
  current_priority = left;
  signal = pending ∷ [];
  cpu_contexte = place;
  mm_contexte = place;
}

-- The current process has used its time; process 1 sleeps with a signal pending; process 2 is ready.
abbrev three : Table
three = record {
  process_list =
      task running 0 false 100
      ∷ task blocked_interruptible 2 true 101
      ∷ task ready 0 false 102
      ∷ [];
  current = 0;
  tss_ss0 = 16;
  tss_esp0 = 900;
  current_mm_context = 100;
}

three-OnlyRuns : OnlyRuns three
unfolding OnlyRuns
three-OnlyRuns zero h = refl
three-OnlyRuns (suc zero) h = absurd (ground arith)
three-OnlyRuns (suc (suc zero)) h = absurd (ground arith)
three-OnlyRuns (suc (suc (suc i))) h = absurd (ground arith)

find_eligible_process_lem_example : let (p, t') = find_eligible_process three in Chosen three p t'
find_eligible_process_lem_example = find_eligible_process_lem three

scheduler_core-OnlyRuns_example : let (e, t') = scheduler_core 200 three in OnlyRuns t'
scheduler_core-OnlyRuns_example = scheduler_core-OnlyRuns 200 three (omega arith) three-OnlyRuns

scheduler_core_lem_example :
    let (e, t') = scheduler_core 200 three in
    let (p, chosen) = find_eligible_process (wake three) in
    (e ≡ (entry t' t'.current).cpu_contexte) × (t'.current ≡ p) × ((entry t' 0).cpu_contexte ≡ 200)
scheduler_core_lem_example = scheduler_core_lem 200 three (omega arith)

-- The signal wakes process 1, which has time left.
scheduler_core-three : let (e, t') = scheduler_core 200 three in (e ≡ 101) × (t'.current ≡ 1)
unfolding find_ready find_eligible_process switch_to resume scheduler_core
scheduler_core-three = (refl, refl)
