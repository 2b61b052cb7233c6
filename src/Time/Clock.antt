-- ===== src/Time/Clock.antt =====
-- The clock interrupt, arch/i386/i8254.c, with the callback of core/process/sleep.c's timers.
pub mod Tick
mod Tests
use haoud_os.Base.{ℕ, zero, suc, ◌+◌, ◌-◌, Bool, true, false, not, List, ◌==◌, if◌then◌else◌, add32}
use haoud_os.Process.Task.{ready, running, Process, Table, modify}
use haoud_os.Process.Schedule.{scheduler_core}
use haoud_os.Time.Timer.{Timers, update_timers}

-- `sec`, `tick` and `current_frequency`, the timers, and the process table as what timers act on.
pub record Kernel : Type 0 where
  pub sec : ℕ
  pub tick : ℕ
  pub current_frequency : ℕ
  pub timers : Timers Table

-- The callback of a sleeping process' timer: `data` is the process.
unfoldable pub process_timeout : ℕ → Table → Table
process_timeout to_wakeup t =
    if to_wakeup == t.current
    then modify to_wakeup (λ p. record p { state = running }) t
    else modify to_wakeup (λ p. record p { state = ready }) t

unfoldable pub advance : Kernel → Kernel
advance k =
    let next = add32 k.tick 1 in
    if next == k.current_frequency
    then record k { tick = 0; sec = add32 k.sec 1 }
    else record k { tick = next }

-- One tick on the account of the process, by the code segment that was interrupted, and one less of
-- its time slice.
abbrev pub charge : ℕ → Process → Process
charge cs p =
    let charged =
      if cs == 8
      then record p { kernel_tick = add32 p.kernel_tick 1 }
      else record p { user_tick = add32 p.user_tick 1 } in
    record charged {
      current_priority = if p.current_priority == 0 then 0 else p.current_priority - 1;
    }

abbrev pub charge_current : ℕ → Table → Table
charge_current cs t = modify t.current (charge cs) t

module _ (call : ℕ → ℕ → Table → Table) where
  abbrev pub run_timers : Kernel → Kernel
  run_timers k = record k { timers = update_timers call k.sec k.tick 2 k.timers }

  -- `place` is where `schedule` saves the registers of the handler; what comes out is where those of
  -- the process that goes on are.
  unfoldable pub timer_tick : ℕ → ℕ → Kernel → ℕ × Kernel
  timer_tick cs place k =
      let k₁ = advance k in
      let k₂ = record k₁ {
        timers = record k₁.timers { world = charge_current cs k₁.timers.world };
      } in
      let k₃ = run_timers k₂ in
      let (e, t) = scheduler_core place k₃.timers.world in
      (e, record k₃ { timers = record k₃.timers { world = t } })
