-- ===== src/Process/Schedule.antt =====
-- core/process/schedule.c. The process switch saves the registers' place, the kernel stack of the
-- task segment and the memory context; the FPU state (arch/i386/fpu.c) is not part of the model.
pub mod Choice
pub mod Running
pub mod Context
mod Tests
use haoud_os.Base.{
  ℕ, zero, suc, ◌+◌, Bool, true, false, not, ◌&&◌, Option, none, some, List, [], ◌∷◌, map, ◌==◌,
  if◌then◌else◌,
}
use haoud_os.Process.Task.{
  TaskState, ready, running, blocked_interruptible, is_ready, is_running, is_interruptible, any,
  Process, Table, entry, modify,
}

-- A signal ends an interruptible sleep.
abbrev pub wake_signaled : Process → Process
wake_signaled p = if any p.signal && is_interruptible p.state then record p { state = ready } else p

-- Ready, with processor time left.
abbrev pub eligible : Process → Bool
eligible p = not (p.current_priority == 0) && is_ready p.state

-- The scan for a ready process, from index `i` on.
unfoldable pub find_ready : ℕ → List Process → Option ℕ
find_ready i [] = none
find_ready i (p ∷ ps) = if eligible p then some i else find_ready (i + 1) ps

abbrev pub refill : Process → Process
refill p = record p { current_priority = p.priority }

-- The second half of FindEligibleProcess: all time slices start again.
abbrev pub find_after_refill : Table → ℕ × Table
find_after_refill t =
    let t' = record t { process_list = map refill t.process_list } in
    elim (find_ready 0 t'.process_list) [ none ↦ (t.current, t') | some i ↦ (i, t') ]

abbrev pub keeps_running : Process → Bool
keeps_running p = is_running p.state && not (p.current_priority == 0)

unfoldable pub find_eligible_process : Table → ℕ × Table
find_eligible_process t =
    if keeps_running (entry t t.current)
    then (t.current, t)
    else elim (find_ready 0 t.process_list) [ none ↦ find_after_refill t | some i ↦ (i, t) ]

abbrev pub demote : TaskState → TaskState
demote s = if is_running s then ready else s

-- The current process leaves the processor.
abbrev pub leave : Table → Process → Process
leave t c = record c { kstack_ss0 = t.tss_ss0; kstack_esp0 = t.tss_esp0; state = demote c.state }

abbrev pub run : Process → Process
run p = record p { state = running }

-- From `save_fpu_state` on: `current` gives way to process `p`.
unfoldable pub switch_to : ℕ → Table → ℕ × Table
switch_to p t =
    let t' = modify p run (modify t.current (leave t) t) in
    let q = entry t' p in
    (
      q.cpu_contexte,
      record t' {
        current = p;
        tss_ss0 = q.kstack_ss0;
        tss_esp0 = q.kstack_esp0;
        current_mm_context = q.mm_contexte;
      },
    )

-- `current->cpu_contexte = current_state`
abbrev pub save_context : ℕ → Process → Process
save_context s p = record p { cpu_contexte = s }

-- What follows the choice of process `p`.
unfoldable pub resume : ℕ → ℕ → Table → ℕ × Table
resume current_state p t =
    let saved = modify t.current (save_context current_state) t in
    if p == t.current then (current_state, saved) else switch_to p saved

abbrev pub wake : Table → Table
wake t = record t { process_list = map wake_signaled t.process_list }

-- The interrupted registers' place goes in, and that of the process to run comes out.
unfoldable pub scheduler_core : ℕ → Table → ℕ × Table
scheduler_core current_state t =
    let (p, t') = find_eligible_process (wake t) in resume current_state p t'
