-- ===== src/Process/Sleep.antt =====
-- core/process/wait.c and core/process/sleep.c. A queue is the list of its entries; the head node, whose
-- process is NULL, is left out. A function that calls `schedule` is two: what it does up to that call,
-- and what it does once it is scheduled again.
pub mod Wake
mod Tests
use haoud_os.Base.{
  ℕ, zero, suc, ◌+◌, Bool, true, false, Option, none, some, List, [], ◌∷◌, ◌==◌, if◌then◌else◌,
  neg32, Exec, ok, panic, fault,
}
use haoud_os.Process.Task.{
  TaskState, ready, running, blocked_interruptible, blocked_uninterruptible, Process, Table, entry,
  modify,
}
use haoud_os.Time.Timer.{Timer, Timers, set_timer, add_timer, del_timer}

-- An entry stands on the stack of the process that waits, at address `id`.
pub record Waiter : Type 0 where
  pub id : ℕ
  pub process : Option ℕ

-- `memory` is what `kmalloc` returns; NULL is written through.
abbrev pub init_wait_queue : Option ℕ → Exec (List Waiter)
init_wait_queue none = fault
init_wait_queue (some memory) = ok []

-- `list_empty` asks whether the pointer is NULL, and NULL is a pointer that `kfree` takes.
abbrev pub release_wait_queue : Option (List Waiter) → ℕ
release_wait_queue none = 0
release_wait_queue (some q) = neg32 2

abbrev pub add_wait_queue : Waiter → List Waiter → List Waiter
add_wait_queue w q = w ∷ q

unfoldable pub unlink : ℕ → List Waiter → List Waiter
unlink i [] = []
unlink i (w ∷ ws) = if w.id == i then ws else w ∷ unlink i ws

abbrev pub remove_wait_queue : Waiter → List Waiter → Exec (List Waiter)
remove_wait_queue w q = elim w.process [ none ↦ panic | some p ↦ ok (unlink w.id q) ]

abbrev pub set_state : TaskState → ℕ → Table → Table
set_state s i t = modify i (λ p. record p { state = s }) t

abbrev pub wait_entry : ℕ → Table → Waiter
wait_entry i t = record { id = i; process = some t.current }

-- sleep_on and sleep_on_interruptible, `s` the state, up to the call of `schedule`.
abbrev pub sleep_begin : TaskState → ℕ → List Waiter → Table → List Waiter × Table
sleep_begin s i q t = (add_wait_queue (wait_entry i t) q, set_state s t.current t)

abbrev pub sleep_on : ℕ → List Waiter → Table → List Waiter × Table
sleep_on i q t = sleep_begin blocked_uninterruptible i q t

abbrev pub sleep_on_interruptible : ℕ → List Waiter → Table → List Waiter × Table
sleep_on_interruptible i q t = sleep_begin blocked_interruptible i q t

-- What the three of them do after it.
abbrev pub sleep_end : ℕ → List Waiter → Table → Exec (List Waiter)
sleep_end i q t = remove_wait_queue (wait_entry i t) q

abbrev pub wake_process : Option ℕ → Table → Table
wake_process none t = t
wake_process (some p) t = set_state ready p t

unfoldable pub wake_up : List Waiter → Table → Table
wake_up [] t = t
wake_up (w ∷ ws) t = wake_up ws (wake_process w.process t)

-- schedule_timeout up to the call of `schedule`: `place` is the timer, on the stack, and
-- `process_timeout` the function of number `timeout_fn`.
module _ (call : ℕ → ℕ → Table → Table) (timeout_fn : ℕ) (sec tick : ℕ) where
  abbrev pub timeout_timer : ℕ → ℕ → Table → Timer
  timeout_timer place millis t = set_timer sec tick millis (record {
    id = place;
    sec_expire = 0;
    tick_expire = 0;
    data_arg = t.current;
    expire_function = timeout_fn;
  })

  abbrev pub schedule_timeout_begin : ℕ → ℕ → Timers Table → Timers Table
  schedule_timeout_begin place millis s =
      add_timer call sec tick (some (timeout_timer place millis s.world))
        (record s { world = set_state blocked_uninterruptible s.world.current s.world })

  abbrev pub schedule_timeout_end : ℕ → ℕ → Timers Table → Timers Table
  schedule_timeout_end place millis s =
      del_timer call sec tick (timeout_timer place millis s.world) s

  -- The entry of the queue and the timer of one sleep.
  abbrev pub sleep_on_timeout : ℕ → ℕ → ℕ → List Waiter → Timers Table → List Waiter × Timers Table
  sleep_on_timeout i place millis q s =
      (add_wait_queue (wait_entry i s.world) q, schedule_timeout_begin place millis s)
