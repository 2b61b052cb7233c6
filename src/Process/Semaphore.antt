-- ===== src/Process/Semaphore.antt =====
-- lib/semaphore.c. `value` is an `int`, as its 32-bit word; interrupts are off in each function, so
-- what stands between two calls of `schedule` is one step.
pub mod Wakeup
pub mod Exclusion
mod Tests
use haoud_os.Base.{
  ℕ, ◌+◌, ◌-◌, ◌≡◌, Bool, true, false, not, ◌&&◌, ◌||◌, Option, none, some, List, [], ◌∷◌, ltb, leb,
  ◌==◌, if◌then◌else◌, add32, sub32, neg32, Exec, ok, fault, ◌>>=◌,
}
use haoud_os.Process.Task.{Table}
use haoud_os.Process.Sleep.{
  Waiter, init_wait_queue, release_wait_queue, sleep_on, sleep_end, wake_up,
}

pub record Semaphore : Type 0 where
  pub value : ℕ
  pub wait : List Waiter

-- `value >= 1`, and `value <= 0` its negation
abbrev pub is_free : Semaphore → Bool
is_free s = ltb 0 s.value && ltb s.value 0x8000_0000

-- The two results of `kmalloc`: one for the semaphore, one for its queue.
unfoldable pub init_semaphore : Option ℕ → Option ℕ → ℕ → Exec (ℕ × Option Semaphore)
init_semaphore none q v = ok (neg32 10, none)
init_semaphore (some m) q v =
    init_wait_queue q >>= (λ w. ok (0, some (record { value = v; wait = w })))

-- The code, and whether the memory is given back.
abbrev pub release_semaphore : Option Semaphore → ℕ × Bool
release_semaphore none = (neg32 4, false)
release_semaphore (some s) =
    let ret = release_wait_queue (some s.wait) in if not (ret == 0) then (ret, false) else (0, true)

unfoldable pub up_semaphore : Semaphore → Table → ℕ × Semaphore × Table
up_semaphore s t = (0, record s { value = add32 s.value 1 }, wake_up s.wait t)

unfoldable pub trydown_semaphore : Semaphore → ℕ × Semaphore
trydown_semaphore s = if is_free s then (0, record s { value = sub32 s.value 1 }) else (neg32 2, s)

-- One test of the loop in `down_semaphore`: the semaphore is taken, or the process sleeps, its entry
-- at address `i`.
pub data Down : Type 0 where
  taken : Semaphore → Down
  sleeps : Semaphore → Table → Down

unfoldable pub down_test : ℕ → Semaphore → Table → Down
down_test i s t =
    let (q, u) = sleep_on i s.wait t in
    if is_free s
    then taken (record s { value = sub32 s.value 1 })
    else sleeps (record s { wait = q }) u

-- After `schedule`: the entry leaves the queue, and the test is made again.
unfoldable pub down_again : ℕ → Semaphore → Table → Exec Down
down_again i s t = sleep_end i s.wait t >>= (λ q. ok (down_test i (record s { wait = q }) t))
