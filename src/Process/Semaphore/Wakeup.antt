-- ===== src/Process/Semaphore/Wakeup.antt =====
-- Processes that wait for a semaphore of lib/semaphore.c, and their wake-up.
use haoud_os.Base.{
  ℕ, ◌<◌, ◌≡◌, ◌≢◌, inl, inr, true, List, [], ◌∷◌, ◌==◌, ok, arith, refl, sym, ◌∙◌, Bool-cases,
  true≢false,
}
use haoud_os.Process.Task.{ready, blocked_uninterruptible, Table, entry, size}
use haoud_os.Process.Sleep.{Waiter, unlink}
use haoud_os.Process.Sleep.Wake.{Waits, wake_up_lem}
use haoud_os.Process.Semaphore.{
  Semaphore, is_free, up_semaphore, trydown_semaphore, Down, taken, sleeps, down_test, down_again,
}

-- Whoever is in the queue is in the table.
unfoldable pub InTable : List Waiter → Table → Type 0
InTable q t = (p : ℕ) → Waits p q → p < size t

-- If the semaphore is free, no process in its queue sleeps.
unfoldable pub NoLostWakeup : Semaphore → Table → Type 0
NoLostWakeup s t =
    is_free s ≡ true → (p : ℕ) → Waits p s.wait → (entry t p).state ≢ blocked_uninterruptible

ready_not_blocked : ready ≢ blocked_uninterruptible
ready_not_blocked e = absurd (ground arith)

-- If everybody in the queue is in the process table, nobody who waits for the semaphore sleeps
-- after `up_semaphore`.
pub up_semaphore-NoLostWakeup :
    (s : Semaphore) (t : Table)
    → InTable s.wait t
    → let (c, s', t') = up_semaphore s t in NoLostWakeup s' t'
unfolding up_semaphore NoLostWakeup InTable
up_semaphore-NoLostWakeup s t h free p w e =
    ready_not_blocked (sym (wake_up_lem s.wait p t w (h p w)) ∙ e)

-- After `trydown_semaphore` too, if it was so before.
pub trydown_semaphore-NoLostWakeup :
    (s : Semaphore) (t : Table)
    → NoLostWakeup s t
    → let (c, s') = trydown_semaphore s in NoLostWakeup s' t
unfolding trydown_semaphore NoLostWakeup
trydown_semaphore-NoLostWakeup s t before = elim (Bool-cases (is_free s)) [
  | inl e ↦ rw (e) (λ free. before e)
  | inr e ↦ rw (e) (λ free. absurd (true≢false (sym free ∙ e)))
]

-- What a test of `down_semaphore` leaves.
unfoldable pub AfterDown : Table → Down → Type 0
AfterDown t (taken s) = NoLostWakeup s t
AfterDown t (sleeps s u) = NoLostWakeup s u

-- A process that finds the semaphore taken goes to sleep only then.
pub down_test-NoLostWakeup :
    (i : ℕ) (s : Semaphore) (t : Table) → NoLostWakeup s t → AfterDown t (down_test i s t)
unfolding down_test NoLostWakeup AfterDown
down_test-NoLostWakeup i s t before = elim (Bool-cases (is_free s)) [
  | inl e ↦ rw (e) (λ free. before e)
  | inr e ↦ rw (e) (λ free. absurd (true≢false (sym free ∙ e)))
]

unlinked_rest :
    (i p : ℕ) (x : Waiter) (xs : List Waiter)
    → (Waits p (unlink i xs) → Waits p xs)
    → Waits p (x ∷ unlink i xs)
    → Waits p (x ∷ xs)
unfolding Waits
unlinked_rest i p x xs rest (inl e) = inl e
unlinked_rest i p x xs rest (inr w) = inr (rest w)

unlinked : (i p : ℕ) (q : List Waiter) → Waits p (unlink i q) → Waits p q
unfolding unlink Waits
unlinked i p [] w = w
unlinked i p (x ∷ xs) w = elim (Bool-cases (x.id == i)) [
  | inl e ↦ inr (rw (e) at w)
  | inr e ↦ unlinked_rest i p x xs (unlinked i p xs) (rw (e) at w)
]

unlinked-NoLostWakeup :
    (i : ℕ) (s : Semaphore) (t : Table)
    → NoLostWakeup s t
    → NoLostWakeup (record s { wait = unlink i s.wait }) t
unfolding NoLostWakeup
unlinked-NoLostWakeup i s t before free p w = before free p (unlinked i p s.wait w)

-- If no wake-up was lost before, a process that comes back from `schedule` never stops the kernel,
-- and loses no wake-up.
pub down_again-NoLostWakeup :
    (i : ℕ) (s : Semaphore) (t : Table)
    → NoLostWakeup s t
    → (d : Down) × (down_again i s t ≡ ok d) × AfterDown t d
unfolding down_again
down_again-NoLostWakeup i s t before =
    let q = record s { wait = unlink i s.wait } in
    (down_test i q t, refl, down_test-NoLostWakeup i q t (unlinked-NoLostWakeup i s t before))
