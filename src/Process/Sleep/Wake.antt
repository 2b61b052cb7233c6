-- ===== src/Process/Sleep/Wake.antt =====
-- wake_up, and sleeps with a deadline.
use haoud_os.Base.{
  ℕ, ◌<◌, ◌≡◌, ◌≢◌, ◌⊎◌, inl, inr, true, false, Option, none, some, List, [], ◌∷◌, ◌++◌, ◌==◌,
  arith, refl, ap, ◌∙◌, true≢false, in_or_out,
}
use haoud_os.Process.Task.{
  TaskState, ready, running, blocked_uninterruptible, Process, Table, entry, size, entry-modify,
  entry-modify_self, entry-modify_ne, size-modify, modify_outside,
}
use haoud_os.Process.Sleep.{
  Waiter, set_state, wake_process, wake_up, timeout_timer, schedule_timeout_begin,
}
use haoud_os.Time.Timer.{Timer, Timers, set_timer, add_timer}
use haoud_os.Time.Timer.Insert.{Added, called, queued, add_timer_lem}
use haoud_os.Time.Clock.{process_timeout}

-- Process `p` waits in the queue.
unfoldable pub Waits : ℕ → List Waiter → Type 0
Waits p [] = true ≡ false
Waits p (w ∷ ws) = (w.process ≡ some p) ⊎ Waits p ws

size-wake_process : (o : Option ℕ) (t : Table) → size (wake_process o t) ≡ size t
size-wake_process none t = refl
size-wake_process (some i) t = size-modify i (λ p. record p { state = ready }) t

pub size-wake_up : (q : List Waiter) (t : Table) → size (wake_up q t) ≡ size t
unfolding wake_up
size-wake_up [] t = refl
size-wake_up (w ∷ ws) t = size-wake_up ws (wake_process w.process t) ∙ size-wake_process w.process t

-- A change of state that is out of bounds or to `s` leaves a process in state `s` as it is.
pub set_state_keeps :
    (s : TaskState) (i p : ℕ) (t : Table)
    → (entry t p).state ≡ s
    → (entry (set_state s i t) p).state ≡ s
set_state_keeps s i p t h = elim (in_or_out i (size t)) [
  | inr out ↦ ap (λ u. (entry u p).state) (modify_outside i (λ q. record q { state = s }) t out) ∙ h
  | inl hi ↦ elim (entry-modify i p (λ q. record q { state = s }) t hi) [
    | inl (n, e) ↦ ap Process.state e ∙ h
    | inr (_, e) ↦ ap Process.state e
  ]
]

pub set_state_self :
    (s : TaskState) (i : ℕ) (t : Table) → i < size t → (entry (set_state s i t) i).state ≡ s
set_state_self s i t h = ap Process.state (entry-modify_self i (λ q. record q { state = s }) t h)

wake_process_keeps :
    (o : Option ℕ) (p : ℕ) (t : Table)
    → (entry t p).state ≡ ready
    → (entry (wake_process o t) p).state ≡ ready
wake_process_keeps none p t h = h
wake_process_keeps (some i) p t h = set_state_keeps ready i p t h

wake_up_keeps :
    (q : List Waiter) (p : ℕ) (t : Table)
    → (entry t p).state ≡ ready
    → (entry (wake_up q t) p).state ≡ ready
unfolding wake_up
wake_up_keeps [] p t h = h
wake_up_keeps (w ∷ ws) p t h =
    wake_up_keeps ws p (wake_process w.process t) (wake_process_keeps w.process p t h)

woken :
    (o : Option ℕ) (p : ℕ) (t : Table)
    → o ≡ some p
    → p < size t
    → (entry (wake_process o t) p).state ≡ ready
woken o p t e h = rw (e) (set_state_self ready p t h)

-- Every process that waits in the queue is ready afterwards.
pub wake_up_lem :
    (q : List Waiter) (p : ℕ) (t : Table)
    → Waits p q
    → p < size t
    → (entry (wake_up q t) p).state ≡ ready
unfolding Waits wake_up
wake_up_lem [] p t w h = absurd (true≢false w)
wake_up_lem (w ∷ ws) p t (inl e) h =
    wake_up_keeps ws p (wake_process w.process t) (woken w.process p t e h)
wake_up_lem (w ∷ ws) p t (inr r) h =
    wake_up_lem ws p (wake_process w.process t) r (omega (arith, size-wake_process w.process t))

not_first : (o : Option ℕ) (p : ℕ) (t : Table) → o ≢ some p → entry (wake_process o t) p ≡ entry t p
not_first none p t n = refl
not_first (some i) p t n =
    entry-modify_ne i p (λ q. record q { state = ready }) t (λ e. n (ap some e))

-- No other process is touched.
pub wake_up_others :
    (q : List Waiter) (p : ℕ) (t : Table) → ¬ Waits p q → entry (wake_up q t) p ≡ entry t p
unfolding Waits wake_up
wake_up_others [] p t n = refl
wake_up_others (w ∷ ws) p t n =
    wake_up_others ws p (wake_process w.process t) (λ r. n (inr r))
    ∙ not_first w.process p t (λ e. n (inl e))

module _ (call : ℕ → ℕ → Table → Table) (timeout_fn : ℕ) (sec tick : ℕ) where
  -- Somebody will make process `p` run again: it is not asleep, or a timer for it is in the list.
  pub data WillWake (p : ℕ) (s : Timers Table) : Type 0 where
    awake : (entry s.world p).state ≡ running → WillWake p s
    timed :
        (before after : List Timer) (x : Timer)
        → s.timer_list ≡ before ++ (x ∷ after)
        → x.data_arg ≡ p
        → x.expire_function ≡ timeout_fn
        → WillWake p s

  set_timer_fields :
      (millis : ℕ) (x : Timer)
      → let y = set_timer sec tick millis x in
        (y.data_arg ≡ x.data_arg) × (y.expire_function ≡ x.expire_function)
  unfolding set_timer
  set_timer_fields millis x = (ground arith, ground arith)

  timed_out :
      (p : ℕ) (t : Table)
      → p ≡ t.current
      → p < size t
      → (entry (process_timeout p t) p).state ≡ running
  unfolding process_timeout
  timed_out p t e h =
      let same : (p == t.current) ≡ true = ground arith in rw (same) (set_state_self running p t h)

  Added-wakes :
      (x : Timer) (s s' : Timers Table)
      → ((d : ℕ) (t : Table) → call timeout_fn d t ≡ process_timeout d t)
      → x.data_arg ≡ s.world.current
      → x.expire_function ≡ timeout_fn
      → s.world.current < size s.world
      → Added call sec tick x s s'
      → WillWake s.world.current s'
  Added-wakes x s _ is_timeout d f h (called e) =
      awake
        (rw (d, f, is_timeout s.world.current s.world) (timed_out s.world.current s.world refl h))
  Added-wakes x s _ is_timeout d f h (queued before after e split) = timed before after x refl d f

  -- Where the callback is `process_timeout` and the current process is in the table, a sleep with a
  -- deadline never begins without the timer that ends it: if the deadline is the present tick, the
  -- process is awake again.
  pub schedule_timeout_lem :
      ((d : ℕ) (t : Table) → call timeout_fn d t ≡ process_timeout d t)
      → (place millis : ℕ) (s : Timers Table) → s.world.current < size s.world
      → WillWake s.world.current (schedule_timeout_begin call timeout_fn sec tick place millis s)
  schedule_timeout_lem is_timeout place millis s h =
      let x = timeout_timer call timeout_fn sec tick place millis s.world in
      let blocked = record s {
        world = set_state blocked_uninterruptible s.world.current s.world;
      } in
      let fields = set_timer_fields millis (record {
        id = place;
        sec_expire = 0;
        tick_expire = 0;
        data_arg = s.world.current;
        expire_function = timeout_fn;
      }) in
      Added-wakes x blocked (add_timer call sec tick (some x) blocked) is_timeout fields.0 fields.1
        (omega (
          arith,
          size-modify s.world.current (λ p. record p { state = blocked_uninterruptible }) s.world,
        ))
        (add_timer_lem call sec tick x blocked)
