-- ===== src/Time/Clock/Tick.antt =====
-- The tick of arch/i386/i8254.c, and the processes after it.
use mathlib.Core.Path.{subst}
use native.Mathlib.Nat.{mul_comm, mul-add}
use haoud_os.Base.{
  ℕ, ◌+◌, ◌*◌, ◌^◌, ◌<◌, ◌≡◌, inl, inr, true, List, [], ◌∷◌, ◌==◌, add32, arith, refl, ap, sym, ◌∙◌,
  Bool-cases, in_or_out,
}
use haoud_os.Process.Task.{
  ready, running, is_running, Process, Table, entry, size, modify, entry-modify, size-modify,
  modify_outside,
}
use haoud_os.Process.Schedule.{scheduler_core}
use haoud_os.Process.Schedule.Running.{OnlyRuns, scheduler_core-OnlyRuns}
use haoud_os.Time.Timer.{Timer, Timers, is_expired, update_timers}
use haoud_os.Time.Timer.Expire.{expire_first, update_timers_lem}
use haoud_os.Time.Clock.{Kernel, process_timeout, advance, charge, charge_current, timer_tick}

-- Ticks since the start.
abbrev pub elapsed : Kernel → ℕ
elapsed k = k.sec * k.current_frequency + k.tick

full_second :
    (sec tick f sec' : ℕ) → sec' ≡ sec + 1 → tick + 1 ≡ f → sec' * f + 0 ≡ sec * f + tick + 1
full_second sec tick f sec' e e' =
    omega (arith, ap (λ x. x * f) e, mul_comm (sec + 1) f, mul-add f sec 1, mul_comm f sec)

-- A tick adds one to the ticks since the start, and the tick in the second stays below the frequency.
pub advance_lem :
    (k : Kernel)
    → k.tick < k.current_frequency
    → k.current_frequency < 2 ^ 32
    → k.sec + 1 < 2 ^ 32
    → (elapsed (advance k) ≡ elapsed k + 1) × ((advance k).tick < k.current_frequency)
unfolding advance
advance_lem k ht hf hs = elim (Bool-cases (add32 k.tick 1 == k.current_frequency)) [
  | inl e ↦ rw (e) (
    full_second k.sec k.tick k.current_frequency (add32 k.sec 1) (omega arith) (ground arith),
    ground arith,
  )
  | inr n ↦ rw (n) (omega arith, ground arith)
]

-- What the tick needs of a table, and keeps.
abbrev pub Sound : Table → Type 0
Sound t = (t.current < size t) × OnlyRuns t

modified-Sound :
    (i : ℕ) (f : Process → Process) (t : Table)
    → i < size t
    → (is_running (f (entry t i)).state ≡ true → i ≡ t.current)
    → Sound t
    → Sound (modify i f t)
unfolding OnlyRuns
modified-Sound i f t hi runs (hc, only) = (
  omega (arith, size-modify i f t),
  λ j h. elim (entry-modify i j f t hi) [
    | inl (n, e) ↦ only j (rw (e) at h)
    | inr (e, e') ↦ sym e ∙ runs (rw (e', sym e) at h)
  ],
)

-- A change of a process that runs after it only if it is the current one.
modify-Sound :
    (i : ℕ) (f : Process → Process) (t : Table)
    → (is_running (f (entry t i)).state ≡ true → i ≡ t.current)
    → Sound t
    → Sound (modify i f t)
modify-Sound i f t runs s = elim (in_or_out i (size t)) [
  | inl h ↦ modified-Sound i f t h runs s
  | inr h ↦ subst Sound (sym (modify_outside i f t h)) s
]

charge-Sound : (cs : ℕ) (t : Table) → Sound t → Sound (charge_current cs t)
charge-Sound cs t s = modify-Sound t.current (charge cs) t (λ h. refl) s

pub process_timeout-Sound : (i : ℕ) (t : Table) → Sound t → Sound (process_timeout i t)
unfolding process_timeout
process_timeout-Sound i t s = elim (Bool-cases (i == t.current)) [
  | inl e ↦ rw (e) (modify-Sound i (λ p. record p { state = running }) t (λ h. ground arith) s)
  | inr e ↦ rw (e) (modify-Sound i (λ p. record p { state = ready }) t (λ h. ground arith) s)
]

scheduled-Sound :
    (place : ℕ) (t : Table) → Sound t → let (e, t') = scheduler_core place t in OnlyRuns t'
scheduled-Sound place t s = scheduler_core-OnlyRuns place t s.0 s.1

module _ (call : ℕ → ℕ → Table → Table) where
  -- The functions of the timers in the list keep the table sound.
  unfoldable pub CallsKeep : List Timer → Type 0
  CallsKeep [] = true ≡ true
  CallsKeep (x ∷ xs) =
      ((t : Table) → Sound t → Sound (call x.expire_function x.data_arg t)) × CallsKeep xs

  expire_first-Sound :
      (sec tick : ℕ) (xs : List Timer) (t : Table)
      → CallsKeep xs
      → Sound t
      → Sound (expire_first call sec tick (record { timer_list = xs; world = t })).world
  unfolding CallsKeep
  expire_first-Sound sec tick [] t keep s = s
  expire_first-Sound sec tick (x ∷ xs) t keep s = elim (Bool-cases (is_expired sec tick x)) [
    | inl e ↦ rw (e) (keep.0 t s)
    | inr e ↦ rw (e) s
  ]

  timers-Sound :
      (sec tick : ℕ) (s : Timers Table)
      → CallsKeep s.timer_list
      → Sound s.world
      → Sound (update_timers call sec tick 2 s).world
  timers-Sound sec tick s keep sound =
      rw (update_timers_lem call sec tick 0 s)
        (expire_first-Sound sec tick s.timer_list s.world keep sound)

  advance_timers : (k : Kernel) → (advance k).timers ≡ k.timers
  unfolding advance
  advance_timers k = ground arith

  -- If the current process is in the table and is the only one that is marked as running, and the
  -- functions of the timers keep it so, then it is so after every tick too.
  pub timer_tick-OnlyRuns :
      (cs place : ℕ) (k : Kernel)
      → CallsKeep k.timers.timer_list
      → k.timers.world.current < size k.timers.world
      → OnlyRuns k.timers.world
      → let (e, k') = timer_tick call cs place k in OnlyRuns k'.timers.world
  unfolding timer_tick
  timer_tick-OnlyRuns cs place k keep hc only = rw (advance_timers k) (
      scheduled-Sound place
        (update_timers call (advance k).sec (advance k).tick 2
          (record k.timers { world = charge_current cs k.timers.world })).world
        (timers-Sound (advance k).sec (advance k).tick
          (record k.timers { world = charge_current cs k.timers.world }) keep
          (charge-Sound cs k.timers.world (hc, only))))
