-- ===== src/Process/Schedule/Running.antt =====
-- SchedulerCore: the states of the processes.
use haoud_os.Base.{
  ℕ, ◌<◌, ◌≡◌, ◌≢◌, inl, inr, true, false, ◌==◌, arith, refl, ap, sym, ◌∙◌, Bool-cases, true≢false,
  decide_equal,
}
use haoud_os.Process.Task.{
  TaskState, is_running, Process, Table, entry, size, modify, entry-modify_ne, size-modify,
  entry-modify,
}
use haoud_os.Process.Schedule.{
  wake_signaled, refill, demote, leave, run, save_context, find_eligible_process, switch_to, wake,
  resume, scheduler_core,
}
use haoud_os.Process.Schedule.Choice.{
  Chosen, Chosen-bounds, keeps, found, found_refilled, nobody, refilled, get_or-map, length-map,
  find_eligible_process_lem,
}

-- Nobody but `current` has the state `TASK_RUNNING`.
unfoldable pub OnlyRuns : Table → Type 0
OnlyRuns t = (i : ℕ) → is_running (entry t i).state ≡ true → i ≡ t.current

woken_state : (p : Process) → is_running (wake_signaled p).state ≡ true → is_running p.state ≡ true
woken_state p h = ground arith

wake-OnlyRuns : (t : Table) → OnlyRuns t → OnlyRuns (wake t)
unfolding OnlyRuns
wake-OnlyRuns t only i h =
    only i (woken_state (entry t i) (rw (get_or-map wake_signaled t.process_list i refl) at h))

refilled-OnlyRuns : (t : Table) → OnlyRuns t → OnlyRuns (refilled t)
unfolding OnlyRuns
refilled-OnlyRuns t only i h = only i (rw (get_or-map refill t.process_list i refl) at h)

Chosen-OnlyRuns : (t : Table) (p : ℕ) (t' : Table) → Chosen t p t' → OnlyRuns t → OnlyRuns t'
Chosen-OnlyRuns t _ _ (keeps y) only = only
Chosen-OnlyRuns t _ _ (found p n hp y) only = only
Chosen-OnlyRuns t _ _ (found_refilled p n none hp y) only = refilled-OnlyRuns t only
Chosen-OnlyRuns t _ _ (nobody n none none') only = refilled-OnlyRuns t only

demote_stops : (s : TaskState) → is_running (demote s) ≡ false
demote_stops s = ground arith

-- A change that keeps the state keeps the invariant.
same_states :
    (t t' : Table)
    → t.current ≡ t'.current
    → ((i : ℕ) → (entry t' i).state ≡ (entry t i).state)
    → OnlyRuns t
    → OnlyRuns t'
unfolding OnlyRuns
same_states t t' e same only i h = only i (rw (same i) at h) ∙ e

saved_state :
    (s : ℕ) (t : Table)
    → t.current < size t
    → (i : ℕ) → (entry (modify t.current (save_context s) t) i).state ≡ (entry t i).state
saved_state s t h i = elim (entry-modify t.current i (save_context s) t h) [
  | inl (n, e) ↦ ap Process.state e
  | inr (_, e) ↦ ap Process.state e
]

not_running :
    (t : Table) → OnlyRuns t → (i : ℕ) → t.current ≢ i → is_running (entry t i).state ≡ false
unfolding OnlyRuns
not_running t only i n = elim (Bool-cases (is_running (entry t i).state)) [
  | inl y ↦ absurd (n (sym (only i y)))
  | inr e ↦ e
]

left_state :
    (t : Table)
    → t.current < size t
    → OnlyRuns t
    → (i : ℕ) → is_running (entry (modify t.current (leave t) t) i).state ≡ false
unfolding OnlyRuns
left_state t h only i = elim (entry-modify t.current i (leave t) t h) [
  | inl (n, e) ↦ rw (e) (not_running t only i n)
  | inr (_, e) ↦ rw (e) (demote_stops (entry t i).state)
]

-- The process that gives way no longer runs, and the next one does.
pub switch_to-OnlyRuns :
    (p : ℕ) (t : Table)
    → p < size t
    → t.current < size t
    → OnlyRuns t
    → let (e, t') = switch_to p t in OnlyRuns t'
unfolding switch_to OnlyRuns
switch_to-OnlyRuns p t hp hc only i h =
    let t' = modify t.current (leave t) t in
    elim (decide_equal p i) [
      | inl e ↦ sym e
      | inr n ↦ absurd (
          true≢false (
            sym h
            ∙ ap is_running (ap Process.state (entry-modify_ne p i run t' n))
            ∙ left_state t hc only i))
    ]

saved-OnlyRuns :
    (s : ℕ) (t : Table)
    → t.current < size t
    → OnlyRuns t
    → OnlyRuns (modify t.current (save_context s) t)
saved-OnlyRuns s t h only =
    same_states t (modify t.current (save_context s) t) refl (saved_state s t h) only

resume-OnlyRuns :
    (s p : ℕ) (t : Table)
    → p < size t
    → t.current < size t
    → OnlyRuns t
    → let (e, t') = resume s p t in OnlyRuns t'
unfolding resume
resume-OnlyRuns s p t hp hc only =
    let saved = modify t.current (save_context s) t in
    let same_size = size-modify t.current (save_context s) t in
    elim (Bool-cases (p == t.current)) [
      | inl e ↦ rw (e) (saved-OnlyRuns s t hc only)
      | inr n ↦ rw (n) (
          switch_to-OnlyRuns p saved (omega (arith, same_size)) (omega (arith, same_size))
            (saved-OnlyRuns s t hc only))
    ]

after_choice :
    (s : ℕ) (t : Table) (p : ℕ) (t' : Table)
    → Chosen t p t'
    → t.current < size t
    → OnlyRuns t
    → let (e, t'') = resume s p t' in OnlyRuns t''
after_choice s t p t' c h only =
    let (ec, es, hp) = Chosen-bounds t p t' c h in
    resume-OnlyRuns s p t' (omega arith) (omega arith) (Chosen-OnlyRuns t p t' c only)

-- If only the current process, which is in the table, is marked as running, that is so after every
-- call of the scheduler.
pub scheduler_core-OnlyRuns :
    (s : ℕ) (t : Table)
    → t.current < size t
    → OnlyRuns t
    → let (e, t') = scheduler_core s t in OnlyRuns t'
unfolding scheduler_core
scheduler_core-OnlyRuns s t h only =
    let (p, t') = find_eligible_process (wake t) in
    after_choice s (wake t) p t' (find_eligible_process_lem (wake t))
      (omega (arith, length-map wake_signaled t.process_list)) (wake-OnlyRuns t only)
