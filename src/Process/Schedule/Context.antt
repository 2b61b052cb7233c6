-- ===== src/Process/Schedule/Context.antt =====
-- SchedulerCore: the registers that are saved and restored.
use mathlib.Core.Path.{subst}
use haoud_os.Base.{ℕ, ◌<◌, ◌≡◌, inl, inr, ◌==◌, arith, refl, ap, sym, ◌∙◌, Bool-cases}
use haoud_os.Process.Task.{
  Process, Table, entry, size, modify, entry-modify_self, size-modify, entry-modify,
}
use haoud_os.Process.Schedule.{
  wake_signaled, leave, run, save_context, find_eligible_process, switch_to, wake, resume,
  scheduler_core,
}
use haoud_os.Process.Schedule.Choice.{Chosen, Chosen-bounds, length-map, find_eligible_process_lem}

keeps_context :
    (i j : ℕ) (f : Process → Process) (t : Table)
    → i < size t
    → (f (entry t j)).cpu_contexte ≡ (entry t j).cpu_contexte
    → (entry (modify i f t) j).cpu_contexte ≡ (entry t j).cpu_contexte
keeps_context i j f t h same = elim (entry-modify i j f t h) [
  | inl (n, e) ↦ ap Process.cpu_contexte e
  | inr (_, e) ↦ ap Process.cpu_contexte e ∙ same
]

saved_context :
    (s : ℕ) (t : Table)
    → t.current < size t
    → (entry (modify t.current (save_context s) t) t.current).cpu_contexte ≡ s
saved_context s t h = ap Process.cpu_contexte (entry-modify_self t.current (save_context s) t h)

switched_context :
    (p : ℕ) (t : Table)
    → p < size t
    → t.current < size t
    → let (e, t') = switch_to p t in
      (entry t' t.current).cpu_contexte ≡ (entry t t.current).cpu_contexte
unfolding switch_to
switched_context p t hp hc =
    let left = modify t.current (leave t) t in
    keeps_context p t.current run left (omega (arith, size-modify t.current (leave t) t)) refl
    ∙ keeps_context t.current t.current (leave t) t hc refl

switched_to :
    (p : ℕ) (t : Table)
    → let (e, t') = switch_to p t in (e ≡ (entry t' t'.current).cpu_contexte) × (t'.current ≡ p)
unfolding switch_to
switched_to p t = (refl, refl)

abbrev Resumes : ℕ → ℕ → ℕ → (ℕ × Table) → Type 0
Resumes s p c (e, t') =
    (e ≡ (entry t' t'.current).cpu_contexte) × (t'.current ≡ p) × ((entry t' c).cpu_contexte ≡ s)

same-Resumes :
    (s p : ℕ) (t : Table)
    → p ≡ t.current
    → t.current < size t
    → Resumes s p t.current (s, modify t.current (save_context s) t)
same-Resumes s p t e h = (sym (saved_context s t h), sym e, saved_context s t h)

switch-Resumes :
    (s p : ℕ) (t : Table)
    → p < size t
    → t.current < size t
    → Resumes s p t.current (switch_to p (modify t.current (save_context s) t))
switch-Resumes s p t hp h =
    let saved = modify t.current (save_context s) t in
    let same_size = size-modify t.current (save_context s) t in
    let (e, c) = switched_to p saved in
    (
      e,
      c,
      switched_context p saved (omega (arith, same_size)) (omega (arith, same_size))
          ∙ saved_context s t h,
    )

resume_context :
    (s p : ℕ) (t : Table) → p < size t → t.current < size t → Resumes s p t.current (resume s p t)
unfolding resume
resume_context s p t hp h = elim (Bool-cases (p == t.current)) [
  | inl e ↦ rw (e) (same-Resumes s p t (ground arith) h)
  | inr n ↦ rw (n) (switch-Resumes s p t hp h)
]

context_after_choice :
    (s : ℕ) (t : Table) (p : ℕ) (t' : Table)
    → Chosen t p t'
    → t.current < size t
    → Resumes s p t.current (resume s p t')
context_after_choice s t p t' c h =
    let (ec, es, hp) = Chosen-bounds t p t' c h in
    let out = resume_context s p t' (omega arith) (omega arith) in
    subst (λ i. Resumes s p i (resume s p t')) ec out

-- If the current process is in the table, the process that `find_eligible_process` chooses becomes
-- the current one, the registers that come out are those saved for it, and those of the process
-- that was interrupted are kept in its entry.
pub scheduler_core_lem :
    (s : ℕ) (t : Table)
    → t.current < size t
    → let (e, t') = scheduler_core s t in
      let (p, chosen) = find_eligible_process (wake t) in
      (e ≡ (entry t' t'.current).cpu_contexte)
      × (t'.current ≡ p)
      × ((entry t' t.current).cpu_contexte ≡ s)
unfolding scheduler_core
scheduler_core_lem s t h =
    let (p, t') = find_eligible_process (wake t) in
    context_after_choice s (wake t) p t' (find_eligible_process_lem (wake t))
      (omega (arith, length-map wake_signaled t.process_list))
