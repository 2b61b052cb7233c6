-- ===== src/Process/Schedule/Choice.antt =====
-- FindEligibleProcess: which process runs next, and when the time slices start again.
use haoud_os.Base.{
  ℕ, zero, suc, ◌+◌, ◌<◌, ◌≡◌, ◌≢◌, inl, inr, true, false, none, some, List, [], ◌∷◌, map, length,
  get_or, arith, refl, ap, sym, Bool-cases, Option-cases,
}
use haoud_os.Process.Task.{Process, zero_process, Table, entry, size}
use haoud_os.Process.Schedule.{
  eligible, find_ready, refill, keeps_running, find_after_refill, find_eligible_process,
}

-- The entry found is eligible.
pub find_ready-some :
    (i : ℕ) (ps : List Process) (j : ℕ)
    → find_ready i ps ≡ some j
    → (k : ℕ) × (j ≡ i + k) × (k < length ps) × (eligible (get_or ps k zero_process) ≡ true)
unfolding find_ready
find_ready-some i [] j e = absurd (ground arith)
find_ready-some i (p ∷ ps) j e = elim (Bool-cases (eligible p)) [
  | inl y ↦ (0, ground arith, omega arith, y)
  | inr n ↦
      let (k, ej, hk, y) = find_ready-some (i + 1) ps j (rw (n) at e) in
      (suc k, omega arith, omega arith, y)
]

none≢some : (i : ℕ) → some i ≢ none
none≢some i e = absurd (ground arith)

none_head_tail :
    (p : Process) (ps : List Process)
    → eligible p ≡ false
    → ((k : ℕ) → eligible (get_or ps k zero_process) ≡ false)
    → (k : ℕ) → eligible (get_or (p ∷ ps) k zero_process) ≡ false
none_head_tail p ps n rest zero = n
none_head_tail p ps n rest (suc k) = rest k

pub find_ready-none :
    (i : ℕ) (ps : List Process)
    → find_ready i ps ≡ none
    → (k : ℕ) → eligible (get_or ps k zero_process) ≡ false
unfolding find_ready
find_ready-none i [] e k = refl
find_ready-none i (p ∷ ps) e k = elim (Bool-cases (eligible p)) [
  | inl y ↦ absurd (none≢some i (rw (y) at e))
  | inr n ↦ none_head_tail p ps n (find_ready-none (i + 1) ps (rw (n) at e)) k
]

abbrev pub refilled : Table → Table
refilled t = record t { process_list = map refill t.process_list }

abbrev pub NoneEligible : Table → Type 0
NoneEligible t = (k : ℕ) → eligible (entry t k) ≡ false

-- Which process comes after the current one, and what the choice does to the table.
pub data Chosen (t : Table) : ℕ → Table → Type 0 where
  keeps : keeps_running (entry t t.current) ≡ true → Chosen t t.current t
  found :
      (p : ℕ)
      → keeps_running (entry t t.current) ≡ false
      → p < size t
      → eligible (entry t p) ≡ true
      → Chosen t p t
  found_refilled :
      (p : ℕ)
      → keeps_running (entry t t.current) ≡ false
      → NoneEligible t
      → p < size t
      → eligible (entry (refilled t) p) ≡ true
      → Chosen t p (refilled t)
  nobody :
      keeps_running (entry t t.current) ≡ false
      → NoneEligible t
      → NoneEligible (refilled t)
      → Chosen t t.current (refilled t)

pub get_or-map :
    (f : Process → Process) (ps : List Process) (i : ℕ)
    → f zero_process ≡ zero_process
    → get_or (map f ps) i zero_process ≡ f (get_or ps i zero_process)
get_or-map f [] i e = sym e
get_or-map f (p ∷ ps) zero e = refl
get_or-map f (p ∷ ps) (suc i) e = get_or-map f ps i e

pub length-map : (f : Process → Process) (ps : List Process) → length (map f ps) ≡ length ps
length-map f [] = refl
length-map f (p ∷ ps) = ap suc (length-map f ps)

at_index :
    (ps : List Process) (k j : ℕ)
    → k ≡ j
    → eligible (get_or ps k zero_process) ≡ true
    → eligible (get_or ps j zero_process) ≡ true
at_index ps k j e y = rw (sym e) y

found_at :
    (ps : List Process) (j : ℕ)
    → find_ready 0 ps ≡ some j
    → (j < length ps) × (eligible (get_or ps j zero_process) ≡ true)
found_at ps j e =
    let (k, ej, hk, y) = find_ready-some 0 ps j e in (omega arith, at_index ps k j (omega arith) y)

find_after_refill_lem :
    (t : Table)
    → keeps_running (entry t t.current) ≡ false
    → NoneEligible t
    → let (p, t') = find_after_refill t in Chosen t p t'
find_after_refill_lem t n none_eligible =
    elim (Option-cases (find_ready 0 (map refill t.process_list))) [
      | inl e ↦
          rw (find_after_refill, e)
            (nobody n none_eligible (find_ready-none 0 (map refill t.process_list) e))
      | inr (j, e) ↦
          let (hj, y) = found_at (map refill t.process_list) j e in
          rw (find_after_refill, e)
            (found_refilled j n none_eligible (omega (arith, length-map refill t.process_list)) y)
    ]

find_lem :
    (t : Table)
    → keeps_running (entry t t.current) ≡ false
    → let (p, t') = find_eligible_process t in Chosen t p t'
unfolding find_eligible_process
find_lem t n = elim (Option-cases (find_ready 0 t.process_list)) [
  | inl e ↦ rw (n, e) (find_after_refill_lem t n (find_ready-none 0 t.process_list e))
  | inr (j, e) ↦ let (hj, y) = found_at t.process_list j e in rw (n, e) (found j n hj y)
]

-- The current process goes on while it runs and has time left. Otherwise the process chosen is ready
-- with time left; the time slices start again only if there is no such process, and the current one
-- is returned only if there is none after that either.
pub find_eligible_process_lem : (t : Table) → let (p, t') = find_eligible_process t in Chosen t p t'
unfolding find_eligible_process
find_eligible_process_lem t = elim (Bool-cases (keeps_running (entry t t.current))) [
  | inl y ↦ rw (y) (keeps y)
  | inr n ↦ find_lem t n
]

-- What the choice leaves: the current process, the size of the table, and a process that is in it.
pub Chosen-bounds :
    (t : Table) (p : ℕ) (t' : Table)
    → Chosen t p t'
    → t.current < size t
    → (t'.current ≡ t.current) × (size t' ≡ size t) × (p < size t)
Chosen-bounds t _ _ (keeps y) h = (refl, refl, h)
Chosen-bounds t _ _ (found p n hp y) h = (refl, refl, hp)
Chosen-bounds t _ _ (found_refilled p n absent hp y) h =
    (refl, length-map refill t.process_list, hp)
Chosen-bounds t _ _ (nobody n absent absent') h = (refl, length-map refill t.process_list, h)
