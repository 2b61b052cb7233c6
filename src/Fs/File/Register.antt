-- ===== src/Fs/File/Register.antt =====
-- The search for a free descriptor.
use haoud_os.Base.{
  ℕ, zero, suc, ◌+◌, ◌<◌, ◌≡◌, ◌≢◌, inl, inr, Option, none, some, List, [], ◌∷◌, get_or, length,
  arith, refl, Option-cases,
}
use haoud_os.Fs.File.{
  Store, table, entry, set_entry, find_free_fd, found_free_process_fd, register_open_file,
}

-- No entry is free.
abbrev pub IsFull : List (Option ℕ) → Type 0
IsFull os = (k : ℕ) → k < length os → get_or os k none ≢ none

IsFull-cons : (f : ℕ) (os : List (Option ℕ)) → IsFull os → IsFull (some f ∷ os)
IsFull-cons f os full zero h e = absurd (ground arith)
IsFull-cons f os full (suc k) h e = full k (omega arith) e

pub find_free_fd-none : (i : ℕ) (os : List (Option ℕ)) → find_free_fd i os ≡ none → IsFull os
unfolding find_free_fd
find_free_fd-none i [] e = λ k h. absurd (omega arith)
find_free_fd-none i (none ∷ os) e = absurd (ground arith)
find_free_fd-none i (some f ∷ os) e = IsFull-cons f os (find_free_fd-none (i + 1) os e)

-- The entry found is free, and those before it are not.
pub find_free_fd-some :
    (i : ℕ) (os : List (Option ℕ)) (j : ℕ)
    → find_free_fd i os ≡ some j
    → (k : ℕ) × (j ≡ i + k)
      × (k < length os)
      × (get_or os k none ≡ none)
      × ((m : ℕ) → m < k → get_or os m none ≢ none)
unfolding find_free_fd
find_free_fd-some i [] j e = absurd (ground arith)
find_free_fd-some i (none ∷ os) j e =
    (0, ground arith, omega arith, refl, λ m h. absurd (omega arith))
find_free_fd-some i (some f ∷ os) j e =
    let (k, ej, hk, free, before) = find_free_fd-some (i + 1) os j e in
    (suc k, omega arith, omega arith, free, first_cons f os k before)
  where
    first_cons :
        (f : ℕ) (os : List (Option ℕ)) (k : ℕ)
        → ((m : ℕ) → m < k → get_or os m none ≢ none)
        → (m : ℕ) → m < suc k
        → get_or (some f ∷ os) m none ≢ none
    first_cons f os k before zero h e = absurd (ground arith)
    first_cons f os k before (suc m) h e = before m (omega arith) e

-- The first free descriptor gets the file, or there is none and nothing changes.
pub data Registered (p f : ℕ) (s : Store) : ℕ × ℕ × Store → Type 0 where
  registered :
      (fd : ℕ)
      → fd < length (table s p)
      → entry s p fd ≡ none
      → ((m : ℕ) → m < fd → entry s p m ≢ none)
      → Registered p f s (0, fd, set_entry p fd (some f) s)
  full : IsFull (table s p) → Registered p f s (3, 0, s)

at_found :
    (p f j k : ℕ) (s : Store)
    → j ≡ k
    → k < length (table s p)
    → entry s p k ≡ none
    → ((m : ℕ) → m < k → entry s p m ≢ none)
    → Registered p f s (0, j, set_entry p j (some f) s)
at_found p f j k s e h free before =
    registered j (omega arith) (rw (e) free) (λ m hm. before m (omega arith))

pub register_open_file_lem : (p f : ℕ) (s : Store) → Registered p f s (register_open_file p f s)
unfolding register_open_file
register_open_file_lem p f s = elim (Option-cases (find_free_fd 0 (table s p))) [
  | inl e ↦ rw (found_free_process_fd, e) (full (find_free_fd-none 0 (table s p) e))
  | inr (j, e) ↦
      let (k, ej, hk, free, before) = find_free_fd-some 0 (table s p) j e in
      rw (found_free_process_fd, e) (at_found p f j k s (omega arith) hk free before)
]
