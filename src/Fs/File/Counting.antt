-- ===== src/Fs/File/Counting.antt =====
-- References as a count of descriptors: what each small step does to the balance.
use haoud_os.Base.{
  ℕ, ◌+◌, ◌^◌, ◌<◌, ◌≤◌, ◌≡◌, ◌≢◌, ◌⊎◌, inl, inr, Option, none, some, List, [], ◌∷◌, set, length,
  length-set, get_or-set_self, get_or-set_ne, get_or_outside, total, total-set, ◌==◌, if◌then◌else◌,
  arith, sym, ap, decide_equal, in_or_out,
}
use haoud_os.Fs.File.{
  OpenFile, Store, zero_file, file, memory_count, table, entry, set_entry, set_ref,
}

-- One if the entry is file `f`.
abbrev pub points : ℕ → Option ℕ → ℕ
points f none = 0
points f (some g) = if g == f then 1 else 0

-- How many descriptors of all processes stand for file `f`.
abbrev pub holders : ℕ → Store → ℕ
holders f s = total (total (points f)) s.tables

-- The counts, but for one reference to `plus` that no descriptor has yet, and one to `minus` that a
-- descriptor has but is not counted any more.
unfoldable pub Owes : Option ℕ → Option ℕ → Store → Type 0
Owes plus minus s = (g : ℕ) → (file s g).ref + points g minus ≡ holders g s + points g plus

-- One if the file is in use and stands for inode `i`.
abbrev pub on : ℕ → OpenFile → ℕ
on i x = if x.inode == i then (if x.ref == 0 then 0 else 1) else 0

-- Every inode is referenced by at least the files in use that stand for it.
unfoldable pub InodesHeld : Store → Type 0
InodesHeld s = (i : ℕ) → total (on i) s.files ≤ memory_count s i

abbrev pub Fits : Store → Type 0
Fits s = total length s.tables + 1 < 2 ^ 32

-- `ref` of each file is the number of descriptors for it.
pub record Sound (s : Store) : Type 0 where
  pub refs : Owes none none s
  pub inodes : InodesHeld s
  pub fits : Fits s

points-le : (f : ℕ) (o : Option ℕ) → points f o ≤ 1
points-le f none = omega arith
points-le f (some g) = ground arith

points-le_length : (f : ℕ) (os : List (Option ℕ)) → total (points f) os ≤ length os
points-le_length f [] = omega arith
points-le_length f (o ∷ os) = omega (arith, points-le f o, points-le_length f os)

holders-le_length :
    (f : ℕ) (ts : List (List (Option ℕ))) → total (total (points f)) ts ≤ total length ts
holders-le_length f [] = omega arith
holders-le_length f (t ∷ ts) = omega (arith, points-le_length f t, holders-le_length f ts)

pub holders-small : (f : ℕ) (s : Store) → Fits s → holders f s + 1 < 2 ^ 32
holders-small f s h = omega (arith, holders-le_length f s.tables)

-- A descriptor that changes.
pub holders-set_entry :
    (g p fd : ℕ) (o : Option ℕ) (s : Store)
    → p < length s.tables
    → fd < length (table s p)
    → holders g (set_entry p fd o s) + points g (entry s p fd) ≡ holders g s + points g o
holders-set_entry g p fd o s hp hf =
    let inner = total-set (points g) (table s p) fd o none hf in
    let outer = total-set (total (points g)) s.tables p (set (table s p) fd o) [] hp in
    omega (arith, inner, outer)

pub Fits-set_entry :
    (p fd : ℕ) (o : Option ℕ) (s : Store) → p < length s.tables → Fits s → Fits (set_entry p fd o s)
Fits-set_entry p fd o s hp h =
    let outer = total-set length s.tables p (set (table s p) fd o) [] hp in
    omega (arith, outer, length-set (table s p) fd o)

-- The reference in hand goes into the table, and that which the entry had is gone.
pub Owes-set_entry :
    (p fd : ℕ) (o : Option ℕ) (s : Store)
    → p < length s.tables
    → fd < length (table s p)
    → Owes o (entry s p fd) s
    → Owes none none (set_entry p fd o s)
unfolding Owes
Owes-set_entry p fd o s hp hf owes g = omega (arith, owes g, holders-set_entry g p fd o s hp hf)

-- An entry that is taken out of the table leaves its reference in hand.
pub Owes-clear_entry :
    (p fd : ℕ) (s : Store)
    → p < length s.tables
    → fd < length (table s p)
    → Owes none none s
    → Owes (entry s p fd) none (set_entry p fd none s)
unfolding Owes
Owes-clear_entry p fd s hp hf owes g = omega (arith, owes g, holders-set_entry g p fd none s hp hf)

-- A file that has a reference is one of the store's.
pub in_store : (f : ℕ) (s : Store) → 0 < (file s f).ref → f < length s.files
in_store f s h = elim (in_or_out f (length s.files)) [
  | inl inside ↦ inside
  | inr out ↦ absurd (omega (arith, ap OpenFile.ref (get_or_outside s.files f zero_file out)))
]

-- The other counts, and that of the file itself.
pub ref-set_ref :
    (f n g : ℕ) (s : Store)
    → f < length s.files
    → ((f ≢ g) × (file (set_ref f n s) g ≡ file s g))
      ⊎ ((f ≡ g) × ((file (set_ref f n s) g).ref ≡ n))
ref-set_ref f n g s h = elim (decide_equal f g) [
  | inl e ↦ inr (
    e,
    rw (sym e)
        (ap OpenFile.ref (get_or-set_self s.files f (record (file s f) { ref = n }) zero_file h)),
  )
  | inr e ↦ inl (e, get_or-set_ne s.files f g (record (file s f) { ref = n }) zero_file e)
]
