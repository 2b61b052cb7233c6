-- ===== src/Mm/Phys/Accounting.antt =====
-- The statistics of the page allocator of core/mm/phys.c, as a count over `mem_map`.
use haoud_os.Base.{
  ℕ, zero, suc, ◌+◌, ◌^◌, ◌≤◌, ◌<◌, ◌≡◌, ◌≢◌, none, some, List, [], ◌∷◌, length, get_or, set,
  replicate, ◌==◌, if◌then◌else◌, arith, refl,
}
use haoud_os.Mm.Phys.{PhysMem, mem_map_size, find_free}

-- How many pages have a count of zero.
abbrev pub free_flag : ℕ → ℕ
free_flag c = if c == 0 then 1 else 0

unfoldable pub free_count : List ℕ → ℕ
free_count [] = 0
free_count (c ∷ cs) = free_flag c + free_count cs

pub free_count-le : (cs : List ℕ) → free_count cs ≤ length cs
unfolding free_count
free_count-le [] = omega arith
free_count-le (c ∷ cs) = ground (arith, free_count-le cs)

pub free_count-set :
    (cs : List ℕ) (i v : ℕ)
    → i < length cs
    → free_count (set cs i v) + free_flag (get_or cs i 0) ≡ free_count cs + free_flag v
unfolding free_count
free_count-set [] i v h = elim h [ ]
free_count-set (c ∷ cs) zero v h = ground arith
free_count-set (c ∷ cs) (suc i) v h = omega (arith, free_count-set cs i v (omega arith))

pub free_count-replicate : (n : ℕ) → free_count (replicate n 0) ≡ n
unfolding free_count
free_count-replicate zero = refl
free_count-replicate (suc n) = omega (arith, free_count-replicate n)

-- The counters are those of the array, and the array is one of a 32-bit machine.
pub record IsConsistent (m : PhysMem) : Type 0 where
  pub nonempty : 0 < mem_map_size m
  pub small : mem_map_size m ≤ 2 ^ 20
  pub free : m.free_page_nr ≡ free_count m.mem_map
  pub used : m.used_page_nr + m.free_page_nr ≡ mem_map_size m

-- What the scan returns is a free entry of the part it looks at.
pub find_free-some :
    (n i : ℕ) (cs : List ℕ) (j : ℕ)
    → find_free n i cs ≡ some j
    → (k : ℕ) × (j ≡ i + k) × (k < n) × (k < length cs) × (get_or cs k 0 ≡ 0)
unfolding find_free
find_free-some zero i cs j e = absurd (ground arith)
find_free-some (suc n) i [] j e = absurd (ground arith)
find_free-some (suc n) i (zero ∷ cs) j e = (0, ground arith, omega arith, omega arith, refl)
find_free-some (suc n) i (suc c ∷ cs) j e =
    let (k, ej, hn, hl, h0) = find_free-some n (i + 1) cs j (ground arith) in
    (suc k, omega arith, omega arith, omega arith, h0)

-- And it finds nothing only where nothing is free.
pub find_free-none :
    (n i : ℕ) (cs : List ℕ)
    → find_free n i cs ≡ none
    → (k : ℕ) → k < n
    → k < length cs
    → get_or cs k 0 ≢ 0
unfolding find_free
find_free-none zero i cs e k hn hl = absurd (omega arith)
find_free-none (suc n) i [] e k hn hl = absurd (omega arith)
find_free-none (suc n) i (zero ∷ cs) e k hn hl = absurd (ground arith)
find_free-none (suc n) i (suc c ∷ cs) e zero hn hl = omega arith
find_free-none (suc n) i (suc c ∷ cs) e (suc k) hn hl =
    find_free-none n (i + 1) cs (ground arith) k (omega arith) (omega arith)
