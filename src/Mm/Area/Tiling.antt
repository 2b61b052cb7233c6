-- ===== src/Mm/Area/Tiling.antt =====
-- Areas that follow one another over a range of addresses, and the regions in use among them.
use haoud_os.Base.{
  ℕ, ◌+◌, ◌*◌, ◌^◌, ◌≤◌, ◌<◌, ◌≡◌, inl, inr, Bool-cases, List, [], ◌∷◌, ◌++◌, if◌then◌else◌,
  page_size, arith, refl,
}
use haoud_os.Mm.Heap.{Heap}
use haoud_os.Mm.Area.{VmArea, setup_vm_area}

-- One past the last address of areas that begin at `lo`.
abbrev pub end_of : ℕ → List VmArea → ℕ
end_of lo [] = lo
end_of lo (a ∷ rest) = end_of (lo + a.page_count * page_size) rest

-- Each area begins where the one before it ends.
abbrev pub Follows : ℕ → List VmArea → Type 0
Follows lo [] = Unit {0}
Follows lo (a ∷ rest) =
    (a.base_addr ≡ lo) × (0 < a.page_count) × Follows (lo + a.page_count * page_size) rest

pub record IsTiled (lo hi : ℕ) (areas : List VmArea) : Type 0 where
  pub follows : Follows lo areas
  pub ends : end_of lo areas ≡ hi

-- The regions in use, in the order of their addresses: what a client knows of the areas.
unfoldable pub used_regions : List VmArea → List (ℕ × ℕ)
used_regions [] = []
used_regions (a ∷ rest) =
    if a.used then (a.base_addr, a.page_count) ∷ used_regions rest else used_regions rest

pub end_of-append : (lo : ℕ) (xs ys : List VmArea) → end_of lo (xs ++ ys) ≡ end_of (end_of lo xs) ys
end_of-append lo [] ys = refl
end_of-append lo (a ∷ xs) ys = end_of-append (lo + a.page_count * page_size) xs ys

pub Follows-append :
    (lo : ℕ) (xs ys : List VmArea)
    → Follows lo xs
    → Follows (end_of lo xs) ys
    → Follows lo (xs ++ ys)
Follows-append lo [] ys f g = g
Follows-append lo (a ∷ xs) ys (b, p, f) g =
    (b, p, Follows-append (lo + a.page_count * page_size) xs ys f g)

pub Follows-split :
    (lo : ℕ) (xs ys : List VmArea)
    → Follows lo (xs ++ ys)
    → Follows lo xs × Follows (end_of lo xs) ys
Follows-split lo [] ys f = (tt, f)
Follows-split lo (a ∷ xs) ys (b, p, f) =
    let (g, h) = Follows-split (lo + a.page_count * page_size) xs ys f in ((b, p, g), h)

pub le-end_of : (lo : ℕ) (xs : List VmArea) → lo ≤ end_of lo xs
le-end_of lo [] = omega arith
le-end_of lo (a ∷ xs) = omega (arith, le-end_of (lo + a.page_count * page_size) xs)

pub used_regions-append :
    (xs ys : List VmArea) → used_regions (xs ++ ys) ≡ used_regions xs ++ used_regions ys
unfolding used_regions
used_regions-append [] ys = refl
used_regions-append (a ∷ xs) ys = ground (arith, used_regions-append xs ys)

-- SetupVmArea makes one free area of the whole pages of the range.
pub setup_vm_area-IsTiled :
    (lo pages : ℕ) (heap : Heap)
    → 0 < pages
    → lo + pages * page_size < 2 ^ 32
    → IsTiled lo (lo + pages * page_size) (setup_vm_area lo (lo + pages * page_size) heap).areas
      × (used_regions (setup_vm_area lo (lo + pages * page_size) heap).areas ≡ [])
unfolding setup_vm_area used_regions
setup_vm_area-IsTiled lo pages heap pos small =
    (record { follows = (refl, omega arith, tt); ends = omega arith }, refl)

-- Regions in the order of their addresses, each at or past the end of the one before it.
abbrev pub Ascending : ℕ → List (ℕ × ℕ) → Type 0
Ascending lo [] = Unit {0}
Ascending lo ((base, pages) ∷ rest) = (lo ≤ base) × Ascending (base + pages * page_size) rest

Ascending-weaken : (lo lo' : ℕ) (rs : List (ℕ × ℕ)) → lo ≤ lo' → Ascending lo' rs → Ascending lo rs
Ascending-weaken lo lo' [] h a = tt
Ascending-weaken lo lo' ((base, pages) ∷ rs) h (b, a) = (omega arith, a)

-- So no two regions in use share an address.
pub used_regions-Ascending :
    (lo : ℕ) (areas : List VmArea) → Follows lo areas → Ascending lo (used_regions areas)
unfolding used_regions
used_regions-Ascending lo [] f = tt
used_regions-Ascending lo (a ∷ rest) (b, p, f) =
    let next = lo + a.page_count * page_size in
    let tail = used_regions-Ascending next rest f in
    elim (Bool-cases a.used) [
      | inl u ↦ rw (u, b) (omega arith, tail)
      | inr n ↦ rw n (Ascending-weaken lo next _ (omega arith) tail)
    ]
