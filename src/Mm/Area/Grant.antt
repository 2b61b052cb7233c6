-- ===== src/Mm/Area/Grant.antt =====
-- get_vm_area of core/mm/area.c.
use mathlib.Core.Path.{subst}
use haoud_os.Base.{
  ℕ, ◌+◌, ◌*◌, ◌^◌, ◌≤◌, ◌<◌, ◌≡◌, ◌≢◌, ◌⊎◌, inl, inr, true, false, none, some, List, [], ◌∷◌, ◌++◌,
  if◌then◌else◌, ltb, ◌==◌, page_size, arith, refl, ap, ◌∙◌, sym, Bool-cases, ltb→lt, ok, panic,
}
use haoud_os.Mm.Heap.{Heap}
use haoud_os.Mm.Heap.Regions.{IsValid}
use haoud_os.Mm.Heap.Alloc.{NoneFits, kmalloc_no_security_lem}
use haoud_os.Mm.Area.{
  VmArea, Areas, struct_vm_area_size, area_fits, find_area, first_part, second_part, take_area,
  get_vm_area,
}
use haoud_os.Mm.Area.Tiling.{
  end_of, Follows, IsTiled, used_regions, end_of-append, Follows-append, Follows-split, le-end_of,
  used_regions-append, Ascending, used_regions-Ascending,
}

-- No free area is large enough.
abbrev pub NoArea : ℕ → List VmArea → Type 0
NoArea n [] = Unit {0}
NoArea n (a ∷ rest) = (area_fits n a ≡ false) × NoArea n rest

-- The first free area that is large enough, and its place.
pub record Found (n : ℕ) (areas before : List VmArea) (a : VmArea) (after : List VmArea)
    : Type 0 where
  pub place : areas ≡ before ++ (a ∷ after)
  pub first : NoArea n before
  pub free : a.used ≡ false
  pub large : n ≤ a.page_count

find_area_lem :
    (n : ℕ) (areas : List VmArea)
    → ((find_area n areas ≡ none) × NoArea n areas)
      ⊎ ((before : List VmArea) × (a : VmArea) × (after : List VmArea) × (find_area n areas
            ≡ some (before, a, after))
          × Found n areas before a after)
unfolding find_area
find_area_lem n [] = inl (refl, tt)
find_area_lem n (d ∷ areas) = elim (Bool-cases (area_fits n d)) [
  | inl f ↦ inr (
    [],
    d,
    areas,
    rw f,
    record { place = refl; first = tt; free = ground arith; large = ground arith },
  )
  | inr no_fit ↦ elim (find_area_lem n areas) [
    | inl (e, none_fits) ↦ inl (rw (no_fit, e), (no_fit, none_fits))
    | inr (before, a, after, e, found) ↦ inr (
      d ∷ before,
      a,
      after,
      rw (no_fit, e),
      record {
        place = ap (◌∷◌ d) found.place;
        first = (no_fit, found.first);
        free = found.free;
        large = found.large;
      },
    )
  ]
]

-- The areas with the granted part in the place of the free area.
abbrev pub granted_areas : ℕ → List VmArea → VmArea → List VmArea → List VmArea
granted_areas n before a after =
    if ltb n a.page_count
    then before ++ (first_part n a ∷ second_part n a ∷ after)
    else before ++ (record a { used = true } ∷ after)

module _ (n lo hi : ℕ) (before : List VmArea) (a : VmArea) (after : List VmArea) where
  parts_tile :
      IsTiled lo hi (before ++ (a ∷ after))
      → hi < 2 ^ 32
      → 0 < n
      → n < a.page_count
      → IsTiled lo hi (before ++ (first_part n a ∷ second_part n a ∷ after))
  parts_tile t small pos less =
      let (f, g) = Follows-split lo before (a ∷ after) t.follows in
      let start = end_of lo before in
      let whole : end_of (start + a.page_count * page_size) after ≡ hi =
        sym (end_of-append lo before (a ∷ after)) ∙ t.ends in
      let fits_in = le-end_of (start + a.page_count * page_size) after in
      let next : start + n * page_size + (second_part n a).page_count * page_size
          ≡ start + a.page_count * page_size =
        omega (arith, whole) in
      let second_base : (second_part n a).base_addr ≡ start + n * page_size =
        omega (arith, whole, g.0) in
      let second_pos : 0 < (second_part n a).page_count = omega (arith, whole) in
      let after_follows : Follows (start + n * page_size + (second_part n a).page_count * page_size)
          after =
        subst (λ k. Follows k after) (sym next) g.2 in
      record {
        follows = Follows-append lo before _ f (g.0, pos, (second_base, second_pos, after_follows));
        ends = end_of-append lo before _ ∙ ap (λ k. end_of k after) next ∙ whole;
      }

  whole_tiles :
      IsTiled lo hi (before ++ (a ∷ after))
      → IsTiled lo hi (before ++ (record a { used = true } ∷ after))
  whole_tiles t =
      let (f, g) = Follows-split lo before (a ∷ after) t.follows in
      record {
        follows = Follows-append lo before _ f g;
        ends = end_of-append lo before _ ∙ sym (end_of-append lo before (a ∷ after)) ∙ t.ends;
      }

  granted_areas_tile :
      IsTiled lo hi (before ++ (a ∷ after))
      → hi < 2 ^ 32
      → 0 < n
      → IsTiled lo hi (granted_areas n before a after)
  granted_areas_tile t small pos = elim (Bool-cases (ltb n a.page_count)) [
    | inl l ↦ rw l (parts_tile t small pos (ltb→lt n a.page_count l))
    | inr g ↦ rw g (whole_tiles t)
  ]

-- One region more is in use, and no other region changes.
used_regions-granted :
    (n : ℕ) (before : List VmArea) (a : VmArea) (after : List VmArea)
    → n ≤ a.page_count
    → used_regions (granted_areas n before a after)
      ≡ used_regions before ++ ((a.base_addr, n) ∷ used_regions after)
unfolding used_regions
used_regions-granted n before a after le = elim (Bool-cases (ltb n a.page_count)) [
  | inl l ↦ rw l (used_regions-append before _)
  | inr g ↦
      let same : a.page_count ≡ n = ground arith in rw (g, ← same) (used_regions-append before _)
]

used_regions-free :
    (before : List VmArea) (a : VmArea) (after : List VmArea)
    → a.used ≡ false
    → used_regions (before ++ (a ∷ after)) ≡ used_regions before ++ used_regions after
unfolding used_regions
used_regions-free before a after f =
    used_regions-append before (a ∷ after) ∙ ap (◌++◌ (used_regions before)) (rw f)

-- What a successful get_vm_area leaves: one region more in use, and no other changed.
pub record Grants (n lo hi : ℕ) (s : Areas) (r : ℕ × Areas) : Type 0 where
  pub below : List (ℕ × ℕ)
  pub above : List (ℕ × ℕ)
  pub before : used_regions s.areas ≡ below ++ above
  pub after : used_regions r.1.areas ≡ below ++ ((r.0, n) ∷ above)
  pub tiled : IsTiled lo hi r.1.areas
  pub apart : Ascending lo (used_regions r.1.areas)
  pub heap : IsValid r.1.heap

module _ (n lo hi : ℕ) (s : Areas) (pos : 0 < n) (small : hi < 2 ^ 32)
    (tiled : IsTiled lo hi s.areas) (before : List VmArea) (a : VmArea) (after : List VmArea)
    (found : Found n s.areas before a after) where
  granted_state :
      (heap : Heap)
      → IsValid heap
      → Grants n lo hi s
          (a.base_addr, record { heap = heap; areas = granted_areas n before a after })
  granted_state heap v =
      let t = granted_areas_tile n lo hi before a after (rw found.place at tiled) small pos in
      record {
        below = used_regions before;
        above = used_regions after;
        before = rw found.place (used_regions-free before a after found.free);
        after = used_regions-granted n before a after found.large;
        tiled = t;
        apart = used_regions-Ascending lo _ t.follows;
        heap = v;
      }

  take_area_lem :
      s.heap.chunks ≢ []
      → IsValid s.heap
      → (NoneFits struct_vm_area_size s.heap.chunks × (take_area n before a after s ≡ panic))
        ⊎ ((r : ℕ × Areas) × (take_area n before a after s ≡ ok r) × Grants n lo hi s r)
  unfolding take_area
  take_area_lem hne v = elim (Bool-cases (ltb n a.page_count)) [
    | inr g ↦ inr (
      (a.base_addr, record { heap = s.heap; areas = granted_areas n before a after }),
      rw g,
      granted_state s.heap v,
    )
    | inl l ↦
        let (r, e, outcome) =
          kmalloc_no_security_lem struct_vm_area_size s.heap hne (omega arith) v in
        elim outcome [
          | inl (none_fits, er) ↦ inl (none_fits, rw (l, e, er))
          | inr al ↦
              let nz : (r.0 == 0) ≡ false = ground (arith, al.block) in
              inr (
                (a.base_addr, record { heap = r.1; areas = granted_areas n before a after }),
                rw (l, e, nz),
                granted_state r.1 al.valid,
              )
        ]
  ]

found_result :
    (n : ℕ) (s : Areas) (before : List VmArea) (a : VmArea) (after : List VmArea)
    → 0 < n
    → s.areas ≢ []
    → find_area n s.areas ≡ some (before, a, after)
    → get_vm_area n s ≡ take_area n before a after s
unfolding get_vm_area
found_result n s before a after pos ne e = ground arith

missing_result :
    (n : ℕ) (s : Areas)
    → 0 < n
    → s.areas ≢ []
    → find_area n s.areas ≡ none
    → get_vm_area n s ≡ ok (0, s)
unfolding get_vm_area
missing_result n s pos ne e = ground arith

-- On a tiled range that ends below 2^32 and a valid heap, both lists not empty, and for one page or
-- more, get_vm_area has three outcomes. With no free area of the size it returns 0 and changes nothing. With no heap for a descriptor it panics. Otherwise it returns the
-- base of a region of the size that no region in use meets, and the range stays tiled.
pub get_vm_area_lem :
    (n lo hi : ℕ) (s : Areas)
    → 0 < n
    → s.areas ≢ []
    → s.heap.chunks ≢ []
    → hi < 2 ^ 32
    → IsTiled lo hi s.areas
    → IsValid s.heap
    → (NoArea n s.areas × (get_vm_area n s ≡ ok (0, s)))
      ⊎ (NoneFits struct_vm_area_size s.heap.chunks × (get_vm_area n s ≡ panic))
      ⊎ ((r : ℕ × Areas) × (get_vm_area n s ≡ ok r) × Grants n lo hi s r)
get_vm_area_lem n lo hi s pos ne hne small t v = elim (find_area_lem n s.areas) [
  | inl (e, no_area) ↦ inl (no_area, missing_result n s pos ne e)
  | inr (before, a, after, e, found) ↦
      rw (found_result n s before a after pos ne e)
        (inr (take_area_lem n lo hi s pos small t before a after found hne v))
]
