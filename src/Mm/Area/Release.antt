-- ===== src/Mm/Area/Release.antt =====
-- FreeVmArea of core/mm/area.c.
use mathlib.Core.Path.{ap₂}
use haoud_os.Base.{
  ℕ, ◌+◌, ◌*◌, ◌^◌, ◌<◌, Exec, ◌>>=◌, ◌≡◌, ◌≢◌, inl, inr, true, false, some, List, [], ◌∷◌, ◌++◌,
  ◌==◌, page_size, arith, refl, ap, ◌∙◌, sym, Bool-cases, ok,
}
use haoud_os.Mm.Heap.Regions.{IsValid}
use haoud_os.Mm.Heap.Alloc.{NoneFits}
use haoud_os.Mm.Area.{VmArea, Areas, find_base, free_vm_area, get_vm_area, struct_vm_area_size}
use haoud_os.Mm.Area.Grant.{Grants, NoArea, get_vm_area_lem}
use haoud_os.Mm.Area.Tiling.{
  end_of, Follows, IsTiled, used_regions, end_of-append, Follows-append, Follows-split, le-end_of,
  used_regions-append,
}

-- A base address of an area is found, and at that area, since areas that follow one another have
-- different bases.
find_base-place :
    (lo : ℕ) (before : List VmArea) (a : VmArea) (after : List VmArea)
    → Follows lo (before ++ (a ∷ after))
    → find_base a.base_addr (before ++ (a ∷ after)) ≡ some (before, a, after)
unfolding find_base
find_base-place lo [] a after f = ground arith
find_base-place lo (d ∷ before) a after (b, p, f) =
    let next = lo + d.page_count * page_size in
    let (g, h) = Follows-split next before (a ∷ after) f in
    let here = h.0 in
    let far = le-end_of next before in
    let ne : (d.base_addr == a.base_addr) ≡ false = ground arith in
    rw (ne, find_base-place next before a after f)

-- Where a region in use stands in the list of areas.
record Stands (base pages : ℕ) (areas : List VmArea) (below above : List (ℕ × ℕ)) : Type 0 where
  before : List VmArea
  area : VmArea
  after : List VmArea
  place : areas ≡ before ++ (area ∷ after)
  in_use : area.used ≡ true
  at_base : area.base_addr ≡ base
  rest_below : used_regions before ≡ below
  rest_above : used_regions after ≡ above

Stands-skip :
    (base pages : ℕ) (d : VmArea) (areas : List VmArea) (below above : List (ℕ × ℕ))
    → d.used ≡ false
    → Stands base pages areas below above
    → Stands base pages (d ∷ areas) below above
unfolding used_regions
Stands-skip base pages d areas below above free t = record {
  before = d ∷ t.before;
  area = t.area;
  after = t.after;
  place = ap (◌∷◌ d) t.place;
  in_use = t.in_use;
  at_base = t.at_base;
  rest_below = rw free t.rest_below;
  rest_above = t.rest_above;
}

Stands-past :
    (base pages : ℕ) (d : VmArea) (areas : List VmArea) (below above : List (ℕ × ℕ))
    → d.used ≡ true
    → Stands base pages areas below above
    → Stands base pages (d ∷ areas) ((d.base_addr, d.page_count) ∷ below) above
unfolding used_regions
Stands-past base pages d areas below above used t = record {
  before = d ∷ t.before;
  area = t.area;
  after = t.after;
  place = ap (◌∷◌ d) t.place;
  in_use = t.in_use;
  at_base = t.at_base;
  rest_below = rw used (ap (◌∷◌ (d.base_addr, d.page_count)) t.rest_below);
  rest_above = t.rest_above;
}

used_regions-Stands :
    (base pages : ℕ) (areas : List VmArea) (below above : List (ℕ × ℕ))
    → used_regions areas ≡ below ++ ((base, pages) ∷ above)
    → Stands base pages areas below above
unfolding used_regions
used_regions-Stands base pages [] [] above e = absurd (ground arith)
used_regions-Stands base pages [] (x ∷ below) above e = absurd (ground arith)
used_regions-Stands base pages (d ∷ areas) [] above e = elim (Bool-cases d.used) [
  | inl u ↦ record {
    before = [];
    area = d;
    after = areas;
    place = refl;
    in_use = u;
    at_base = ground arith;
    rest_below = refl;
    rest_above = ground arith;
  }
  | inr n ↦
      Stands-skip base pages d areas [] above n
        (used_regions-Stands base pages areas [] above (ground arith))
]
used_regions-Stands base pages (d ∷ areas) (x ∷ below) above e = elim (Bool-cases d.used) [
  | inl u ↦
      let head : (d.base_addr, d.page_count) ≡ x = ground arith in
      rw (← head) (
        Stands-past base pages d areas below above u
          (used_regions-Stands base pages areas below above (ground arith)))
  | inr n ↦
      Stands-skip base pages d areas (x ∷ below) above n
        (used_regions-Stands base pages areas (x ∷ below) above (ground arith))
]

freed_result :
    (base : ℕ) (s : Areas) (before : List VmArea) (a : VmArea) (after : List VmArea)
    → s.areas ≢ []
    → a.used ≡ true
    → find_base base s.areas ≡ some (before, a, after)
    → free_vm_area base s ≡ ok (record s { areas = before ++ (record a { used = false } ∷ after) })
unfolding free_vm_area
freed_result base s before a after ne u e = ground arith

append-ne-nil : (xs : List VmArea) (a : VmArea) (ys : List VmArea) → xs ++ (a ∷ ys) ≢ []
append-ne-nil [] a ys e = cc
append-ne-nil (x ∷ xs) a ys e = cc

used_regions-freed :
    (before : List VmArea) (a : VmArea) (after : List VmArea)
    → used_regions (before ++ (record a { used = false } ∷ after))
      ≡ used_regions before ++ used_regions after
unfolding used_regions
used_regions-freed before a after = used_regions-append before _

-- FreeVmArea on the base of a region in use takes that region out of use and no other, and keeps the
-- range tiled and the heap as it was.
pub free_vm_area_lem :
    (base pages lo hi : ℕ) (s : Areas) (below above : List (ℕ × ℕ))
    → IsTiled lo hi s.areas
    → used_regions s.areas ≡ below ++ ((base, pages) ∷ above)
    → (s' : Areas) × (free_vm_area base s ≡ ok s')
      × (used_regions s'.areas ≡ below ++ above)
      × IsTiled lo hi s'.areas
      × (s'.heap ≡ s.heap)
free_vm_area_lem base pages lo hi s below above t e =
    let at = used_regions-Stands base pages s.areas below above e in
    let follows : Follows lo (at.before ++ (at.area ∷ at.after)) = rw at.place at t.follows in
    let found : find_base base s.areas ≡ some (at.before, at.area, at.after) =
      rw (at.place, ← at.at_base) (find_base-place lo at.before at.area at.after follows) in
    let ends : end_of lo (at.before ++ (at.area ∷ at.after)) ≡ hi = rw at.place at t.ends in
    let (f, g) = Follows-split lo at.before (at.area ∷ at.after) follows in
    (
      record s { areas = at.before ++ (record (at.area) { used = false } ∷ at.after) },
      freed_result base s at.before at.area at.after
          (rw at.place (append-ne-nil at.before at.area at.after)) at.in_use found,
      used_regions-freed at.before at.area at.after ∙ ap₂ ◌++◌ at.rest_below at.rest_above,
      record {
        follows = Follows-append lo at.before _ f g;
        ends =
            end_of-append lo at.before _
            ∙ sym (end_of-append lo at.before (at.area ∷ at.after))
            ∙ ends;
      },
      refl,
    )

-- A grant, and the release of the region.
granted_and_freed :
    (n lo hi : ℕ) (s : Areas) (r : ℕ × Areas)
    → Grants n lo hi s r
    → (s' : Areas) × (free_vm_area r.0 r.1 ≡ ok s')
      × (used_regions s'.areas ≡ used_regions s.areas)
      × IsTiled lo hi s'.areas
      × (s'.heap ≡ r.1.heap)
granted_and_freed n lo hi s r g =
    let (s', e, u, t, h) = free_vm_area_lem r.0 n lo hi r.1 g.below g.above g.tiled g.after in
    (s', e, u ∙ sym g.before, t, h)

-- The base of a region that get_vm_area hands out, given to FreeVmArea.
abbrev pub get_and_free : ℕ → Areas → Exec Areas
get_and_free n s = get_vm_area n s >>= (λ r. free_vm_area r.0 r.1)

-- On a tiled range that ends below 2^32, with a valid heap, for one page or
-- more: when some free area has the size and the heap has room for a descriptor, get_vm_area followed
-- by FreeVmArea on its result returns; the regions in use are then those from before, the range is
-- tiled, and the heap is valid.
pub free-get_vm_area :
    (n lo hi : ℕ) (s : Areas)
    → 0 < n
    → s.areas ≢ []
    → s.heap.chunks ≢ []
    → hi < 2 ^ 32
    → IsTiled lo hi s.areas
    → IsValid s.heap
    → ¬ NoArea n s.areas
    → ¬ NoneFits struct_vm_area_size s.heap.chunks
    → (s' : Areas) × (get_and_free n s ≡ ok s')
      × (used_regions s'.areas ≡ used_regions s.areas)
      × IsTiled lo hi s'.areas
      × IsValid s'.heap
free-get_vm_area n lo hi s pos ne hne small t v area room =
    elim (get_vm_area_lem n lo hi s pos ne hne small t v) [
      | inl (no_area, e) ↦ absurd (area no_area)
      | inr (inl (no_room, e)) ↦ absurd (room no_room)
      | inr (inr (r, e, g)) ↦
          let (s', freed, same, tiled, heap) = granted_and_freed n lo hi s r g in
          (s', ap (λ x. x >>= (λ r. free_vm_area r.0 r.1)) e ∙ freed, same, tiled, rw heap g.heap)
    ]
