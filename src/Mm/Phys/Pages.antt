-- ===== src/Mm/Phys/Pages.antt =====
-- What the calls of the page allocator do to the pages.
use haoud_os.Base.{
  ℕ, ◌+◌, ◌-◌, ◌*◌, ◌/◌, ◌^◌, ◌≤◌, ◌<◌, ◌≡◌, ◌≢◌, ◌⊎◌, inl, inr, length, get_or, set, length-set,
  get_or-set_self, set-set, set-get_or, sub32, mul32, page_size, page_reserved, ok, arith,
  Option-cases, refl,
}
use haoud_os.Mm.Phys.{
  PhysMem, mem_map_size, find_free, take_page, get_free_physical_page, ref_physical_page,
  unref_physical_page,
}
use haoud_os.Mm.Phys.Accounting.{
  IsConsistent, free_count-le, free_count-set, find_free-some, find_free-none,
}

-- A page is handed out: free before, with one reference after, and nothing else changes but the
-- statistics.
pub record Takes (m : PhysMem) (k : ℕ) (r : ℕ × PhysMem) : Type 0 where
  pub below : k + 1 < mem_map_size m
  pub was_free : get_or m.mem_map k 0 ≡ 0
  pub address : r.0 ≡ k * page_size
  pub pages : r.1.mem_map ≡ set m.mem_map k 1
  pub free : r.1.free_page_nr + 1 ≡ m.free_page_nr
  pub used : r.1.used_page_nr ≡ m.used_page_nr + 1

-- No page but the last of the array is free.
abbrev pub IsFull : PhysMem → Type 0
IsFull m = (k : ℕ) → k + 1 < mem_map_size m → get_or m.mem_map k 0 ≢ 0

free_pos :
    (m : PhysMem) (k : ℕ)
    → IsConsistent m
    → k < mem_map_size m
    → get_or m.mem_map k 0 ≡ 0
    → (0 < m.free_page_nr) × (m.used_page_nr < mem_map_size m)
free_pos m k v h e = ground (arith, free_count-set m.mem_map k 1)

take_page-Takes :
    (m : PhysMem) (k : ℕ)
    → IsConsistent m
    → k + 1 < mem_map_size m
    → get_or m.mem_map k 0 ≡ 0
    → Takes m k (mul32 k page_size, take_page m k)
take_page-Takes m k v h e =
    let (hf, hu) = free_pos m k v (omega arith) e in
    record {
      below = h;
      was_free = e;
      address = omega arith;
      pages = refl;
      free = omega arith;
      used = omega arith;
    }

-- GetFreePhysicalPage hands out a free page below the last one, or returns 0 and changes nothing
-- where no page below the last one is free.
pub get_free_physical_page_lem :
    (m : PhysMem)
    → IsConsistent m
    → ((k : ℕ) × Takes m k (get_free_physical_page m))
      ⊎ (IsFull m × (get_free_physical_page m ≡ (0, m)))
unfolding get_free_physical_page
get_free_physical_page_lem m v =
    elim (Option-cases (find_free (sub32 (mem_map_size m) 1) 0 m.mem_map)) [
      | inl e ↦ inr (
        λ k h. find_free-none _ 0 m.mem_map e k (omega arith) (omega arith),
        rw (e, get_free_physical_page),
      )
      | inr (i, e) ↦
          let (k, ei, hn, hl, h0) = find_free-some _ 0 m.mem_map i e in
          let ek : i ≡ k = omega arith in
          inl (k, rw (e, ek, get_free_physical_page) (take_page-Takes m k v (omega arith) h0))
    ]

-- Every page handed out is within the array, and the statistics stay those of the array.
Takes-IsConsistent :
    (m : PhysMem) (k : ℕ) (r : ℕ × PhysMem) → IsConsistent m → Takes m k r → IsConsistent r.1
Takes-IsConsistent m k r v t = record {
  nonempty = rw (t.pages, length-set m.mem_map k 1) v.nonempty;
  small = rw (t.pages, length-set m.mem_map k 1) v.small;
  free = rw t.pages (ground (arith, free_count-set m.mem_map k 1));
  used = rw (t.pages, length-set m.mem_map k 1) (omega arith);
}

-- Whatever GetFreePhysicalPage does, the statistics stay those of the array.
pub get_free_physical_page-IsConsistent :
    (m : PhysMem) → IsConsistent m → IsConsistent (get_free_physical_page m).1
get_free_physical_page-IsConsistent m v = elim (get_free_physical_page_lem m v) [
  | inl (k, t) ↦ Takes-IsConsistent m k _ v t
  | inr (full, e) ↦ rw e v
]

-- Taking an additional reference keeps the statistics, and releasing one counts the page as free
-- again exactly if it was the last.
pub ref_physical_page-IsConsistent :
    (m : PhysMem) (a n : ℕ) {m' : PhysMem}
    → IsConsistent m
    → get_or m.mem_map (a / page_size) 0 ≢ 0
    → get_or m.mem_map (a / page_size) 0 < 2 ^ 32
    → ref_physical_page m a ≡ ok (n, m')
    → IsConsistent m'
unfolding ref_physical_page
ref_physical_page-IsConsistent m a n v used w e = ground (
  arith,
  free_count-set m.mem_map (a / page_size) (get_or m.mem_map (a / page_size) 0 + 1),
  length-set m.mem_map (a / page_size) (get_or m.mem_map (a / page_size) 0 + 1),
)

pub unref_physical_page-IsConsistent :
    (m : PhysMem) (a n : ℕ) {m' : PhysMem}
    → IsConsistent m
    → get_or m.mem_map (a / page_size) 0 < 2 ^ 32
    → unref_physical_page m a ≡ ok (n, m')
    → IsConsistent m'
unfolding unref_physical_page
unref_physical_page-IsConsistent m a n v w e = ground (
  arith,
  free_count-set m.mem_map (a / page_size) (sub32 (get_or m.mem_map (a / page_size) 0) 1),
  free_count-le (set m.mem_map (a / page_size) (sub32 (get_or m.mem_map (a / page_size) 0) 1)),
  length-set m.mem_map (a / page_size) (sub32 (get_or m.mem_map (a / page_size) 0) 1),
)

-- A reference that is taken and released leaves every page and the statistics as they were.
pub unref-ref :
    (m : PhysMem) (a n : ℕ) {m' : PhysMem}
    → a ≢ 0
    → a / page_size < mem_map_size m
    → mem_map_size m ≤ 2 ^ 20
    → 0 < get_or m.mem_map (a / page_size) 0
    → get_or m.mem_map (a / page_size) 0 < page_reserved - 1
    → ref_physical_page m a ≡ ok (n, m')
    → unref_physical_page m' a ≡ ok (sub32 n 1, m)
unfolding ref_physical_page unref_physical_page
unref-ref m a n nz inside small pos below e = ground (
  arith,
  length-set m.mem_map (a / page_size) (get_or m.mem_map (a / page_size) 0 + 1),
  get_or-set_self m.mem_map (a / page_size) (get_or m.mem_map (a / page_size) 0 + 1) 0,
  set-set m.mem_map (a / page_size) (get_or m.mem_map (a / page_size) 0 + 1)
      (get_or m.mem_map (a / page_size) 0),
  set-get_or m.mem_map (a / page_size) (get_or m.mem_map (a / page_size) 0) 0 refl,
)

unref-Takes :
    (m : PhysMem) (k a : ℕ) (m' : PhysMem)
    → IsConsistent m
    → Takes m k (a, m')
    → a ≢ 0
    → unref_physical_page m' a ≡ ok (0, m)
unfolding unref_physical_page
unref-Takes m k a m' v t nz =
    let same : a / page_size ≡ k = omega arith in
    let far : length m'.mem_map ≡ length m.mem_map = rw t.pages (length-set m.mem_map k 1) in
    let (hf, hu) = free_pos m k v (omega arith) t.was_free in
    rw (same, t.pages)
      (ground (
        arith,
        same,
        far,
        length-set m.mem_map k 1,
        get_or-set_self m.mem_map k 1 0,
        set-set m.mem_map k 1 0,
        set-get_or m.mem_map k 0 0,
      ))

-- A page that is handed out and released at once leaves the allocator as it was.
pub unref-get_free :
    (m : PhysMem)
    → IsConsistent m
    → (get_free_physical_page m).0 ≢ 0
    → unref_physical_page (get_free_physical_page m).1 (get_free_physical_page m).0 ≡ ok (0, m)
unref-get_free m v nz = elim (get_free_physical_page_lem m v) [
  | inl (k, t) ↦ unref-Takes m k _ _ v t nz
  | inr (full, e) ↦ absurd (nz (rw e))
]
