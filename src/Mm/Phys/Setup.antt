-- ===== src/Mm/Phys/Setup.antt =====
-- PhysMemSetup of core/mm/phys.c: which pages are out of use after the boot, and the statistics.
use haoud_os.Base.{
  ℕ, zero, suc, ◌+◌, ◌-◌, ◌*◌, ◌^◌, ◌≤◌, ◌<◌, ◌≡◌, ◌⊎◌, inl, inr, true, ◌&&◌, ◌||◌, get_or,
  length-set, get_or-set_self, get_or-set_ne, ltb, leb, ◌==◌, if◌then◌else◌, replicate,
  length-replicate, page_reserved, page_size, ok, arith, refl, sym, ap, ◌∙◌,
}
use native.Mathlib.Decide.{dec_lt}
use haoud_os.Mm.Phys.{
  PhysMem, phys_align_sup, mem_map_size, set_phys_page_reserved, reserve_pages, reserve_range,
  empty_map, mem_pages, kernel_end, reserve_end, phys_mem_setup, reserve_boot_pages,
}
use haoud_os.Mm.Phys.Accounting.{IsConsistent, free_count-set, free_count-replicate}

-- As in the boot: no page has been handed out yet.
pub record IsFresh (m : PhysMem) : Type 0 where
  pub consistent : IsConsistent m
  pub untouched :
      (j : ℕ)
      → j < mem_map_size m
      → (get_or m.mem_map j 0 ≡ 0) ⊎ (get_or m.mem_map j 0 ≡ page_reserved)

-- SetPhysPageReserved keeps the statistics right on a page that is free or reserved already. (It
-- counts a page in use as a free one that is lost, and warns of it.)
pub set_phys_page_reserved-IsConsistent :
    (m : PhysMem) (page : ℕ)
    → IsConsistent m
    → (mem_map_size m ≤ page)
      ⊎ (get_or m.mem_map page 0 ≡ 0)
      ⊎ (get_or m.mem_map page 0 ≡ page_reserved)
    → IsConsistent (set_phys_page_reserved page m)
unfolding set_phys_page_reserved
set_phys_page_reserved-IsConsistent m page v h =
    ground
      (arith, free_count-set m.mem_map page page_reserved, length-set m.mem_map page page_reserved)

pub get_or-set_phys_page_reserved :
    (m : PhysMem) (page j : ℕ)
    → j < mem_map_size m
    → mem_map_size m ≤ 2 ^ 20
    → get_or (set_phys_page_reserved page m).mem_map j 0
      ≡ (if page == j then page_reserved else get_or m.mem_map j 0)
unfolding set_phys_page_reserved
get_or-set_phys_page_reserved m page j h small = ground (
  arith,
  get_or-set_self m.mem_map page page_reserved 0,
  get_or-set_ne m.mem_map page j page_reserved 0,
)

pub size-set_phys_page_reserved :
    (m : PhysMem) (page : ℕ) → mem_map_size (set_phys_page_reserved page m) ≡ mem_map_size m
unfolding set_phys_page_reserved
size-set_phys_page_reserved m page = ground (arith, length-set m.mem_map page page_reserved)

page_state :
    (m : PhysMem) (page : ℕ)
    → IsFresh m
    → (mem_map_size m ≤ page)
      ⊎ (get_or m.mem_map page 0 ≡ 0)
      ⊎ (get_or m.mem_map page 0 ≡ page_reserved)
page_state m page f = elim (dec_lt page (mem_map_size m)) [
  | yes h ↦ inr (f.untouched page h)
  | no h ↦ inl (omega arith)
]

set_phys_page_reserved-IsFresh :
    (m : PhysMem) (page : ℕ) → IsFresh m → IsFresh (set_phys_page_reserved page m)
set_phys_page_reserved-IsFresh m page f = record {
  consistent = set_phys_page_reserved-IsConsistent m page f.consistent (page_state m page f);
  untouched = λ j h.
      let below : j < mem_map_size m = omega (arith, size-set_phys_page_reserved m page) in
      rw (get_or-set_phys_page_reserved m page j below f.consistent.small)
        (ground (arith, f.untouched j below));
}

pub reserve_pages-IsFresh : (n i : ℕ) (m : PhysMem) → IsFresh m → IsFresh (reserve_pages n i m)
unfolding reserve_pages
reserve_pages-IsFresh zero i m f = f
reserve_pages-IsFresh (suc n) i m f =
    reserve_pages-IsFresh n (i + 1) _ (set_phys_page_reserved-IsFresh m i f)

pub size-reserve_pages :
    (n i : ℕ) (m : PhysMem) → mem_map_size (reserve_pages n i m) ≡ mem_map_size m
unfolding reserve_pages
size-reserve_pages zero i m = refl
size-reserve_pages (suc n) i m =
    size-reserve_pages n (i + 1) (set_phys_page_reserved i m) ∙ size-set_phys_page_reserved m i

-- The loop reserves the pages of its range and no other.
pub get_or-reserve_pages :
    (n i : ℕ) (m : PhysMem) (j : ℕ)
    → j < mem_map_size m
    → mem_map_size m ≤ 2 ^ 20
    → get_or (reserve_pages n i m).mem_map j 0
      ≡ (if leb i j && ltb j (i + n) then page_reserved else get_or m.mem_map j 0)
unfolding reserve_pages
get_or-reserve_pages zero i m j h small = ground arith
get_or-reserve_pages (suc n) i m j h small =
    get_or-reserve_pages n (i + 1) (set_phys_page_reserved i m) j
      (rw (size-set_phys_page_reserved m i) h) (rw (size-set_phys_page_reserved m i) small)
    ∙ ground (arith, get_or-set_phys_page_reserved m i j h small)

get_or-replicate : (n j : ℕ) → get_or {A = ℕ} (replicate n 0) j 0 ≡ 0
get_or-replicate zero j = refl
get_or-replicate (suc n) zero = refl
get_or-replicate (suc n) (suc j) = get_or-replicate n j

empty_map-IsFresh :
    (size : ℕ) (m : PhysMem)
    → m.used_page_nr ≡ 0
    → 0 < size
    → size ≤ 2 ^ 20
    → IsFresh (empty_map size m)
empty_map-IsFresh size m u pos small = record {
  consistent = record {
    nonempty = omega (arith, length-replicate {A = ℕ} size 0);
    small = omega (arith, length-replicate {A = ℕ} size 0);
    free = sym (free_count-replicate size);
    used = omega (arith, length-replicate {A = ℕ} size 0);
  };
  untouched = λ j h. inl (get_or-replicate size j);
}

module _ (kernel map : ℕ) (m : PhysMem) where
  reserve_boot_pages-IsFresh : IsFresh m → IsFresh (reserve_boot_pages kernel map m)
  unfolding reserve_boot_pages
  reserve_boot_pages-IsFresh f = reserve_pages-IsFresh _ kernel _ (
      reserve_pages-IsFresh _ 0x100 _
        (reserve_pages-IsFresh _ 0xa0 _ (reserve_pages-IsFresh _ 0 m f)))

  size-reserve_boot_pages : mem_map_size (reserve_boot_pages kernel map m) ≡ mem_map_size m
  unfolding reserve_boot_pages
  size-reserve_boot_pages = rw (
    size-reserve_pages (map - kernel) kernel _,
    size-reserve_pages (kernel - 0x100) 0x100 _,
    size-reserve_pages (0x100 - 0xa0) 0xa0 _,
    size-reserve_pages (0x10 - 0) 0 m,
  )

  get_or-reserve_boot_pages :
      (j : ℕ)
      → 0x100 ≤ kernel
      → kernel ≤ map
      → j < mem_map_size m
      → mem_map_size m ≤ 2 ^ 20
      → get_or (reserve_boot_pages kernel map m).mem_map j 0
        ≡ (if ltb j 0x10 || (leb 0xa0 j && ltb j map) then page_reserved else get_or m.mem_map j 0)
  unfolding reserve_boot_pages
  get_or-reserve_boot_pages j above order h small =
      let m₁ = reserve_range 0 0x10 m in
      let m₂ = reserve_range 0xa0 0x100 m₁ in
      let m₃ = reserve_range 0x100 kernel m₂ in
      let s₁ : mem_map_size m₁ ≡ mem_map_size m = size-reserve_pages _ 0 m in
      let s₂ : mem_map_size m₂ ≡ mem_map_size m = size-reserve_pages _ 0xa0 m₁ ∙ s₁ in
      let s₃ : mem_map_size m₃ ≡ mem_map_size m = size-reserve_pages _ 0x100 m₂ ∙ s₂ in
      ground (
        arith,
        get_or-reserve_pages (map - kernel) kernel m₃ j (omega arith) (omega arith),
        get_or-reserve_pages (kernel - 0x100) 0x100 m₂ j (omega arith) (omega arith),
        get_or-reserve_pages (0x100 - 0xa0) 0xa0 m₁ j (omega arith) (omega arith),
        get_or-reserve_pages (0x10 - 0) 0 m j (omega arith) (omega arith),
      )

setup_result :
    (mem_avaible end_of_kernel : ℕ) (m : PhysMem) {m' : PhysMem}
    → phys_mem_setup mem_avaible end_of_kernel m ≡ ok m'
    → m'
      ≡ reserve_boot_pages
          (kernel_end end_of_kernel)
          (reserve_end end_of_kernel (mem_pages mem_avaible))
          (empty_map (mem_pages mem_avaible) m)
unfolding phys_mem_setup
setup_result mem_avaible end_of_kernel m e = ground arith

-- A page that the array fills to its end is below the page where the loop stops.
in_range :
    (end_of_kernel size j : ℕ)
    → 0x100 ≤ j
    → end_of_kernel + size * 4 + 2 * page_size < 2 ^ 32
    → (j + 1) * page_size ≤ phys_align_sup end_of_kernel + size * 4
    → (ltb j 0x10 || (leb 0xa0 j && ltb j (reserve_end end_of_kernel size))) ≡ true
in_range end_of_kernel size j low room h =
    let below : j < reserve_end end_of_kernel size = omega arith in ground (arith, below)

-- After the boot the statistics are right, and exactly the pages of the stack and the BIOS (0 to 15)
-- and those from the video memory (0xa0) up to the page where the last loop stops are reserved; the
-- others are free. A page that lies in the kernel's range from 1 MB on, or that the page array fills to
-- its end, is reserved; a last page that the array fills in part may not be. The premises: no page is
-- counted as used before, there is a page, the kernel ends above 1 MB, no address wraps around, and the
-- division in the last message does not stop the machine.
pub phys_mem_setup_lem :
    (mem_avaible end_of_kernel : ℕ) (m : PhysMem) {m' : PhysMem}
    → m.used_page_nr ≡ 0
    → 0 < mem_pages mem_avaible
    → 0x100 ≤ kernel_end end_of_kernel
    → end_of_kernel + mem_pages mem_avaible * 4 + 2 * page_size < 2 ^ 32
    → phys_mem_setup mem_avaible end_of_kernel m ≡ ok m'
    → IsConsistent m'
      × (mem_map_size m' ≡ mem_pages mem_avaible)
      × ((j : ℕ)
          → j < mem_map_size m'
          → get_or m'.mem_map j 0 ≡ (
              if ltb j 0x10
                || (leb 0xa0 j && ltb j (reserve_end end_of_kernel (mem_pages mem_avaible)))
              then page_reserved
              else 0))
      × ((j : ℕ)
          → j < mem_map_size m'
          → 0x100 ≤ j
          → (j + 1) * page_size ≤ phys_align_sup end_of_kernel + mem_pages mem_avaible * 4
          → get_or m'.mem_map j 0 ≡ page_reserved)
phys_mem_setup_lem mem_avaible end_of_kernel m u pos above room e =
    let order : kernel_end end_of_kernel ≤ reserve_end end_of_kernel (mem_pages mem_avaible) =
      omega arith in
    let size = mem_pages mem_avaible in
    let kernel = kernel_end end_of_kernel in
    let map = reserve_end end_of_kernel size in
    let small : size ≤ 2 ^ 20 = omega arith in
    let fresh = empty_map-IsFresh size m u pos small in
    let sized : mem_map_size (reserve_boot_pages kernel map (empty_map size m)) ≡ size =
      size-reserve_boot_pages kernel map (empty_map size m) ∙ length-replicate {A = ℕ} size 0 in
    let states : (j : ℕ)
        → j < mem_map_size (reserve_boot_pages kernel map (empty_map size m))
        → get_or (reserve_boot_pages kernel map (empty_map size m)).mem_map j 0
          ≡ (if ltb j 0x10 || (leb 0xa0 j && ltb j map) then page_reserved else 0) =
      λ j h.
        get_or-reserve_boot_pages kernel map (empty_map size m) j above order
          (omega (arith, sized, length-replicate {A = ℕ} size 0)) fresh.consistent.small
        ∙ ap (λ d. if ltb j 0x10 || (leb 0xa0 j && ltb j map) then page_reserved else d)
            (get_or-replicate size j) in
    rw (setup_result mem_avaible end_of_kernel m e) (
      (reserve_boot_pages-IsFresh kernel map (empty_map size m) fresh).consistent,
      sized,
      states,
      λ j h low in_array.
          let inside : (ltb j 0x10 || (leb 0xa0 j && ltb j map)) ≡ true =
            in_range end_of_kernel size j low room in_array in
          states j h ∙ rw inside refl,
    )
