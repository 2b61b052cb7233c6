-- ===== src/Mm/Phys.antt =====
-- The allocator of physical pages, core/mm/phys.c. `mem_map` holds the reference count of each page.
-- Where a function gets a page number or an address outside the array, the C code's test is written
-- out; only an empty `mem_map`, which no machine has, would make it read outside the array.
pub mod Accounting
pub mod Pages
pub mod Setup
mod Tests
use haoud_os.Base.{
  ℕ, zero, suc, ◌+◌, ◌-◌, ◌*◌, ◌/◌, ◌%◌, ◌^◌, Option, none, some, List, [], ◌∷◌, length, get_or,
  set, replicate, ltb, ◌==◌, if◌then◌else◌, add32, sub32, mul32, page_size, page_reserved, Exec, ok,
  panic, fault,
}

-- The static variables of phys.c; `mem_map_size` is the length of `mem_map`.
pub record PhysMem : Type 0 where
  pub mem_map : List ℕ
  pub free_page_nr : ℕ
  pub used_page_nr : ℕ

abbrev pub mem_map_size : PhysMem → ℕ
mem_map_size m = length m.mem_map

abbrev pub phys_align_sup : ℕ → ℕ
phys_align_sup x = add32 (x - x % page_size) page_size

abbrev pub addr_to_page : ℕ → ℕ
addr_to_page x = x / page_size

unfoldable pub set_phys_page_reserved : ℕ → PhysMem → PhysMem
set_phys_page_reserved page m =
    if ltb (sub32 (mem_map_size m) 1) page
    then m
    else if get_or m.mem_map page 0 == page_reserved
    then m
    else record m {
      mem_map = set m.mem_map page page_reserved;
      free_page_nr = sub32 m.free_page_nr 1;
      used_page_nr = add32 m.used_page_nr 1;
    }

-- `for (i = ...; i < ...; i++) SetPhysPageReserved(i)`, on the rounds left.
unfoldable pub reserve_pages : ℕ → ℕ → PhysMem → PhysMem
reserve_pages zero i m = m
reserve_pages (suc n) i m = reserve_pages n (i + 1) (set_phys_page_reserved i m)

abbrev pub reserve_range : ℕ → ℕ → PhysMem → PhysMem
reserve_range lo hi m = reserve_pages (hi - lo) lo m

-- The first page after the kernel, where `mem_map` starts.
abbrev pub kernel_end : ℕ → ℕ
kernel_end end_of_kernel = addr_to_page (phys_align_sup end_of_kernel)

-- The page at which the loop for `mem_map` stops, of 4 bytes an entry. It is computed from the end of
-- the kernel, which is not the start of `mem_map`, the next page boundary.
abbrev pub reserve_end : ℕ → ℕ → ℕ
reserve_end end_of_kernel size = addr_to_page (phys_align_sup (add32 end_of_kernel (mul32 size 4)))

abbrev pub mem_pages : ℕ → ℕ
mem_pages mem_avaible = addr_to_page (mul32 mem_avaible 1024)

-- Every page free; `used_page_nr` keeps its value.
abbrev pub empty_map : ℕ → PhysMem → PhysMem
empty_map size m = record m { mem_map = replicate size 0; free_page_nr = size }

-- The four loops of PhysMemSetup, for the first page after the kernel and after `mem_map`.
unfoldable pub reserve_boot_pages : ℕ → ℕ → PhysMem → PhysMem
reserve_boot_pages kernel map m =
    let m₁ = reserve_range 0 0x10 m in
    let m₂ = reserve_range 0xa0 0x100 m₁ in
    let m₃ = reserve_range 0x100 kernel m₂ in reserve_range kernel map m₃

-- The last line prints `used_page_nr * 100 / free_page_nr`, which divides by zero if no page is free.
unfoldable pub phys_mem_setup : ℕ → ℕ → PhysMem → Exec PhysMem
phys_mem_setup mem_avaible end_of_kernel m =
    let size = mem_pages mem_avaible in
    let m' =
      reserve_boot_pages (kernel_end end_of_kernel) (reserve_end end_of_kernel size)
        (empty_map size m) in
    if m'.free_page_nr == 0 then fault else ok m'

-- The scan of GetFreePhysicalPage: `n` entries from index `i` on.
unfoldable pub find_free : ℕ → ℕ → List ℕ → Option ℕ
find_free zero i cs = none
find_free (suc n) i [] = none
find_free (suc n) i (c ∷ cs) = if c == 0 then some i else find_free n (i + 1) cs

abbrev pub take_page : PhysMem → ℕ → PhysMem
take_page m i = record m {
  mem_map = set m.mem_map i 1;
  free_page_nr = sub32 m.free_page_nr 1;
  used_page_nr = add32 m.used_page_nr 1;
}

-- The address of the page, or 0.
unfoldable pub get_free_physical_page : PhysMem → ℕ × PhysMem
get_free_physical_page m = elim (find_free (sub32 (mem_map_size m) 1) 0 m.mem_map) [
  | none ↦ (0, m)
  | some i ↦ (mul32 i page_size, take_page m i)
]

unfoldable pub addr_to_page_descriptor : PhysMem → ℕ → Option ℕ
addr_to_page_descriptor m addr =
    if ltb (sub32 (mem_map_size m) 1) (addr_to_page addr) then none else some (addr_to_page addr)

abbrev pub ref_descriptor : PhysMem → ℕ → Exec (ℕ × PhysMem)
ref_descriptor m p =
    let count = get_or m.mem_map p 0 in
    if count == page_reserved
    then panic
    else ok (add32 count 1, record m { mem_map = set m.mem_map p (add32 count 1) })

unfoldable pub ref_physical_page : PhysMem → ℕ → Exec (ℕ × PhysMem)
unfolding addr_to_page_descriptor
ref_physical_page m paddr =
    if paddr == 0
    then ok (page_reserved, m)
    else elim (addr_to_page_descriptor m paddr) [ none ↦ fault | some p ↦ ref_descriptor m p ]

abbrev pub unref_descriptor : PhysMem → ℕ → Exec (ℕ × PhysMem)
unref_descriptor m p =
    let count = get_or m.mem_map p 0 in
    let left = sub32 count 1 in
    let m' = record m { mem_map = set m.mem_map p left } in
    if count == page_reserved
    then panic
    else if count == 0
    then panic
    else if ltb 0 left
    then ok (left, m')
    else ok (
      left,
      record m' { free_page_nr = add32 m.free_page_nr 1; used_page_nr = sub32 m.used_page_nr 1 },
    )

unfoldable pub unref_physical_page : PhysMem → ℕ → Exec (ℕ × PhysMem)
unfolding addr_to_page_descriptor
unref_physical_page m paddr =
    if paddr == 0
    then ok (page_reserved, m)
    else elim (addr_to_page_descriptor m paddr) [ none ↦ fault | some p ↦ unref_descriptor m p ]

pub get_nb_physical_pages : PhysMem → ℕ
get_nb_physical_pages m = add32 m.used_page_nr m.free_page_nr
