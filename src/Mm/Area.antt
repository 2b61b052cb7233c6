-- ===== src/Mm/Area.antt =====
-- Areas of the kernel's virtual addresses, core/mm/area.c: the list in the order of its links from
-- `first_vm_area` on, and the heap from which the descriptors come. Of the flags only VM_AREA_USED is
-- ever read. A descriptor's own address is not kept, since nothing but the links depends on it.
pub mod Tiling
pub mod Grant
pub mod Release
mod Tests
use mathlib.Core.Option
use haoud_os.Base.{
  ℕ, ◌+◌, ◌-◌, ◌/◌, ◌≡◌, Bool, true, false, not, ◌&&◌, Option, none, some, List, [], ◌∷◌, ◌++◌, ltb,
  leb, ◌==◌, if◌then◌else◌, add32, sub32, mul32, page_size, Exec, ok, panic, fault, ◌>>=◌,
}
use haoud_os.Mm.Heap.{Heap, kmalloc_no_security}

pub record VmArea : Type 0 where
  pub base_addr : ℕ
  pub page_count : ℕ
  pub used : Bool

pub record Areas : Type 0 where
  pub heap : Heap
  pub areas : List VmArea

-- `STRUCT_VM_AREA_SIZE`: five words of four bytes.
abbrev pub struct_vm_area_size : ℕ
struct_vm_area_size = 20

-- SetupVmArea, once kmalloc has given the descriptor.
unfoldable pub setup_vm_area : ℕ → ℕ → Heap → Areas
setup_vm_area start_vm_area end_vm_area heap = record {
  heap = heap;
  areas =
      record {
        base_addr = start_vm_area;
        page_count = sub32 end_vm_area start_vm_area / page_size;
        used = false;
      }
      ∷ [];
}

abbrev pub area_fits : ℕ → VmArea → Bool
area_fits nb_pages a = not a.used && leb nb_pages a.page_count

-- The scan: the list before the first free area that is large enough, the area, and the list after.
unfoldable pub find_area : ℕ → List VmArea → Option (List VmArea × VmArea × List VmArea)
find_area nb_pages [] = none
find_area nb_pages (a ∷ as') =
    let rest = Option.map (λ z. (a ∷ z.0, z.1, z.2)) (find_area nb_pages as') in
    if area_fits nb_pages a then some ([], a, as') else rest

abbrev pub first_part : ℕ → VmArea → VmArea
first_part nb_pages a = record a { page_count = nb_pages; used = true }

abbrev pub second_part : ℕ → VmArea → VmArea
second_part nb_pages a = record {
  base_addr = add32 a.base_addr (mul32 nb_pages page_size);
  page_count = sub32 a.page_count nb_pages;
  used = false;
}

-- The area is cut in two if it is too large, with a descriptor from the heap for the second part.
unfoldable pub take_area : ℕ → List VmArea → VmArea → List VmArea → Areas → Exec (ℕ × Areas)
take_area nb_pages before a after s =
    if ltb nb_pages a.page_count
    then (kmalloc_no_security struct_vm_area_size s.heap >>= λ r.
        if r.0 == 0
        then panic
        else ok (
          a.base_addr,
          record {
            heap = r.1;
            areas = before ++ (first_part nb_pages a ∷ second_part nb_pages a ∷ after);
          },
        ))
    else ok (a.base_addr, record s { areas = before ++ (record a { used = true } ∷ after) })

-- The base address, or 0. An empty list would be read through a null pointer.
unfoldable pub get_vm_area : ℕ → Areas → Exec (ℕ × Areas)
get_vm_area nb_pages s = if nb_pages == 0 then ok (0, s) else elim s.areas [
  | [] ↦ fault
  | _ ∷ _ ↦ elim (find_area nb_pages s.areas) [
    | none ↦ ok (0, s)
    | some (before, a, after) ↦ take_area nb_pages before a after s
  ]
]

-- The first area with a base address.
unfoldable pub find_base : ℕ → List VmArea → Option (List VmArea × VmArea × List VmArea)
find_base base_area [] = none
find_base base_area (a ∷ as') =
    let rest = Option.map (λ z. (a ∷ z.0, z.1, z.2)) (find_base base_area as') in
    if a.base_addr == base_area then some ([], a, as') else rest

unfoldable pub free_vm_area : ℕ → Areas → Exec Areas
free_vm_area base_area s = elim s.areas [
  | [] ↦ fault
  | _ ∷ _ ↦ elim (find_base base_area s.areas) [
    | none ↦ panic
    | some (before, a, after) ↦
        if a.used
        then ok (record s { areas = before ++ (record a { used = false } ∷ after) })
        else panic
  ]
]
