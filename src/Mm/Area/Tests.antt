-- ===== src/Mm/Area/Tests.antt =====
-- Runs on a range of four pages, and the theorems at inputs that meet their premises.
use haoud_os.Base.{ℕ, ◌≡◌, ◌⊎◌, true, false, [], ◌∷◌, ok, panic, arith, refl}
use haoud_os.Mm.Heap.{Heap, setup_heap, place, kmalloc_no_security}
use haoud_os.Mm.Heap.Regions.{IsValid, setup_heap-IsValid}
use haoud_os.Mm.Heap.Alloc.{NoneFits}
use haoud_os.Mm.Area.{
  Areas, setup_vm_area, find_area, take_area, get_vm_area, free_vm_area, struct_vm_area_size,
}
use haoud_os.Mm.Area.Tiling.{IsTiled, used_regions}
use haoud_os.Mm.Area.Grant.{NoArea, Grants, get_vm_area_lem}
use haoud_os.Mm.Area.Release.{get_and_free, free_vm_area_lem, free-get_vm_area}

abbrev heap : Heap
unfolding setup_heap
heap = setup_heap 0x10_0000

abbrev start : Areas
unfolding heap setup_vm_area
start = setup_vm_area 0x40_0000 0x40_4000 heap

start-IsTiled : IsTiled 0x40_0000 0x40_4000 start.areas
unfolding start
start-IsTiled = omega arith

heap-IsValid : IsValid start.heap
unfolding start
heap-IsValid = setup_heap-IsValid 0x10_0000 (omega arith)

-- Two pages of four.
after_two : ℕ × Areas
after_two = elim (get_vm_area 2 start) [ ok r ↦ r | _ ↦ (0, start) ]

two_of_four :
    (after_two.0 ≡ 0x40_0000)
    × (after_two.1.areas
        ≡ record { base_addr = 0x40_0000; page_count = 2; used = true }
          ∷ record { base_addr = 0x40_2000; page_count = 2; used = false }
          ∷ [])
unfolding after_two start get_vm_area take_area find_area kmalloc_no_security place
two_of_four = (refl, refl)

get_vm_area_lem_example :
    (NoArea 2 start.areas × (get_vm_area 2 start ≡ ok (0, start)))
    ⊎ (NoneFits struct_vm_area_size start.heap.chunks × (get_vm_area 2 start ≡ panic))
    ⊎ ((r : ℕ × Areas) × (get_vm_area 2 start ≡ ok r) × Grants 2 0x40_0000 0x40_4000 start r)
unfolding start
get_vm_area_lem_example =
    get_vm_area_lem 2 0x40_0000 0x40_4000 start (omega arith) (λ e. cc) (λ e. cc) (omega arith)
      start-IsTiled heap-IsValid

abbrev two_used : Areas
unfolding heap
two_used = record {
  heap = heap;
  areas =
      record { base_addr = 0x40_0000; page_count = 2; used = true }
      ∷ record { base_addr = 0x40_2000; page_count = 2; used = false }
      ∷ [];
}

two_used-IsTiled : IsTiled 0x40_0000 0x40_4000 two_used.areas
unfolding two_used
two_used-IsTiled = omega arith

free_vm_area_lem_example :
    (s' : Areas) × (free_vm_area 0x40_0000 two_used ≡ ok s')
    × (used_regions s'.areas ≡ [])
    × IsTiled 0x40_0000 0x40_4000 s'.areas
    × (s'.heap ≡ two_used.heap)
unfolding two_used used_regions
free_vm_area_lem_example =
    free_vm_area_lem 0x40_0000 2 0x40_0000 0x40_4000 two_used [] [] two_used-IsTiled refl

some_area : ¬ NoArea 2 start.areas
unfolding start
some_area (none_fits, rest) = ground arith

some_room : ¬ NoneFits struct_vm_area_size start.heap.chunks
unfolding start
some_room (none_fits, rest) = ground arith

free-get_vm_area_example :
    (s' : Areas) × (get_and_free 2 start ≡ ok s')
    × (used_regions s'.areas ≡ used_regions start.areas)
    × IsTiled 0x40_0000 0x40_4000 s'.areas
    × IsValid s'.heap
unfolding start
free-get_vm_area_example =
    free-get_vm_area 2 0x40_0000 0x40_4000 start (omega arith) (λ e. cc) (λ e. cc) (omega arith)
      start-IsTiled heap-IsValid some_area some_room
