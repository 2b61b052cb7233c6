-- ===== src/Mm/Phys/Tests.antt =====
-- Runs of the page allocator on a small array, and the theorems at inputs that meet their premises.
use haoud_os.Base.{◌≡◌, [], ◌∷◌, ok, arith, refl, page_reserved}
use haoud_os.Mm.Phys.{
  PhysMem, reserve_end, get_free_physical_page, phys_mem_setup, find_free, set_phys_page_reserved,
  reserve_pages, reserve_boot_pages,
}
use haoud_os.Mm.Phys.Accounting.{IsConsistent, free_count}
use haoud_os.Mm.Phys.Setup.{phys_mem_setup_lem}

-- Page 0 reserved, page 1 in use twice, pages 2 and 3 free.
abbrev four_pages : PhysMem
four_pages = record { mem_map = page_reserved ∷ 2 ∷ 0 ∷ 0 ∷ []; free_page_nr = 2; used_page_nr = 2 }

four_pages-IsConsistent : IsConsistent four_pages
unfolding free_count
four_pages-IsConsistent = omega arith

first_free_page : get_free_physical_page four_pages ≡ (
  0x2000,
  record { mem_map = page_reserved ∷ 2 ∷ 1 ∷ 0 ∷ []; free_page_nr = 1; used_page_nr = 3 },
)
unfolding get_free_physical_page find_free
first_free_page = refl

-- 2 MB of memory, and a kernel that ends at 1 MB + 64 KB.
abbrev off : PhysMem
off = record { mem_map = []; free_page_nr = 0; used_page_nr = 0 }

booted : PhysMem
booted = elim (phys_mem_setup 2048 0x110000 off) [ ok m ↦ m | _ ↦ off ]

-- With 7 MB and a kernel that ends at 0x110100 the array starts at 0x111000 and reaches up to
-- 0x112c00, but the loop stops at page 0x112, which stays free.
last_page : reserve_end 0x11_0100 1792 ≡ 0x112
last_page = refl

phys_mem_setup_lem_example : IsConsistent booted
unfolding booted phys_mem_setup reserve_boot_pages reserve_pages set_phys_page_reserved
phys_mem_setup_lem_example =
    (phys_mem_setup_lem 2048 0x110000 off refl (omega arith) (omega arith) (omega arith) refl).0
