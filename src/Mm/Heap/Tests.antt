-- ===== src/Mm/Heap/Tests.antt =====
-- Runs on a fresh heap, and the theorems at inputs that meet their premises.
use haoud_os.Base.{ℕ, ◌+◌, ◌≡◌, ◌⊎◌, true, false, [], ◌∷◌, ok, arith, refl}
use haoud_os.Mm.Heap.{
  Chunk, Heap, setup_heap, place, kmalloc_no_security, kfree, header_size, header_magic,
}
use haoud_os.Mm.Heap.Regions.{IsValid, free_bytes, count_used, count_free, all_bytes}
use haoud_os.Mm.Heap.Alloc.{Allocates, Refuses, kmalloc_no_security_lem}
use haoud_os.Mm.Heap.Free.{Released, kfree_lem}

abbrev fresh : Heap
unfolding setup_heap
fresh = setup_heap 0x20_0000

-- After one block of 100 bytes.
abbrev one_block : Heap
one_block = record {
  chunks =
      record { addr = 0x20_0000; magic = header_magic; size = 100; used = true }
      ∷ record { addr = 0x20_007c; magic = header_magic; size = 16236; used = false }
      ∷ [];
  nb_chunks = 2;
  nb_chunks_used = 1;
  nb_chunks_free = 1;
  heap_memory_allocated = 0x4000;
  heap_free_memory = 16236;
}

first_block : kmalloc_no_security 100 fresh ≡ ok (0x20_0018, one_block)
unfolding setup_heap kmalloc_no_security place
first_block = refl

one_block-IsValid : IsValid one_block
unfolding free_bytes count_used count_free all_bytes
one_block-IsValid = omega arith

kmalloc_no_security_lem_example :
    (r : ℕ × Heap) × (kmalloc_no_security 200 one_block ≡ ok r)
    × (Refuses 200 one_block r ⊎ Allocates 200 one_block r)
kmalloc_no_security_lem_example =
    kmalloc_no_security_lem 200 one_block (λ e. cc) (omega arith) one_block-IsValid

kfree_lem_example :
    (c : Chunk) × (h' : Heap) × (kfree 0x20_0018 one_block ≡ ok h')
    × Released one_block.chunks c h'.chunks
    × (c.addr + header_size ≡ 0x20_0018)
    × IsValid h'
kfree_lem_example = kfree_lem 0x20_0018 one_block one_block-IsValid (omega arith) (omega arith) refl

-- The second chunk is free.
