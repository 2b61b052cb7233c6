-- ===== src/Mm/Heap/Regions.antt =====
-- What is true of a chunk list: where the chunks lie, and what the counters should say.
use haoud_os.Base.{
  ℕ, ◌+◌, ◌*◌, ◌^◌, ◌≤◌, ◌<◌, ◌≡◌, ◌⊎◌, List, [], ◌∷◌, if◌then◌else◌, length, arith, refl,
}
use haoud_os.Mm.Heap.{Chunk, Heap, header_size, header_magic, initial_size, setup_heap}

-- One past the last byte of a chunk.
abbrev pub chunk_end : Chunk → ℕ
chunk_end c = c.addr + header_size + c.size

abbrev pub Apart : Chunk → Chunk → Type 0
Apart c d = (chunk_end c ≤ d.addr) ⊎ (chunk_end d ≤ c.addr)

abbrev pub AllApart : Chunk → List Chunk → Type 0
AllApart c [] = Unit {0}
AllApart c (d ∷ ds) = Apart c d × AllApart c ds

-- No two chunks share a byte, each lies in the address space, and each header is intact.
abbrev pub IsLaidOut : List Chunk → Type 0
IsLaidOut [] = Unit {0}
IsLaidOut (c ∷ cs) =
    AllApart c cs × (chunk_end c ≤ 2 ^ 32) × (c.magic ≡ header_magic) × IsLaidOut cs

unfoldable pub free_bytes : List Chunk → ℕ
free_bytes [] = 0
free_bytes (c ∷ cs) = (if c.used then 0 else c.size) + free_bytes cs

unfoldable pub count_used : List Chunk → ℕ
count_used [] = 0
count_used (c ∷ cs) = (if c.used then 1 else 0) + count_used cs

unfoldable pub count_free : List Chunk → ℕ
count_free [] = 0
count_free (c ∷ cs) = (if c.used then 0 else 1) + count_free cs

unfoldable pub all_bytes : List Chunk → ℕ
all_bytes [] = 0
all_bytes (c ∷ cs) = c.size + all_bytes cs

pub free_bytes-le : (cs : List Chunk) → free_bytes cs ≤ all_bytes cs
unfolding free_bytes all_bytes
free_bytes-le [] = omega arith
free_bytes-le (c ∷ cs) = ground (arith, free_bytes-le cs)

pub count_used-add-free : (cs : List Chunk) → count_used cs + count_free cs ≡ length cs
unfolding count_used count_free
count_used-add-free [] = omega arith
count_used-add-free (c ∷ cs) = ground (arith, count_used-add-free cs)

-- The layout is right, the counters are those of the list, and no counter can wrap.
pub record IsValid (h : Heap) : Type 0 where
  pub laid_out : IsLaidOut h.chunks
  pub free_memory : h.heap_free_memory ≡ free_bytes h.chunks
  pub used_chunks : h.nb_chunks_used ≡ count_used h.chunks
  pub free_chunks : h.nb_chunks_free ≡ count_free h.chunks
  pub bounded : all_bytes h.chunks + header_size * length h.chunks < 2 ^ 32

-- The heap that SetupHeap makes is valid.
pub setup_heap-IsValid : (start : ℕ) → start + initial_size ≤ 2 ^ 32 → IsValid (setup_heap start)
unfolding setup_heap free_bytes count_used count_free all_bytes
setup_heap-IsValid start h = record {
  laid_out = (tt, omega arith, refl, tt);
  free_memory = omega arith;
  used_chunks = omega arith;
  free_chunks = omega arith;
  bounded = omega arith;
}
