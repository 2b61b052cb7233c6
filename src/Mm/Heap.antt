-- ===== src/Mm/Heap.antt =====
-- The kernel heap, core/mm/heap.c: the chunk list in the order of its links from `first_chunk` on, and
-- the counters. A chunk's header takes 24 bytes at `addr`, and its block follows. Of the flags only
-- CHUNK_USED is ever read. A header that is not in the list is taken not to hold the magic number.
pub mod Regions
pub mod Alloc
pub mod Free
mod Tests
use mathlib.Core.Option
use haoud_os.Base.{
  ℕ, ◌+◌, ◌-◌, ◌≡◌, Bool, true, false, not, ◌&&◌, Option, none, some, List, [], ◌∷◌, ltb, leb, ◌==◌,
  if◌then◌else◌, add32, sub32, Exec, ok, panic, fault,
}

pub record Chunk : Type 0 where
  pub addr : ℕ
  pub magic : ℕ
  pub size : ℕ
  pub used : Bool

pub record Heap : Type 0 where
  pub chunks : List Chunk
  pub nb_chunks : ℕ
  pub nb_chunks_used : ℕ
  pub nb_chunks_free : ℕ
  pub heap_memory_allocated : ℕ
  pub heap_free_memory : ℕ

-- `HEAP_HEADER_SIZE`: six words of four bytes.
abbrev pub header_size : ℕ
header_size = 24

abbrev pub header_magic : ℕ
header_magic = 0xdead_c0de

abbrev pub minimal_size : ℕ
minimal_size = 8

-- Four pages.
abbrev pub initial_size : ℕ
initial_size = 0x4000

-- SetupHeap, after the pages from `start` on have been mapped.
unfoldable pub setup_heap : ℕ → Heap
setup_heap start = record {
  chunks = first ∷ [];
  nb_chunks = 1;
  nb_chunks_used = 0;
  nb_chunks_free = 1;
  heap_memory_allocated = initial_size;
  heap_free_memory = first.size;
}
  where
    first : Chunk
    first = record {
      addr = start;
      magic = header_magic;
      size = initial_size - header_size;
      used = false;
    }

abbrev pub clamp_size : ℕ → ℕ
clamp_size size = if ltb size minimal_size then minimal_size else size

-- The chunk that is handed out, and the one that is split off behind it.
abbrev pub taken : ℕ → Chunk → Chunk
taken size c = record c { size = size; used = true }

abbrev pub split_off : ℕ → Chunk → Chunk
split_off size c = record {
  addr = add32 (add32 c.addr header_size) size;
  magic = header_magic;
  size = sub32 (sub32 c.size size) header_size;
  used = false;
}

abbrev pub fits : ℕ → Chunk → Bool
fits size c = not c.used && leb (add32 size header_size) c.size

-- The scan: the first free chunk with room for the block and a header is cut in two.
unfoldable pub place : ℕ → List Chunk → Option (Chunk × List Chunk)
place size [] = none
place size (c ∷ cs) =
    let rest = Option.map (λ r. (r.0, c ∷ r.1)) (place size cs) in
    if fits size c then some (c, taken size c ∷ split_off size c ∷ cs) else rest

-- The address of the block, or 0 for NULL. An empty list would be read through a null pointer.
unfoldable pub kmalloc_no_security : ℕ → Heap → Exec (ℕ × Heap)
kmalloc_no_security size h = elim h.chunks [
  | [] ↦ fault
  | _ ∷ _ ↦
      let n = clamp_size size in
      elim (place n h.chunks) [
        | none ↦ ok (0, h)
        | some (c, chunks) ↦ ok (
          add32 c.addr header_size,
          record h {
            chunks = chunks;
            nb_chunks = add32 h.nb_chunks 1;
            nb_chunks_used = add32 h.nb_chunks_used 1;
            heap_free_memory = sub32 h.heap_free_memory (add32 n header_size);
          },
        )
      ]
]

-- The header at an address, with the list in which it is marked free.
unfoldable pub release : ℕ → List Chunk → Option (Chunk × List Chunk)
release addr [] = none
release addr (c ∷ cs) =
    let rest = Option.map (λ r. (r.0, c ∷ r.1)) (release addr cs) in
    if c.addr == addr then some (c, record c { used = false } ∷ cs) else rest

abbrev pub free_chunk : Heap → Chunk → List Chunk → Heap
free_chunk h c chunks =
    if c.magic == header_magic
    then record h {
      chunks = chunks;
      nb_chunks_used = sub32 h.nb_chunks_used 1;
      nb_chunks_free = add32 h.nb_chunks_free 1;
      heap_free_memory = add32 h.heap_free_memory c.size;
    }
    else h

unfoldable pub kfree : ℕ → Heap → Exec Heap
kfree obj h = elim h.chunks [
  | [] ↦ panic
  | _ ∷ _ ↦ if obj == 0 then ok h else elim (release (sub32 obj header_size) h.chunks) [
    | none ↦ ok h
    | some (c, chunks) ↦ ok (free_chunk h c chunks)
  ]
]
