-- ===== src/Mm/Heap/Alloc.antt =====
-- kmalloc_no_security of core/mm/heap.c, and the chunk list.
use haoud_os.Base.{
  ℕ, ◌+◌, ◌*◌, ◌^◌, ◌≤◌, ◌<◌, ◌≡◌, ◌≢◌, ◌⊎◌, inl, inr, false, none, some, List, [], ◌∷◌, length,
  arith, refl, Bool-cases, add32, sub32, ok,
}
use haoud_os.Mm.Heap.{
  Chunk, Heap, header_size, taken, split_off, fits, place, clamp_size, kmalloc_no_security,
}
use haoud_os.Mm.Heap.Regions.{
  chunk_end, AllApart, IsLaidOut, free_bytes, count_used, count_free, all_bytes, free_bytes-le,
  count_used-add-free, IsValid,
}

-- What the scan has done: `cs` with one free chunk `c` cut in two.
pub data Placed (size : ℕ) : List Chunk → Chunk → List Chunk → Type 0 where
  here :
      (c : Chunk) (cs : List Chunk)
      → c.used ≡ false
      → size + header_size ≤ c.size
      → Placed size (c ∷ cs) c (taken size c ∷ split_off size c ∷ cs)
  there : (d c : Chunk) (cs ds : List Chunk) → Placed size cs c ds → Placed size (d ∷ cs) c (d ∷ ds)

-- No free chunk has room for the block and a header.
abbrev pub NoneFits : ℕ → List Chunk → Type 0
NoneFits size [] = Unit {0}
NoneFits size (c ∷ cs) = (fits size c ≡ false) × NoneFits size cs

abbrev Scanned : ℕ → List Chunk → Type 0
Scanned size cs =
    ((place size cs ≡ none) × NoneFits size cs)
    ⊎ ((c : Chunk) × (ds : List Chunk) × (place size cs ≡ some (c, ds)) × Placed size cs c ds)

pub place-Scanned : (size : ℕ) (cs : List Chunk) → size + header_size < 2 ^ 32 → Scanned size cs
unfolding place
place-Scanned size [] small = inl (refl, tt)
place-Scanned size (d ∷ cs) small = elim (Bool-cases (fits size d)) [
  | inl f ↦
      inr (d, taken size d ∷ split_off size d ∷ cs, rw f, here d cs (ground arith) (ground arith))
  | inr n ↦ elim (place-Scanned size cs small) [
    | inl (e, no_fit) ↦ inl (rw (n, e), (n, no_fit))
    | inr (c, ds, e, p) ↦ inr (c, d ∷ ds, rw (n, e), there d c cs ds p)
  ]
]

-- The two halves of a chunk stay where the chunk was.
module _ (size : ℕ) where
  AllApart-Placed :
      (x : Chunk) {c : Chunk} {cs ds : List Chunk}
      → Placed size cs c ds
      → IsLaidOut cs
      → AllApart x cs
      → AllApart x ds
  AllApart-Placed x (here c cs f h) l (a, rest) = (ground arith, (ground arith, rest))
  AllApart-Placed x (there d c cs ds p) l (a, rest) = (a, AllApart-Placed x p l.3 rest)

  AllApart-part :
      (c d : Chunk) (cs : List Chunk)
      → c.addr ≤ d.addr
      → chunk_end d ≤ chunk_end c
      → AllApart c cs
      → AllApart d cs
  AllApart-part c d [] lo hi a = tt
  AllApart-part c d (x ∷ cs) lo hi (a, rest) = (ground arith, AllApart-part c d cs lo hi rest)

  IsLaidOut-Placed :
      {c : Chunk} {cs ds : List Chunk} → Placed size cs c ds → IsLaidOut cs → IsLaidOut ds
  IsLaidOut-Placed (here c cs f h) (a, e, m, l) = (
    (inl (omega arith), AllApart-part c (taken size c) cs (omega arith) (omega arith) a),
    omega arith,
    m,
    (AllApart-part c (split_off size c) cs (omega arith) (omega arith) a, omega arith, refl, l),
  )
  IsLaidOut-Placed (there d c cs ds p) (a, e, m, l) =
      (AllApart-Placed d p l a, e, m, IsLaidOut-Placed p l)

  -- A header's worth of free bytes goes with the block; one chunk more is in use.
  counters-Placed :
      {c : Chunk} {cs ds : List Chunk}
      → Placed size cs c ds
      → IsLaidOut cs
      → (free_bytes ds + size + header_size ≡ free_bytes cs)
        × (count_used ds ≡ count_used cs + 1)
        × (count_free ds ≡ count_free cs)
        × (all_bytes ds + header_size * length ds ≡ all_bytes cs + header_size * length cs)
  unfolding free_bytes count_used count_free all_bytes
  counters-Placed (here c cs f h) l = ground arith
  counters-Placed (there d c cs ds p) l = omega (arith, counters-Placed p l.3)

  chunk-Placed :
      {c : Chunk} {cs ds : List Chunk}
      → Placed size cs c ds
      → IsLaidOut cs
      → (size + header_size ≤ c.size) × (chunk_end c ≤ 2 ^ 32)
  chunk-Placed (here c cs f h) l = (h, l.1)
  chunk-Placed (there d c cs ds p) l = chunk-Placed p l.3

-- What kmalloc_no_security does with a valid heap.
pub record Allocates (size : ℕ) (h : Heap) (r : ℕ × Heap) : Type 0 where
  pub chunk : Chunk
  pub placed : Placed size h.chunks chunk r.1.chunks
  pub block : r.0 ≡ chunk.addr + header_size
  pub valid : IsValid r.1
  pub one_more : length r.1.chunks ≡ length h.chunks + 1
  pub counted : r.1.nb_chunks ≡ add32 h.nb_chunks 1

abbrev pub Refuses : ℕ → Heap → ℕ × Heap → Type 0
Refuses size h r = NoneFits size h.chunks × (r ≡ (0, h))

length-Placed :
    (size : ℕ) {c : Chunk} {cs ds : List Chunk} → Placed size cs c ds → length ds ≡ length cs + 1
length-Placed size (here c cs f h) = omega arith
length-Placed size (there d c cs ds p) = omega (arith, length-Placed size p)

Allocates-Placed :
    (n : ℕ) (h : Heap) (c : Chunk) (ds : List Chunk)
    → IsValid h
    → Placed n h.chunks c ds
    → Allocates n h (
      add32 c.addr header_size,
      record h {
        chunks = ds;
        nb_chunks = add32 h.nb_chunks 1;
        nb_chunks_used = add32 h.nb_chunks_used 1;
        heap_free_memory = sub32 h.heap_free_memory (add32 n header_size);
      },
    )
Allocates-Placed n h c ds v p =
    let (bytes, more, same, room) = counters-Placed n p v.laid_out in
    let (fits_in, in_space) = chunk-Placed n p v.laid_out in
    let parts = count_used-add-free h.chunks in
    let below = free_bytes-le h.chunks in
    record {
      chunk = c;
      placed = p;
      block = omega arith;
      valid = record {
        laid_out = IsLaidOut-Placed n p v.laid_out;
        free_memory = omega arith;
        used_chunks = omega arith;
        free_chunks = omega arith;
        bounded = omega arith;
      };
      one_more = length-Placed n p;
      counted = refl;
    }

placed_result :
    (size : ℕ) (h : Heap) (c : Chunk) (ds : List Chunk)
    → h.chunks ≢ []
    → place (clamp_size size) h.chunks ≡ some (c, ds)
    → kmalloc_no_security size h
      ≡ ok (
        add32 c.addr header_size,
        record h {
          chunks = ds;
          nb_chunks = add32 h.nb_chunks 1;
          nb_chunks_used = add32 h.nb_chunks_used 1;
          heap_free_memory = sub32 h.heap_free_memory (add32 (clamp_size size) header_size);
        },
      )
unfolding kmalloc_no_security
placed_result size h c ds ne e = ground arith

full_result :
    (size : ℕ) (h : Heap)
    → h.chunks ≢ []
    → place (clamp_size size) h.chunks ≡ none
    → kmalloc_no_security size h ≡ ok (0, h)
unfolding kmalloc_no_security
full_result size h ne e = ground arith

-- On a valid heap with a chunk, and for a size that with a header is less than 2^32 (above that the
-- test of heap.c wraps around), kmalloc_no_security returns. Either no free chunk has room for the
-- block and a header, and it returns NULL and changes nothing; or it cuts one free chunk in two,
-- returns the first part and leaves all other chunks alone: no two chunks overlap, the counters of the
-- chunks in use, of the free ones and of the free bytes are those of the list, and nb_chunks has grown
-- by one, as the list has.
pub kmalloc_no_security_lem :
    (size : ℕ) (h : Heap)
    → h.chunks ≢ []
    → size + header_size < 2 ^ 32
    → IsValid h
    → (r : ℕ × Heap) × (kmalloc_no_security size h ≡ ok r)
      × (Refuses (clamp_size size) h r ⊎ Allocates (clamp_size size) h r)
kmalloc_no_security_lem size h ne small v =
    elim (place-Scanned (clamp_size size) h.chunks (ground arith)) [
      | inl (e, no_fit) ↦ ((0, h), full_result size h ne e, inl (no_fit, refl))
      | inr (c, ds, e, p) ↦
          (_, placed_result size h c ds ne e, inr (Allocates-Placed (clamp_size size) h c ds v p))
    ]
