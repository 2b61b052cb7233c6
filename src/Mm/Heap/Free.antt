-- ===== src/Mm/Heap/Free.antt =====
-- kfree: it gives back a block in use, and what it does to one that is free already.
use haoud_os.Base.{
  ℕ, ◌+◌, ◌^◌, ◌≤◌, ◌<◌, ◌≡◌, ◌≢◌, inl, inr, Bool, true, false, some, List, [], ◌∷◌, if◌then◌else◌,
  length, arith, Bool-cases, add32, sub32, ok, ◌==◌,
}
use haoud_os.Mm.Heap.{Chunk, Heap, header_size, header_magic, release, kfree}
use haoud_os.Mm.Heap.Regions.{
  AllApart, IsLaidOut, free_bytes, count_used, count_free, all_bytes, free_bytes-le,
  count_used-add-free, IsValid,
}

-- `cs` with the chunk `c` marked free.
pub data Released : List Chunk → Chunk → List Chunk → Type 0 where
  here : (c : Chunk) (cs : List Chunk) → Released (c ∷ cs) c (record c { used = false } ∷ cs)
  there : (d c : Chunk) (cs ds : List Chunk) → Released cs c ds → Released (d ∷ cs) c (d ∷ ds)

-- There is a chunk at an address, and it is in use or not.
abbrev pub HasChunk : ℕ → Bool → List Chunk → Type 0
HasChunk addr b [] = ⊥
HasChunk addr b (c ∷ cs) = if c.addr == addr then c.used ≡ b else HasChunk addr b cs

release-Released :
    (addr : ℕ) (b : Bool) (cs : List Chunk)
    → HasChunk addr b cs
    → (c : Chunk) × (ds : List Chunk) × (release addr cs ≡ some (c, ds))
      × Released cs c ds
      × (c.addr ≡ addr)
      × (c.used ≡ b)
unfolding release
release-Released addr b [] m = absurd m
release-Released addr b (d ∷ cs) m = elim (Bool-cases (d.addr == addr)) [
  | inl e ↦ (d, record d { used = false } ∷ cs, rw e, here d cs, ground arith, rw e at m)
  | inr n ↦
      let (c, ds, e, r, a, u) = release-Released addr b cs (rw n at m) in
      (c, d ∷ ds, rw (n, e), there d c cs ds r, a, u)
]

AllApart-Released :
    (x : Chunk) {c : Chunk} {cs ds : List Chunk} → Released cs c ds → AllApart x cs → AllApart x ds
AllApart-Released x (here c cs) (a, rest) = (a, rest)
AllApart-Released x (there d c cs ds r) (a, rest) = (a, AllApart-Released x r rest)

AllApart-freed :
    (c : Chunk) (cs : List Chunk) → AllApart c cs → AllApart (record c { used = false }) cs
AllApart-freed c [] a = tt
AllApart-freed c (d ∷ cs) (a, rest) = (a, AllApart-freed c cs rest)

IsLaidOut-Released :
    {c : Chunk} {cs ds : List Chunk}
    → Released cs c ds
    → IsLaidOut cs
    → IsLaidOut ds × (c.magic ≡ header_magic)
IsLaidOut-Released (here c cs) (a, e, m, l) = ((AllApart-freed c cs a, e, m, l), m)
IsLaidOut-Released (there d c cs ds r) (a, e, m, l) =
    let (l', m') = IsLaidOut-Released r l in ((AllApart-Released d r a, e, m, l'), m')

counters-Released :
    {c : Chunk} {cs ds : List Chunk}
    → Released cs c ds
    → (if c.used then free_bytes ds ≡ free_bytes cs + c.size else free_bytes ds ≡ free_bytes cs)
      × (count_used ds + (if c.used then 1 else 0) ≡ count_used cs)
      × (count_free ds ≡ count_free cs + (if c.used then 1 else 0))
      × (all_bytes ds ≡ all_bytes cs)
      × (length ds ≡ length cs)
unfolding free_bytes count_used count_free all_bytes
counters-Released (here c cs) = ground arith
counters-Released (there d c cs ds r) = ground (arith, counters-Released r)

freed_result :
    (obj : ℕ) (h : Heap) (c : Chunk) (ds : List Chunk)
    → h.chunks ≢ []
    → obj ≢ 0
    → c.magic ≡ header_magic
    → release (sub32 obj header_size) h.chunks ≡ some (c, ds)
    → kfree obj h
      ≡ ok (record h {
        chunks = ds;
        nb_chunks_used = sub32 h.nb_chunks_used 1;
        nb_chunks_free = add32 h.nb_chunks_free 1;
        heap_free_memory = add32 h.heap_free_memory c.size;
      })
unfolding kfree
freed_result obj h c ds ne nz m e = ground arith

HasChunk-ne-nil : (addr : ℕ) (b : Bool) (cs : List Chunk) → HasChunk addr b cs → cs ≢ []
HasChunk-ne-nil addr b [] m = absurd m
HasChunk-ne-nil addr b (c ∷ cs) m = λ e. cc

-- kfree marks the chunk of a block in use as free, leaves every other chunk alone and keeps the heap
-- valid.
pub kfree_lem :
    (obj : ℕ) (h : Heap)
    → IsValid h
    → header_size ≤ obj
    → obj < 2 ^ 32
    → HasChunk (sub32 obj header_size) true h.chunks
    → (c : Chunk) × (h' : Heap) × (kfree obj h ≡ ok h')
      × Released h.chunks c h'.chunks
      × (c.addr + header_size ≡ obj)
      × IsValid h'
kfree_lem obj h v lo hi m =
    let (c, ds, e, r, a, u) = release-Released (sub32 obj header_size) true h.chunks m in
    let (l, magic) = IsLaidOut-Released r v.laid_out in
    let counts = counters-Released r in
    let parts = count_used-add-free h.chunks in
    let below = free_bytes-le ds in
    (
      c,
      _,
      freed_result obj h c ds (HasChunk-ne-nil _ true h.chunks m) (omega arith) magic e,
      r,
      omega arith,
      record {
        laid_out = l;
        free_memory = ground arith;
        used_chunks = ground arith;
        free_chunks = ground arith;
        bounded = ground arith;
      },
    )

-- A block that is freed twice: kfree does not look at the flag, and counts its chunk as free a second
-- time, so that the heap claims one free chunk and its bytes more than it has.
pub kfree_twice :
    (obj : ℕ) (h : Heap)
    → IsValid h
    → header_size ≤ obj
    → obj < 2 ^ 32
    → HasChunk (sub32 obj header_size) false h.chunks
    → (c : Chunk) × (h' : Heap) × (kfree obj h ≡ ok h')
      × (h'.nb_chunks_free ≡ count_free h'.chunks + 1)
      × (h'.heap_free_memory ≡ add32 (free_bytes h'.chunks) c.size)
      × (¬ IsValid h')
kfree_twice obj h v lo hi m =
    let (c, ds, e, r, a, u) = release-Released (sub32 obj header_size) false h.chunks m in
    let (l, magic) = IsLaidOut-Released r v.laid_out in
    let counts = counters-Released r in
    let parts = count_used-add-free h.chunks in
    let below = free_bytes-le ds in
    let more : add32 h.nb_chunks_free 1 ≡ count_free ds + 1 = ground arith in
    (
      c,
      _,
      freed_result obj h c ds (HasChunk-ne-nil _ false h.chunks m) (omega arith) magic e,
      more,
      ground arith,
      λ w. omega (arith, w.free_chunks, more),
    )
