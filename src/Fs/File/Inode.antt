-- ===== src/Fs/File/Inode.antt =====
-- unref_inode, and the inodes of the files in use.
use haoud_os.Base.{
  ℕ, ◌-◌, ◌<◌, ◌≡◌, ◌≢◌, inl, inr, false, List, ◌∷◌, set, length, get_or-set_ne, get_or-set_eq,
  get_or_outside, total-set, get_or-le_total, ◌==◌, Exec, ok, arith, ap, Bool-cases, decide_equal,
  in_or_out,
}
use haoud_os.Fs.File.{Store, Event, deletes, zero_file, file, memory_count, set_ref, unref_inode}
use haoud_os.Fs.File.Counting.{on, InodesHeld, in_store}
use haoud_os.Fs.File.Reference.{on-alive}

-- What `unref_inode` does to an inode that is referenced.
pub data InodeReleased (i : ℕ) (s : Store) : Exec Store → Type 0 where
  deleted :
      memory_count s i ≡ 1
      → InodeReleased i s (
          ok (record s {
            memory_counts = set s.memory_counts i (memory_count s i - 1);
            events = deletes i ∷ s.events;
          }))
  kept :
      memory_count s i ≢ 1
      → InodeReleased i s
          (ok (record s { memory_counts = set s.memory_counts i (memory_count s i - 1) }))

pub unref_inode_lem :
    (i : ℕ) (s : Store) → 0 < memory_count s i → InodeReleased i s (unref_inode i s)
unfolding unref_inode
unref_inode_lem i s h = elim (Bool-cases (memory_count s i == 1)) [
  | inl e ↦ rw (e) (deleted (ground arith))
  | inr n ↦
      let positive : (memory_count s i == 0) ≡ false = ground arith in
      rw (n, positive) (kept (ground arith))
]

on-dead : (i f n : ℕ) (s : Store) → n ≡ 0 → on i (record (file s f) { ref = n }) ≡ 0
on-dead i f n s e = ground arith

on_self : (f : ℕ) (s : Store) → 0 < (file s f).ref → on (file s f).inode (file s f) ≡ 1
on_self f s h = ground arith

counted : (i : ℕ) (s : Store) → 0 < memory_count s i → i < length s.memory_counts
counted i s h = elim (in_or_out i (length s.memory_counts)) [
  | inl inside ↦ inside
  | inr out ↦ absurd (omega (arith, get_or_outside s.memory_counts i 0 out))
]

on-in : (i f : ℕ) (s : Store) → (file s f).inode ≡ i → 0 < (file s f).ref → on i (file s f) ≡ 1
on-in i f s e h = ground arith

on-out : (i f : ℕ) (s : Store) → (file s f).inode ≢ i → on i (file s f) ≡ 0
on-out i f s n = ground arith

-- The inode of a file in use is referenced.
pub inode_positive :
    (f : ℕ) (s : Store) → 0 < (file s f).ref → InodesHeld s → 0 < memory_count s (file s f).inode
unfolding InodesHeld
inode_positive f s h held = omega (
  arith,
  held (file s f).inode,
  on_self f s h,
  get_or-le_total (on (file s f).inode) s.files f zero_file (in_store f s h),
)

-- The file that was referenced once is not in use any more, nor counted for its inode.
pub InodesHeld-last :
    (f n : ℕ) (s : Store) (events : List Event)
    → n ≡ 0
    → (file s f).ref ≡ 1
    → InodesHeld s
    → let j = (file s f).inode in
      InodesHeld (record (set_ref f n s) {
        memory_counts = set s.memory_counts j (memory_count s j - 1);
        events = events;
      })
unfolding InodesHeld
InodesHeld-last f n s events nz one held i =
    let j = (file s f).inode in
    let change =
      total-set (on i) s.files f (record (file s f) { ref = n }) zero_file
        (in_store f s (omega arith)) in
    let counts = memory_count s j - 1 in
    elim (decide_equal j i) [
      | inl e ↦ omega (
        arith,
        held i,
        change,
        on-dead i f n s nz,
        on-in i f s e (omega arith),
        ap (memory_count s) e,
        get_or-set_eq s.memory_counts j i counts 0 e
            (counted j s (inode_positive f s (omega arith) held)),
      )
      | inr d ↦ omega (
        arith,
        held i,
        change,
        on-dead i f n s nz,
        on-out i f s d,
        get_or-set_ne s.memory_counts j i counts 0 d,
      )
    ]

-- The file that is referenced by others too stays counted.
pub InodesHeld-not_last :
    (f n : ℕ) (s : Store) → 0 < (file s f).ref → 0 < n → InodesHeld s → InodesHeld (set_ref f n s)
unfolding InodesHeld
InodesHeld-not_last f n s h hn held i =
    let change =
      total-set (on i) s.files f (record (file s f) { ref = n }) zero_file (in_store f s h) in
    omega (arith, held i, change, on-alive i f n s h hn)
