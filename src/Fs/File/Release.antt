-- ===== src/Fs/File/Release.antt =====
-- unref_open_file.
use mathlib.Core.Path.{subst}
use haoud_os.Base.{
  ℕ, ◌-◌, ◌^◌, ◌<◌, ◌≡◌, ◌≢◌, ◌⊎◌, inl, inr, true, false, List, ◌∷◌, set, get_or-set_self, ◌==◌,
  sub32, Exec, ok, ◌>>=◌, arith, refl, sym, ap, decide_equal,
}
use haoud_os.Fs.File.{
  OpenFile, Store, Event, closes, deletes, zero_file, file, memory_count, set_ref, unref_inode,
  unref_open_file,
}
use haoud_os.Fs.File.Counting.{InodesHeld, in_store}
use haoud_os.Fs.File.Inode.{
  InodeReleased, deleted, kept, unref_inode_lem, InodesHeld-last, InodesHeld-not_last,
  inode_positive,
}

-- The store afterwards: one reference to the file less, and the inode's count.
abbrev pub unreferenced : ℕ → List ℕ → List Event → Store → Store
unreferenced f counts events s = record (set_ref f (sub32 (file s f).ref 1) s) {
  memory_counts = counts;
  events = events;
}

unfoldable pub Unreferences : (ℕ → ℕ) → ℕ → Store → Exec (ℕ × Store) → Type 0
Unreferences close f s r =
    (c : ℕ) × (counts : List ℕ) × (events : List Event) × (r
      ≡ ok (c, unreferenced f counts events s))
    × InodesHeld (unreferenced f counts events s)
    × ((file s f).ref ≡ 1
        → (c ≡ close f)
          × ((events ≡ closes f ∷ s.events)
              ⊎ (events ≡ deletes (file s f).inode ∷ closes f ∷ s.events)))
    × ((file s f).ref ≢ 1 → (events ≡ s.events) × (counts ≡ s.memory_counts))

ref_after :
    (f : ℕ) (s : Store)
    → 0 < (file s f).ref
    → (file (set_ref f (sub32 (file s f).ref 1) s) f).ref ≡ sub32 (file s f).ref 1
ref_after f s h = ap OpenFile.ref (
    get_or-set_self s.files f (record (file s f) { ref = sub32 (file s f).ref 1 }) zero_file
      (in_store f s h))

inode_after :
    (f : ℕ) (s : Store)
    → 0 < (file s f).ref
    → (file (set_ref f (sub32 (file s f).ref 1) s) f).inode ≡ (file s f).inode
inode_after f s h = ap OpenFile.inode (
    get_or-set_self s.files f (record (file s f) { ref = sub32 (file s f).ref 1 }) zero_file
      (in_store f s h))

module _ (close : ℕ → ℕ) where
  abbrev closing : ℕ → Store → Store
  closing f s = record (set_ref f (sub32 (file s f).ref 1) s) { events = closes f ∷ s.events }

  last_result :
      (f : ℕ) (s : Store) (r : Exec Store)
      → (file s f).ref ≡ 1
      → InodesHeld s
      → InodeReleased (file s f).inode (closing f s) r
      → Unreferences close f s (r >>= (λ s'. ok (close f, s')))
  unfolding Unreferences
  last_result f s _ one held (deleted e) =
      let j = (file s f).inode in
      let events = deletes j ∷ closes f ∷ s.events in
      (
        close f,
        set s.memory_counts j (memory_count s j - 1),
        events,
        refl,
        InodesHeld-last f (sub32 (file s f).ref 1) s events (omega arith) one held,
        λ _. (refl, inr refl),
        λ n. absurd (n one),
      )
  last_result f s _ one held (kept e) =
      let j = (file s f).inode in
      let events = closes f ∷ s.events in
      (
        close f,
        set s.memory_counts j (memory_count s j - 1),
        events,
        refl,
        InodesHeld-last f (sub32 (file s f).ref 1) s events (omega arith) one held,
        λ _. (refl, inl refl),
        λ n. absurd (n one),
      )

  last_steps :
      (f : ℕ) (s : Store)
      → (file s f).ref ≡ 1
      → unref_open_file close f s
        ≡ (unref_inode (file s f).inode (closing f s) >>= (λ s'. ok (close f, s')))
  unfolding unref_open_file
  last_steps f s one =
      let h : 0 < (file s f).ref = omega arith in
      let used : ((file s f).ref == 0) ≡ false = ground arith in
      let gone : ((file (set_ref f (sub32 (file s f).ref 1) s) f).ref == 0) ≡ true =
        ground (arith, ref_after f s h) in
      rw (used, gone, inode_after f s h) refl

  more_steps :
      (f : ℕ) (s : Store)
      → 1 < (file s f).ref
      → (file s f).ref < 2 ^ 32
      → unref_open_file close f s ≡ ok (0, set_ref f (sub32 (file s f).ref 1) s)
  unfolding unref_open_file
  more_steps f s h small =
      let used : ((file s f).ref == 0) ≡ false = ground arith in
      let left : ((file (set_ref f (sub32 (file s f).ref 1) s) f).ref == 0) ≡ false =
        ground (arith, ref_after f s (omega arith)) in
      rw (used, left) refl

  -- A file in use loses one reference. With the last one it is closed and its inode released, which
  -- is deleted if that was its last; before that nothing else happens. The kernel does not panic.
  pub unref_open_file_lem :
      (f : ℕ) (s : Store)
      → 0 < (file s f).ref
      → (file s f).ref < 2 ^ 32
      → InodesHeld s
      → Unreferences close f s (unref_open_file close f s)
  unfolding unref_open_file Unreferences
  unref_open_file_lem f s h small held = elim (decide_equal (file s f).ref 1) [
    | inl one ↦ subst (Unreferences close f s) (sym (last_steps f s one)) (
        last_result f s (unref_inode (file s f).inode (closing f s)) one held
          (unref_inode_lem (file s f).inode (closing f s) (inode_positive f s h held)))
    | inr more ↦ (
      0,
      s.memory_counts,
      s.events,
      more_steps f s (omega arith) small,
      InodesHeld-not_last f (sub32 (file s f).ref 1) s h (omega arith) held,
      λ one. absurd (more one),
      λ _. (refl, refl),
    )
  ]
