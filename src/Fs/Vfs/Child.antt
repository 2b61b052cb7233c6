-- ===== src/Fs/Vfs/Child.antt =====
-- create_child_inode of core/fs/inode.c, and the references.
use haoud_os.Base.{
  ℕ, ◌+◌, ◌≡◌, ◌≢◌, inl, inr, Bool, true, false, not, Option, none, some, List, get_or, ◌==◌, neg32,
  if◌then◌else◌, arith, refl, sym, ap, ◌∙◌, Bool-cases, Option-cases, decide_equal, ok, ◌>>=◌,
}
use haoud_os.Fs.Vfs.{
  Inode, Super, inode_pipe, inode_directory, inode_in, change, add_inode, marked, sync_inode,
  add_dirty, mark_inode_as_dirty, unref_inode, kind_of,
}
use haoud_os.Fs.Vfs.Cache.{Tidy, in-add, in-add_ne, Tidy-add}
use haoud_os.Fs.Vfs.Walk.{Held, Keeps, change-Keeps, count_some, count_none, count_same}
use haoud_os.Fs.Vfs.Unref.{unref_lem}
use haoud_os.Fs.Vfs.Create.{allocate_inode, register_child_inode, add_child, create_child_inode}

-- A list with the counts of another holds the same references.
Held-Keeps :
    (c0 : ℕ → ℕ) (cur : Option ℕ) (s s' : Super)
    → Held c0 cur s
    → Keeps s.used_list s'.used_list
    → Held c0 cur s'
Held-Keeps c0 cur s s' h k = record { tidy = k.tidy; counts = λ j. k.counts j ∙ h.counts j }

Keeps-refl : (xs : List Inode) → Tidy xs → Keeps xs xs
Keeps-refl xs t = record { tidy = t; counts = λ j. refl }

Keeps-trans : (xs ys zs : List Inode) → Keeps xs ys → Keeps ys zs → Keeps xs zs
Keeps-trans xs ys zs k k' = record { tidy = k'.tidy; counts = λ j. k'.counts j ∙ k.counts j }

either_way :
    (b : Bool) (s s' : Super) (P : List Inode → Type 0)
    → P s.used_list
    → P s'.used_list
    → P ((if b then s else s').used_list)
either_way true s s' P p p' = p
either_way false s s' P p p' = p'

pick {ℓ} : {A : Type ℓ} (b : Bool) (p q : A) → b ≡ false → (if b then p else q) ≡ q
pick b p q e = rw (e) refl

module _ (sync : ℕ → ℕ) where
  sync_inode-Keeps :
      (x : Inode) (s : Super)
      → Tidy s.used_list
      → Keeps s.used_list ((sync_inode sync x s).used_list)
  sync_inode-Keeps x s t = elim (Bool-cases x.is_dirty) [
    | inr c ↦ rw (c) (Keeps-refl s.used_list t)
    | inl d ↦ elim (Bool-cases (sync x.inode_id == 0)) [
      | inr y ↦ rw (d, y) (Keeps-refl s.used_list t)
      | inl y ↦
          rw (d, y)
            (change-Keeps x.inode_id (λ y. record y { is_dirty = false }) (λ x. refl) (λ x. refl)
              (λ x. refl) s.used_list t)
    ]
  ]

  mark_inode_as_dirty-Keeps :
      (i : ℕ) (s : Super)
      → Tidy s.used_list
      → Keeps s.used_list ((mark_inode_as_dirty sync i s).used_list)
  mark_inode_as_dirty-Keeps i s t = elim (Option-cases (inode_in i s.used_list)) [
    | inl e ↦ rw (mark_inode_as_dirty, e) (Keeps-refl s.used_list t)
    | inr (x, e) ↦
        let s1 : Super = record s {
          used_list = change i marked s.used_list;
          dirty_list = if x.is_dirty then s.dirty_list else add_dirty i s.dirty_list;
        } in
        let k = change-Keeps i marked (λ x. refl) (λ x. refl) (λ x. refl) s.used_list t in
        rw (mark_inode_as_dirty, e)
          (either_way s.mount_sync (sync_inode sync (marked x) s1) s1 (Keeps s.used_list)
            (Keeps-trans s.used_list s1.used_list ((sync_inode sync (marked x) s1).used_list) k
              (sync_inode-Keeps (marked x) s1 k.tidy))
            k)
  ]

  module _ (allocate : ℕ → ℕ × Inode) (link : ℕ → List ℕ → ℕ → ℕ) where
    register-Keeps :
        (parent : ℕ) (name : List ℕ) (i : ℕ) (s : Super)
        → Tidy s.used_list
        → Keeps s.used_list
            ((register_child_inode sync allocate link true parent (some name) i s).1.used_list)
    register-Keeps parent name i s t =
        let two_marks =
          Keeps-trans s.used_list ((mark_inode_as_dirty sync parent s).used_list)
            ((mark_inode_as_dirty sync i (mark_inode_as_dirty sync parent s)).used_list)
            (mark_inode_as_dirty-Keeps parent s t)
            (mark_inode_as_dirty-Keeps i (mark_inode_as_dirty sync parent s)
              ((mark_inode_as_dirty-Keeps parent s t).tidy)) in
        elim (Bool-cases (kind_of parent s == inode_directory)) [
          | inr a ↦ rw (register_child_inode, a) (Keeps-refl s.used_list t)
          | inl a ↦ elim (Bool-cases (get_or name 0 0 == 0)) [
            | inl b ↦ rw (register_child_inode, a, b) (Keeps-refl s.used_list t)
            | inr b ↦ elim (Bool-cases (link parent name i == 0)) [
              | inr c ↦ rw (register_child_inode, a, b, c) (Keeps-refl s.used_list t)
              | inl c ↦ rw (register_child_inode, a, b, c) two_marks
            ]
          ]
        ]

    -- A new inode enters the memory with one reference.
    added :
        (c0 : ℕ → ℕ) (x : Inode) (s : Super)
        → Held c0 none s
        → inode_in x.inode_id s.used_list ≡ none
        → x.memory_count ≡ 1
        → x.kind ≢ inode_pipe
        → Held c0 (some x.inode_id) (record s { used_list = add_inode x s.used_list })
    added c0 x s h fresh one k =
        let free : c0 x.inode_id + 0 ≡ 0 =
          sym (h.counts x.inode_id) ∙ count_none x.inode_id s.used_list fresh in
        record {
          tidy = Tidy-add x s.used_list fresh k h.tidy;
          counts = λ j. elim (decide_equal j x.inode_id) [
            | inl same ↦ rw (same) (
                count_some x.inode_id (add_inode x s.used_list) x (in-add x s.used_list fresh)
                ∙ ground arith)
            | inr n ↦
                let other : (j == x.inode_id) ≡ false = ground arith in
                rw (other) (
                  count_same j s.used_list (add_inode x s.used_list) (in-add_ne j x s.used_list n)
                  ∙ h.counts j)
          ];
        }

    reaches :
        (parent : ℕ) (name : List ℕ) (kind : ℕ) (s : Super)
        → (kind_of parent s == inode_directory) ≡ true
        → (get_or name 0 0 == 0) ≡ false
        → create_child_inode sync allocate link parent (some name) kind s
          ≡ add_child sync allocate link parent name kind s
    reaches parent name kind s dir named =
        pick (not (kind_of parent s == inode_directory)) (ok (neg32 6, s))
          (if get_or name 0 0 == 0
            then ok (neg32 4, s)
            else add_child sync allocate link parent name kind s)
          (ap not dir)
        ∙ pick (get_or name 0 0 == 0) (ok (neg32 4, s))
            (add_child sync allocate link parent name kind s) named

    -- In a directory of a file system that is not mounted read-only, with a name that is not empty, and
    -- when the file system makes a new inode with one reference, create_child_inode returns success,
    -- whatever code the entry of the name in the directory ended with, and the references of the inodes
    -- in memory are as before the call.
    pub create_child_inode_lem :
        (c0 : ℕ → ℕ) (parent : ℕ) (name : List ℕ) (kind : ℕ) (x : Inode) (s : Super)
        → allocate kind ≡ (0, x)
        → inode_in x.inode_id s.used_list ≡ none
        → x.memory_count ≡ 1
        → x.kind ≢ inode_pipe
        → kind_of parent s ≡ inode_directory
        → (get_or name 0 0 == 0) ≡ false
        → s.read_only ≡ false
        → Held c0 none s
        → (s' : Super) × (create_child_inode sync allocate link parent (some name) kind s
            ≡ ok (0, s'))
          × Held c0 none s'
    create_child_inode_lem c0 parent name kind x s made fresh one k directory named writes h =
        let s0 : Super = record s { used_list = add_inode x s.used_list } in
        let h0 = added c0 x s h fresh one k in
        let s1 = mark_inode_as_dirty sync x.inode_id s0 in
        let k1 = mark_inode_as_dirty-Keeps x.inode_id s0 h0.tidy in
        let h1 = Held-Keeps c0 (some x.inode_id) s0 s1 h0 k1 in
        let s2 : Super =
          (register_child_inode sync allocate link true parent (some name) x.inode_id s1).1 in
        let h2 =
          Held-Keeps c0 (some x.inode_id) s1 s2 h1
            (register-Keeps parent name x.inode_id s1 h1.tidy) in
        let (s3, e, u) = unref_lem sync c0 x.inode_id s2 h2 in
        let dir : (kind_of parent s == inode_directory) ≡ true = ground (arith, directory) in
        let alloc : allocate_inode sync allocate link kind s ≡ (0, x.inode_id, s1) =
          pick s.read_only (neg32 5, 0, s)
            (if not ((allocate kind).0 == 0) then ((allocate kind).0, 0, s) else (
              0,
              (allocate kind).1.inode_id,
              mark_inode_as_dirty sync (allocate kind).1.inode_id
                  (record s { used_list = add_inode ((allocate kind).1) s.used_list }),
            ))
            writes
          ∙ ap
              (λ r. if not (r.0 == 0) then (r.0, 0, s) else (
                0,
                r.1.inode_id,
                mark_inode_as_dirty sync (r.1.inode_id)
                    (record s { used_list = add_inode (r.1) s.used_list }),
              ))
              made in
        let child : add_child sync allocate link parent name kind s ≡ ok (0, s3) =
          ap
            (λ r.
              if not (r.0 == 0)
              then ok (r.0, r.2)
              else unref_inode sync (r.1)
                  ((register_child_inode sync allocate link true parent (some name) (r.1) (r.2)).1)
                >>= (λ s2. ok (0, s2)))
            alloc
          ∙ ap (λ u. u >>= (λ s2. ok (0, s2))) e in
        (s3, reaches parent name kind s dir named ∙ child, u.held)
