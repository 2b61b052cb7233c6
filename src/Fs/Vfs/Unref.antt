-- ===== src/Fs/Vfs/Unref.antt =====
-- A reference that is given back, with the inode that leaves the memory.
use haoud_os.Base.{
  ℕ, ◌+◌, ◌-◌, ◌≡◌, ◌≢◌, inl, inr, true, false, none, some, ◌==◌, if◌then◌else◌, arith, refl, sym,
  ap, ◌∙◌, Bool-cases, Option-cases, decide_equal, ok,
}
use haoud_os.Fs.Vfs.{
  Inode, Super, inode_pipe, inode_in, change, remove, sync_inode, delete_inode, unref_inode,
}
use haoud_os.Fs.Vfs.Cache.{
  Tidy, count_in, apply_to, inode_in-id, in-change, in-change_ne, Tidy-change, in-remove,
  in-remove_ne, Tidy-remove, Tidy-kind,
}
use haoud_os.Fs.Vfs.Walk.{Held, Keeps, change-Keeps, count_some, count_none, count_same}

module _ (sync : ℕ → ℕ) where
  sync-Keeps :
      (x : Inode) (s : Super)
      → Tidy s.used_list
      → Keeps s.used_list ((if x.is_dirty then sync_inode sync x s else s).used_list)
  sync-Keeps x s t = elim (Bool-cases x.is_dirty) [
    | inr c ↦ rw (c) (record { tidy = t; counts = λ j. refl })
    | inl d ↦ elim (Bool-cases (sync x.inode_id == 0)) [
      | inl y ↦
          rw (d, y)
            (change-Keeps x.inode_id (λ y. record y { is_dirty = false }) (λ x. refl) (λ x. refl)
              (λ x. refl) s.used_list t)
      | inr y ↦ rw (d, y) (record { tidy = t; counts = λ j. refl })
    ]
  ]

  delete_lem :
      (c0 : ℕ → ℕ) (i : ℕ) (s : Super) (x : Inode)
      → Held c0 (some i) s
      → x.inode_id ≡ i
      → x.kind ≢ inode_pipe
      → c0 i ≡ 0
      → Held c0 none (delete_inode sync x s)
  delete_lem c0 i s x h id k z =
      let s1 : Super = if x.is_dirty then sync_inode sync x s else s in
      let kept = sync-Keeps x s h.tidy in
      let not_pipe : (x.kind == inode_pipe) ≡ false = ground arith in
      rw (not_pipe) (record {
        tidy = Tidy-remove x.inode_id s1.used_list kept.tidy;
        counts = λ j. elim (decide_equal j x.inode_id) [
          | inl same ↦
              count_none j (remove x.inode_id s1.used_list) (
                ap (λ m. inode_in m (remove x.inode_id s1.used_list)) same
                ∙ in-remove x.inode_id s1.used_list kept.tidy)
              ∙ sym (ap (λ m. c0 m + 0) (same ∙ id) ∙ omega (arith, z))
          | inr n ↦
              let other : (j == i) ≡ false = ground arith in
              let before : count_in j s.used_list ≡ c0 j + 0 = rw (other) at (h.counts j) in
              count_same j s1.used_list (remove x.inode_id s1.used_list)
                (in-remove_ne x.inode_id j s1.used_list n)
              ∙ kept.counts j
              ∙ before
        ];
      })

  sync-others :
      (x : Inode) (s : Super) (j : ℕ)
      → j ≢ x.inode_id
      → inode_in j ((if x.is_dirty then sync_inode sync x s else s).used_list)
        ≡ inode_in j s.used_list
  sync-others x s j n = elim (Bool-cases x.is_dirty) [
    | inr c ↦ rw (c) refl
    | inl d ↦ elim (Bool-cases (sync x.inode_id == 0)) [
      | inl y ↦
          rw (d, y)
            (in-change_ne x.inode_id (λ y. record y { is_dirty = false }) (λ x. refl) j s.used_list
              n)
      | inr y ↦ rw (d, y) refl
    ]
  ]

  -- The reference is given back, and every other inode in memory stays as it is.
  pub record Unrefs (c0 : ℕ → ℕ) (i : ℕ) (s s' : Super) : Type 0 where
    pub held : Held c0 none s'
    pub others : (j : ℕ) → j ≢ i → inode_in j s'.used_list ≡ inode_in j s.used_list

  deletes :
      (c0 : ℕ → ℕ) (i : ℕ) (s : Super) (x : Inode)
      → Held c0 (some i) s
      → inode_in i s.used_list ≡ some x
      → c0 i ≡ 0
      → Unrefs c0 i s (delete_inode sync x s)
  deletes c0 i s x h e z =
      let id = inode_in-id i s.used_list x e in
      let k = Tidy-kind i s.used_list x h.tidy e in
      let s1 : Super = if x.is_dirty then sync_inode sync x s else s in
      let not_pipe : (x.kind == inode_pipe) ≡ false = ground arith in
      record {
        held = delete_lem c0 i s x h id k z;
        others = λ j n. rw (not_pipe) (
            in-remove_ne x.inode_id j s1.used_list (λ same. n (same ∙ id))
            ∙ sync-others x s j (λ same. n (same ∙ id)));
      }

  lowers :
      (c0 : ℕ → ℕ) (i : ℕ) (s : Super) (x : Inode)
      → Held c0 (some i) s
      → inode_in i s.used_list ≡ some x
      → x.memory_count ≡ c0 i + 1
      → Unrefs c0 i s (record s {
        used_list = change i (λ y. record y { memory_count = y.memory_count - 1 }) s.used_list;
      })
  lowers c0 i s x h e had =
      let f : Inode → Inode = λ y. record y { memory_count = y.memory_count - 1 } in
      let now : inode_in i (change i f s.used_list) ≡ some (f x) =
        in-change i f (λ x. refl) s.used_list ∙ ap (apply_to f) e in
      record {
        held = record {
          tidy = Tidy-change i f (λ x. refl) (λ x. refl) s.used_list h.tidy;
          counts = λ j. elim (decide_equal j i) [
            | inl same ↦
                rw (same) (count_some i (change i f s.used_list) (f x) now ∙ omega (arith, had))
            | inr n ↦
                let other : (j == i) ≡ false = ground arith in
                let before : count_in j s.used_list ≡ c0 j + 0 = rw (other) at (h.counts j) in
                count_same j s.used_list (change i f s.used_list)
                  (in-change_ne i f (λ x. refl) j s.used_list n)
                ∙ before
          ];
        };
        others = λ j n. in-change_ne i f (λ x. refl) j s.used_list n;
      }

  pub unref_lem :
      (c0 : ℕ → ℕ) (i : ℕ) (s : Super)
      → Held c0 (some i) s
      → (s' : Super) × (unref_inode sync i s ≡ ok s') × Unrefs c0 i s s'
  unref_lem c0 i s h =
      let one : (i == i) ≡ true = ground arith in
      let had : count_in i s.used_list ≡ c0 i + 1 = rw (one) at (h.counts i) in
      elim (Option-cases (inode_in i s.used_list)) [
        | inl e ↦ absurd (omega (arith, had, count_none i s.used_list e))
        | inr (x, e) ↦
            let count : x.memory_count ≡ c0 i + 1 = sym (count_some i s.used_list x e) ∙ had in
            let some_left : (x.memory_count == 0) ≡ false = ground arith in
            elim (Bool-cases (x.memory_count == 1)) [
              | inl y ↦ (
                delete_inode sync x s,
                rw (unref_inode, e, y) refl,
                deletes c0 i s x h e (ground arith),
              )
              | inr y ↦ (
                record s {
                  used_list =
                      change i (λ y. record y { memory_count = y.memory_count - 1 }) s.used_list;
                },
                rw (unref_inode, e, y, some_left) refl,
                lowers c0 i s x h e count,
              )
            ]
      ]
