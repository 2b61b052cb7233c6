-- ===== src/Fs/Vfs/Fetch.antt =====
-- fetch_inode of core/fs/inode.c, and the references of an inode that is read.
use haoud_os.Base.{
  ℕ, ◌+◌, ◌^◌, ◌<◌, ◌≡◌, ◌≢◌, ◌⊎◌, inl, inr, true, false, if◌then◌else◌, Option, none, some, List,
  ◌==◌, arith, refl, sym, ap, ◌∙◌, Bool-cases, Option-cases, decide_equal,
}
use haoud_os.Fs.Vfs.{Inode, Super, inode_pipe, inode_in, add_inode, fetch_inode, is_dots}
use haoud_os.Fs.Vfs.Cache.{in-add, in-add_ne, Tidy-add}
use haoud_os.Fs.Vfs.Walk.{Held, held_on, count_some, count_none, count_same}

module _ (dir_lookup : ℕ → List ℕ → ℕ × ℕ) (fetch : ℕ → ℕ × Inode) where
  -- An inode read from the disk has its number, is no pipe, and its references are not the largest
  -- number.
  unfoldable pub ReadsInodes : Type 0
  ReadsInodes =
      (i : ℕ)
      → (fetch i).0 ≡ 0
      → ((fetch i).1.inode_id ≡ i)
        × ((fetch i).1.memory_count + 1 < 2 ^ 32)
        × ((fetch i).1.kind ≢ inode_pipe)

  -- No name of a directory but "." and ".." leads to the directory itself.
  unfoldable pub NoSelf : Type 0
  NoSelf = (i j : ℕ) (name : List ℕ) → is_dots name ≡ false → dir_lookup i name ≡ (0, j) → j ≢ i

  -- There is room for one more reference.
  abbrev pub Room : (ℕ → ℕ) → Type 0
  Room c = (i : ℕ) → c i + 1 < 2 ^ 32

  -- The references are the same, but for inodes without one, which may have been read from the disk and
  -- have those that the file system gave them.
  unfoldable pub Grown : (ℕ → ℕ) → (ℕ → ℕ) → Type 0
  Grown c c' =
      (j : ℕ) → (c' j ≡ c j) ⊎ ((c j ≡ 0) × ((fetch j).0 ≡ 0) × (c' j ≡ (fetch j).1.memory_count))

  pub Grown-same : (c : ℕ → ℕ) → Grown c c
  unfolding Grown
  Grown-same c j = inl refl

  pub Grown-trans : (c c' c'' : ℕ → ℕ) → Grown c c' → Grown c' c'' → Grown c c''
  unfolding Grown
  Grown-trans c c' c'' g h j = elim (h j) [
    | inl e ↦ elim (g j) [ inl e' ↦ inl (e ∙ e') | inr (z, f, k) ↦ inr (z, f, e ∙ k) ]
    | inr (z, f, k) ↦ elim (g j) [
      | inl e' ↦ inr (sym e' ∙ z, f, k)
      | inr (z', f', k') ↦ inr (z', f', k)
    ]
  ]

  -- After a fetch that succeeds the inode is in memory.
  pub record Fetched (c c' : ℕ → ℕ) (i : ℕ) (cur : Option ℕ) (s : Super) : Type 0 where
    pub grown : Grown c c'
    pub room : Room c'
    pub held : Held c' cur s
    pub inode : Inode
    pub there : inode_in i s.used_list ≡ some inode

  -- The references with an inode that was read.
  abbrev with_read : (ℕ → ℕ) → ℕ → ℕ → ℕ
  with_read c i j = if j == i then (fetch i).1.memory_count else c j

  no_references :
      (c : ℕ → ℕ) (i : ℕ) (cur : Option ℕ) (s : Super)
      → Held c cur s
      → inode_in i s.used_list ≡ none
      → (c i ≡ 0) × (held_on cur i ≡ 0)
  no_references c i cur s h e =
      let sum : c i + held_on cur i ≡ 0 = sym (h.counts i) ∙ count_none i s.used_list e in
      (omega arith, omega arith)

  Grown-read : (c : ℕ → ℕ) (i : ℕ) → c i ≡ 0 → (fetch i).0 ≡ 0 → Grown c (with_read c i)
  unfolding Grown
  Grown-read c i z f j = elim (decide_equal j i) [
    | inl same ↦ let y : (i == i) ≡ true = ground arith in rw (same, y) (inr (z, f, refl))
    | inr n ↦ let y : (j == i) ≡ false = ground arith in rw y (inl refl)
  ]

  Room-read :
      (c : ℕ → ℕ) (i : ℕ) → Room c → (fetch i).1.memory_count + 1 < 2 ^ 32 → Room (with_read c i)
  Room-read c i room small j = elim (Bool-cases (j == i)) [
    | inl y ↦ rw y small
    | inr y ↦ rw y (room j)
  ]

  reads_new :
      (c : ℕ → ℕ) (i : ℕ) (cur : Option ℕ) (s : Super)
      → ReadsInodes
      → Room c
      → Held c cur s
      → inode_in i s.used_list ≡ none
      → (fetch i).0 ≡ 0
      → (x : Inode) → x ≡ record ((fetch i).1) { generation = 0 }
      → (s' : Super) → s'.used_list ≡ add_inode x s.used_list
      → Fetched c (with_read c i) i cur s'
  unfolding ReadsInodes
  reads_new c i cur s reads room h e zero_code x made s' used =
      let (id, small, k) = reads i zero_code in
      let number : x.inode_id ≡ i = ap (λ y. y.inode_id) made ∙ id in
      let count : x.memory_count ≡ (fetch i).1.memory_count = ap (λ y. y.memory_count) made in
      let no_pipe : x.kind ≢ inode_pipe = λ p. k (sym (ap (λ y. y.kind) made) ∙ p) in
      let (zero_refs, not_held) = no_references c i cur s h e in
      let fresh : inode_in x.inode_id s.used_list ≡ none =
        ap (λ j. inode_in j s.used_list) number ∙ e in
      let now : inode_in i (add_inode x s.used_list) ≡ some x =
        ap (λ j. inode_in j (add_inode x s.used_list)) (sym number) ∙ in-add x s.used_list fresh in
      record {
        grown = Grown-read c i zero_refs zero_code;
        room = Room-read c i room small;
        held = record {
          tidy = rw used (Tidy-add x s.used_list fresh no_pipe h.tidy);
          counts = λ j. rw used (elim (decide_equal j i) [
            | inl same ↦
                let y : (i == i) ≡ true = ground arith in
                rw (same, y)
                  (count_some i (add_inode x s.used_list) x now ∙ omega (arith, count, not_held))
            | inr n ↦
                let y : (j == i) ≡ false = ground arith in
                rw y (
                  count_same j s.used_list (add_inode x s.used_list)
                    (in-add_ne j x s.used_list (λ same. n (same ∙ number)))
                  ∙ h.counts j)
          ]);
        };
        inode = x;
        there = ap (inode_in i) used ∙ now;
      }

  pub fetch_lem :
      (c : ℕ → ℕ) (i : ℕ) (cur : Option ℕ) (s : Super)
      → ReadsInodes
      → Room c
      → Held c cur s
      → (((fetch_inode fetch i s).0 ≡ 0)
          × ((c' : ℕ → ℕ) × Fetched c c' i cur ((fetch_inode fetch i s).1)))
        ⊎ ((((fetch_inode fetch i s).0 == 0) ≡ false)
            × (((fetch i).0 == 0) ≡ false)
            × Held c cur ((fetch_inode fetch i s).1))
  fetch_lem c i cur s reads room h = elim (Option-cases (inode_in i s.used_list)) [
    | inr (x, e) ↦
        rw (fetch_inode, e)
          (inl (
            refl,
            (c, record { grown = Grown-same c; room = room; held = h; inode = x; there = e }),
          ))
    | inl e ↦ elim (Bool-cases ((fetch i).0 == 0)) [
      | inr y ↦ rw (fetch_inode, e, y) (inr (y, refl, h))
      | inl y ↦
          rw (fetch_inode, e, y)
            (inl (
              refl,
              (
                with_read c i,
                reads_new c i cur s reads room h e (ground arith)
                    (record ((fetch i).1) { generation = 0 }) refl _ refl,
              ),
            ))
    ]
  ]
