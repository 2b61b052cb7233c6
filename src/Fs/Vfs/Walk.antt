-- ===== src/Fs/Vfs/Walk.antt =====
-- References of the inodes in memory, core/fs/inode.c.
use haoud_os.Base.{
  ℕ, ◌+◌, ◌^◌, ◌<◌, ◌≡◌, ◌⊎◌, inl, inr, false, Option, none, some, List, ◌==◌, if◌then◌else◌, add32,
  arith, refl, sym, ap, ◌∙◌, Option-cases, decide_equal,
}
use haoud_os.Fs.Vfs.{Inode, Super, inode_in, change, ref_inode}
use haoud_os.Fs.Vfs.Cache.{Tidy, count_in, apply_to, in-change, in-change_ne, Tidy-change}

-- One reference on the inode that is held.
abbrev pub held_on : Option ℕ → ℕ → ℕ
held_on none j = 0
held_on (some i) j = if j == i then 1 else 0

-- The references are those of `c0` and one on the inode that is held.
pub record Held (c0 : ℕ → ℕ) (cur : Option ℕ) (s : Super) : Type 0 where
  pub tidy : Tidy s.used_list
  pub counts : (j : ℕ) → count_in j s.used_list ≡ c0 j + held_on cur j

pub count_some :
    (i : ℕ) (xs : List Inode) (x : Inode) → inode_in i xs ≡ some x → count_in i xs ≡ x.memory_count
count_some i xs x e = rw (count_in, e) refl

pub count_none : (i : ℕ) (xs : List Inode) → inode_in i xs ≡ none → count_in i xs ≡ 0
count_none i xs e = rw (count_in, e) refl

-- A list in which other numbers find what they found before.
pub count_same :
    (j : ℕ) (xs ys : List Inode) → inode_in j ys ≡ inode_in j xs → count_in j ys ≡ count_in j xs
count_same j xs ys e = rw (count_in, e) refl

pub ref_lem :
    (c0 : ℕ → ℕ) (i : ℕ) (s : Super) (x : Inode)
    → Held c0 none s
    → inode_in i s.used_list ≡ some x
    → c0 i + 1 < 2 ^ 32
    → Held c0 (some i) (ref_inode i s)
ref_lem c0 i s x h e small =
    let f : Inode → Inode = λ x. record x { memory_count = add32 x.memory_count 1 } in
    let had : x.memory_count ≡ c0 i + 0 = sym (count_some i s.used_list x e) ∙ h.counts i in
    let now : inode_in i (change i f s.used_list) ≡ some (f x) =
      in-change i f (λ x. refl) s.used_list ∙ ap (apply_to f) e in
    record {
      tidy = Tidy-change i f (λ x. refl) (λ x. refl) s.used_list h.tidy;
      counts = λ j. elim (decide_equal j i) [
        | inl same ↦ rw (same) (count_some i (change i f s.used_list) (f x) now ∙ ground arith)
        | inr n ↦
            let z : (j == i) ≡ false = ground arith in
            rw (z) (
              count_same j s.used_list (change i f s.used_list)
                (in-change_ne i f (λ x. refl) j s.used_list n)
              ∙ h.counts j)
      ];
    }

-- The counts of a list are those of another.
pub record Keeps (xs ys : List Inode) : Type 0 where
  pub tidy : Tidy ys
  pub counts : (j : ℕ) → count_in j ys ≡ count_in j xs

-- A change of an inode that leaves its number, its type and its references.
module _ (i : ℕ) (f : Inode → Inode) (ids : (x : Inode) → (f x).inode_id ≡ x.inode_id)
    (kinds : (x : Inode) → (f x).kind ≡ x.kind)
    (same : (x : Inode) → (f x).memory_count ≡ x.memory_count) where
  same_count :
      (xs : List Inode)
      → (inode_in i xs ≡ none) ⊎ ((x : Inode) × (inode_in i xs ≡ some x))
      → count_in i (change i f xs) ≡ count_in i xs
  same_count xs (inl e) =
      count_none i (change i f xs) (in-change i f ids xs ∙ ap (apply_to f) e)
      ∙ sym (count_none i xs e)
  same_count xs (inr (x, e)) =
      count_some i (change i f xs) (f x) (in-change i f ids xs ∙ ap (apply_to f) e)
      ∙ same x
      ∙ sym (count_some i xs x e)

  pub change-Keeps : (xs : List Inode) → Tidy xs → Keeps xs (change i f xs)
  change-Keeps xs t = record {
    tidy = Tidy-change i f ids kinds xs t;
    counts = λ j. elim (decide_equal j i) [
      | inl e ↦ rw (e) (same_count xs (Option-cases (inode_in i xs)))
      | inr n ↦ count_same j xs (change i f xs) (in-change_ne i f ids j xs n)
    ];
  }
