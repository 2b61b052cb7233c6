-- ===== src/Fs/Vfs/Cache.antt =====
-- The list of inodes in memory: what changes of it do to what is found.
use haoud_os.Base.{
  ℕ, ◌≡◌, ◌≢◌, inl, inr, true, false, Option, none, some, List, [], ◌∷◌, ◌==◌, if◌then◌else◌, arith,
  refl, sym, ap, ◌∙◌, Bool-cases,
}
use haoud_os.Fs.Vfs.{Inode, inode_pipe, inode_in, change, remove, add_inode}

-- Each number stands once, and no inode is a pipe, which is never in the list of a super block.
abbrev pub Tidy : List Inode → Type 0
Tidy [] = true ≡ true
Tidy (x ∷ xs) = (inode_in x.inode_id xs ≡ none) × (x.kind ≢ inode_pipe) × Tidy xs

-- The references of an inode, none where it is not in memory.
abbrev pub count_in : ℕ → List Inode → ℕ
count_in i xs = elim (inode_in i xs) [ none ↦ 0 | some x ↦ x.memory_count ]

abbrev id_of : Option Inode → ℕ
id_of none = 0
id_of (some x) = x.inode_id

abbrev pub apply_to : (Inode → Inode) → Option Inode → Option Inode
apply_to f none = none
apply_to f (some x) = some (f x)

pub inode_in-id : (i : ℕ) (xs : List Inode) (x : Inode) → inode_in i xs ≡ some x → x.inode_id ≡ i
unfolding inode_in
inode_in-id i [] x e = absurd (ground arith)
inode_in-id i (y ∷ xs) x e = elim (Bool-cases (y.inode_id == i)) [
  | inl h ↦
      let same : some y ≡ some x = rw (h) at e in
      let ids : y.inode_id ≡ x.inode_id = ap id_of same in ground arith
  | inr h ↦ inode_in-id i xs x (rw (h) at e)
]

module _ (i : ℕ) (f : Inode → Inode) (keeps : (x : Inode) → (f x).inode_id ≡ x.inode_id) where
  pub in-change : (xs : List Inode) → inode_in i (change i f xs) ≡ apply_to f (inode_in i xs)
  unfolding inode_in change
  in-change [] = refl
  in-change (y ∷ xs) = elim (Bool-cases (y.inode_id == i)) [
    | inl h ↦ let h' : ((f y).inode_id == i) ≡ true = ground (arith, keeps y) in rw (h, h') refl
    | inr h ↦ rw (h, h) (in-change xs)
  ]

  pub in-change_ne : (j : ℕ) (xs : List Inode) → j ≢ i → inode_in j (change i f xs) ≡ inode_in j xs
  unfolding inode_in change
  in-change_ne j [] n = refl
  in-change_ne j (y ∷ xs) n = elim (Bool-cases (y.inode_id == i)) [
    | inl h ↦
        let no_match : (y.inode_id == j) ≡ false = ground arith in
        let no_match' : ((f y).inode_id == j) ≡ false = ground (arith, keeps y) in
        rw (h, no_match, no_match') refl
    | inr h ↦ rw (h) (ap (λ r. if y.inode_id == j then some y else r) (in-change_ne j xs n))
  ]

  pub absent-change :
      (j : ℕ) (xs : List Inode) → inode_in j xs ≡ none → inode_in j (change i f xs) ≡ none
  unfolding inode_in change
  absent-change j [] e = refl
  absent-change j (y ∷ xs) e = let rest = absent-change j xs in let k = keeps y in ground arith

  pub Tidy-change :
      ((x : Inode) → (f x).kind ≡ x.kind) → (xs : List Inode) → Tidy xs → Tidy (change i f xs)
  unfolding change
  Tidy-change kinds [] t = refl
  Tidy-change kinds (y ∷ xs) (fresh, k, t) = elim (Bool-cases (y.inode_id == i)) [
    | inl h ↦ rw (h) (ap (λ j. inode_in j xs) (keeps y) ∙ fresh, (λ e. k (sym (kinds y) ∙ e)), t)
    | inr h ↦ rw (h) (absent-change y.inode_id xs fresh, k, Tidy-change kinds xs t)
  ]

pub absent-remove :
    (i j : ℕ) (xs : List Inode) → inode_in j xs ≡ none → inode_in j (remove i xs) ≡ none
unfolding inode_in remove
absent-remove i j [] e = refl
absent-remove i j (y ∷ xs) e = let rest = absent-remove i j xs in ground arith

pub in-remove : (i : ℕ) (xs : List Inode) → Tidy xs → inode_in i (remove i xs) ≡ none
unfolding inode_in remove
in-remove i [] t = refl
in-remove i (y ∷ xs) (fresh, k, t) = elim (Bool-cases (y.inode_id == i)) [
  | inl h ↦
      let same : y.inode_id ≡ i = ground arith in
      rw (h) (ap (λ j. inode_in j xs) (sym same) ∙ fresh)
  | inr h ↦ rw (h, h) (in-remove i xs t)
]

pub in-remove_ne : (i j : ℕ) (xs : List Inode) → j ≢ i → inode_in j (remove i xs) ≡ inode_in j xs
unfolding inode_in remove
in-remove_ne i j [] n = refl
in-remove_ne i j (y ∷ xs) n = elim (Bool-cases (y.inode_id == i)) [
  | inl h ↦ let no_match : (y.inode_id == j) ≡ false = ground arith in rw (h, no_match) refl
  | inr h ↦ rw (h) (ap (λ r. if y.inode_id == j then some y else r) (in-remove_ne i j xs n))
]

pub Tidy-remove : (i : ℕ) (xs : List Inode) → Tidy xs → Tidy (remove i xs)
unfolding remove
Tidy-remove i [] t = refl
Tidy-remove i (y ∷ xs) (fresh, k, t) = elim (Bool-cases (y.inode_id == i)) [
  | inl h ↦ rw (h) t
  | inr h ↦ rw (h) (absent-remove i y.inode_id xs fresh, k, Tidy-remove i xs t)
]

pub in-add :
    (x : Inode) (xs : List Inode)
    → inode_in x.inode_id xs ≡ none
    → inode_in x.inode_id (add_inode x xs) ≡ some x
unfolding inode_in
in-add x [] e = ground arith
in-add x (y ∷ xs) e = ground arith

pub in-add_ne :
    (j : ℕ) (x : Inode) (xs : List Inode)
    → j ≢ x.inode_id
    → inode_in j (add_inode x xs) ≡ inode_in j xs
unfolding inode_in
in-add_ne j x [] n = ground arith
in-add_ne j x (y ∷ xs) n = ground arith

behind :
    (x y : Inode) (xs : List Inode)
    → inode_in x.inode_id (y ∷ xs) ≡ none
    → inode_in x.inode_id xs ≡ none
unfolding inode_in
behind x y xs e = ground arith

skips :
    (x y : Inode) (xs : List Inode)
    → inode_in x.inode_id (y ∷ xs) ≡ none
    → inode_in y.inode_id xs ≡ none
    → inode_in y.inode_id (x ∷ xs) ≡ none
unfolding inode_in
skips x y xs e fresh = ground arith

pub Tidy-add :
    (x : Inode) (xs : List Inode)
    → inode_in x.inode_id xs ≡ none
    → x.kind ≢ inode_pipe
    → Tidy xs
    → Tidy (add_inode x xs)
Tidy-add x [] e k t = (e, k, t)
Tidy-add x (y ∷ xs) e k (fresh, k', t) = (skips x y xs e fresh, k', (behind x y xs e, k, t))

abbrev kind_in : Option Inode → ℕ
kind_in none = 0
kind_in (some x) = x.kind

pub Tidy-kind :
    (i : ℕ) (xs : List Inode) (x : Inode) → Tidy xs → inode_in i xs ≡ some x → x.kind ≢ inode_pipe
unfolding inode_in
Tidy-kind i [] x t e = absurd (ground arith)
Tidy-kind i (y ∷ xs) x (fresh, k, t) e = elim (Bool-cases (y.inode_id == i)) [
  | inl h ↦
      let same : some y ≡ some x = rw (h) at e in
      let kinds : y.kind ≡ x.kind = ap kind_in same in λ p. k (kinds ∙ p)
  | inr h ↦ Tidy-kind i xs x t (rw (h) at e)
]
