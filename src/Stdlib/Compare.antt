-- ===== src/Stdlib/Compare.antt =====
-- strcmp and strncmp of lib/string.c, and the texts they compare.
use haoud_os.Base.{
  ℕ, zero, suc, ◌<◌, ◌≡◌, ◌↔◌, inl, inr, true, false, List, [], ◌∷◌, get_or, take, drop, ◌==◌,
  sub32, arith, refl, ap, ◌∙◌, Bool-cases,
}
use haoud_os.Stdlib.{sign_extend, strcmp, strncmp}
use haoud_os.Stdlib.Text.{text, Bytes, Bytes-tail, Bytes-drop, text-end, text-head}

-- The difference of two characters is 0 only if they are the same.
difference : (c d : ℕ) → c < 256 → d < 256 → (sub32 (sign_extend c) (sign_extend d) ≡ 0) ↔ (c ≡ d)
difference c d h h' = ground arith

head_equal : (c d : ℕ) (s t : List ℕ) → c ∷ s ≡ d ∷ t → c ≡ d
head_equal c d s t e = ap (λ l. get_or l 0 0) e

tail_equal : (c d : ℕ) (s t : List ℕ) → c ∷ s ≡ d ∷ t → s ≡ t
tail_equal c d s t e = ap (drop 1) e

join : (c d : ℕ) (s t : List ℕ) → c ≡ d → s ≡ t → c ∷ s ≡ d ∷ t
join c d s t e e' = ap (λ x. x ∷ s) e ∙ ap (◌∷◌ d) e'

-- strcmp of two blocks of bytes is 0 exactly if their texts are equal.
pub strcmp_lem : (s t : List ℕ) → Bytes s → Bytes t → (strcmp s t ≡ 0) ↔ (text s ≡ text t)
unfolding strcmp
strcmp_lem [] [] hs ht = ((λ e. refl), (λ e. refl))
strcmp_lem [] (d ∷ t) hs ht = let small : d < 256 = ht 0 in ground arith
strcmp_lem (c ∷ s) [] hs ht = let small : c < 256 = hs 0 in ground arith
strcmp_lem (c ∷ s) (d ∷ t) hs ht =
    let small : c < 256 = hs 0 in
    let small' : d < 256 = ht 0 in
    let rest = strcmp_lem s t (Bytes-tail c s hs) (Bytes-tail d t ht) in
    let heads = head_equal c d (text s) (text t) in
    let tails = tail_equal c d (text s) (text t) in
    let joins = join c d (text s) (text t) in
    let diff = difference c d small small' in
    elim (Bool-cases (c == 0)) [
      | inl z ↦ elim (Bool-cases (d == 0)) [
        | inl z' ↦ rw (z, z') ((λ e. refl), (λ e. diff.1 (ground arith)))
        | inr n ↦ rw (z, n) ((λ e. absurd (ground (arith, diff.0 e))), (λ e. ground arith))
      ]
      | inr n ↦ elim (Bool-cases (c == d)) [
        | inr m ↦ elim (Bool-cases (d == 0)) [
          | inl z' ↦ rw (n, m, z') ((λ e. absurd (ground (arith, diff.0 e))), (λ e. ground arith))
          | inr n' ↦
              rw (n, m, n')
                ((λ e. absurd (ground (arith, diff.0 e))), (λ e. absurd (ground (arith, heads e))))
        ]
        | inl y ↦
            let n' : (d == 0) ≡ false = ground arith in
            rw (n, y, n') ((λ e. joins (ground arith) (rest.0 e)), (λ e. rest.1 (tails e)))
      ]
    ]

-- strncmp of two blocks of bytes is 0 exactly if the first `n` characters of their texts are equal.
pub strncmp_lem :
    (s t : List ℕ) (n : ℕ)
    → Bytes s
    → Bytes t
    → (strncmp s t n ≡ 0) ↔ (take n (text s) ≡ take n (text t))
unfolding strncmp
strncmp_lem s t zero hs ht = ((λ e. refl), (λ e. refl))
strncmp_lem s t (suc n) hs ht =
    let c = get_or s 0 0 in
    let d = get_or t 0 0 in
    let small : c < 256 = hs 0 in
    let small' : d < 256 = ht 0 in
    let rest = strncmp_lem (drop 1 s) (drop 1 t) n (Bytes-drop s hs) (Bytes-drop t ht) in
    let heads = head_equal c d (take n (text (drop 1 s))) (take n (text (drop 1 t))) in
    let tails = tail_equal c d (take n (text (drop 1 s))) (take n (text (drop 1 t))) in
    let joins = join c d (take n (text (drop 1 s))) (take n (text (drop 1 t))) in
    elim (Bool-cases (c == 0)) [
      | inl z ↦ elim (Bool-cases (d == 0)) [
        | inl z' ↦
            let y : (c == d) ≡ true = ground arith in
            rw (y, z, text-end s z, text-end t z') ((λ e. refl), (λ e. refl))
        | inr k ↦
            let m : (c == d) ≡ false = ground arith in
            rw (m, text-end s z, text-head t k)
              ((λ e. absurd (ground arith)), (λ e. absurd (ground arith)))
      ]
      | inr k ↦ elim (Bool-cases (c == d)) [
        | inr m ↦ elim (Bool-cases (d == 0)) [
          | inl z' ↦
              rw (m, text-head s k, text-end t z')
                ((λ e. absurd (ground arith)), (λ e. absurd (ground arith)))
          | inr k' ↦
              rw (m, text-head s k, text-head t k')
                ((λ e. absurd (ground arith)), (λ e. absurd (ground (arith, heads e))))
        ]
        | inl y ↦
            let k' : (d == 0) ≡ false = ground arith in
            rw (y, k, text-head s k, text-head t k')
              ((λ e. joins (ground arith) (rest.0 e)), (λ e. rest.1 (tails e)))
      ]
    ]
