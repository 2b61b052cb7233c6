-- ===== src/Stdlib/Copy.antt =====
-- strcpy and strcat of lib/string.c, and the texts they write.
use haoud_os.Base.{
  ℕ, zero, suc, ◌+◌, ◌<◌, ◌≡◌, inl, inr, false, List, [], ◌∷◌, ◌++◌, length, take, drop, set,
  length-set, ◌==◌, arith, refl, ap, ◌∙◌, Bool-cases,
}
use haoud_os.Stdlib.{strlen, strcpy, strcat}
use haoud_os.Stdlib.Text.{text, length-text}

take-set :
    (dst : List ℕ) (d k c : ℕ) (ys : List ℕ)
    → d < length dst
    → k ≡ suc d
    → take k (set dst d c) ++ ys ≡ take d dst ++ c ∷ ys
take-set [] d k c ys h e = absurd (omega arith)
take-set (x ∷ dst) d zero c ys h e = absurd (omega arith)
take-set (x ∷ dst) zero (suc zero) c ys h e = refl
take-set (x ∷ dst) zero (suc (suc k)) c ys h e = absurd (omega arith)
take-set (x ∷ dst) (suc d) (suc k) c ys h e =
    ap (◌∷◌ x) (take-set dst d k c ys (omega arith) (omega arith))

drop-set : (dst : List ℕ) (d k c : ℕ) → d < k → drop k (set dst d c) ≡ drop k dst
drop-set [] d k c h = refl
drop-set (x ∷ dst) d zero c h = absurd (omega arith)
drop-set (x ∷ dst) zero (suc k) c h = refl
drop-set (x ∷ dst) (suc d) (suc k) c h = drop-set dst d k c (omega arith)

set-split :
    (dst : List ℕ) (d k c : ℕ)
    → d < length dst
    → k ≡ suc d
    → set dst d c ≡ take d dst ++ c ∷ drop k dst
set-split [] d k c h e = absurd (omega arith)
set-split (x ∷ dst) d zero c h e = absurd (omega arith)
set-split (x ∷ dst) zero (suc zero) c h e = refl
set-split (x ∷ dst) zero (suc (suc k)) c h e = absurd (omega arith)
set-split (x ∷ dst) (suc d) (suc k) c h e =
    ap (◌∷◌ x) (set-split dst d k c (omega arith) (omega arith))

strlen-cons : (c : ℕ) (s : List ℕ) → (c == 0) ≡ false → strlen (c ∷ s) ≡ suc (strlen s)
unfolding strlen
strlen-cons c s e = rw (e) refl

-- The first `d` cells, the text, its end, and the rest of the block.
pub strcpy_lem :
    (dst : List ℕ) (d : ℕ) (src : List ℕ)
    → d + strlen src < length dst
    → strcpy dst d src ≡ take d dst ++ (text src ++ 0 ∷ drop (d + strlen src + 1) dst)
unfolding strcpy strlen
strcpy_lem dst d [] h = set-split dst d (d + 0 + 1) 0 (omega arith) (omega arith)
strcpy_lem dst d (c ∷ src) h = elim (Bool-cases (c == 0)) [
  | inl z ↦
      let fits : d < length dst = omega arith in
      rw (z) (set-split dst d (d + 0 + 1) 0 fits (omega arith))
  | inr n ↦
      let len : strlen (c ∷ src) ≡ suc (strlen src) = strlen-cons c src n in
      let room : d + suc (strlen src) < length dst = omega (arith, len) in
      rw (n) (
        strcpy_lem (set dst d c) (d + 1) src (omega (arith, length-set dst d c, room))
        ∙ take-set dst d (d + 1) c (text src ++ 0 ∷ drop (d + 1 + strlen src + 1) (set dst d c))
            (omega arith) (omega arith)
        ∙ ap (λ l. take d dst ++ c ∷ (text src ++ 0 ∷ l))
            (drop-set dst d (d + 1 + strlen src + 1) c (omega arith)
              ∙ ap (λ k. drop k dst) (omega arith)))
]

pub text_of_text : (t xs : List ℕ) → text (text t ++ 0 ∷ xs) ≡ text t
text_of_text [] xs = refl
text_of_text (c ∷ t) xs = elim (Bool-cases (c == 0)) [
  | inl z ↦ rw (z) refl
  | inr n ↦ rw (n, n) (ap (◌∷◌ c) (text_of_text t xs))
]

text-append : (s t xs : List ℕ) → text (text s ++ (text t ++ 0 ∷ xs)) ≡ text s ++ text t
text-append [] t xs = text_of_text t xs
text-append (c ∷ s) t xs = elim (Bool-cases (c == 0)) [
  | inl z ↦ rw (z) (text_of_text t xs)
  | inr n ↦ rw (n, n) (ap (◌∷◌ c) (text-append s t xs))
]

drop_behind :
    (xs ys zs : List ℕ) (n : ℕ)
    → n ≡ suc (length xs + length ys)
    → drop n (xs ++ (ys ++ 0 ∷ zs)) ≡ zs
drop_behind [] [] zs zero e = absurd (omega arith)
drop_behind [] [] zs (suc zero) e = refl
drop_behind [] [] zs (suc (suc n)) e = absurd (omega arith)
drop_behind [] (y ∷ ys) zs zero e = absurd (omega arith)
drop_behind [] (y ∷ ys) zs (suc n) e = drop_behind [] ys zs n (omega arith)
drop_behind (x ∷ xs) ys zs zero e = absurd (omega arith)
drop_behind (x ∷ xs) ys zs (suc n) e = drop_behind xs ys zs n (omega arith)

pub take-strlen : (s : List ℕ) → take (strlen s) s ≡ text s
unfolding strlen
take-strlen [] = refl
take-strlen (c ∷ s) = elim (Bool-cases (c == 0)) [
  | inl z ↦ rw (z) refl
  | inr n ↦ rw (n) (ap (◌∷◌ c) (take-strlen s))
]

-- strcat to a block with room for both texts and the zero byte makes the text of the block the two
-- texts one after the other, and leaves what stands behind it.
pub strcat_lem :
    (dst src : List ℕ)
    → strlen dst + strlen src < length dst
    → (text (strcat dst src) ≡ text dst ++ text src)
      × (drop (strlen dst + strlen src + 1) (strcat dst src)
          ≡ drop (strlen dst + strlen src + 1) dst)
strcat_lem dst src h =
    let rest = drop (strlen dst + strlen src + 1) dst in
    let whole : strcat dst src ≡ text dst ++ (text src ++ 0 ∷ rest) =
      strcpy_lem dst (strlen dst) src h ∙ ap (λ l. l ++ (text src ++ 0 ∷ rest)) (take-strlen dst) in
    (
      ap text whole ∙ text-append dst src rest,
      ap (drop (strlen dst + strlen src + 1)) whole
          ∙ drop_behind (text dst) (text src) rest (strlen dst + strlen src + 1)
              (omega (arith, length-text dst, length-text src)),
    )
