-- ===== src/Stdlib/Print/Number.antt =====
-- `number` where its characters fit: padding, sign, digits.
use haoud_os.Base.{
  ℕ, zero, suc, ◌+◌, ◌-◌, ◌^◌, ◌<◌, ◌≤◌, ◌≡◌, false, List, [], ◌∷◌, ◌++◌, length, length-append,
  replicate, length-replicate, ◌==◌, if◌then◌else◌, sub32, arith, ap, ◌∙◌,
}
use haoud_os.Stdlib.Print.{
  Flags, tmp_digits, pad, copy_back, reverse_onto, sign_char, magnitude, positive, with_sign,
  checked_base, number,
}

pub pad-fits :
    (c size msize : ℕ) → size ≤ msize → pad c size msize ≡ (replicate size c, msize - size)
unfolding pad
pad-fits c zero msize h = ap (λ m. ([], m)) (omega arith)
pad-fits c (suc size) msize h =
    let room : (msize == 0) ≡ false = ground arith in
    rw (room) (
      ap (λ r. (c ∷ r.0, r.1)) (pad-fits c size (msize - 1) (omega arith))
      ∙ ap (λ m. (c ∷ replicate size c, m)) (omega arith))

pub copy_back-fits :
    (cs : List ℕ) (msize : ℕ)
    → length cs ≤ msize
    → msize < 2 ^ 32
    → copy_back cs msize ≡ (cs, msize - length cs)
unfolding copy_back
copy_back-fits [] msize h w = ap (λ m. ([], m)) (omega arith)
copy_back-fits (c ∷ cs) msize h w =
    let room : (msize == 0) ≡ false = ground arith in
    rw (room) (
      ap (λ r. (c ∷ r.0, r.1)) (copy_back-fits cs (sub32 msize 1) (ground arith) (omega arith))
      ∙ ap (λ m. (c ∷ cs, m)) (ground arith))

pub length-reverse_onto : (cs acc : List ℕ) → length (reverse_onto cs acc) ≡ length cs + length acc
unfolding reverse_onto
length-reverse_onto [] acc = omega arith
length-reverse_onto (c ∷ cs) acc = omega (arith, length-reverse_onto cs (c ∷ acc))

-- The parts of a printed number.
abbrev pub padding : ℕ → ℕ → ℕ → Flags → List ℕ
padding num base size f =
    let sign = sign_char f num in
    let tmp = tmp_digits f.large (checked_base base) (magnitude f num) size in
    replicate (positive (sub32 (if sign == 0 then size else sub32 size 1) (length tmp)))
      (if f.zeropad then 48 else 32)

abbrev pub sign_text : ℕ → Flags → List ℕ
sign_text num f = if sign_char f num == 0 then [] else sign_char f num ∷ []

abbrev pub digits_text : ℕ → ℕ → ℕ → Flags → List ℕ
digits_text num base size f =
    reverse_onto (tmp_digits f.large (checked_base base) (magnitude f num) size) []

abbrev pub number_text : ℕ → ℕ → ℕ → Flags → List ℕ
number_text num base size f =
    padding num base size f ++ (sign_text num f ++ digits_text num base size f)

pub with_room :
    (sign msize : ℕ) → 0 < msize → with_sign sign msize ≡ (if sign == 0 then [] else sign ∷ [])
with_room sign msize h = ground arith

-- If padding, sign and digits fit in what is left of the buffer, `number` writes just them, and what is
-- left afterwards is less by their number.
pub number_lem :
    (num base size max_size : ℕ) (f : Flags)
    → 0 < max_size
    → max_size < 2 ^ 32
    → length (number_text num base size f) ≤ max_size
    → number num base size max_size f
      ≡ (number_text num base size f, max_size - length (number_text num base size f))
unfolding number
number_lem num base size max_size f h w fits =
    let sign = sign_char f num in
    let tmp = tmp_digits f.large (checked_base base) (magnitude f num) size in
    let n = positive (sub32 (if sign == 0 then size else sub32 size 1) (length tmp)) in
    let c : ℕ = if f.zeropad then 48 else 32 in
    let tail = sign_text num f ++ digits_text num base size f in
    let all : length (number_text num base size f) ≡ n + length tail =
      length-append (replicate n c) tail ∙ ap (λ k. k + length tail) (length-replicate n c) in
    let out : copy_back tail (max_size - n) ≡ (tail, max_size - n - length tail) =
      copy_back-fits tail (max_size - n) (omega (arith, all)) (omega arith) in
    rw (pad-fits c n max_size (omega (arith, all)), with_room sign max_size h, out)
      (ap (λ m. (replicate n c ++ tail, m)) (omega (arith, all)))
