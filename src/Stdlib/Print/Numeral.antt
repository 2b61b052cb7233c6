-- ===== src/Stdlib/Print/Numeral.antt =====
-- Numbers as they are written in a base, and the digits of `number` in lib/vsnprintf.c.
use native.Mathlib.Nat.{div-lt_iff_lt-mul, mod-lt, zero-mod}
use mathlib.Core.List.{append-nil, append_assoc}
use haoud_os.Base.{
  ℕ, zero, suc, ◌+◌, ◌-◌, ◌*◌, ◌/◌, ◌%◌, ◌^◌, ◌<◌, ◌≤◌, ◌≡◌, inl, inr, Bool, true, false, List, [],
  ◌∷◌, ◌++◌, length, replicate, ltb, leb, ◌==◌, if◌then◌else◌, sub32, arith, refl, sym, ap, ◌∙◌,
  Bool-cases, lt→ltb, ltb→lt,
}
use haoud_os.Stdlib.Print.{
  Flags, no_flags, checked_base, magnitude, convert, digits, tmp_digits, reverse_onto, positive,
  sign_char,
}
use haoud_os.Stdlib.Print.Digits.{length-tmp_digits}
use haoud_os.Stdlib.Print.Number.{number_text, length-reverse_onto}

-- The symbol of a digit, from 0 to 9 and from A or a on.
abbrev pub symbol : Bool → ℕ → ℕ
symbol large d = if ltb d 10 then 48 + d else (if large then 65 else 97) + (d - 10)

-- A number in a base, the most significant digit first; 32 digits are enough for a word.
unfoldable pub numeral_in : (digits : ℕ) → Bool → (base num : ℕ) → List ℕ
numeral_in zero large base num = []
numeral_in (suc n) large base num =
    let front = numeral_in n large base (num / base) in
    (if ltb num base then [] else front) ++ (symbol large (num % base) ∷ [])

abbrev pub numeral : Bool → (base num : ℕ) → List ℕ
numeral large base num = numeral_in 32 large base num

symbol-convert : (large : Bool) (d : ℕ) → d < 16 → convert large d ≡ symbol large d
symbol-convert true d h = ground arith
symbol-convert false d h = ground arith

below_base : (base num : ℕ) → 0 < base → (num / base == 0) ≡ true → ltb num base ≡ true
below_base base num h e =
    let zero_part : num / base < 1 = ground arith in
    let product : num < 1 * base = (div-lt_iff_lt-mul h).0 zero_part in
    lt→ltb num base (omega (arith, product))

from_base : (base num : ℕ) → 0 < base → (num / base == 0) ≡ false → ltb num base ≡ false
from_base base num h e = elim (Bool-cases (ltb num base)) [
  | inr n ↦ n
  | inl l ↦
      let less : num < base = ltb→lt num base l in
      let zero_part : num / base < 1 = (div-lt_iff_lt-mul h).1 (omega (arith, less)) in
      absurd (ground arith)
]

no_digits :
    (rounds : ℕ) (large : Bool) (base num num_max : ℕ)
    → (num == 0) ≡ true
    → digits rounds large base num num_max ≡ []
unfolding digits
no_digits zero large base num num_max e = refl
no_digits (suc rounds) large base num num_max e = rw e refl

reverse_digits :
    (rounds : ℕ) (large : Bool) (base num num_max : ℕ) (acc : List ℕ)
    → 2 ≤ base
    → base ≤ 16
    → (num == 0) ≡ false
    → rounds ≤ num_max
    → num_max < 2 ^ 32
    → reverse_onto (digits rounds large base num num_max) acc
      ≡ numeral_in rounds large base num ++ acc
unfolding reverse_onto digits numeral_in
reverse_digits zero large base num num_max acc h h' n r w = refl
reverse_digits (suc rounds) large base num num_max acc h h' n r w =
    let more : (num_max == 0) ≡ false = ground arith in
    let small : num % base < 16 = omega (arith, h', mod-lt num {m = base} (omega arith)) in
    rw (n, more, symbol-convert large (num % base) small)
      (elim (Bool-cases (num / base == 0)) [
        | inl z ↦
            let last = below_base base num (omega arith) z in
            rw (last, no_digits rounds large base (num / base) (sub32 num_max 1) z) refl
        | inr k ↦
            let not_last = from_base base num (omega arith) k in
            rw not_last (
              reverse_digits rounds large base (num / base) (sub32 num_max 1) _ h h' k (omega arith)
                (omega arith)
              ∙ sym (
                  append_assoc (numeral_in rounds large base (num / base))
                    (symbol large (num % base) ∷ []) acc))
      ])

zero_digit : (large : Bool) (base : ℕ) → 2 ≤ base → reverse_onto (48 ∷ []) [] ≡ numeral large base 0
unfolding reverse_onto numeral_in
zero_digit large base h =
    let last : ltb 0 base ≡ true = lt→ltb 0 base (omega arith) in
    let rest : 0 % base ≡ 0 = zero-mod base in rw (last, rest) refl

-- The digits of a number as `number` puts them into the buffer.
digits_lem :
    (large : Bool) (base num : ℕ)
    → 2 ≤ base
    → base ≤ 16
    → reverse_onto (tmp_digits large base num (2 ^ 32 - 1)) [] ≡ numeral large base num
digits_lem large base num h h' = elim (Bool-cases (num == 0)) [
  | inr n ↦ rw n (
      reverse_digits 32 large base num (2 ^ 32 - 1) [] h h' n (omega arith) (omega arith)
      ∙ append-nil (numeral large base num))
  | inl z ↦ let same : num ≡ 0 = ground arith in rw (same) (zero_digit large base h)
]

-- Without a width a number is its sign and its digits, with no padding.
number_plain :
    (num base : ℕ) (f : Flags)
    → positive (
        sub32
          (if sign_char f num == 0 then 2 ^ 32 - 1 else sub32 (2 ^ 32 - 1) 1)
          (length (tmp_digits f.large (checked_base base) (magnitude f num) (2 ^ 32 - 1))))
      ≡ 0
number_plain num base f =
    let l = length-tmp_digits f.large (checked_base base) (magnitude f num) (2 ^ 32 - 1) in
    elim (Bool-cases (sign_char f num == 0)) [
      | inl y ↦ rw y (ground arith)
      | inr y ↦ rw y (ground arith)
    ]

-- A number without a sign.
pub unsigned_lem :
    (large : Bool) (num base : ℕ)
    → 2 ≤ base
    → base ≤ 16
    → number_text num base (2 ^ 32 - 1) (record no_flags { large = large }) ≡ numeral large base num
unsigned_lem large num base h h' =
    let f : Flags = record no_flags { large = large } in
    let checked : checked_base base ≡ base = ground arith in
    rw (number_plain num base f, checked) (digits_lem large base num h h')

-- A signed word in decimal.
abbrev pub signed_numeral : ℕ → List ℕ
signed_numeral num =
    if ltb num (2 ^ 31) then numeral false 10 num else 45 ∷ numeral false 10 (2 ^ 32 - num)

pub signed_lem :
    (num : ℕ)
    → num < 2 ^ 32
    → number_text num 10 (2 ^ 32 - 1) (record no_flags { sign = true }) ≡ signed_numeral num
signed_lem num w =
    let f : Flags = record no_flags { sign = true } in
    elim (Bool-cases (leb (2 ^ 31) num)) [
      | inl y ↦
          let large : ltb num (2 ^ 31) ≡ false = ground arith in
          let size : sub32 0 num ≡ 2 ^ 32 - num = ground arith in
          rw (number_plain num 10 f, y, large, size)
            (ap (◌∷◌ 45) (digits_lem false 10 (2 ^ 32 - num) (omega arith) (omega arith)))
      | inr y ↦
          let small : ltb num (2 ^ 31) ≡ true = ground arith in
          rw (number_plain num 10 f, y, small) (digits_lem false 10 num (omega arith) (omega arith))
    ]

-- A width that the digits fit in does not cut them.
digits-width :
    (rounds : ℕ) (large : Bool) (base num width num_max : ℕ)
    → rounds ≤ num_max
    → num_max < 2 ^ 32
    → width < 2 ^ 32
    → length (digits rounds large base num num_max) ≤ width
    → digits rounds large base num width ≡ digits rounds large base num num_max
unfolding digits
digits-width zero large base num width num_max h w w' l = refl
digits-width (suc rounds) large base num width num_max h w w' l = elim (Bool-cases (num == 0)) [
  | inl z ↦ rw z refl
  | inr n ↦
      let more : (num_max == 0) ≡ false = ground arith in
      let rest = digits rounds large base (num / base) (sub32 num_max 1) in
      let fits : suc (length rest) ≤ width = rw (n, more) at l in
      let room : (width == 0) ≡ false = ground arith in
      rw (n, more, room)
        (ap (◌∷◌ (convert large (num % base))) (
          digits-width rounds large base (num / base) (sub32 width 1) (sub32 num_max 1)
            (omega arith) (omega arith) (omega arith) (omega (arith, fits))))
]

tmp_digits-width :
    (large : Bool) (base num width : ℕ)
    → width < 2 ^ 32
    → length (tmp_digits large base num (2 ^ 32 - 1)) ≤ width
    → tmp_digits large base num width ≡ tmp_digits large base num (2 ^ 32 - 1)
tmp_digits-width large base num width w h = elim (Bool-cases (num == 0)) [
  | inl z ↦ rw z refl
  | inr n ↦
      rw n (
        digits-width 32 large base num width (2 ^ 32 - 1) (omega arith) (omega arith) w (rw n at h))
]

-- A number of a width that its digits fit in, with zeros or spaces before it.
abbrev pub padded_numeral : Bool → (base width num : ℕ) → List ℕ
padded_numeral zeros base width num =
    replicate (width - length (numeral false base num)) (if zeros then 48 else 32)
    ++ numeral false base num

pub padded_lem :
    (zeros : Bool) (num base width : ℕ)
    → 2 ≤ base
    → base ≤ 16
    → width < 10
    → length (numeral false base num) ≤ width
    → number_text num base width (record no_flags { zeropad = zeros })
      ≡ padded_numeral zeros base width num
padded_lem zeros num base width h h' w fits =
    let checked : checked_base base ≡ base = ground arith in
    let tmp = tmp_digits false base num (2 ^ 32 - 1) in
    let size : length tmp ≡ length (numeral false base num) =
      omega (arith, length-reverse_onto tmp [], ap length (digits_lem false base num h h')) in
    let uncut = tmp_digits-width false base num width (omega arith) (omega (arith, size, fits)) in
    let left : positive (sub32 width (length tmp)) ≡ width - length (numeral false base num) =
      ground (arith, size, fits) in
    rw (checked, uncut, left)
      (ap (λ t. replicate (width - length (numeral false base num)) (if zeros then 48 else 32) ++ t)
        (digits_lem false base num h h'))
