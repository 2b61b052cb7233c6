-- ===== src/Stdlib/Print/Digits.antt =====
-- The digits of `number` in lib/vsnprintf.c, and their value.
use native.Mathlib.Nat.{div-add-mod', mod-lt, div-lt_iff_lt-mul, mul-le-mul_right, mul_comm}
use haoud_os.Base.{
  ℕ, zero, suc, ◌+◌, ◌-◌, ◌*◌, ◌/◌, ◌%◌, ◌^◌, ◌<◌, ◌≤◌, ◌≡◌, inl, inr, Bool, true, false, ◌||◌,
  List, [], ◌∷◌, length, ltb, ◌==◌, if◌then◌else◌, sub32, arith, ap, ◌∙◌, Bool-cases,
}
use haoud_os.Stdlib.Print.{convert, digits, tmp_digits}

-- The value of a digit.
abbrev pub digit_value : ℕ → ℕ
digit_value c = if ltb c 58 then c - 48 else if ltb c 71 then c - 55 else c - 87

-- The value of digits, the last digit first.
abbrev pub value : ℕ → List ℕ → ℕ
value base [] = 0
value base (c ∷ cs) = digit_value c + base * value base cs

digit_value-convert : (large : Bool) (d : ℕ) → d < 16 → digit_value (convert large d) ≡ d
digit_value-convert true d h = ground arith
digit_value-convert false d h = ground arith

pub length-digits :
    (rounds : ℕ) (large : Bool) (base num num_max : ℕ)
    → length (digits rounds large base num num_max) ≤ rounds
unfolding digits
length-digits zero large base num num_max = omega arith
length-digits (suc rounds) large base num num_max = elim (Bool-cases (num == 0 || num_max == 0)) [
  | inl e ↦ rw (e) (omega arith)
  | inr e ↦ rw (e) (omega (arith, length-digits rounds large base (num / base) (sub32 num_max 1)))
]

half : (base num k : ℕ) → 2 ≤ base → num < 2 * k → num / base < k
half base num k h l =
    (div-lt_iff_lt-mul (omega arith)).1
      (omega (arith, l, mul-le-mul_right {m = 2} {n = base} k h, mul_comm base k))

-- 2 to the power of the rounds.
abbrev pub pow2 : ℕ → ℕ
pow2 zero = 1
pow2 (suc n) = 2 * pow2 n

digits_value :
    (rounds : ℕ) (large : Bool) (base num num_max : ℕ)
    → 2 ≤ base
    → base ≤ 16
    → num < pow2 rounds
    → rounds ≤ num_max
    → num_max < 2 ^ 32
    → value base (digits rounds large base num num_max) ≡ num
unfolding digits
digits_value zero large base num num_max h h' l r w = omega arith
digits_value (suc rounds) large base num num_max h h' l r w =
    let more : (num_max == 0) ≡ false = ground arith in
    let small : num % base < 16 = omega (arith, h', mod-lt num {m = base} (omega arith)) in
    elim (Bool-cases (num == 0)) [
      | inl z ↦ rw (z) (ground arith)
      | inr n ↦
          rw (n, more)
            (ap
                (λ d.
                  d + base * value base (digits rounds large base (num / base) (sub32 num_max 1)))
                (digit_value-convert large (num % base) small)
              ∙ ap (λ v. num % base + base * v)
                  (digits_value rounds large base (num / base) (sub32 num_max 1) h h'
                    (half base num (pow2 rounds) h l) (omega arith) (omega arith))
              ∙ omega (arith, div-add-mod' num base, mul_comm base (num / base)))
    ]

pub tmp_digits_value :
    (large : Bool) (base num num_max : ℕ)
    → 2 ≤ base
    → base ≤ 16
    → num < 2 ^ 32
    → 32 ≤ num_max
    → num_max < 2 ^ 32
    → value base (tmp_digits large base num num_max) ≡ num
tmp_digits_value large base num num_max h h' l r w = elim (Bool-cases (num == 0)) [
  | inl z ↦ rw (z) (ground arith)
  | inr n ↦ rw (n) (digits_value 32 large base num num_max h h' l r w)
]

pub length-tmp_digits :
    (large : Bool) (base num num_max : ℕ) → length (tmp_digits large base num num_max) ≤ 32
length-tmp_digits large base num num_max = elim (Bool-cases (num == 0)) [
  | inl z ↦ rw (z) (omega arith)
  | inr n ↦ rw (n) (length-digits 32 large base num num_max)
]
