-- ===== src/Stdlib/Print/Decimal.antt =====
-- `%u` of lib/vsnprintf.c, and atoi of lib/stdlib.c on what it prints.
use mathlib.Core.List.{append-nil}
use haoud_os.Base.{
  ℕ, zero, suc, ◌-◌, ◌/◌, ◌%◌, ◌^◌, ◌<◌, ◌≤◌, ◌≡◌, inl, inr, Bool, true, false, ◌||◌, List, [], ◌∷◌,
  ◌++◌, length, ◌==◌, sub32, arith, refl, ap, ◌∙◌, Bool-cases,
}
use haoud_os.Stdlib.{is_digit, atoi_from, atoi}
use haoud_os.Stdlib.Print.{
  no_flags, convert, digits, tmp_digits, reverse_onto, positive, number, vsnprintf, int_arg,
  format_loop, print_directive, parse_flags,
}
use haoud_os.Stdlib.Print.Digits.{digit_value, value, tmp_digits_value, length-tmp_digits}
use haoud_os.Stdlib.Print.Number.{number_lem, number_text, length-reverse_onto}

-- Every character is a decimal digit.
abbrev AllDigits : List ℕ → Type 0
AllDigits [] = true ≡ true
AllDigits (c ∷ cs) = (is_digit c ≡ true) × AllDigits cs

convert-is_digit : (large : Bool) (d : ℕ) → d < 10 → is_digit (convert large d) ≡ true
convert-is_digit large d h = ground arith

digits-AllDigits :
    (rounds : ℕ) (large : Bool) (num num_max : ℕ) → AllDigits (digits rounds large 10 num num_max)
unfolding digits
digits-AllDigits zero large num num_max = refl
digits-AllDigits (suc rounds) large num num_max = elim (Bool-cases (num == 0 || num_max == 0)) [
  | inl e ↦ rw (e) refl
  | inr e ↦ rw (e) (
    convert-is_digit large (num % 10) (omega arith),
    digits-AllDigits rounds large (num / 10) (sub32 num_max 1),
  )
]

tmp_digits-AllDigits :
    (large : Bool) (num num_max : ℕ) → AllDigits (tmp_digits large 10 num num_max)
tmp_digits-AllDigits large num num_max = elim (Bool-cases (num == 0)) [
  | inl e ↦ rw (e) (refl, refl)
  | inr e ↦ rw (e) (digits-AllDigits 32 large num num_max)
]

-- Reading the digits back, from the last one on.
atoi_from-reverse_onto :
    (cs acc : List ℕ)
    → AllDigits cs
    → value 10 cs < 2 ^ 32
    → atoi_from (reverse_onto cs acc) 0 ≡ atoi_from acc (value 10 cs)
unfolding atoi_from reverse_onto
atoi_from-reverse_onto [] acc h w = refl
atoi_from-reverse_onto (c ∷ cs) acc (d, h) w =
    let small : digit_value c ≡ c - 48 = ground arith in
    atoi_from-reverse_onto cs (c ∷ acc) h (omega arith)
    ∙ rw (d) (ap (atoi_from acc) (omega (arith, small)))

unsigned_text :
    (num : ℕ)
    → number_text num 10 (2 ^ 32 - 1) no_flags
      ≡ reverse_onto (tmp_digits false 10 num (2 ^ 32 - 1)) []
unsigned_text num =
    let tmp = tmp_digits false 10 num (2 ^ 32 - 1) in
    let none : positive (sub32 (2 ^ 32 - 1) (length tmp)) ≡ 0 =
      let l = length-tmp_digits false 10 num (2 ^ 32 - 1) in ground arith in
    rw (none) refl

reverse_onto-append : (cs acc ys : List ℕ) → reverse_onto cs acc ++ ys ≡ reverse_onto cs (acc ++ ys)
unfolding reverse_onto
reverse_onto-append [] acc ys = refl
reverse_onto-append (c ∷ cs) acc ys = reverse_onto-append cs (c ∷ acc) ys

percent_u :
    (size num : ℕ)
    → (sub32 size 1 == 0) ≡ false
    → (vsnprintf size (37 ∷ 117 ∷ []) (int_arg num ∷ [])).0
      ≡ (number num 10 (2 ^ 32 - 1) (sub32 size 1) no_flags).0 ++ 0 ∷ []
unfolding format_loop print_directive parse_flags
percent_u size num room =
    rw (room)
      (ap (λ l. l ++ 0 ∷ []) (append-nil ((number num 10 (2 ^ 32 - 1) (sub32 size 1) no_flags).0)))

-- For a buffer of 33 bytes or more, atoi reads back every unsigned number that vsnprintf prints by `%u`.
pub atoi-vsnprintf :
    (size num : ℕ)
    → 33 ≤ size
    → size < 2 ^ 32
    → num < 2 ^ 32
    → atoi ((vsnprintf size (37 ∷ 117 ∷ []) (int_arg num ∷ [])).0) ≡ num
unfolding atoi_from
atoi-vsnprintf size num h w small =
    let tmp = tmp_digits false 10 num (2 ^ 32 - 1) in
    let v : value 10 tmp ≡ num =
      tmp_digits_value false 10 num (2 ^ 32 - 1) (omega arith) (omega arith) small (omega arith)
        (omega arith) in
    let len : length (number_text num 10 (2 ^ 32 - 1) no_flags) ≤ 32 = omega (
      arith,
      ap length (unsigned_text num),
      length-reverse_onto tmp [],
      length-tmp_digits false 10 num (2 ^ 32 - 1),
    ) in
    let printed =
      number_lem num 10 (2 ^ 32 - 1) (sub32 size 1) no_flags (omega arith) (omega arith)
        (omega (arith, len)) in
    ap atoi (
      percent_u size num (ground arith)
      ∙ ap (λ r. r.0 ++ 0 ∷ []) printed
      ∙ ap (λ l. l ++ 0 ∷ []) (unsigned_text num)
      ∙ reverse_onto-append tmp [] (0 ∷ []))
    ∙ atoi_from-reverse_onto tmp (0 ∷ []) (tmp_digits-AllDigits false num (2 ^ 32 - 1))
        (omega (arith, v))
    ∙ v
