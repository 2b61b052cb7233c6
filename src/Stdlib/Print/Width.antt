-- ===== src/Stdlib/Print/Width.antt =====
-- The flag `0` and a width of one digit in a format of lib/vsnprintf.c.
use haoud_os.Base.{ℕ, ◌+◌, ◌<◌, ◌≡◌, Bool, true, false, List, ◌∷◌, arith, refl, ap}
use haoud_os.Stdlib.{is_digit}
use haoud_os.Stdlib.Print.{
  Arg, no_flags, is_flag, parse_flags, vsnprintf_atoi, parse_field, directive, parse_directive,
}

-- The characters between the `%` and the conversion.
abbrev pub width_syntax : Bool → ℕ → List ℕ → List ℕ
width_syntax true width rest = 48 ∷ (48 + width) ∷ rest
width_syntax false width rest = (48 + width) ∷ rest

-- The flag and the width are read back.
field_lem :
    (width c : ℕ) (rest : List ℕ)
    → 0 < width
    → width < 10
    → is_digit c ≡ false
    → parse_field ((48 + width) ∷ c ∷ rest) ≡ (width, c ∷ rest)
unfolding vsnprintf_atoi
field_lem width c rest pos w conv =
    let digit : is_digit (48 + width) ≡ true = ground arith in
    rw (digit, conv) (ap (λ n. (n, c ∷ rest)) (omega arith))

flags_lem :
    (zeros : Bool) (width : ℕ) (rest : List ℕ)
    → 0 < width
    → width < 10
    → parse_flags (width_syntax zeros width rest) no_flags
      ≡ (record no_flags { zeropad = zeros }, (48 + width) ∷ rest)
unfolding parse_flags
flags_lem true width rest pos w =
    let plain : is_flag (48 + width) ≡ false = ground arith in rw plain refl
flags_lem false width rest pos w =
    let plain : is_flag (48 + width) ≡ false = ground arith in rw plain refl

-- A conversion with a width, for its character.
pub width_lem :
    (zeros : Bool) (width c : ℕ) (rest : List ℕ) (args : List Arg)
    → 0 < width
    → width < 10
    → is_digit c ≡ false
    → parse_directive (width_syntax zeros width (c ∷ rest)) args ≡ (
      (directive c (record no_flags { zeropad = zeros }) width args).0,
      (directive c (record no_flags { zeropad = zeros }) width args).1,
      rest,
    )
width_lem zeros width c rest args pos w conv =
    rw (flags_lem zeros width (c ∷ rest) pos w, field_lem width c rest pos w conv) refl
