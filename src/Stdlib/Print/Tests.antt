-- ===== src/Stdlib/Print/Tests.antt =====
-- "x=%d%%" and a number wider than the buffer.
use haoud_os.Base.{
  ℕ, ◌^◌, ◌<◌, ◌≡◌, true, List, [], ◌∷◌, ◌++◌, length, replicate, if◌then◌else◌, arith, refl,
}
use haoud_os.Stdlib.{atoi}
use haoud_os.Stdlib.Print.{
  Arg, int_arg, no_flags, number, vsnprintf, format_loop, print_directive, parse_flags,
  vsnprintf_atoi, digits, pad, copy_back, reverse_onto,
}
use haoud_os.Stdlib.Print.Number.{padding, sign_text, digits_text}
use haoud_os.Stdlib.Print.Decimal.{atoi-vsnprintf}
use haoud_os.Stdlib.Print.Overrun.{number_overrun}
use haoud_os.Stdlib.Print.Format.{render}
use haoud_os.Stdlib.Print.Numeral.{numeral_in}
use haoud_os.Stdlib.Print.Pieces.{
  Piece, literal, signed_d, large_hex, padded_hex, format_of, arguments, meanings, vsnprintf_lem,
}

abbrev format : List ℕ
format = 120 ∷ 61 ∷ 37 ∷ 100 ∷ 37 ∷ 37 ∷ 0 ∷ []

-- -7 as a word.
abbrev args : List Arg
args = int_arg 0xffff_fff9 ∷ []

rendered : render 8 format args ≡ 120 ∷ 61 ∷ 45 ∷ 55 ∷ 37 ∷ []
unfolding render parse_flags digits reverse_onto
rendered = refl

printed : vsnprintf 64 format args ≡ (120 ∷ 61 ∷ 45 ∷ 55 ∷ 37 ∷ 0 ∷ [], 5)
unfolding format_loop print_directive parse_flags number digits pad copy_back reverse_onto
printed = refl

abbrev pieces : List Piece
pieces =
    literal 120 ∷ literal 61 ∷ signed_d 0xffff_fff9 ∷ large_hex 0xab ∷ padded_hex true 4 0xab ∷ []

meant : meanings pieces ≡ 120 ∷ 61 ∷ 45 ∷ 55 ∷ 65 ∷ 66 ∷ 48 ∷ 48 ∷ 97 ∷ 98 ∷ []
unfolding numeral_in
meant = refl

vsnprintf_lem_example :
    vsnprintf 64 (format_of pieces (1 ∷ 2 ∷ [])) (arguments pieces)
    ≡ (120 ∷ 61 ∷ 45 ∷ 55 ∷ 65 ∷ 66 ∷ 48 ∷ 48 ∷ 97 ∷ 98 ∷ 0 ∷ [], 10)
unfolding numeral_in
vsnprintf_lem_example =
    vsnprintf_lem 64 pieces (1 ∷ 2 ∷ []) (omega arith)
      (
        ((λ e. absurd (omega arith)), (λ e. absurd (omega arith))),
        (
          ((λ e. absurd (omega arith)), (λ e. absurd (omega arith))),
          (omega arith, (omega arith, ((omega arith, omega arith, omega arith, omega arith), tt))),
        ),
      )
      (omega arith)

-- "%2u" of 12345 loses the first digits.
cut : vsnprintf 64 (37 ∷ 50 ∷ 117 ∷ 0 ∷ []) (int_arg 12345 ∷ []) ≡ (52 ∷ 53 ∷ 0 ∷ [], 2)
unfolding format_loop print_directive parse_flags vsnprintf_atoi number digits pad copy_back
    reverse_onto
cut = refl

atoi-vsnprintf_example : atoi ((vsnprintf 64 (37 ∷ 117 ∷ []) (int_arg 1234 ∷ [])).0) ≡ 1234
atoi-vsnprintf_example = atoi-vsnprintf 64 1234 (omega arith) (omega arith) (omega arith)

short : 3 < length (padding 5 10 8 no_flags)
unfolding digits
short = omega arith

-- "%8d" of 5 with three bytes left.
number_overrun_example :
    ((number 5 10 8 3 no_flags).0
      ≡ replicate 3 (if no_flags.zeropad then 48 else 32)
        ++ (sign_text 5 no_flags ++ digits_text 5 10 8 no_flags))
    × (2 ^ 31 < (number 5 10 8 3 no_flags).1)
number_overrun_example = number_overrun 5 10 8 3 no_flags (omega arith) short

-- A `%` at the end of the format makes the reading go on behind the zero byte.
past_end : vsnprintf 64 (37 ∷ 0 ∷ 65 ∷ 66 ∷ 0 ∷ []) [] ≡ (65 ∷ 66 ∷ 0 ∷ [], 2)
unfolding format_loop print_directive parse_flags
past_end = refl
