-- ===== src/Stdlib/Print/Pieces.antt =====
-- Formats of lib/vsnprintf.c as sequences of characters and conversions, and what they stand for.
use haoud_os.Base.{
  ℕ, zero, suc, ◌%◌, ◌^◌, ◌<◌, ◌≤◌, ◌≡◌, ◌≢◌, Bool, true, false, List, [], ◌∷◌, ◌++◌, length,
  get_or, ◌==◌, arith, refl, ap, ◌∙◌,
}
use haoud_os.Stdlib.Text.{text}
use haoud_os.Stdlib.Print.{Arg, int_arg, text_arg, Directive, parse_flags, vsnprintf}
use haoud_os.Stdlib.Print.Format.{directive_text, next_part, render, vsnprintf-render}
use haoud_os.Stdlib.Print.Width.{width_syntax, width_lem}
use haoud_os.Stdlib.Print.Numeral.{
  numeral, signed_numeral, padded_numeral, unsigned_lem, signed_lem, padded_lem,
}

-- A character for itself, or a conversion with its argument.
pub data Piece : Type 0 where
  literal : ℕ → Piece
  -- `%d`, `%i`
  signed_d : ℕ → Piece
  signed_i : ℕ → Piece
  -- `%u`, `%x`, `%X`, `%b`
  unsigned : ℕ → Piece
  hex : ℕ → Piece
  large_hex : ℕ → Piece
  binary : ℕ → Piece
  -- `%8u` or `%08u` (with zeros), and `%8x` or `%08x`, with a digit for the width
  padded_unsigned : (zeros : Bool) (width num : ℕ) → Piece
  padded_hex : (zeros : Bool) (width num : ℕ) → Piece
  -- `%c`, `%s`
  char : ℕ → Piece
  string : List ℕ → Piece
  -- `%%`
  percent : Piece

-- The characters of a piece.
abbrev pub syntax : Piece → List ℕ → List ℕ
syntax (literal c) rest = c ∷ rest
syntax (signed_d n) rest = 37 ∷ 100 ∷ rest
syntax (signed_i n) rest = 37 ∷ 105 ∷ rest
syntax (unsigned n) rest = 37 ∷ 117 ∷ rest
syntax (hex n) rest = 37 ∷ 120 ∷ rest
syntax (large_hex n) rest = 37 ∷ 88 ∷ rest
syntax (binary n) rest = 37 ∷ 98 ∷ rest
syntax (padded_unsigned zeros width n) rest = 37 ∷ width_syntax zeros width (117 ∷ rest)
syntax (padded_hex zeros width n) rest = 37 ∷ width_syntax zeros width (120 ∷ rest)
syntax (char c) rest = 37 ∷ 99 ∷ rest
syntax (string s) rest = 37 ∷ 115 ∷ rest
syntax percent rest = 37 ∷ 37 ∷ rest

-- The format, with its zero byte and what the memory holds behind it.
abbrev pub format_of : List Piece → List ℕ → List ℕ
format_of [] behind = 0 ∷ behind
format_of (p ∷ ps) behind = syntax p (format_of ps behind)

abbrev pub argument : Piece → List Arg → List Arg
argument (literal c) rest = rest
argument (signed_d n) rest = int_arg n ∷ rest
argument (signed_i n) rest = int_arg n ∷ rest
argument (unsigned n) rest = int_arg n ∷ rest
argument (hex n) rest = int_arg n ∷ rest
argument (large_hex n) rest = int_arg n ∷ rest
argument (binary n) rest = int_arg n ∷ rest
argument (padded_unsigned zeros width n) rest = int_arg n ∷ rest
argument (padded_hex zeros width n) rest = int_arg n ∷ rest
argument (char c) rest = int_arg c ∷ rest
argument (string s) rest = text_arg s ∷ rest
argument percent rest = rest

abbrev pub arguments : List Piece → List Arg
arguments [] = []
arguments (p ∷ ps) = argument p (arguments ps)

-- What a piece stands for.
abbrev pub meaning : Piece → List ℕ
meaning (literal c) = c ∷ []
meaning (signed_d n) = signed_numeral n
meaning (signed_i n) = signed_numeral n
meaning (unsigned n) = numeral false 10 n
meaning (hex n) = numeral false 16 n
meaning (large_hex n) = numeral true 16 n
meaning (binary n) = numeral false 2 n
meaning (padded_unsigned zeros width n) = padded_numeral zeros 10 width n
meaning (padded_hex zeros width n) = padded_numeral zeros 16 width n
meaning (char c) = c % 256 ∷ []
meaning (string s) = text s
meaning percent = 37 ∷ []

abbrev pub meanings : List Piece → List ℕ
meanings [] = []
meanings (p ∷ ps) = meaning p ++ meanings ps

-- A character for itself is no `%` and does not end the format; a number is a word.
abbrev pub IsPiece : Piece → Type 0
IsPiece (literal c) = (c ≢ 0) × (c ≢ 37)
IsPiece (signed_d n) = n < 2 ^ 32
IsPiece (signed_i n) = n < 2 ^ 32
IsPiece (unsigned n) = n < 2 ^ 32
IsPiece (hex n) = n < 2 ^ 32
IsPiece (large_hex n) = n < 2 ^ 32
IsPiece (binary n) = n < 2 ^ 32
IsPiece (padded_unsigned zeros width n) =
    (0 < width) × (width < 10) × (n < 2 ^ 32) × (length (numeral false 10 n) ≤ width)
IsPiece (padded_hex zeros width n) =
    (0 < width) × (width < 10) × (n < 2 ^ 32) × (length (numeral false 16 n) ≤ width)
IsPiece (char c) = Unit {0}
IsPiece (string s) = Unit {0}
IsPiece percent = Unit {0}

abbrev pub ArePieces : List Piece → Type 0
ArePieces [] = Unit {0}
ArePieces (p ∷ ps) = IsPiece p × ArePieces ps

abbrev printed : Directive × List Arg × List ℕ → List ℕ × List ℕ × List Arg
printed (d, args, format) = (directive_text d, format, args)

part_lem :
    (p : Piece) (rest : List ℕ) (args : List Arg)
    → IsPiece p
    → next_part (syntax p rest) (argument p args) ≡ (meaning p, rest, args)
unfolding parse_flags
part_lem (literal c) rest args (n, m) =
    let plain : (c == 37) ≡ false = ground arith in rw plain refl
part_lem (signed_d n) rest args w = ap (λ t. (t, rest, args)) (signed_lem n w)
part_lem (signed_i n) rest args w = ap (λ t. (t, rest, args)) (signed_lem n w)
part_lem (unsigned n) rest args w =
    ap (λ t. (t, rest, args)) (unsigned_lem false n 10 (omega arith) (omega arith))
part_lem (hex n) rest args w =
    ap (λ t. (t, rest, args)) (unsigned_lem false n 16 (omega arith) (omega arith))
part_lem (large_hex n) rest args w =
    ap (λ t. (t, rest, args)) (unsigned_lem true n 16 (omega arith) (omega arith))
part_lem (binary n) rest args w =
    ap (λ t. (t, rest, args)) (unsigned_lem false n 2 (omega arith) (omega arith))
part_lem (padded_unsigned zeros width n) rest args (pos, w, _, fits) =
    ap printed (width_lem zeros width 117 rest (int_arg n ∷ args) pos w refl)
    ∙ ap (λ t. (t, rest, args)) (padded_lem zeros n 10 width (omega arith) (omega arith) w fits)
part_lem (padded_hex zeros width n) rest args (pos, w, _, fits) =
    ap printed (width_lem zeros width 120 rest (int_arg n ∷ args) pos w refl)
    ∙ ap (λ t. (t, rest, args)) (padded_lem zeros n 16 width (omega arith) (omega arith) w fits)
part_lem (char c) rest args w = refl
part_lem (string s) rest args w = refl
part_lem percent rest args w = refl

starts : (p : Piece) (rest : List ℕ) → IsPiece p → (get_or (syntax p rest) 0 0 == 0) ≡ false
starts (literal c) rest (n, m) = ground arith
starts (signed_d n) rest w = refl
starts (signed_i n) rest w = refl
starts (unsigned n) rest w = refl
starts (hex n) rest w = refl
starts (large_hex n) rest w = refl
starts (binary n) rest w = refl
starts (padded_unsigned zeros width n) rest w = refl
starts (padded_hex zeros width n) rest w = refl
starts (char c) rest w = refl
starts (string s) rest w = refl
starts percent rest w = refl

longer : (p : Piece) (rest : List ℕ) → length rest < length (syntax p rest)
longer (literal c) rest = omega arith
longer (signed_d n) rest = omega arith
longer (signed_i n) rest = omega arith
longer (unsigned n) rest = omega arith
longer (hex n) rest = omega arith
longer (large_hex n) rest = omega arith
longer (binary n) rest = omega arith
longer (padded_unsigned true width n) rest = omega arith
longer (padded_unsigned false width n) rest = omega arith
longer (padded_hex true width n) rest = omega arith
longer (padded_hex false width n) rest = omega arith
longer (char c) rest = omega arith
longer (string s) rest = omega arith
longer percent rest = omega arith

render_lem :
    (rounds : ℕ) (ps : List Piece) (behind : List ℕ)
    → ArePieces ps
    → length (format_of ps behind) ≤ rounds
    → render rounds (format_of ps behind) (arguments ps) ≡ meanings ps
unfolding render
render_lem zero [] behind a h = refl
render_lem zero (p ∷ ps) behind a h = absurd (omega (arith, longer p (format_of ps behind)))
render_lem (suc rounds) [] behind a h = refl
render_lem (suc rounds) (p ∷ ps) behind (a, rest) h =
    let shorter = longer p (format_of ps behind) in
    rw (starts p (format_of ps behind) a, part_lem p (format_of ps behind) (arguments ps) a)
      (ap (λ t. meaning p ++ t) (render_lem rounds ps behind rest (omega (arith, shorter))))

-- For a format made of characters other than `%` and of conversions without flags and width, or `%u`
-- and `%x` with a width of one digit in which the number fits, with the flag `0` or not, whose text
-- fits in the buffer with its final zero byte, vsnprintf writes that text and the zero byte, and
-- returns the length of the text: each character for itself, `%d` and `%i` a number in decimal with its
-- sign, `%u`, `%x`, `%X` and `%b` in base 10, 16, 16 with capitals, and 2, `%c` a character, `%s` a
-- text up to its zero byte, and `%%` a `%`. A width fills the number up from the left, with zeros for
-- the flag `0` and with spaces without it.
pub vsnprintf_lem :
    (size : ℕ) (ps : List Piece) (behind : List ℕ)
    → size < 2 ^ 32
    → ArePieces ps
    → length (meanings ps) < size
    → vsnprintf size (format_of ps behind) (arguments ps)
      ≡ (meanings ps ++ 0 ∷ [], length (meanings ps))
vsnprintf_lem size ps behind w a h =
    let same = render_lem (suc (length (format_of ps behind))) ps behind a (omega arith) in
    let fits : length
          (render (suc (length (format_of ps behind))) (format_of ps behind) (arguments ps))
        < size =
      rw same h in
    vsnprintf-render size (format_of ps behind) (arguments ps) w fits
    ∙ ap (λ t. (t ++ 0 ∷ [], length t)) same
