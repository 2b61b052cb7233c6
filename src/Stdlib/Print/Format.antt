-- ===== src/Stdlib/Print/Format.antt =====
-- lib/vsnprintf.c without the bound of the buffer, for what fits in it.
use haoud_os.Base.{
  ℕ, zero, suc, ◌-◌, ◌^◌, ◌<◌, ◌≤◌, ◌≡◌, inl, inr, false, not, List, [], ◌∷◌, ◌++◌, length,
  length-append, get_or, drop, ◌==◌, if◌then◌else◌, sub32, arith, refl, sym, ap, ◌∙◌, Bool-cases,
}
use haoud_os.Stdlib.Text.{text}
use haoud_os.Stdlib.Print.{
  Arg, Directive, a_number, a_char, a_text, nothing, copy_text, print_directive, parse_directive,
  format_loop, format_round, vsnprintf,
}
use haoud_os.Stdlib.Print.Number.{number_text, number_lem}

-- What a conversion prints without a bound.
abbrev pub directive_text : Directive → List ℕ
directive_text (a_number num base size f) = number_text num base size f
directive_text (a_char c) = c ∷ []
directive_text (a_text str) = text str
directive_text nothing = []

-- The first part of a format: a character for itself or a conversion, and what is behind it.
abbrev pub next_part : List ℕ → List Arg → List ℕ × List ℕ × List Arg
next_part format args =
    let (d, args', format') = parse_directive (drop 1 format) args in
    if not (get_or format 0 0 == 37)
    then (get_or format 0 0 ∷ [], drop 1 format, args)
    else (directive_text d, format', args')

-- The loop on the format without a bound.
unfoldable pub render : (rounds : ℕ) → List ℕ → List Arg → List ℕ
render zero format args = []
render (suc rounds) format args =
    let (out, format', args') = next_part format args in
    let rest = render rounds format' args' in if get_or format 0 0 == 0 then [] else out ++ rest

copy_text-fits :
    (str : List ℕ) (left : ℕ)
    → length (text str) ≤ left
    → copy_text str left ≡ (text str, left - length (text str))
unfolding copy_text
copy_text-fits [] left h = ap (λ m. ([], m)) (omega arith)
copy_text-fits (c ∷ str) left h = elim (Bool-cases (c == 0)) [
  | inl z ↦ rw (z) (ap (λ m. ([], m)) (omega arith))
  | inr n ↦
      let room : (left == 0) ≡ false = more left (rw (n) at h) in
      rw (n, room)
        (ap (λ r. (c ∷ r.0, r.1)) (copy_text-fits str (left - 1) (fewer left (rw (n) at h)))
          ∙ ap (λ m. (c ∷ text str, m)) (omega arith))
]
  where
    more : (left : ℕ) → suc (length (text str)) ≤ left → (left == 0) ≡ false
    more left h = ground arith

    fewer : (left : ℕ) → suc (length (text str)) ≤ left → length (text str) ≤ left - 1
    fewer left h = omega arith

print_directive-fits :
    (d : Directive) (left : ℕ)
    → 0 < left
    → left < 2 ^ 32
    → length (directive_text d) ≤ left
    → print_directive d left ≡ (directive_text d, left - length (directive_text d))
unfolding print_directive
print_directive-fits (a_number num base size f) left h w fits =
    number_lem num base size left f h w fits
print_directive-fits (a_char c) left h w fits = ground arith
print_directive-fits (a_text str) left h w fits = copy_text-fits str left fits
print_directive-fits nothing left h w fits = ap (λ m. ([], m)) (omega arith)

no_chars : (xs : List ℕ) → length xs ≡ 0 → xs ≡ []
no_chars [] e = refl
no_chars (x ∷ xs) e = absurd (omega arith)

round_lem :
    (format : List ℕ) (args : List Arg) (left : ℕ)
    → 0 < left
    → left < 2 ^ 32
    → length ((next_part format args).0) ≤ left
    → format_round format args left ≡ (
      (next_part format args).0,
      (next_part format args).1,
      (next_part format args).2,
      left - length ((next_part format args).0),
    )
round_lem format args left h w fits = elim (Bool-cases (get_or format 0 0 == 37)) [
  | inr n ↦ rw (n) (ap (λ m. (get_or format 0 0 ∷ [], drop 1 format, args, m)) (ground arith))
  | inl y ↦
      let (d, args', format') = parse_directive (drop 1 format) args in
      rw (y)
        (ap (λ r. (r.0, format', args', r.1)) (print_directive-fits d left h w (rw (y) at fits)))
]

loop_lem :
    (rounds : ℕ) (format : List ℕ) (args : List Arg) (left : ℕ)
    → left < 2 ^ 32
    → length (render rounds format args) ≤ left
    → format_loop rounds format args left ≡ render rounds format args
unfolding format_loop render
loop_lem zero format args left w h = refl
loop_lem (suc rounds) format args left w h = elim (Bool-cases (get_or format 0 0 == 0)) [
  | inl z ↦ rw (z) refl
  | inr n ↦
      let (out, format', args') = next_part format args in
      let rest = render rounds format' args' in
      let all : length (out ++ rest) ≤ left = rw (n) at h in
      let sum = length-append out rest in
      elim (Bool-cases (left == 0)) [
        | inl z ↦
            let nothing_out : length (out ++ rest) ≡ 0 = ground arith in
            rw (n, z) (sym (no_chars (out ++ rest) nothing_out))
        | inr k ↦
            rw (n, k, round_lem format args left (ground arith) w (omega (arith, all, sum)))
              (ap (λ l. out ++ l)
                (loop_lem rounds format' args' (left - length out) (omega arith)
                  (omega (arith, all, sum))))
      ]
]

-- A format of which the conversions and the characters, printed without a bound, fit in the buffer with
-- the final zero byte, is printed without one.
pub vsnprintf-render :
    (size : ℕ) (format : List ℕ) (args : List Arg)
    → size < 2 ^ 32
    → length (render (suc (length format)) format args) < size
    → vsnprintf size format args ≡ (
      render (suc (length format)) format args ++ 0 ∷ [],
      length (render (suc (length format)) format args),
    )
vsnprintf-render size format args w h =
    ap (λ out. (out ++ 0 ∷ [], length out))
      (loop_lem (suc (length format)) format args (sub32 size 1) (omega arith) (omega arith))
