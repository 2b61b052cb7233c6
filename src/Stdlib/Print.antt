-- ===== src/Stdlib/Print.antt =====
-- lib/vsnprintf.c. The output is the list of the characters written one behind the other; a list longer
-- than the buffer is a write behind its end. The format is the memory from its pointer on.
pub mod Digits
pub mod Number
pub mod Decimal
pub mod Overrun
pub mod Format
pub mod Numeral
pub mod Width
pub mod Pieces
mod Tests
use haoud_os.Base.{
  ℕ, zero, suc, ◌+◌, ◌-◌, ◌*◌, ◌/◌, ◌%◌, ◌^◌, Bool, true, false, ◌&&◌, ◌||◌, List, [], ◌∷◌, ◌++◌,
  length, get_or, drop, ltb, leb, ◌==◌, if◌then◌else◌, add32, sub32, mul32, not,
}
use haoud_os.Stdlib.{is_digit}

-- The `VSNPRINT_` flags.
pub record Flags : Type 0 where
  pub zeropad : Bool
  pub sign : Bool
  pub plus : Bool
  pub space : Bool
  pub large : Bool

-- `convert_table[chiffre]`
abbrev pub convert : Bool → ℕ → ℕ
convert large chiffre =
    if ltb chiffre 10 then 48 + chiffre else if large then 55 + chiffre else 87 + chiffre

-- The loop on the digits, the last one first. A 32-bit number has 32 digits at most.
unfoldable pub digits : (rounds : ℕ) → Bool → (base num num_max : ℕ) → List ℕ
digits zero large base num num_max = []
digits (suc rounds) large base num num_max =
    let rest = digits rounds large base (num / base) (sub32 num_max 1) in
    if num == 0 || num_max == 0 then [] else convert large (num % base) ∷ rest

abbrev pub tmp_digits : Bool → (base num num_max : ℕ) → List ℕ
tmp_digits large base num num_max = if num == 0 then 48 ∷ [] else digits 32 large base num num_max

-- `while (size-- > 0 && msize--)`: the padding, and what is left of the size.
unfoldable pub pad : ℕ → (size msize : ℕ) → List ℕ × ℕ
pad padding zero msize = ([], msize)
pad padding (suc size) msize =
    let (out, left) = pad padding size (msize - 1) in
    if msize == 0 then ([], sub32 0 1) else (padding ∷ out, left)

-- `while (i-- > 0 && msize--)`: the first of the list is `tmp[i - 1]`.
unfoldable pub copy_back : List ℕ → ℕ → List ℕ × ℕ
copy_back [] msize = ([], msize)
copy_back (c ∷ cs) msize =
    let (out, left) = copy_back cs (sub32 msize 1) in
    if msize == 0 then ([], sub32 0 1) else (c ∷ out, left)

unfoldable pub reverse_onto : List ℕ → List ℕ → List ℕ
reverse_onto [] acc = acc
reverse_onto (c ∷ cs) acc = reverse_onto cs (c ∷ acc)

-- The sign, 0 for none.
abbrev pub sign_char : Flags → ℕ → ℕ
sign_char f num =
    if not f.sign
    then 0
    else if leb (2 ^ 31) num
    then 45
    else if f.plus
    then 43
    else if f.space
    then 32
    else 0

abbrev pub magnitude : Flags → ℕ → ℕ
magnitude f num = if f.sign && leb (2 ^ 31) num then sub32 0 num else num

-- A signed number as the count of rounds of `while (size-- > 0)`.
abbrev pub positive : ℕ → ℕ
positive size = if ltb size (2 ^ 31) then size else 0

-- The sign goes behind the digits in `tmp`, when there is room at all.
abbrev pub with_sign : ℕ → ℕ → List ℕ
with_sign sign msize = if sign == 0 || msize == 0 then [] else sign ∷ []

abbrev pub checked_base : ℕ → ℕ
checked_base base = if ltb base 2 || ltb 16 base then 10 else base

-- The characters and `*max_size` afterwards.
unfoldable pub number : (num base size max_size : ℕ) → Flags → List ℕ × ℕ
number num base size max_size f =
    let sign = sign_char f num in
    let tmp = tmp_digits f.large (checked_base base) (magnitude f num) size in
    let room = if sign == 0 then size else sub32 size 1 in
    let (out, msize) =
      pad (if f.zeropad then 48 else 32) (positive (sub32 room (length tmp))) max_size in
    let (out', msize') = copy_back (with_sign sign max_size ++ reverse_onto tmp []) msize in
    (out ++ out', msize')

-- What `va_arg` takes; where the caller gave no argument it takes 0 or the empty text.
pub data Arg : Type 0 where
  int_arg : ℕ → Arg
  text_arg : List ℕ → Arg

abbrev pub next_int : List Arg → ℕ × List Arg
next_int [] = (0, [])
next_int (int_arg n ∷ args) = (n, args)
next_int (text_arg s ∷ args) = (0, args)

abbrev pub next_text : List Arg → List ℕ × List Arg
next_text [] = ([], [])
next_text (int_arg n ∷ args) = ([], args)
next_text (text_arg s ∷ args) = (s, args)

abbrev pub no_flags : Flags
no_flags = record { zeropad = false; sign = false; plus = false; space = false; large = false }

abbrev pub is_flag : ℕ → Bool
is_flag c = c == 43 || c == 32 || c == 48

abbrev pub add_flag : ℕ → Flags → Flags
add_flag c f =
    if c == 43
    then record f { plus = true }
    else if c == 32
    then record f { space = true }
    else record f { zeropad = true }

-- From `next_flag` on: the flags and the format behind them.
unfoldable pub parse_flags : List ℕ → Flags → Flags × List ℕ
parse_flags [] f = (f, [])
parse_flags (c ∷ format) f =
    let rest = parse_flags format (add_flag c f) in if is_flag c then rest else (f, c ∷ format)

unfoldable pub vsnprintf_atoi : List ℕ → ℕ → ℕ × List ℕ
vsnprintf_atoi [] i = (i, [])
vsnprintf_atoi (c ∷ s) i =
    let rest = vsnprintf_atoi s (add32 (mul32 i 10) (c - 48)) in
    if is_digit c then rest else (i, c ∷ s)

abbrev pub parse_field : List ℕ → ℕ × List ℕ
parse_field format =
    if is_digit (get_or format 0 0) then vsnprintf_atoi format 0 else (2 ^ 32 - 1, format)

-- `%s`: up to the zero byte and while there is room.
unfoldable pub copy_text : List ℕ → ℕ → List ℕ × ℕ
copy_text [] left = ([], left)
copy_text (c ∷ str) left =
    let (out, left') = copy_text str (left - 1) in
    if c == 0 || left == 0 then ([], left) else (c ∷ out, left')

abbrev pub put_char : ℕ → ℕ → List ℕ × ℕ
put_char c left = if left == 0 then ([], sub32 0 1) else (c ∷ [], left - 1)

-- What a conversion asks for: a number (its argument, base, width, flags), a character or a text.
pub data Directive : Type 0 where
  a_number : (num base size : ℕ) → Flags → Directive
  a_char : ℕ → Directive
  a_text : List ℕ → Directive
  nothing : Directive

abbrev pub directive : ℕ → Flags → (size : ℕ) → List Arg → Directive × List Arg
directive c f size args =
    let (num, args') = next_int args in
    let (str, args'') = next_text args in
    if c == 100 || c == 105
    then (a_number num 10 size (record f { sign = true }), args')
    else if c == 117
    then (a_number num 10 size f, args')
    else if c == 99
    then (a_char (num % 256), args')
    else if c == 115
    then (a_text str, args'')
    else if c == 88
    then (a_number num 16 size (record f { large = true }), args')
    else if c == 120
    then (a_number num 16 size f, args')
    else if c == 112
    then (a_number num 16 8 (record f { zeropad = true }), args')
    else if c == 98
    then (a_number num 2 size f, args')
    else if c == 37
    then (a_char 37, args)
    else (nothing, args)

unfoldable pub print_directive : Directive → ℕ → List ℕ × ℕ
print_directive (a_number num base size f) left = number num base size left f
print_directive (a_char c) left = put_char c left
print_directive (a_text str) left = copy_text str left
print_directive nothing left = ([], left)

-- What stands behind a `%`: the conversion, the arguments behind it and the format behind it.
abbrev pub parse_directive : List ℕ → List Arg → Directive × List Arg × List ℕ
parse_directive format args =
    let (f, format') = parse_flags format no_flags in
    let (size, format'') = parse_field format' in
    let (d, args') = directive (get_or format'' 0 0) f size args in (d, args', drop 1 format'')

abbrev pub convert_next : List ℕ → List Arg → ℕ → List ℕ × List ℕ × List Arg × ℕ
convert_next format args left =
    let (d, args', format') = parse_directive format args in
    let (out, left') = print_directive d left in (out, format', args', left')

-- One round: the characters, the format and the arguments behind them, and the room left.
abbrev pub format_round : List ℕ → List Arg → ℕ → List ℕ × List ℕ × List Arg × ℕ
format_round format args left =
    if not (get_or format 0 0 == 37)
    then (get_or format 0 0 ∷ [], drop 1 format, args, sub32 left 1)
    else convert_next (drop 1 format) args left

-- Each round takes a character of the format at least.
unfoldable pub format_loop : (rounds : ℕ) → List ℕ → List Arg → (size_restante : ℕ) → List ℕ
format_loop zero format args left = []
format_loop (suc rounds) format args left =
    let (out, format', args', left') = format_round format args left in
    let rest = format_loop rounds format' args' left' in
    if get_or format 0 0 == 0 || left == 0 then [] else out ++ rest

-- The buffer with the final zero byte, and the value returned.
abbrev pub vsnprintf : ℕ → List ℕ → List Arg → List ℕ × ℕ
vsnprintf size format args =
    let out = format_loop (suc (length format)) format args (sub32 size 1) in
    (out ++ 0 ∷ [], length out)
