-- ===== src/Stdlib.antt =====
-- lib/stdlib.c, lib/string.c and include/lib/ctype.h: memory and texts. A memory block is a List of
-- bytes; reads past its end give 0 and writes past its end are lost, so a text may end with its list
-- or with the byte 0. A pointer into a block is an index.
pub mod Memory
pub mod Text
pub mod Compare
pub mod Copy
pub mod Print
mod Tests
use haoud_os.Base.{
  ℕ, zero, suc, ◌+◌, ◌-◌, ◌*◌, ◌/◌, ◌%◌, ◌^◌, Bool, true, false, not, ◌&&◌, ◌||◌, Option, none,
  some, List, [], ◌∷◌, drop, get_or, set, length, ltb, leb, ◌==◌, if◌then◌else◌, add32, sub32,
  mul32,
}

-- From `src + s` to `dst + d`, blocks that do not overlap.
unfoldable pub memcpy : List ℕ → ℕ → List ℕ → ℕ → (len : ℕ) → List ℕ
memcpy dst d src s zero = dst
memcpy dst d src s (suc len) = memcpy (set dst d (get_or src s 0)) (d + 1) src (s + 1) len

-- A `char` keeps the low byte of `value`.
unfoldable pub memset : List ℕ → ℕ → ℕ → (len : ℕ) → List ℕ
memset dst d value zero = dst
memset dst d value (suc len) = memset (set dst d (value % 256)) (d + 1) value len

-- The generator's seed is the state.
abbrev pub srand : ℕ → ℕ
srand seed = seed

-- `RAND_MAX` is 2^31 - 1.
abbrev pub rand : ℕ → ℕ × ℕ
rand rand_seed =
    let seed = add32 (mul32 rand_seed 1103515245) 12345 in (seed / 65536 % 2147483647, seed)

abbrev pub cp1252_to_cp437 : ℕ → ℕ
cp1252_to_cp437 c =
    if c == 0xe9
    then 0x82
    else if c == 0xe8
    then 0x8a
    else if c == 0xe7
    then 0x87
    else if c == 0xe0
    then 0x85
    else c

abbrev pub is_upper : ℕ → Bool
is_upper c = leb 65 c && leb c 90

abbrev pub is_lower : ℕ → Bool
is_lower c = leb 97 c && leb c 122

abbrev pub is_letter : ℕ → Bool
is_letter c = is_lower c || is_upper c

abbrev pub to_upper : ℕ → ℕ
to_upper c = if is_lower c then c + 32 else c

abbrev pub to_lower : ℕ → ℕ
to_lower c = if is_upper c then c - 32 else c

abbrev pub is_digit : ℕ → Bool
is_digit c = leb 48 c && leb c 57

-- -1 is the largest word.
abbrev pub ctoi : ℕ → ℕ
ctoi c = if is_digit c then c - 48 else 2 ^ 32 - 1

-- The rest of atoi from the value so far.
unfoldable pub atoi_from : List ℕ → ℕ → ℕ
atoi_from [] i = i
atoi_from (c ∷ s) i = if is_digit c then atoi_from s (add32 (mul32 i 10) (c - 48)) else i

abbrev pub atoi : List ℕ → ℕ
atoi s = atoi_from s 0

unfoldable pub strlen : List ℕ → ℕ
strlen [] = 0
strlen (c ∷ s) = if c == 0 then 0 else suc (strlen s)

-- The index of the character.
unfoldable pub strchr : List ℕ → ℕ → Option ℕ
strchr [] c = none
strchr (x ∷ s) c =
    let rest = strchr s c in
    if x == 0
    then none
    else if x == c
    then some 0
    else elim rest [ none ↦ none | some i ↦ some (suc i) ]

-- A `char` is a signed byte.
abbrev pub sign_extend : ℕ → ℕ
sign_extend c = if ltb c 128 then c else c + 2 ^ 32 - 256

unfoldable pub strcmp : List ℕ → List ℕ → ℕ
strcmp [] s2 = sub32 0 (sign_extend (get_or s2 0 0))
strcmp (c ∷ s1) s2 =
    let rest = strcmp s1 (drop 1 s2) in
    if not (c == 0) && c == get_or s2 0 0
    then rest
    else sub32 (sign_extend c) (sign_extend (get_or s2 0 0))

unfoldable pub strncmp : List ℕ → List ℕ → (len : ℕ) → ℕ
strncmp s1 s2 zero = 0
strncmp s1 s2 (suc len) =
    let rest = strncmp (drop 1 s1) (drop 1 s2) len in
    if not (get_or s1 0 0 == get_or s2 0 0)
    then sub32 (get_or s1 0 0) (get_or s2 0 0)
    else if get_or s1 0 0 == 0
    then 0
    else rest

-- To `dst + d`.
unfoldable pub strcpy : List ℕ → ℕ → List ℕ → List ℕ
strcpy dst d [] = set dst d 0
strcpy dst d (c ∷ src) =
    let rest = strcpy (set dst d c) (d + 1) src in if c == 0 then set dst d 0 else rest

abbrev pub strcat : List ℕ → List ℕ → List ℕ
strcat dst src = strcpy dst (strlen dst) src

-- How many characters were replaced, and the text.
unfoldable pub strrpl : List ℕ → ℕ → ℕ → ℕ × List ℕ
strrpl [] c1 c2 = (0, [])
strrpl (c ∷ s1) c1 c2 =
    let (n, rest) = strrpl s1 c1 c2 in
    if c == 0 then (0, c ∷ s1) else if c == c1 then (suc n, c2 ∷ rest) else (n, c ∷ rest)
