-- ===== src/Dev/Tty/Typing.antt =====
-- Lines that are typed at a terminal of core/dev/char/tty.c, and reads of them.
use mathlib.Core.List.{append_assoc}
use haoud_os.Base.{
  ℕ, zero, suc, ◌+◌, ◌^◌, ◌≤◌, ◌<◌, ◌≡◌, ◌≢◌, refl, ap, sym, ◌∙◌, inl, inr, true, false, ◌||◌, List,
  [], ◌∷◌, ◌++◌, length, length-append, take, take_all, drop, get_or, ◌&&◌, ◌==◌, Bool-cases, add32,
  arith,
}
use haoud_os.Dev.Tty.{
  TtyBuffer, tty_buffer_empty, tty_buffer_getc, TtyDevice, tty_canonic_mode, tty_add_char,
  tty_add_chars, Reading, cooked_loop, tty_read_canonic,
}
use haoud_os.Dev.Tty.Ring.{IsRing, waiting, contents, empty_lem, getc-IsRing, contents-getc}
use haoud_os.Dev.Tty.Line.{IsTty, typed, tty_add_char_lem, length-contents}

-- No character of the list ends a line.
abbrev pub NoEnter : List ℕ → Type 0
NoEnter [] = Unit {0}
NoEnter (c ∷ s) = (c ≢ 10) × NoEnter s

abbrev pub line : List ℕ → List ℕ
line s = s ++ (10 ∷ [])

add-params : (tty : TtyDevice) (c : ℕ) → (tty_add_char tty c).1.params ≡ tty.params
unfolding tty_add_char
add-params tty c = elim (Bool-cases ((c == 10) && tty_canonic_mode tty.params)) [
  | inl e ↦ rw e refl
  | inr e ↦ rw e refl
]

pub tail-cons : {x y : ℕ} {xs ys : List ℕ} → x ∷ xs ≡ y ∷ ys → xs ≡ ys
tail-cons e = ap (drop 1) e

pub head-cons : {x y : ℕ} {xs ys : List ℕ} → x ∷ xs ≡ y ∷ ys → x ≡ y
head-cons e = ap (λ s. get_or s 0 0) e

pub nonempty :
    (b : TtyBuffer) (c : ℕ) (s : List ℕ)
    → IsRing b
    → contents b ≡ c ∷ s
    → tty_buffer_empty b ≡ false
nonempty b c s r e =
    let many : waiting b ≡ suc (length s) = sym (length-contents b) ∙ ap length e in
    empty_lem b r ∙ ground arith

-- A read of a whole line.
loop_lem :
    (n len count : ℕ) (cooked : TtyBuffer) (s rest : List ℕ)
    → IsRing cooked
    → NoEnter s
    → contents cooked ≡ s ++ 10 ∷ rest
    → length s < n
    → count + length s < len
    → len < 2 ^ 32
    → (cooked_loop n len count cooked).0 ≡ Reading.returns (line s)
unfolding cooked_loop
loop_lem zero len count cooked s rest r no_enter e h k l = absurd (omega arith)
loop_lem (suc n) len count cooked [] rest r no_enter e h k l =
    let some_left = nonempty cooked 10 rest r e in
    let first : (tty_buffer_getc cooked).0 ≡ 10 =
      head-cons (sym (contents-getc cooked r some_left) ∙ e) in
    let stops : ((len == add32 count 1) || ((tty_buffer_getc cooked).0 == 10)) ≡ true =
      rw first (ground arith) in
    rw (cooked_loop, some_left, stops) (ap (λ c. Reading.returns (c ∷ [])) first)
loop_lem (suc n) len count cooked (c ∷ s) rest r no_enter e h k l =
    let some_left = nonempty cooked c (s ++ 10 ∷ rest) r e in
    let same = sym (contents-getc cooked r some_left) ∙ e in
    let first : (tty_buffer_getc cooked).0 ≡ c = head-cons same in
    let other = no_enter.0 in
    let goes_on : ((len == add32 count 1) || ((tty_buffer_getc cooked).0 == 10)) ≡ false =
      rw first (ground arith) in
    let next =
      loop_lem n len (add32 count 1) (tty_buffer_getc cooked).1 s rest (getc-IsRing cooked r)
        no_enter.1 (tail-cons same) (omega arith) (omega arith) l in
    rw (cooked_loop, some_left, goes_on) (rw (next, first) refl)

typed-room : (raw : List ℕ) (c : ℕ) → length raw < 127 → typed raw c ≡ raw ++ (c ∷ [])
typed-room raw c h = let room : (length raw == 127) ≡ false = ground arith in rw room refl

-- A character that does not end the line, when there is room for it.
key_lem :
    (tty : TtyDevice) (c : ℕ)
    → IsTty tty
    → tty_canonic_mode tty.params ≡ true
    → c ≢ 10
    → waiting tty.raw < 127
    → IsTty (tty_add_char tty c).1
      × (contents (tty_add_char tty c).1.raw ≡ contents tty.raw ++ (c ∷ []))
      × (contents (tty_add_char tty c).1.cooked ≡ contents tty.cooked)
key_lem tty c t canonic other h =
    let a = tty_add_char_lem tty c t canonic in
    let no_end : (c == 10) ≡ false = ground arith in
    let room = typed-room (contents tty.raw) c (rw (length-contents tty.raw) h) in
    (a.0, a.2 ∙ rw no_end room, a.3 ∙ rw no_end refl)

enter_lem :
    (tty : TtyDevice)
    → IsTty tty
    → tty_canonic_mode tty.params ≡ true
    → waiting tty.cooked + waiting tty.raw < 127
    → IsRing (tty_add_char tty 10).1.cooked
      × (contents (tty_add_char tty 10).1.cooked
          ≡ contents tty.cooked ++ (contents tty.raw ++ (10 ∷ [])))
enter_lem tty t canonic h =
    let a = tty_add_char_lem tty 10 t canonic in
    let room = typed-room (contents tty.raw) 10 (rw (length-contents tty.raw) (omega arith)) in
    let fits : length (contents tty.cooked ++ (contents tty.raw ++ (10 ∷ []))) ≤ 127 =
      rw
        (
          length-append (contents tty.cooked) (contents tty.raw ++ (10 ∷ [])),
          length-append (contents tty.raw) (10 ∷ []),
          length-contents tty.cooked,
          length-contents tty.raw,
        )
        (omega arith) in
    (
      a.0.cooked,
      a.3
          ∙ ap (λ s. take 127 (contents tty.cooked ++ s)) room
          ∙ take_all 127 (contents tty.cooked ++ (contents tty.raw ++ (10 ∷ []))) fits,
    )

-- What is typed, up to the end of the line, is readable.
type_lem :
    (tty : TtyDevice) (s : List ℕ)
    → IsTty tty
    → tty_canonic_mode tty.params ≡ true
    → NoEnter s
    → waiting tty.cooked + waiting tty.raw + length s < 127
    → IsRing (tty_add_chars tty (line s)).1.cooked
      × (contents (tty_add_chars tty (line s)).1.cooked
          ≡ contents tty.cooked ++ (contents tty.raw ++ line s))
unfolding tty_add_chars
type_lem tty [] t canonic no_enter h = enter_lem tty t canonic (omega arith)
type_lem tty (c ∷ s) t canonic no_enter h =
    let k = key_lem tty c t canonic no_enter.0 (omega arith) in
    let after = (tty_add_char tty c).1 in
    let more : waiting after.raw ≡ waiting tty.raw + 1 =
      sym (length-contents after.raw)
      ∙ ap length k.1
      ∙ length-append (contents tty.raw) (c ∷ [])
      ∙ ap (λ n. n + 1) (length-contents tty.raw) in
    let same : waiting after.cooked ≡ waiting tty.cooked =
      sym (length-contents after.cooked) ∙ ap length k.2 ∙ length-contents tty.cooked in
    let rest =
      type_lem after s k.0 (rw (add-params tty c) canonic) no_enter.1 (omega (arith, more, same)) in
    (
      rest.0,
      rest.1
          ∙ ap (λ x. x ++ (contents after.raw ++ line s)) k.2
          ∙ ap (λ x. contents tty.cooked ++ (x ++ line s)) k.1
          ∙ ap (λ x. contents tty.cooked ++ x) (append_assoc (contents tty.raw) (c ∷ []) (line s)),
    )

-- A line of at most 126 characters, typed at a terminal in canonical mode where nothing waits, is what
-- a read with room for it returns, the end of the line included.
pub read-add_chars :
    (tty : TtyDevice) (s : List ℕ) (len : ℕ)
    → IsTty tty
    → tty_canonic_mode tty.params ≡ true
    → contents tty.cooked ≡ []
    → contents tty.raw ≡ []
    → NoEnter s
    → length s < 127
    → length s < len
    → len < 2 ^ 32
    → (tty_read_canonic (tty_add_chars tty (line s)).1 len 0).0 ≡ Reading.returns (line s)
unfolding tty_read_canonic
read-add_chars tty s len t canonic no_cooked no_raw no_enter h k l =
    let none_read : waiting tty.cooked ≡ 0 =
      sym (length-contents tty.cooked) ∙ ap length no_cooked in
    let none_typed : waiting tty.raw ≡ 0 = sym (length-contents tty.raw) ∙ ap length no_raw in
    let ready = type_lem tty s t canonic no_enter (omega (arith, none_read, none_typed)) in
    let content =
      ready.1
      ∙ ap (λ x. x ++ (contents tty.raw ++ line s)) no_cooked
      ∙ ap (λ x. x ++ line s) no_raw in
    loop_lem 128 len 0 (tty_add_chars tty (line s)).1.cooked s [] ready.0 no_enter content
      (omega arith) (omega arith) l
