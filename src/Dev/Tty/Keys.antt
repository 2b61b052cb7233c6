-- ===== src/Dev/Tty/Keys.antt =====
-- Reads of a terminal of core/dev/char/tty.c that is not in canonical mode: key by key.
use haoud_os.Base.{
  ℕ, zero, suc, ◌+◌, ◌^◌, ◌<◌, ◌≡◌, refl, ap, sym, ◌∙◌, true, false, List, [], ◌∷◌, ◌++◌, length,
  Bool, ◌&&◌, ◌==◌, if◌then◌else◌, add32, arith,
}
use haoud_os.Dev.Tty.{
  TtyDevice, tty_buffer_getc, tty_canonic_mode, tty_echo, tty_add_char, Reading, put_first,
  raw_loop, tty_read_raw,
}
use haoud_os.Dev.Tty.Ring.{IsRing, contents, getc-IsRing, contents-getc}
use haoud_os.Dev.Tty.Line.{IsTty, typed, store-IsRing, contents-store}
use haoud_os.Dev.Tty.Typing.{nonempty, head-cons, tail-cons}

and-false : (b : Bool) → (b && false) ≡ false
and-false true = refl
and-false false = refl

-- Outside of canonical mode a key only goes to the end of the typed ones: nothing is echoed, no line is
-- moved and no reader of lines is woken.
pub tty_add_char_raw :
    (tty : TtyDevice) (c : ℕ)
    → IsTty tty
    → tty_canonic_mode tty.params ≡ false
    → IsTty (tty_add_char tty c).1
      × ((tty_add_char tty c).0 ≡ false)
      × (contents (tty_add_char tty c).1.raw ≡ typed (contents tty.raw) c)
      × ((tty_add_char tty c).1.output ≡ tty.output)
unfolding tty_add_char
tty_add_char_raw tty c t mode =
    let no_move : ((c == 10) && tty_canonic_mode tty.params) ≡ false =
      rw mode (and-false (c == 10)) in
    let no_echo : (tty_echo tty.params && tty_canonic_mode tty.params) ≡ false =
      rw mode (and-false (tty_echo tty.params)) in
    rw (no_move, no_echo)
      (
        record { raw = store-IsRing tty.raw c t.raw; cooked = t.cooked },
        refl,
        contents-store tty.raw c t.raw,
        refl,
      )

-- With enough keys in the ring, a read takes the first ones, in order, and no other.
keys_lem :
    (n len count : ℕ) (tty : TtyDevice) (c : ℕ) (s rest : List ℕ)
    → IsRing tty.raw
    → contents tty.raw ≡ c ∷ (s ++ rest)
    → length s < n
    → count + length s + 1 ≡ len
    → len < 2 ^ 32
    → ((raw_loop n len count tty).0 ≡ Reading.returns (c ∷ s))
      × (contents (raw_loop n len count tty).1.raw ≡ rest)
unfolding raw_loop
keys_lem zero len count tty c s rest r e h k l = absurd (omega arith)
keys_lem (suc n) len count tty c [] rest r e h k l =
    let some_left = nonempty tty.raw c rest r e in
    let same = sym (contents-getc tty.raw r some_left) ∙ e in
    let last : (len == add32 count 1) ≡ true = ground arith in
    rw (raw_loop, some_left, last)
      (ap (λ x. Reading.returns (x ∷ [])) (head-cons same), tail-cons same)
keys_lem (suc n) len count tty c (d ∷ s) rest r e h k l =
    let some_left = nonempty tty.raw c (d ∷ (s ++ rest)) r e in
    let same = sym (contents-getc tty.raw r some_left) ∙ e in
    let goes_on : (len == add32 count 1) ≡ false = ground arith in
    let taken = tty_buffer_getc tty.raw in
    let after : TtyDevice = record tty {
      raw = taken.1;
      output = if tty_echo tty.params then taken.0 ∷ tty.output else tty.output;
    } in
    let next =
      keys_lem n len (add32 count 1) after d s rest (getc-IsRing tty.raw r) (tail-cons same)
        (omega arith) (omega arith) l in
    rw (raw_loop, some_left, goes_on)
      (
        ap (put_first taken.0) next.0 ∙ ap (λ x. Reading.returns (x ∷ (d ∷ s))) (head-cons same),
        next.1,
      )

-- A read of `length s + 1` keys that wait in the ring returns them and leaves the rest.
pub tty_read_raw_lem :
    (tty : TtyDevice) (c : ℕ) (s rest : List ℕ)
    → IsTty tty
    → contents tty.raw ≡ c ∷ (s ++ rest)
    → length s < 128
    → ((tty_read_raw false tty (length s + 1) 0).0 ≡ Reading.returns (c ∷ s))
      × (contents (tty_read_raw false tty (length s + 1) 0).1.raw ≡ rest)
unfolding tty_read_raw
tty_read_raw_lem tty c s rest t e h =
    keys_lem 128 (length s + 1) 0 tty c s rest t.raw e h (omega arith) (omega arith)
