-- ===== src/Dev/Tty/Line.antt =====
-- What core/dev/char/tty.c does with the lines that are typed.
use mathlib.Core.List.{append_assoc}
use haoud_os.Base.{
  ℕ, zero, suc, ◌≤◌, ◌≡◌, refl, ap, sym, ◌∙◌, ◌⊎◌, inl, inr, true, false, ◌||◌, List, [], ◌∷◌, ◌++◌,
  length, take, drop, ◌==◌, if◌then◌else◌, Bool-cases, arith,
}
use haoud_os.Dev.Tty.{
  TtyBuffer, tty_buffer_empty, tty_buffer_full, tty_buffer_getc, tty_buffer_putc, TtyDevice,
  tty_canonic_mode, move_loop, store, tty_add_char,
}
use haoud_os.Dev.Tty.Ring.{
  IsRing, waiting, contents, length-items, full_lem, empty_lem, putc-IsRing, getc-IsRing,
  contents-putc, contents-getc,
}

pub length-contents : (b : TtyBuffer) → length (contents b) ≡ waiting b
length-contents b = length-items (waiting b) b.read_off b.buffer

waiting-getc :
    (b : TtyBuffer)
    → IsRing b
    → tty_buffer_empty b ≡ false
    → waiting b ≡ suc (waiting (tty_buffer_getc b).1)
waiting-getc b r e =
    sym (length-contents b)
    ∙ ap length (contents-getc b r e)
    ∙ ap suc (length-contents (tty_buffer_getc b).1)

empty-contents : (b : TtyBuffer) → waiting b ≡ 0 → contents b ≡ []
empty-contents b e = rw e refl

-- What the loop leaves in the rings: all characters in their order, and no more to move.
record Moved (raw cooked : TtyBuffer) (m : TtyBuffer × TtyBuffer) : Type 0 where
  raw_ring : IsRing m.0
  cooked_ring : IsRing m.1
  kept : contents m.1 ++ contents m.0 ≡ contents cooked ++ contents raw
  ends : (waiting m.0 ≡ 0) ⊎ (waiting m.1 ≡ 127)

move_stops :
    (raw cooked : TtyBuffer)
    → IsRing raw
    → IsRing cooked
    → (tty_buffer_empty raw || tty_buffer_full cooked) ≡ true
    → (waiting raw ≡ 0) ⊎ (waiting cooked ≡ 127)
move_stops raw cooked r c e =
    let empty = empty_lem raw r in let full = full_lem cooked c in ground arith

move_lem :
    (n : ℕ) (raw cooked : TtyBuffer)
    → IsRing raw
    → IsRing cooked
    → waiting raw ≤ n
    → Moved raw cooked (move_loop n raw cooked)
unfolding move_loop
move_lem zero raw cooked r c h = record {
  raw_ring = r;
  cooked_ring = c;
  kept = refl;
  ends = inl (omega arith);
}
move_lem (suc n) raw cooked r c h =
    elim (Bool-cases (tty_buffer_empty raw || tty_buffer_full cooked)) [
      | inl e ↦
          rw (move_loop, e)
            (record {
              raw_ring = r;
              cooked_ring = c;
              kept = refl;
              ends = move_stops raw cooked r c e;
            })
      | inr e ↦
          let some_left : tty_buffer_empty raw ≡ false = ground arith in
          let room : tty_buffer_full cooked ≡ false = ground arith in
          let taken = tty_buffer_getc raw in
          let rest =
            move_lem n taken.1 (tty_buffer_putc cooked taken.0) (getc-IsRing raw r)
              (putc-IsRing cooked taken.0 c) (omega (arith, waiting-getc raw r some_left)) in
          rw (move_loop, e)
            (record {
              raw_ring = rest.raw_ring;
              cooked_ring = rest.cooked_ring;
              kept =
                  rest.kept
                  ∙ rw (contents-putc cooked taken.0 c room, contents-getc raw r some_left)
                      (append_assoc (contents cooked) (taken.0 ∷ []) (contents taken.1));
              ends = rest.ends;
            })
    ]

split_lem :
    (n : ℕ) (xs ys : List ℕ)
    → length xs ≤ n
    → (length ys ≡ 0) ⊎ (length xs ≡ n)
    → (xs ≡ take n (xs ++ ys)) × (ys ≡ drop n (xs ++ ys))
split_lem zero [] ys h e = (refl, refl)
split_lem zero (x ∷ xs) ys h e = absurd (omega arith)
split_lem (suc n) [] [] h e = (refl, refl)
split_lem (suc n) [] (y ∷ ys) h e = absurd (ground arith)
split_lem (suc n) (x ∷ xs) ys h e =
    let rest = split_lem n xs ys (omega arith) (ground arith) in (ap (◌∷◌ x) rest.0, rest.1)

-- The character of a key in the ring of typed characters, which drops it when it is full.
abbrev pub typed : List ℕ → ℕ → List ℕ
typed raw c = if length raw == 127 then raw else raw ++ (c ∷ [])

pub record IsTty (tty : TtyDevice) : Type 0 where
  pub raw : IsRing tty.raw
  pub cooked : IsRing tty.cooked

pub store-IsRing : (b : TtyBuffer) (c : ℕ) → IsRing b → IsRing (store b c)
store-IsRing b c r = elim (Bool-cases (tty_buffer_full b)) [
  | inl e ↦ rw e r
  | inr e ↦ rw e (putc-IsRing b c r)
]

pub contents-store :
    (b : TtyBuffer) (c : ℕ) → IsRing b → contents (store b c) ≡ typed (contents b) c
contents-store b c r = elim (Bool-cases (tty_buffer_full b)) [
  | inl e ↦
      let full : (length (contents b) == 127) ≡ true =
        rw (length-contents b) (sym (full_lem b r) ∙ e) in
      rw (e, full) refl
  | inr e ↦
      let room : (length (contents b) == 127) ≡ false =
        rw (length-contents b) (sym (full_lem b r) ∙ e) in
      rw (e, room) (contents-putc b c r e)
]

-- Both rings after the loop, as the two parts of the characters that were in them.
record Halves (raw cooked : TtyBuffer) (m : TtyBuffer × TtyBuffer) : Type 0 where
  raw_ring : IsRing m.0
  cooked_ring : IsRing m.1
  first : contents m.1 ≡ take 127 (contents cooked ++ contents raw)
  second : contents m.0 ≡ drop 127 (contents cooked ++ contents raw)

move_loop_lem :
    (raw cooked : TtyBuffer)
    → IsRing raw
    → IsRing cooked
    → Halves raw cooked (move_loop 128 raw cooked)
move_loop_lem raw cooked r c =
    let m = move_lem 128 raw cooked r c (omega arith) in
    let after = move_loop 128 raw cooked in
    let shape =
      split_lem 127 (contents after.1) (contents after.0)
        (rw (length-contents after.1) (omega arith))
        (rw (length-contents after.0, length-contents after.1) m.ends) in
    record {
      raw_ring = m.raw_ring;
      cooked_ring = m.cooked_ring;
      first = shape.0 ∙ ap (take 127) m.kept;
      second = shape.1 ∙ ap (drop 127) m.kept;
    }

-- All that is typed, in the order in which it is read.
abbrev pub pending : TtyDevice → ℕ → List ℕ
pending tty c = contents tty.cooked ++ typed (contents tty.raw) c

-- In canonical mode a character that is not the end of a line goes to the end of the typed ones, and is
-- dropped when 127 of them wait. The end of a line makes the first 127 of all that wait readable, the
-- rest stays typed, and the readers are woken. The rings stay rings.
pub tty_add_char_lem :
    (tty : TtyDevice) (c : ℕ)
    → IsTty tty
    → tty_canonic_mode tty.params ≡ true
    → IsTty (tty_add_char tty c).1
      × ((tty_add_char tty c).0 ≡ (c == 10))
      × (contents (tty_add_char tty c).1.raw
          ≡ (if c == 10 then drop 127 (pending tty c) else typed (contents tty.raw) c))
      × (contents (tty_add_char tty c).1.cooked
          ≡ (if c == 10 then take 127 (pending tty c) else contents tty.cooked))
unfolding tty_add_char
tty_add_char_lem tty c t canonic =
    let stored = contents-store tty.raw c t.raw in
    let ring = store-IsRing tty.raw c t.raw in
    let moved = move_loop_lem (store tty.raw c) tty.cooked ring t.cooked in
    let readable = ap (λ s. contents tty.cooked ++ s) stored in
    elim (Bool-cases (c == 10)) [
      | inl e ↦
          rw (e, canonic)
            (
              record { raw = moved.raw_ring; cooked = moved.cooked_ring },
              refl,
              moved.second ∙ ap (drop 127) readable,
              moved.first ∙ ap (take 127) readable,
            )
      | inr e ↦ rw (e, canonic) (record { raw = ring; cooked = t.cooked }, refl, stored, refl)
    ]
