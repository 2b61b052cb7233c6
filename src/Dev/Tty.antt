-- ===== src/Dev/Tty.antt =====
-- A terminal, core/dev/char/tty.c: the rings of characters, input that the keyboard adds, and the
-- reads in both modes.
pub mod Ring
pub mod Line
pub mod Typing
pub mod Keys
mod Tests
use haoud_os.Base.{
  ℕ, zero, suc, ◌+◌, ◌-◌, ◌/◌, ◌%◌, Bool, true, false, not, ◌&&◌, ◌||◌, List, [], ◌∷◌, ◌++◌, ◌==◌,
  if◌then◌else◌, get_or, set, add32,
}

abbrev pub tty_buffer_size : ℕ
tty_buffer_size = 128

pub record TtyBuffer : Type 0 where
  pub read_off : ℕ
  pub write_off : ℕ
  pub buffer : List ℕ

abbrev pub tty_buffer_empty : TtyBuffer → Bool
tty_buffer_empty b = b.read_off == b.write_off

-- `tty_buffer_left` is a remainder of `int`s, and zero when this one of numbers is.
abbrev pub tty_buffer_full : TtyBuffer → Bool
tty_buffer_full b = (b.write_off + 129 - b.read_off) % tty_buffer_size == 0

abbrev pub next_off : ℕ → ℕ
next_off off = if off + 1 == tty_buffer_size then 0 else off + 1

unfoldable pub tty_buffer_getc : TtyBuffer → ℕ × TtyBuffer
tty_buffer_getc b = (get_or b.buffer b.read_off 0, record b { read_off = next_off b.read_off })

unfoldable pub tty_buffer_putc : TtyBuffer → ℕ → TtyBuffer
tty_buffer_putc b c = record b {
  buffer = set b.buffer b.write_off c;
  write_off = next_off b.write_off;
}

unfoldable pub init_tty_buffer : TtyBuffer → TtyBuffer
init_tty_buffer b = record b { read_off = 0; write_off = 0 }

-- `output` is what the calls of the terminal's `write` have been given, the last one first.
pub record TtyDevice : Type 0 where
  pub params : ℕ
  pub timeout : ℕ
  pub raw : TtyBuffer
  pub cooked : TtyBuffer
  pub output : List ℕ

-- `TTY_ECHO`
abbrev pub tty_echo : ℕ → Bool
tty_echo params = params % 2 == 1

-- `TTY_CANONIC_MODE`
abbrev pub tty_canonic_mode : ℕ → Bool
tty_canonic_mode params = params / 2 % 2 == 1

-- The loop that moves characters to the structured ring; a ring of 128 places holds fewer than that.
unfoldable pub move_loop : (rounds : ℕ) → TtyBuffer → TtyBuffer → TtyBuffer × TtyBuffer
move_loop zero raw cooked = (raw, cooked)
move_loop (suc n) raw cooked = elim (tty_buffer_empty raw || tty_buffer_full cooked) [
  | true ↦ (raw, cooked)
  | false ↦ let taken = tty_buffer_getc raw in move_loop n taken.1 (tty_buffer_putc cooked taken.0)
]

abbrev pub store : TtyBuffer → ℕ → TtyBuffer
store b c = if tty_buffer_full b then b else tty_buffer_putc b c

-- Whether the call wakes the queue `wait_on_enter`, and the terminal after it.
unfoldable pub tty_add_char : TtyDevice → ℕ → Bool × TtyDevice
tty_add_char tty c =
    let raw = store tty.raw c in
    let output =
      if tty_echo tty.params && tty_canonic_mode tty.params then c ∷ tty.output else tty.output in
    let moved = move_loop 128 raw tty.cooked in
    if (c == 10) && tty_canonic_mode tty.params
    then (true, record tty { raw = moved.0; cooked = moved.1; output = output })
    else (false, record tty { raw = raw; output = output })

-- The characters up to the zero byte of `s`; the call then wakes `wait_on_buffer`.
unfoldable pub tty_add_chars : TtyDevice → List ℕ → Bool × TtyDevice
tty_add_chars tty [] = (false, tty)
tty_add_chars tty (c ∷ s) =
    let added = tty_add_char tty c in
    let rest = tty_add_chars added.1 s in (added.0 || rest.0, rest.1)

-- A read returns the bytes, or sleeps in a queue of the terminal and has so far taken those.
pub data Reading : Type 0 where
  returns : List ℕ → Reading
  sleeps : List ℕ → Reading

abbrev pub put_first : ℕ → Reading → Reading
put_first c (Reading.returns s) = Reading.returns (c ∷ s)
put_first c (Reading.sleeps s) = Reading.sleeps (c ∷ s)

-- A run of the loop of `tty_read` in canonical mode, from `count` characters on.
unfoldable pub cooked_loop : (rounds : ℕ) → ℕ → ℕ → TtyBuffer → Reading × TtyBuffer
cooked_loop zero len count cooked = (Reading.sleeps [], cooked)
cooked_loop (suc n) len count cooked = elim (tty_buffer_empty cooked) [
  | true ↦ (Reading.sleeps [], cooked)
  | false ↦
      let taken = tty_buffer_getc cooked in
      elim ((len == add32 count 1) || (taken.0 == 10)) [
        | true ↦ (Reading.returns (taken.0 ∷ []), taken.1)
        | false ↦
            let rest = cooked_loop n len (add32 count 1) taken.1 in
            (put_first taken.0 rest.0, rest.1)
      ]
]

unfoldable pub tty_read_canonic : TtyDevice → ℕ → ℕ → Reading × TtyDevice
tty_read_canonic tty len count =
    let run = cooked_loop 128 len count tty.cooked in (run.0, record tty { cooked = run.1 })

-- A run of the loop of `tty_read` in the other mode. It sleeps in `wait_on_buffer`.
unfoldable pub raw_loop : (rounds : ℕ) → ℕ → ℕ → TtyDevice → Reading × TtyDevice
raw_loop zero len count tty = (Reading.sleeps [], tty)
raw_loop (suc n) len count tty = elim (tty_buffer_empty tty.raw) [
  | true ↦ (Reading.sleeps [], tty)
  | false ↦
      let taken = tty_buffer_getc tty.raw in
      let output = if tty_echo tty.params then taken.0 ∷ tty.output else tty.output in
      let after = record tty { raw = taken.1; output = output } in
      elim (len == add32 count 1) [
        | true ↦ (Reading.returns (taken.0 ∷ []), after)
        | false ↦
            let rest = raw_loop n len (add32 count 1) after in (put_first taken.0 rest.0, rest.1)
      ]
]

-- The first run of a read, and (`slept`) the run after a sleep: with a timeout, a read that still finds
-- nothing returns what it has.
unfoldable pub tty_read_raw : Bool → TtyDevice → ℕ → ℕ → Reading × TtyDevice
tty_read_raw slept tty len count =
    if slept && not (tty.timeout == 0) && tty_buffer_empty tty.raw
    then (Reading.returns [], tty)
    else raw_loop 128 len count tty

unfoldable pub tty_write : TtyDevice → List ℕ → TtyDevice
tty_write tty [] = tty
tty_write tty (c ∷ s) = tty_write (record tty { output = c ∷ tty.output }) s
