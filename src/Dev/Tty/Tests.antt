-- ===== src/Dev/Tty/Tests.antt =====
-- A terminal with little input.
use haoud_os.Base.{◌≡◌, refl, true, [], ◌∷◌, replicate, arith}
use haoud_os.Dev.Tty.{TtyBuffer, TtyDevice, tty_add_char, tty_add_chars, Reading, tty_read_canonic}
use haoud_os.Dev.Tty.Ring.{IsRing, contents}
use haoud_os.Dev.Tty.Line.{IsTty, tty_add_char_lem}
use haoud_os.Dev.Tty.Typing.{line, read-add_chars}

-- Rings whose next place is the last one.
abbrev no_input : TtyBuffer
no_input = record { read_off = 127; write_off = 127; buffer = replicate 128 0 }

-- One character, "a", waits.
abbrev one_key : TtyBuffer
one_key = record { read_off = 0; write_off = 1; buffer = 97 ∷ replicate 127 0 }

abbrev terminal : TtyBuffer → TtyDevice
terminal raw = record { params = 3; timeout = 0; raw = raw; cooked = no_input; output = [] }

no_input-IsRing : IsRing no_input
no_input-IsRing = record { reads = omega arith; writes = omega arith; size = refl }

one_key-IsRing : IsRing one_key
one_key-IsRing = record { reads = omega arith; writes = omega arith; size = refl }

tty_add_char_lem_example :
    IsTty (tty_add_char (terminal one_key) 10).1
    × ((tty_add_char (terminal one_key) 10).0 ≡ true)
    × (contents (tty_add_char (terminal one_key) 10).1.raw ≡ [])
    × (contents (tty_add_char (terminal one_key) 10).1.cooked ≡ 97 ∷ 10 ∷ [])
tty_add_char_lem_example =
    tty_add_char_lem (terminal one_key) 10
      (record { raw = one_key-IsRing; cooked = no_input-IsRing }) refl

read-add_chars_example :
    (tty_read_canonic (tty_add_chars (terminal no_input) (line (97 ∷ 98 ∷ []))).1 100 0).0
    ≡ Reading.returns (97 ∷ 98 ∷ 10 ∷ [])
read-add_chars_example =
    read-add_chars (terminal no_input) (97 ∷ 98 ∷ []) 100
      (record { raw = no_input-IsRing; cooked = no_input-IsRing }) refl refl refl
      ((λ e. absurd (omega arith)), ((λ e. absurd (omega arith)), tt)) (omega arith) (omega arith)
      (omega arith)
