-- ===== src/Dev/Tty/Ring.antt =====
-- A ring of core/dev/char/tty.c as the list of the characters that wait in it.
use haoud_os.Base.{
  ℕ, zero, suc, ◌+◌, ◌-◌, ◌%◌, ◌≤◌, ◌<◌, ◌≡◌, ◌≢◌, refl, ap, ◌∙◌, false, List, [], ◌∷◌, ◌++◌,
  length, ◌==◌, get_or, set, get_or-set_self, get_or-set_ne, arith,
}
use haoud_os.Dev.Tty.{
  TtyBuffer, tty_buffer_empty, tty_buffer_full, next_off, tty_buffer_getc, tty_buffer_putc,
}

pub record IsRing (b : TtyBuffer) : Type 0 where
  pub reads : b.read_off < 128
  pub writes : b.write_off < 128
  pub size : length b.buffer ≡ 128

abbrev pub waiting : TtyBuffer → ℕ
waiting b = (b.write_off + 128 - b.read_off) % 128

abbrev pub items : ℕ → ℕ → List ℕ → List ℕ
items zero off s = []
items (suc n) off s = get_or s off 0 ∷ items n (next_off off) s

abbrev pub contents : TtyBuffer → List ℕ
contents b = items (waiting b) b.read_off b.buffer

pub length-items : (n off : ℕ) (s : List ℕ) → length (items n off s) ≡ n
length-items zero off s = refl
length-items (suc n) off s = ap suc (length-items n (next_off off) s)

items-set :
    (n off at c : ℕ) (s : List ℕ)
    → off < 128
    → at < 128
    → n ≤ (at + 128 - off) % 128
    → items n off (set s at c) ≡ items n off s
items-set zero off at c s h k l = refl
items-set (suc n) off at c s h k l =
    let other : at ≢ off = omega arith in
    let next : next_off off < 128 = ground arith in
    let left : n ≤ (at + 128 - next_off off) % 128 = ground arith in
    rw (get_or-set_ne s at off c 0 other)
      (ap (◌∷◌ (get_or s off 0)) (items-set n (next_off off) at c s next k left))

items-snoc :
    (n off at : ℕ) (s : List ℕ)
    → off < 128
    → at < 128
    → n ≡ (at + 128 - off) % 128
    → items (suc n) off s ≡ items n off s ++ (get_or s at 0 ∷ [])
items-snoc zero off at s h k e =
    let same : off ≡ at = omega arith in ap (λ i. get_or s i 0 ∷ []) same
items-snoc (suc n) off at s h k e =
    let next : next_off off < 128 = ground arith in
    let left : n ≡ (at + 128 - next_off off) % 128 = ground arith in
    ap (◌∷◌ (get_or s off 0)) (items-snoc n (next_off off) at s next k left)

pub length-set : (s : List ℕ) (i c : ℕ) → length (set s i c) ≡ length s
length-set [] i c = refl
length-set (x ∷ s) zero c = refl
length-set (x ∷ s) (suc i) c = ap suc (length-set s i c)

-- A ring is full at 127 characters and empty at none.
pub full_lem : (b : TtyBuffer) → IsRing b → tty_buffer_full b ≡ (waiting b == 127)
full_lem b r = let reads = r.reads in let writes = r.writes in ground arith

pub empty_lem : (b : TtyBuffer) → IsRing b → tty_buffer_empty b ≡ (waiting b == 0)
empty_lem b r = let reads = r.reads in let writes = r.writes in ground arith

pub putc-IsRing : (b : TtyBuffer) (c : ℕ) → IsRing b → IsRing (tty_buffer_putc b c)
unfolding tty_buffer_putc
putc-IsRing b c r =
    let at = r.writes in
    record {
      reads = r.reads;
      writes = ground arith;
      size = length-set b.buffer b.write_off c ∙ r.size;
    }

pub getc-IsRing : (b : TtyBuffer) → IsRing b → IsRing (tty_buffer_getc b).1
unfolding tty_buffer_getc
getc-IsRing b r =
    let at = r.reads in record { reads = ground arith; writes = r.writes; size = r.size }

pub contents-putc :
    (b : TtyBuffer) (c : ℕ)
    → IsRing b
    → tty_buffer_full b ≡ false
    → contents (tty_buffer_putc b c) ≡ contents b ++ (c ∷ [])
unfolding tty_buffer_putc
contents-putc b c r h =
    let reads = r.reads in
    let writes = r.writes in
    let one_more : (next_off b.write_off + 128 - b.read_off) % 128
        ≡ suc ((b.write_off + 128 - b.read_off) % 128) =
      ground arith in
    ap (λ n. items n b.read_off (set b.buffer b.write_off c)) one_more
    ∙ items-snoc (waiting b) b.read_off b.write_off (set b.buffer b.write_off c) reads writes refl
    ∙ rw
        (
          items-set (waiting b) b.read_off b.write_off c b.buffer reads writes (omega arith),
          get_or-set_self b.buffer b.write_off c 0 (omega (arith, r.size)),
        )
        refl

pub contents-getc :
    (b : TtyBuffer)
    → IsRing b
    → tty_buffer_empty b ≡ false
    → contents b ≡ (tty_buffer_getc b).0 ∷ contents (tty_buffer_getc b).1
unfolding tty_buffer_getc
contents-getc b r h =
    let reads = r.reads in
    let writes = r.writes in
    let one_less : (b.write_off + 128 - b.read_off) % 128
        ≡ suc ((b.write_off + 128 - next_off b.read_off) % 128) =
      ground arith in
    ap (λ n. items n b.read_off b.buffer) one_less
