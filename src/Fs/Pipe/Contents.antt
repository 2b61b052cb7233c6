-- ===== src/Fs/Pipe/Contents.antt =====
-- The ring of a pipe, core/fs/pipe.c, as a queue of bytes.
use mathlib.Core.Path.{ap₂}
use haoud_os.Base.{
  ℕ, zero, suc, ◌+◌, ◌-◌, ◌%◌, ◌≤◌, ◌<◌, ◌≡◌, true, false, List, [], ◌∷◌, ◌++◌, length, get_or, set,
  length-set, get_or-set_self, get_or-set_ne, ◌==◌, page_size, arith, refl, ap, ◌∙◌, sym,
}
use haoud_os.Fs.Pipe.{PipeInfo, pipe_empty, pipe_full, bump, pipe_getc, pipe_putc}

pub record IsValid (p : PipeInfo) : Type 0 where
  pub page : length p.pipe_data ≡ page_size
  pub read_in : p.read_off < page_size
  pub write_in : p.write_off < page_size

-- How many bytes wait in the pipe.
abbrev pub fill : PipeInfo → ℕ
fill p = (p.write_off + page_size - p.read_off) % page_size

-- The `n` bytes from an offset on, going round at the end of the page.
abbrev pub segment : List ℕ → ℕ → ℕ → List ℕ
segment bytes off zero = []
segment bytes off (suc n) = get_or bytes off 0 ∷ segment bytes ((off + 1) % page_size) n

-- The bytes in the pipe, oldest first.
abbrev pub contents : PipeInfo → List ℕ
contents p = segment p.pipe_data p.read_off (fill p)

pub length-segment : (bytes : List ℕ) (off n : ℕ) → length (segment bytes off n) ≡ n
length-segment bytes off zero = refl
length-segment bytes off (suc n) = ap suc (length-segment bytes ((off + 1) % page_size) n)

segment_snoc :
    (bytes : List ℕ) (off n : ℕ)
    → off < page_size
    → segment bytes off (suc n)
      ≡ segment bytes off n ++ (get_or bytes ((off + n) % page_size) 0 ∷ [])
segment_snoc bytes off zero h = ap (λ k. get_or bytes k 0 ∷ []) (omega arith)
segment_snoc bytes off (suc n) h = ap (◌∷◌ (get_or bytes off 0)) (
    segment_snoc bytes ((off + 1) % page_size) n (omega arith)
    ∙ ap (λ k. segment bytes ((off + 1) % page_size) n ++ (get_or bytes k 0 ∷ [])) (omega arith))

-- A write at an offset past the segment leaves it alone.
segment-set :
    (bytes : List ℕ) (off n m i v : ℕ)
    → off < page_size
    → n ≤ m
    → m < page_size
    → i ≡ (off + m) % page_size
    → segment (set bytes i v) off n ≡ segment bytes off n
segment-set bytes off zero m i v h le lt e = refl
segment-set bytes off (suc n) zero i v h le lt e = absurd (omega arith)
segment-set bytes off (suc n) (suc m) i v h le lt e =
    ap₂ ◌∷◌ (get_or-set_ne bytes i off v 0 (omega arith)) (
      segment-set bytes ((off + 1) % page_size) n m i v (omega arith) (omega arith) (omega arith)
        (omega arith))

pub full_iff_fill : (p : PipeInfo) → IsValid p → pipe_full p ≡ (fill p == 4095)
full_iff_fill p v = ground arith

pub empty_iff_fill : (p : PipeInfo) → IsValid p → pipe_empty p ≡ (fill p == 0)
empty_iff_fill p v = ground arith

pub pipe_putc-IsValid : (p : PipeInfo) (c : ℕ) → IsValid p → IsValid (pipe_putc p c)
unfolding pipe_putc
pipe_putc-IsValid p c v = ground (arith, length-set p.pipe_data p.write_off c)

pub pipe_getc-IsValid : (p : PipeInfo) → IsValid p → IsValid (pipe_getc p).1
unfolding pipe_getc
pipe_getc-IsValid p v = ground arith

fill-pipe_putc :
    (p : PipeInfo) (c : ℕ) → IsValid p → pipe_full p ≡ false → fill (pipe_putc p c) ≡ suc (fill p)
unfolding pipe_putc
fill-pipe_putc p c v room = ground arith

-- `pipe_putc` into a pipe that is not full adds the byte behind those that wait.
pub contents-pipe_putc :
    (p : PipeInfo) (c : ℕ)
    → IsValid p
    → pipe_full p ≡ false
    → contents (pipe_putc p c) ≡ contents p ++ (c ∷ [])
unfolding pipe_putc
contents-pipe_putc p c v room =
    let at : p.write_off ≡ (p.read_off + fill p) % page_size = omega arith in
    let less : fill p < 4095 = ground arith in
    ap (segment (set p.pipe_data p.write_off c) p.read_off) (fill-pipe_putc p c v room)
    ∙ segment_snoc (set p.pipe_data p.write_off c) p.read_off (fill p) v.read_in
    ∙ ap₂ (λ xs b. xs ++ (b ∷ []))
        (segment-set p.pipe_data p.read_off (fill p) (fill p) p.write_off c v.read_in (omega arith)
          (omega arith) at)
        (ap (λ k. get_or (set p.pipe_data p.write_off c) k 0) (sym at)
          ∙ get_or-set_self p.pipe_data p.write_off c 0 (omega arith))

fill-pipe_getc :
    (p : PipeInfo) → IsValid p → pipe_empty p ≡ false → fill p ≡ suc (fill (pipe_getc p).1)
unfolding pipe_getc
fill-pipe_getc p v some_byte = ground arith

-- `pipe_getc` from a pipe that is not empty takes the oldest byte.
pub contents-pipe_getc :
    (p : PipeInfo)
    → IsValid p
    → pipe_empty p ≡ false
    → contents p ≡ (pipe_getc p).0 ∷ contents (pipe_getc p).1
unfolding pipe_getc
contents-pipe_getc p v some_byte =
    let next : bump p.read_off ≡ (p.read_off + 1) % page_size = ground arith in
    ap (segment p.pipe_data p.read_off) (fill-pipe_getc p v some_byte)
    ∙ ap (λ k. get_or p.pipe_data p.read_off 0 ∷ segment p.pipe_data k (fill (pipe_getc p).1))
        (sym next)

pub contents-empty : (p : PipeInfo) → IsValid p → pipe_empty p ≡ true → contents p ≡ []
contents-empty p v e =
    let none_wait : fill p ≡ 0 = ground arith in ap (segment p.pipe_data p.read_off) none_wait

-- No more than 4095 bytes ever wait.
pub length-contents : (p : PipeInfo) → IsValid p → length (contents p) ≤ 4095
length-contents p v = omega (arith, length-segment p.pipe_data p.read_off (fill p))
