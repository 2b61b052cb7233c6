-- ===== src/Dev/Block/Seek.antt =====
-- blockdev_seek of core/dev/block/block.c, and the position asked for.
use haoud_os.Base.{
  ℕ, suc, ◌+◌, ◌-◌, ◌%◌, ◌^◌, true, false, ◌&&◌, ◌<◌, ◌≤◌, ◌≡◌, ◌≢◌, inl, inr, some, ltb, neg32,
  arith, refl, Bool-cases,
}
use haoud_os.Dev.Block.{Blockdev, Devices, lookup_blockdev}
use haoud_os.Dev.Block.Opened.{
  ℤ, pos, negsuc, BlockFile, Whence, size32, seek_from, before_start, seek_to, seek_by,
  blockdev_seek,
}

-- The position is the start and the offset.
abbrev pub Sums : ℕ → ℤ → ℕ → Type 0
Sums start (pos n) p = start + n ≡ p
Sums start (negsuc n) p = p + suc n ≡ start

-- The file moves to the position, or there is none in the device and the file stays.
pub data Seeks (b : Blockdev) (f : BlockFile) (start : ℕ) (offset : ℤ)
    : ℕ × BlockFile → Type 0 where
  moved :
      (p : ℕ)
      → Sums start offset p
      → p ≤ size32 b
      → Seeks b f start offset (0, record f { offset = p })
  stays :
      (c : ℕ)
      → c ≢ 0
      → ((p : ℕ) → Sums start offset p → size32 b < p)
      → Seeks b f start offset (c, f)

-- The sum is one of 64 bits.
abbrev pub Fits : ℕ → ℤ → Type 0
Fits start (pos n) = start + n < 2 ^ 63
Fits start (negsuc n) = start < 2 ^ 63

to_lem :
    (b : Blockdev) (f : BlockFile) (start : ℕ) (offset : ℤ) (p : ℕ)
    → p < 2 ^ 63
    → Sums start offset p
    → ((q : ℕ) → Sums start offset q → p ≡ q)
    → Seeks b f start offset (seek_to b f p)
to_lem b f start offset p small sum unique = elim (Bool-cases (ltb (size32 b) p)) [
  | inl y ↦
      let refused : (ltb p (2 ^ 63) && ltb (size32 b) p) ≡ true = ground arith in
      rw refused (stays (neg32 4) (ground arith) (λ q e. ground (arith, unique q e)))
  | inr y ↦
      let passes : (ltb p (2 ^ 63) && ltb (size32 b) p) ≡ false = ground arith in
      rw passes (moved p sum (ground arith))
]

by_lem :
    (b : Blockdev) (f : BlockFile) (start : ℕ) (offset : ℤ)
    → Fits start offset
    → Seeks b f start offset (seek_by b f start offset)
by_lem b f start (pos n) h =
    let inside : before_start start (pos n) ≡ false = ground arith in
    let sum : (start + n) % 2 ^ 64 ≡ start + n = omega arith in
    rw (inside, sum) (to_lem b f start (pos n) (start + n) h refl (λ q e. e))
by_lem b f start (negsuc n) h = elim (Bool-cases (ltb start (suc n))) [
  | inl y ↦
      let before : before_start start (negsuc n) ≡ true = ground arith in
      rw before (stays (neg32 4) (ground arith) (λ p e. absurd (ground arith)))
  | inr y ↦
      let inside : before_start start (negsuc n) ≡ false = ground arith in
      let sum : (start + 2 ^ 64 - suc n) % 2 ^ 64 ≡ start - suc n = ground arith in
      rw (inside, sum)
        (to_lem b f start (negsuc n) (start - suc n) (omega arith) (ground arith)
          (λ q e. omega arith))
]

-- A seek on a registered device, from the start, the current position or the end, where this place and
-- its sum with the signed offset are less than 2^63 (a sum beyond it is an overflow, which the code
-- does not test for), moves the file to the sum when it is not negative and not beyond the size of the
-- device, which is taken modulo 2^32; otherwise it returns an error and the file stays where it is.
pub blockdev_seek_lem :
    (s : Devices) (f : BlockFile) (whence : Whence) (offset : ℤ) (b : Blockdev) (start : ℕ)
    → lookup_blockdev f.dev s ≡ some b
    → seek_from whence b f ≡ some start
    → Fits start offset
    → Seeks b f start offset (blockdev_seek s f whence offset)
blockdev_seek_lem s f whence offset b start e e' fits =
    rw (blockdev_seek, e, e') (by_lem b f start offset fits)
