-- ===== src/Dev/Block/Read.antt =====
-- blkdev_generic_read of core/dev/block/block.c, and the bytes of its range.
use native.Mathlib.Nat.{div-add-mod'}
use haoud_os.Base.{
  ℕ, zero, suc, ◌+◌, ◌-◌, ◌*◌, ◌/◌, ◌%◌, ◌^◌, ◌<◌, ◌≤◌, ◌≡◌, ◌⊎◌, inl, inr, true, false, some, List,
  [], ◌++◌, take, drop, leb, ◌==◌, add32, arith, refl, sym, ap, ◌∙◌, Bool-cases,
}
use haoud_os.Dev.Block.{Blockdev, byte_to_copy, read_loop, blkdev_generic_read}
use haoud_os.Dev.Block.Round.{
  readable, Round, round_lem, block_in_device, block_outside, more_or_not, next_small,
}
use haoud_os.Dev.Block.Bytes.{bytes, same_bytes, bytes-append, slice-bytes}

-- What is read, and what is left.
joined :
    (d : ℕ → ℕ) (dev : Blockdev) (offset left n : ℕ)
    → Round dev offset left n
    → bytes d offset n ++ bytes d (offset + n) (readable dev (offset + n) (left - n))
      ≡ bytes d offset (readable dev offset left)
joined d dev offset left n r =
    bytes-append d offset n (readable dev (offset + n) (left - n))
    ∙ same_bytes d offset (n + readable dev (offset + n) (left - n)) (readable dev offset left)
        (omega (arith, r.wanted, r.in_device))

module _ (read_block : ℕ → ℕ × List ℕ) (dev : Blockdev) (d : ℕ → ℕ) where
  -- The driver reads block `b` of the device, whose first block is `first_block` of the disk.
  unfoldable pub ReadsBlocks : Type 0
  ReadsBlocks =
      (b : ℕ)
      → b < dev.block_num
      → read_block (add32 b dev.first_block) ≡ (0, bytes d (b * dev.block_size) dev.block_size)

  -- The byte at the offset and those after it in the block.
  in_block :
      (offset left n : ℕ)
      → Round dev offset left n
      → take n (
          drop
            (offset % dev.block_size)
            (bytes d (offset / dev.block_size * dev.block_size) dev.block_size))
        ≡ bytes d offset n
  in_block offset left n r =
      slice-bytes d (offset / dev.block_size * dev.block_size) (offset % dev.block_size) n
        dev.block_size r.in_block offset (div-add-mod' offset dev.block_size)

  step :
      (rounds offset left : ℕ)
      → 0 < dev.block_size
      → ReadsBlocks
      → 0 < left
      → offset < dev.block_num * dev.block_size
      → offset / dev.block_size < 2 ^ 32
      → let n = byte_to_copy dev.block_size offset left in
        let rest = read_loop read_block dev rounds 0 (offset + n) (left - n) in
        read_loop read_block dev (suc rounds) 0 offset left ≡ (rest.0, bytes d offset n ++ rest.1)
  unfolding read_loop ReadsBlocks
  step rounds offset left positive reads h inside small =
      let q = offset / dev.block_size in
      let in_dev = block_in_device dev offset left positive inside in
      let block : q % 2 ^ 32 ≡ q = omega arith in
      let more : (left == 0) ≡ false = ground arith in
      let there : leb dev.block_num q ≡ false = ground arith in
      let slice =
        in_block offset left (byte_to_copy dev.block_size offset left)
          (round_lem dev offset left positive h inside) in
      rw (block, more, there, reads q in_dev, slice) refl

  stops :
      (rounds offset left : ℕ)
      → 0 < dev.block_size
      → (left ≡ 0) ⊎ (dev.block_num * dev.block_size ≤ offset)
      → offset / dev.block_size < 2 ^ 32
      → read_loop read_block dev (suc rounds) 0 offset left ≡ (0, [])
  unfolding read_loop
  stops rounds offset left positive (inl none_left) small =
      let e : (left == 0) ≡ true = ground arith in rw (e) refl
  stops rounds offset left positive (inr outside) small =
      let q = offset / dev.block_size in
      let block : q % 2 ^ 32 ≡ q = omega arith in
      let out = block_outside dev offset left positive outside in
      let there : leb dev.block_num q ≡ true = ground arith in
      elim (Bool-cases (left == 0)) [ inl e ↦ rw (e) refl | inr e ↦ rw (block, e, there) refl ]

  nothing_left :
      (offset left : ℕ)
      → (left ≡ 0) ⊎ (dev.block_num * dev.block_size ≤ offset)
      → bytes d offset (readable dev offset left) ≡ []
  unfolding bytes
  nothing_left offset left (inl e) = same_bytes d offset (readable dev offset left) 0 (omega arith)
  nothing_left offset left (inr e) = same_bytes d offset (readable dev offset left) 0 (omega arith)

  loop_lem :
      (rounds offset left : ℕ)
      → 0 < dev.block_size
      → dev.block_num < 2 ^ 32
      → ReadsBlocks
      → left < rounds
      → offset / dev.block_size < 2 ^ 32
      → read_loop read_block dev rounds 0 offset left
        ≡ (0, bytes d offset (readable dev offset left))
  loop_lem zero offset left positive num reads fuel small = absurd (omega arith)
  loop_lem (suc rounds) offset left positive num reads fuel small =
      elim (more_or_not dev offset left) [
        | inl stop ↦
            stops rounds offset left positive stop small
            ∙ ap (λ x. (0, x)) (sym (nothing_left offset left stop))
        | inr (h, inside) ↦
            let n = byte_to_copy dev.block_size offset left in
            let r = round_lem dev offset left positive h inside in
            let ih =
              loop_lem rounds (offset + n) (left - n) positive num reads
                (omega (arith, r.positive, r.wanted)) (next_small dev offset left n num r) in
            step rounds offset left positive reads h inside small
            ∙ ap (λ rest. (rest.0, bytes d offset n ++ rest.1)) ih
            ∙ ap (λ x. (0, x)) (joined d dev offset left n r)
      ]

  -- If the driver reads the blocks of the device, which have a size and are fewer than 2^32, a read
  -- at any offset returns the bytes there, `len` of them or those up to the end of the device. The
  -- premise on the offset says that its block number is a 32-bit number.
  pub blkdev_generic_read_lem :
      (offset len : ℕ)
      → 0 < dev.block_size
      → dev.block_num < 2 ^ 32
      → ReadsBlocks
      → offset / dev.block_size < 2 ^ 32
      → blkdev_generic_read read_block (some dev) offset len
        ≡ (0, bytes d offset (readable dev offset len))
  blkdev_generic_read_lem offset len positive num reads small =
      loop_lem (suc len) offset len positive num reads (omega arith) small
