-- ===== src/Dev/Block/Write.antt =====
-- blkdev_generic_write of core/dev/block/block.c, and the bytes of the device.
use native.Mathlib.Nat.{div-add-mod'}
use haoud_os.Base.{
  ℕ, zero, suc, ◌+◌, ◌-◌, ◌*◌, ◌/◌, ◌%◌, ◌^◌, ◌<◌, ◌≤◌, ◌≡◌, ◌⊎◌, inl, inr, true, false, some, List,
  length, leb, ◌==◌, add32, arith, refl, sym, ap, ◌∙◌, Bool-cases, ok,
}
use haoud_os.Dev.Block.{Blockdev, byte_to_copy, fill_block, write_loop, blkdev_generic_write}
use haoud_os.Dev.Block.Round.{
  readable, Round, round_lem, block_in_device, block_outside, more_or_not, next_small,
}
use haoud_os.Dev.Block.Fill.{ReadsDisk, WritesDisk, Written, fill_lem}
use haoud_os.Dev.Block.Patch.{patched, patched_out, patched_twice, patched_block}

module _ {ℓ} {Disk : Type ℓ} (read_block : Disk → List ℕ → ℕ → ℕ × List ℕ)
    (write_block : Disk → List ℕ → ℕ → ℕ × Disk) (dev : Blockdev) (d : Disk → ℕ → ℕ) where
  module _ (positive : 0 < dev.block_size) where
    stops :
        (rounds ret : ℕ) (block_buf : List ℕ) (disk : Disk) (offset : ℕ) (buf : List ℕ)
        (at left : ℕ)
        → (left ≡ 0) ⊎ (dev.block_num * dev.block_size ≤ offset)
        → offset / dev.block_size < 2 ^ 32
        → write_loop read_block write_block dev (suc rounds) ret block_buf disk offset buf at left
          ≡ (ret, 0, disk)
    unfolding write_loop
    stops rounds ret block_buf disk offset buf at left (inl none_left) small =
        let e : (left == 0) ≡ true = ground arith in rw (e) refl
    stops rounds ret block_buf disk offset buf at left (inr outside) small =
        let q = offset / dev.block_size in
        let block : q % 2 ^ 32 ≡ q = omega arith in
        let out = block_outside dev offset left positive outside in
        let there : leb dev.block_num q ≡ true = ground arith in
        elim (Bool-cases (left == 0)) [ inl e ↦ rw (e) refl | inr e ↦ rw (block, e, there) refl ]

    nothing-Written :
        (disk : Disk) (offset : ℕ) (buf : List ℕ) (at left : ℕ)
        → (left ≡ 0) ⊎ (dev.block_num * dev.block_size ≤ offset)
        → (ret : ℕ) → ret ≡ 0
        → Written read_block write_block dev d disk offset left buf at (ret, 0, disk)
    nothing-Written disk offset buf at left stop ret e = record {
      code = e;
      count = ground arith;
      contents =
          λ p. sym (patched_out (d disk) offset (readable dev offset left) buf at p (ground arith));
    }

    step :
        (rounds ret : ℕ) (block_buf : List ℕ) (disk : Disk) (offset : ℕ) (buf : List ℕ)
        (at left : ℕ)
        → 0 < left
        → offset / dev.block_size < dev.block_num
        → offset / dev.block_size < 2 ^ 32
        → let filled =
            fill_block read_block write_block dev disk block_buf
              (add32 (offset / dev.block_size) dev.first_block)
              offset
              buf
              at
              left in
          let (code, disk') =
            write_block disk filled (add32 (offset / dev.block_size) dev.first_block) in
          let n = byte_to_copy dev.block_size offset left in
          let rest =
            write_loop read_block write_block dev rounds code filled disk'
              (offset + n)
              buf
              (at + n)
              (left - n) in
          code ≡ 0
          → write_loop read_block write_block dev (suc rounds) ret block_buf disk offset buf at left
            ≡ (rest.0, n + rest.1, rest.2)
    unfolding write_loop
    step rounds ret block_buf disk offset buf at left h inside small success =
        let q = offset / dev.block_size in
        let block : q % 2 ^ 32 ≡ q = omega arith in
        let more : (left == 0) ≡ false = ground arith in
        let there : leb dev.block_num q ≡ false = ground arith in
        rw (block, more, there, success) refl

    one_more :
        (disk disk' : Disk) (offset left n : ℕ) (buf : List ℕ) (at : ℕ) (rest : ℕ × ℕ × Disk)
        → Round dev offset left n
        → ((p : ℕ) → d disk' p ≡ patched (d disk) offset n buf at p)
        → Written read_block write_block dev d disk' (offset + n) (left - n) buf (at + n) rest
        → Written read_block write_block dev d disk offset left buf at (rest.0, n + rest.1, rest.2)
    one_more disk disk' offset left n buf at rest r first w =
        let both : n + readable dev (offset + n) (left - n) ≡ readable dev offset left =
          omega (arith, r.wanted, r.in_device) in
        record {
          code = w.code;
          count = ap (◌+◌ n) w.count ∙ both;
          contents = λ p.
              w.contents p
              ∙ patched_twice (d disk) (d disk') offset n (readable dev (offset + n) (left - n)) buf
                  at first p
              ∙ ap (λ m. patched (d disk) offset m buf at p) both;
        }

    loop_lem :
        (rounds ret : ℕ) (block_buf : List ℕ) (disk : Disk) (offset : ℕ) (buf : List ℕ)
        (at left : ℕ)
        → dev.block_num < 2 ^ 32
        → ReadsDisk read_block write_block dev d
        → WritesDisk read_block write_block dev d
        → length block_buf ≡ dev.block_size
        → left < rounds
        → offset / dev.block_size < 2 ^ 32
        → ret ≡ 0
        → Written read_block write_block dev d disk offset left buf at
            (write_loop read_block write_block dev rounds ret block_buf disk offset buf at left)
    unfolding WritesDisk
    loop_lem zero ret block_buf disk offset buf at left num reads writes len fuel small e =
        absurd (omega arith)
    loop_lem (suc rounds) ret block_buf disk offset buf at left num reads writes len fuel small e =
        elim (more_or_not dev offset left) [
          | inl stop ↦
              rw (stops rounds ret block_buf disk offset buf at left stop small)
                (nothing-Written disk offset buf at left stop ret e)
          | inr (h, inside) ↦
              let q = offset / dev.block_size in
              let n = byte_to_copy dev.block_size offset left in
              let inq = block_in_device dev offset left positive inside in
              let r = round_lem dev offset left positive h inside in
              let filled =
                fill_block read_block write_block dev disk block_buf (add32 q dev.first_block)
                  offset buf at left in
              let fill =
                fill_lem read_block write_block dev d disk block_buf offset left buf at len reads
                  inq r in
              let (code, disk') = write_block disk filled (add32 q dev.first_block) in
              let w = writes disk filled q inq fill.size in
              let ih =
                loop_lem rounds code filled disk' (offset + n) buf (at + n) (left - n) num reads
                  writes fill.size (omega (arith, r.positive, r.wanted))
                  (next_small dev offset left n num r) w.0 in
              rw (step rounds ret block_buf disk offset buf at left h inq small w.0) (
                one_more disk disk' offset left n buf at
                  (write_loop read_block write_block dev rounds code filled disk' (offset + n) buf
                    (at + n) (left - n))
                  r
                  (λ p.
                    w.1 p
                    ∙ patched_block (d disk) (q * dev.block_size) dev.block_size offset n filled buf
                        at (omega (arith, div-add-mod' offset dev.block_size))
                        (omega (arith, r.in_block, div-add-mod' offset dev.block_size)) fill.holds
                        p)
                  ih)
        ]

  -- If the driver reads and writes the blocks of the device, which have a size and are fewer than
  -- 2^32, and `kmalloc` returns a block, then a write of `len` bytes of a buffer at any offset whose
  -- block number is a 32-bit number succeeds, reports `len` bytes or those up to the end of the
  -- device, and afterwards the device has these bytes of the buffer there and every other byte as
  -- before, also where the range starts or ends in the middle of a block.
  pub blkdev_generic_write_lem :
      (block_buf : List ℕ) (disk : Disk) (offset : ℕ) (buf : List ℕ) (len : ℕ)
      → 0 < dev.block_size
      → dev.block_num < 2 ^ 32
      → ReadsDisk read_block write_block dev d
      → WritesDisk read_block write_block dev d
      → length block_buf ≡ dev.block_size
      → offset / dev.block_size < 2 ^ 32
      → (r : ℕ × ℕ × Disk) × (blkdev_generic_write read_block
            (some write_block)
            (some dev)
            block_buf
            disk
            offset
            buf
            len
          ≡ ok r)
        × Written read_block write_block dev d disk offset len buf 0 r
  blkdev_generic_write_lem block_buf disk offset buf len positive num reads writes size small = (
    write_loop read_block write_block dev (suc len) 0 block_buf disk offset buf 0 len,
    refl,
    loop_lem positive (suc len) 0 block_buf disk offset buf 0 len num reads writes size
        (omega arith) small refl,
  )
