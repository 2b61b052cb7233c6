-- ===== src/Dev/Block/Fill.antt =====
-- The buffer that blkdev_generic_write fills in a round, and what a write of it does to the device.
use mathlib.Core.Path.{subst}
use native.Mathlib.Nat.{div-add-mod'}
use haoud_os.Base.{
  ℕ, ◌+◌, ◌*◌, ◌/◌, ◌%◌, ◌<◌, ◌≤◌, ◌≡◌, inl, inr, List, length, get_or, ltb, ◌==◌, add32, arith,
  sym, ap, ◌∙◌, Bool-cases,
}
use haoud_os.Stdlib.{memcpy}
use haoud_os.Stdlib.Memory.{length-memcpy, memcpy-inside}
use haoud_os.Dev.Block.{Blockdev, byte_to_copy, fill_block}
use haoud_os.Dev.Block.Round.{readable, Round}
use haoud_os.Dev.Block.Bytes.{bytes, length-bytes, get_or-bytes}
use haoud_os.Dev.Block.Patch.{patched, patched_in, memcpy-patched}

module _ {ℓ} {Disk : Type ℓ} (read_block : Disk → List ℕ → ℕ → ℕ × List ℕ)
    (write_block : Disk → List ℕ → ℕ → ℕ × Disk) (dev : Blockdev) (d : Disk → ℕ → ℕ) where
  -- The driver reads the blocks of the device, whose first block is `first_block` of the disk.
  unfoldable pub ReadsDisk : Type ℓ
  ReadsDisk =
      (disk : Disk) (buf : List ℕ) (b : ℕ)
      → b < dev.block_num
      → read_block disk buf (add32 b dev.first_block)
        ≡ (0, bytes (d disk) (b * dev.block_size) dev.block_size)

  -- The driver writes a block and leaves the rest of the device.
  unfoldable pub WritesDisk : Type ℓ
  WritesDisk =
      (disk : Disk) (buf : List ℕ) (b : ℕ)
      → b < dev.block_num
      → length buf ≡ dev.block_size
      → ((write_block disk buf (add32 b dev.first_block)).0 ≡ 0)
        × ((p : ℕ)
            → d ((write_block disk buf (add32 b dev.first_block)).1) p
              ≡ patched (d disk) (b * dev.block_size) dev.block_size buf 0 p)

  -- Success, the number of bytes written, and the contents of the device afterwards.
  pub record Written (disk : Disk) (offset left : ℕ) (buf : List ℕ) (at : ℕ) (r : ℕ × ℕ × Disk)
      : Type 0 where
    pub code : r.0 ≡ 0
    pub count : r.1 ≡ readable dev offset left
    pub contents : (p : ℕ) → d (r.2) p ≡ patched (d disk) offset (readable dev offset left) buf at p

  -- The buffer that is written in a round.
  pub record Filled (disk : Disk) (offset n : ℕ) (buf : List ℕ) (at : ℕ) (filled : List ℕ)
      : Type 0 where
    pub size : length filled ≡ dev.block_size
    pub holds :
        (i : ℕ)
        → i < dev.block_size
        → get_or filled i 0
          ≡ patched (d disk) offset n buf at (offset / dev.block_size * dev.block_size + i)

  copied :
      (disk : Disk) (base : List ℕ) (offset n : ℕ) (buf : List ℕ) (at : ℕ)
      → length base ≡ dev.block_size
      → ((i : ℕ)
          → i < dev.block_size
          → get_or base i 0 ≡ d disk (offset / dev.block_size * dev.block_size + i))
      → offset % dev.block_size + n ≤ dev.block_size
      → Filled disk offset n buf at (memcpy base (offset % dev.block_size) buf at n)
  copied disk base offset n buf at len holds room = record {
    size = length-memcpy base (offset % dev.block_size) buf at n ∙ len;
    holds = λ i h.
        memcpy-patched (d disk) (offset / dev.block_size * dev.block_size) dev.block_size base
          (offset % dev.block_size) buf at n len holds room i h
        ∙ ap (λ o. patched (d disk) o n buf at (offset / dev.block_size * dev.block_size + i))
            (div-add-mod' offset dev.block_size);
  }

  pub fill_lem :
      (disk : Disk) (block_buf : List ℕ) (offset left : ℕ) (buf : List ℕ) (at : ℕ)
      → length block_buf ≡ dev.block_size
      → ReadsDisk
      → offset / dev.block_size < dev.block_num
      → Round dev offset left (byte_to_copy dev.block_size offset left)
      → Filled disk offset (byte_to_copy dev.block_size offset left) buf at (
          fill_block read_block write_block dev disk block_buf
            (add32 (offset / dev.block_size) dev.first_block)
            offset
            buf
            at
            left)
  unfolding ReadsDisk
  fill_lem disk block_buf offset left buf at len reads inside r =
      let q = offset / dev.block_size in
      let n = byte_to_copy dev.block_size offset left in
      let base = bytes (d disk) (q * dev.block_size) dev.block_size in
      let part : Filled disk offset n buf at (memcpy base (offset % dev.block_size) buf at n) =
        copied disk base offset n buf at (length-bytes (d disk) (q * dev.block_size) dev.block_size)
          (get_or-bytes (d disk) (q * dev.block_size) dev.block_size) r.in_block in
      elim (Bool-cases (offset % dev.block_size == 0)) [
        | inr middle ↦ rw (middle, reads disk block_buf q inside) part
        | inl start ↦
            let z : offset % dev.block_size ≡ 0 = ground arith in
            elim (Bool-cases (ltb left dev.block_size)) [
              | inl short ↦
                  let all : n ≡ left = ground arith in
                  let same : memcpy base (offset % dev.block_size) buf at n
                      ≡ memcpy base 0 buf at left =
                    ap (λ o. memcpy base o buf at n) z ∙ ap (memcpy base 0 buf at) all in
                  rw (start, short, reads disk block_buf q inside)
                    (subst (Filled disk offset n buf at) same part)
              | inr whole ↦
                  let all : n ≡ dev.block_size = ground arith in
                  rw (start, whole)
                    (record {
                      size = length-memcpy block_buf 0 buf at dev.block_size ∙ len;
                      holds = λ i h.
                          ap (λ j. get_or (memcpy block_buf 0 buf at dev.block_size) j 0)
                            (omega arith)
                          ∙ memcpy-inside block_buf 0 buf at dev.block_size (omega (arith, len)) i h
                          ∙ ap (λ j. get_or buf j 0)
                              (omega (arith, z, div-add-mod' offset dev.block_size))
                          ∙ sym (
                              patched_in (d disk) offset n buf at (q * dev.block_size + i)
                                (omega (arith, z, div-add-mod' offset dev.block_size))
                                (omega (arith, z, all, h, div-add-mod' offset dev.block_size)));
                    })
            ]
      ]
