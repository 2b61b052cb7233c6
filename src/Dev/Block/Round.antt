-- ===== src/Dev/Block/Round.antt =====
-- One round of a read or a write of a block device, core/dev/block/block.c.
use native.Mathlib.Nat.{
  mod-lt, div-add-mod', div-lt_iff_lt-mul, le-div_iff_mul-le, div-le_of_le-mul, mul-le-mul_right,
  mul-suc, mul_comm,
}
use haoud_os.Base.{ℕ, suc, ◌+◌, ◌-◌, ◌*◌, ◌/◌, ◌%◌, ◌^◌, ◌<◌, ◌≤◌, ◌≡◌, ◌⊎◌, min, arith}
use haoud_os.Dev.Block.{Blockdev, byte_to_copy}

-- How many bytes there are to read.
abbrev pub readable : Blockdev → ℕ → ℕ → ℕ
readable dev offset left = min left (dev.block_num * dev.block_size - offset)

-- One round: from `offset` with `left` bytes wanted, `n` of them in the block.
pub record Round (dev : Blockdev) (offset left n : ℕ) : Type 0 where
  pub positive : 0 < n
  pub wanted : n ≤ left
  pub in_block : offset % dev.block_size + n ≤ dev.block_size
  pub in_device : offset + n ≤ dev.block_num * dev.block_size

module _ (dev : Blockdev) (offset left : ℕ) (size_positive : 0 < dev.block_size) where
  to_copy_lem :
      0 < left
      → (0 < byte_to_copy dev.block_size offset left)
        × (byte_to_copy dev.block_size offset left ≤ left)
        × (offset % dev.block_size + byte_to_copy dev.block_size offset left ≤ dev.block_size)
  to_copy_lem h =
      let r : offset % dev.block_size < dev.block_size = mod-lt offset size_positive in ground arith

  pub block_in_device :
      offset < dev.block_num * dev.block_size → offset / dev.block_size < dev.block_num
  block_in_device h = (div-lt_iff_lt-mul size_positive).1 h

  end_of_block :
      offset / dev.block_size < dev.block_num
      → offset - offset % dev.block_size + dev.block_size ≤ dev.block_num * dev.block_size
  end_of_block h =
      let q = offset / dev.block_size in
      let whole = mul-le-mul_right {m = suc q} {n = dev.block_num} dev.block_size h in
      omega (
        arith,
        whole,
        mul_comm (suc q) dev.block_size,
        mul-suc dev.block_size q,
        mul_comm dev.block_size q,
        div-add-mod' offset dev.block_size,
      )

  pub round_lem :
      0 < left
      → offset < dev.block_num * dev.block_size
      → Round dev offset left (byte_to_copy dev.block_size offset left)
  round_lem h inside =
      let copy = to_copy_lem h in
      record {
        positive = copy.0;
        wanted = copy.1;
        in_block = copy.2;
        in_device = omega (
          arith,
          copy.2,
          end_of_block (block_in_device inside),
          div-add-mod' offset dev.block_size,
        );
      }

  pub block_outside :
      dev.block_num * dev.block_size ≤ offset → dev.block_num ≤ offset / dev.block_size
  block_outside h = (le-div_iff_mul-le size_positive).1 h

pub more_or_not :
    (dev : Blockdev) (offset left : ℕ)
    → ((left ≡ 0) ⊎ (dev.block_num * dev.block_size ≤ offset))
      ⊎ ((0 < left) × (offset < dev.block_num * dev.block_size))
more_or_not dev offset left = ground arith

pub next_small :
    (dev : Blockdev) (offset left n : ℕ)
    → dev.block_num < 2 ^ 32
    → Round dev offset left n
    → (offset + n) / dev.block_size < 2 ^ 32
next_small dev offset left n h r = omega (
  arith,
  div-le_of_le-mul dev.block_size {m = offset + n} {n = dev.block_num}
      (omega (arith, r.in_device, mul_comm dev.block_num dev.block_size)),
)
