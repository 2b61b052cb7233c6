-- ===== src/Dev/Block.antt =====
-- core/dev/block/block.c: the registry of block devices, and reads and seeks of byte ranges. The circular
-- list from `blockdev_list` on is a List. `kmalloc` is taken to succeed where the source does not test it.
pub mod Registry
pub mod Unregister
pub mod Bytes
pub mod Round
pub mod Read
pub mod Patch
pub mod Fill
pub mod Write
pub mod Opened
pub mod Seek
pub mod Again
mod Tests
use haoud_os.Stdlib.{memcpy}
use haoud_os.Base.{
  ℕ, zero, suc, ◌+◌, ◌-◌, ◌*◌, ◌/◌, ◌%◌, ◌^◌, Bool, true, false, not, ◌&&◌, ◌||◌, Option, none,
  some, List, [], ◌∷◌, ◌++◌, take, drop, ltb, leb, ◌==◌, if◌then◌else◌, add32, mul32, neg32, Exec,
  ok, panic, fault, ◌>>=◌,
}

-- `ops` is a number for the table of operations, 0 for NULL; `parent` is the `id` of the device.
pub record Blockdev : Type 0 where
  pub id : ℕ
  pub count : ℕ
  pub block_size : ℕ
  pub block_num : ℕ
  pub ops : ℕ
  pub parent : Option ℕ
  pub first_block : ℕ
  pub dev_id : ℕ

pub record Devices : Type 0 where
  pub last_id : ℕ
  pub blockdev_list : List Blockdev

unfoldable pub find_dev : ℕ → List Blockdev → Option Blockdev
find_dev devid [] = none
find_dev devid (b ∷ bs) = if b.dev_id == devid then some b else find_dev devid bs

abbrev pub lookup_blockdev : ℕ → Devices → Option Blockdev
lookup_blockdev devid s = find_dev devid s.blockdev_list

abbrev pub blkdev_present : ℕ → Devices → Bool
blkdev_present id s = elim (lookup_blockdev id s) [ none ↦ false | some b ↦ true ]

-- `list_add_after` the head.
abbrev pub add_device : Blockdev → List Blockdev → List Blockdev
add_device b [] = b ∷ []
add_device b (head ∷ bs) = head ∷ b ∷ bs

-- A change of the device with an `id`.
unfoldable pub update : ℕ → (Blockdev → Blockdev) → List Blockdev → List Blockdev
update i f [] = []
update i f (b ∷ bs) = if b.id == i then f b ∷ bs else b ∷ update i f bs

abbrev pub blockdev_ref : ℕ → Devices → Devices
blockdev_ref i s = record s {
  blockdev_list = update i (λ b. record b { count = add32 b.count 1 }) s.blockdev_list;
}

abbrev pub new_blockdev : ℕ → ℕ → ℕ → ℕ → ℕ → Blockdev
new_blockdev i dev_id block_size nb_blocks ops = record {
  id = i;
  count = 1;
  block_size = block_size;
  block_num = nb_blocks;
  ops = ops;
  parent = none;
  first_block = 0;
  dev_id = dev_id;
}

abbrev pub enter : Blockdev → Devices → Devices
enter b s = record {
  last_id = (s.last_id + 1) % 2 ^ 64;
  blockdev_list = add_device b s.blockdev_list;
}

-- `memory` says whether `kmalloc` succeeds.
unfoldable pub register_blockdev : Bool → ℕ → ℕ → ℕ → ℕ → Devices → ℕ × Devices
register_blockdev memory dev_id block_size nb_blocks ops s =
    if blkdev_present dev_id s
    then (neg32 2, s)
    else if block_size == 0
    then (neg32 4, s)
    else if nb_blocks == 0
    then (neg32 4, s)
    else if ops == 0
    then (neg32 4, s)
    else if not memory
    then (neg32 10, s)
    else (0, enter (new_blockdev s.last_id dev_id block_size nb_blocks ops) s)

-- `first_block` is an `off_t`; the sum of two positions on a disk is taken as one that fits in it.
abbrev pub new_partition : ℕ → ℕ → Blockdev → ℕ → ℕ → Blockdev
new_partition i dev_id parent number_of_block first = record {
  id = i;
  count = 1;
  block_size = parent.block_size;
  block_num = number_of_block;
  ops = parent.ops;
  parent = some parent.id;
  first_block = parent.first_block + first;
  dev_id = dev_id;
}

unfoldable pub register_partition : Bool → ℕ → Option Blockdev → ℕ → ℕ → Devices → ℕ × Devices
register_partition memory dev_id none number_of_block first s =
    if blkdev_present dev_id s then (neg32 2, s) else (neg32 4, s)
register_partition memory dev_id (some parent) number_of_block first s =
    if blkdev_present dev_id s
    then (neg32 2, s)
    else if number_of_block == 0
    then (neg32 4, s)
    else if not memory
    then (neg32 10, s)
    else (
      0,
      enter (new_partition s.last_id dev_id parent number_of_block first)
          (blockdev_ref parent.id s),
    )

-- The device an address stands for, by its `id`.
unfoldable pub at_id : ℕ → List Blockdev → Option Blockdev
at_id i [] = none
at_id i (b ∷ bs) = if b.id == i then some b else at_id i bs

-- `list_delete`
unfoldable pub delete_id : ℕ → List Blockdev → List Blockdev
delete_id i [] = []
delete_id i (b ∷ bs) = if b.id == i then bs else b ∷ delete_id i bs

-- A device that is no longer there is freed memory.
abbrev pub blockdev_unref : ℕ → Devices → Exec Devices
blockdev_unref i s = elim (at_id i s.blockdev_list) [
  | none ↦ fault
  | some b ↦
      if b.count == 0
      then panic
      else ok (record s {
        blockdev_list = update i (λ b. record b { count = b.count - 1 }) s.blockdev_list;
      })
]

abbrev pub blockdev_ref_by_id : ℕ → Devices → ℕ × Devices
blockdev_ref_by_id dev_id s = elim (lookup_blockdev dev_id s) [
  | none ↦ (neg32 16, s)
  | some b ↦ (0, blockdev_ref b.id s)
]

abbrev pub unref_parent : Option ℕ → Devices → Exec Devices
unref_parent none s = ok s
unref_parent (some parent) s = blockdev_unref parent s

abbrev pub delete_blockdev : Blockdev → Devices → ℕ × Devices
delete_blockdev b s = (0, record s { blockdev_list = delete_id b.id s.blockdev_list })

abbrev pub unregister_device : ℕ → Devices → Exec (ℕ × Devices)
unregister_device dev_id s = elim (lookup_blockdev dev_id s) [
  | none ↦ ok (neg32 16, s)
  | some b ↦
      if not (b.count == 0)
      then ok (neg32 2, s)
      else unref_parent b.parent s >>= (λ s'. ok (delete_blockdev b s'))
]

-- How many bytes of the block at `offset` are copied.
abbrev pub byte_to_copy : ℕ → ℕ → ℕ → ℕ
byte_to_copy block_size offset left =
    if leb (block_size - offset % block_size) left then block_size - offset % block_size else left

-- The loop of blkdev_generic_read, `left` the bytes still wanted: the code and the bytes copied.
-- `read_block` is the device's operation.
module _ (read_block : ℕ → ℕ × List ℕ) (dev : Blockdev) where
  unfoldable pub read_loop : (rounds : ℕ) → ℕ → ℕ → ℕ → ℕ × List ℕ
  read_loop zero ret offset left = (ret, [])
  read_loop (suc rounds) ret offset left =
      let block = offset / dev.block_size % 2 ^ 32 in
      let (code, block_buf) = read_block (add32 block dev.first_block) in
      let n = byte_to_copy dev.block_size offset left in
      let rest = read_loop rounds code (offset + n) (left - n) in
      if left == 0
      then (ret, [])
      else if leb dev.block_num block
      then (ret, [])
      else if not (code == 0)
      then (code, [])
      else (rest.0, take n (drop (offset % dev.block_size) block_buf) ++ rest.1)

-- One round copies at least a byte, so `len` rounds and one more are enough. The device's reference
-- count, which goes up for the call and down again, is left out.
abbrev pub blkdev_generic_read : (ℕ → ℕ × List ℕ) → Option Blockdev → ℕ → ℕ → ℕ × List ℕ
blkdev_generic_read read_block none offset len = (neg32 4, [])
blkdev_generic_read read_block (some dev) offset len =
    read_loop read_block dev (suc len) 0 offset len

-- The loop of blkdev_generic_write: the code, the bytes written and the disk. `read_block` fills the
-- buffer and `write_block` changes the disk; the code of a read is ignored, as the source does.
module _ {ℓ} {Disk : Type ℓ} (read_block : Disk → List ℕ → ℕ → ℕ × List ℕ)
    (write_block : Disk → List ℕ → ℕ → ℕ × Disk) (dev : Blockdev) where
  -- What `block_buf` holds before the block is written.
  abbrev pub fill_block : Disk → List ℕ → ℕ → ℕ → List ℕ → ℕ → ℕ → List ℕ
  fill_block disk block_buf block offset buf at left =
      let n = byte_to_copy dev.block_size offset left in
      if not (offset % dev.block_size == 0)
      then memcpy ((read_block disk block_buf block).1) (offset % dev.block_size) buf at n
      else if ltb left dev.block_size
      then memcpy ((read_block disk block_buf block).1) 0 buf at left
      else memcpy block_buf 0 buf at dev.block_size

  unfoldable pub write_loop : (rounds : ℕ) → ℕ → List ℕ → Disk → ℕ → List ℕ → ℕ → ℕ → ℕ × ℕ × Disk
  write_loop zero ret block_buf disk offset buf at left = (ret, 0, disk)
  write_loop (suc rounds) ret block_buf disk offset buf at left =
      let block = offset / dev.block_size % 2 ^ 32 in
      let filled = fill_block disk block_buf (add32 block dev.first_block) offset buf at left in
      let (code, disk') = write_block disk filled (add32 block dev.first_block) in
      let n = byte_to_copy dev.block_size offset left in
      let rest = write_loop rounds code filled disk' (offset + n) buf (at + n) (left - n) in
      if left == 0
      then (ret, 0, disk)
      else if leb dev.block_num block
      then (ret, 0, disk)
      else if not (code == 0)
      then (code, 0, disk')
      else (rest.0, n + rest.1, rest.2)

-- `block_buf` is what `kmalloc` returns. A NULL device is read before the test for it.
abbrev pub blkdev_generic_write {ℓ} :
    {Disk : Type ℓ}
    → (Disk → List ℕ → ℕ → ℕ × List ℕ)
    → Option (Disk → List ℕ → ℕ → ℕ × Disk)
    → Option Blockdev
    → List ℕ
    → Disk
    → ℕ
    → List ℕ
    → ℕ
    → Exec (ℕ × ℕ × Disk)
blkdev_generic_write read_block write_block none block_buf disk offset buf len = fault
blkdev_generic_write read_block none (some dev) block_buf disk offset buf len =
    ok (neg32 17, len, disk)
blkdev_generic_write read_block (some write_block) (some dev) block_buf disk offset buf len =
    ok (write_loop read_block write_block dev (suc len) 0 block_buf disk offset buf 0 len)
