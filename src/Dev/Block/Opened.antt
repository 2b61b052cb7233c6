-- ===== src/Dev/Block/Opened.antt =====
-- core/dev/block/block.c: the operations on an opened block device, which find the device by the
-- number in the inode.
use haoud_os.Base.{
  ℕ, suc, ◌+◌, ◌-◌, ◌%◌, ◌^◌, Bool, ◌&&◌, Option, none, some, List, [], length, ltb, if◌then◌else◌,
  mul32, neg32, Exec, ok, ◌>>=◌,
}
use haoud_os.Dev.Block.{
  Blockdev, Devices, lookup_blockdev, blockdev_ref, blockdev_unref, blkdev_generic_read,
  blkdev_generic_write,
}

-- An `off_t` that a caller gives, a signed number of 64 bits.
pub data ℤ : Type 0 where
  pos : ℕ → ℤ
  negsuc : ℕ → ℤ

-- `offset` is an `off_t` as its word of 64 bits: from 2^63 on it stands for a negative number.
pub record BlockFile : Type 0 where
  pub ref : ℕ
  pub offset : ℕ
  pub owner : ℕ
  pub generation : ℕ
  -- `inode->dev`
  pub dev : ℕ
  pub open_flags : ℕ

pub data Whence : Type 0 where
  seek_set : Whence
  seek_cur : Whence
  seek_end : Whence
  other : Whence

abbrev pub blockdev_open_file : Bool → ℕ → ℕ → ℕ → Devices → ℕ × Option BlockFile
blockdev_open_file memory dev owner open_flags s = elim (lookup_blockdev dev s) [
  | none ↦ (neg32 16, none)
  | some b ↦
      if memory
      then (
        0,
        some (record {
          ref = 0;
          offset = 0;
          owner = owner;
          generation = 0;
          dev = dev;
          open_flags = open_flags;
        }),
      )
      else (neg32 10, none)
]

abbrev pub duplicate_opened_blockdev : Bool → BlockFile → ℕ → ℕ × Option BlockFile
duplicate_opened_blockdev memory this_file for_process =
    if memory then (0, some (record this_file { owner = for_process })) else (neg32 10, none)

abbrev pub blockdev_ref_new_inode : ℕ → Devices → ℕ × Devices
blockdev_ref_new_inode dev s = elim (lookup_blockdev dev s) [
  | none ↦ (neg32 16, s)
  | some b ↦ (0, blockdev_ref b.id s)
]

abbrev pub blockdev_release_inode : ℕ → Devices → Exec (ℕ × Devices)
blockdev_release_inode dev s = elim (lookup_blockdev dev s) [
  | none ↦ ok (neg32 16, s)
  | some b ↦ blockdev_unref b.id s >>= (λ s'. ok (0, s'))
]

-- The size that the seek compares with is an `unsigned int` product.
abbrev pub size32 : Blockdev → ℕ
size32 b = mul32 b.block_size b.block_num

abbrev pub seek_from : Whence → Blockdev → BlockFile → Option ℕ
seek_from seek_set b f = some 0
seek_from seek_cur b f = some f.offset
seek_from seek_end b f = some (size32 b)
seek_from other b f = none

-- `offset < -starting_offset`, for the word of a start. The least number is its own negation.
abbrev pub before_start : ℕ → ℤ → Bool
before_start start (pos n) = ltb (2 ^ 63) start && ltb n (2 ^ 64 - start)
before_start start (negsuc n) = if ltb start (2 ^ 63) then ltb start (suc n) else ltb (2 ^ 63) start

-- `starting_offset + offset` as a word of 64 bits; the sum of two large numbers is a negative one.
abbrev pub sum64 : ℕ → ℤ → ℕ
sum64 start (pos n) = (start + n) % 2 ^ 64
sum64 start (negsuc n) = (start + 2 ^ 64 - suc n) % 2 ^ 64

-- A negative position passes the test of the size.
abbrev pub seek_to : Blockdev → BlockFile → ℕ → ℕ × BlockFile
seek_to b f p =
    if ltb p (2 ^ 63) && ltb (size32 b) p then (neg32 4, f) else (0, record f { offset = p })

abbrev pub seek_by : Blockdev → BlockFile → ℕ → ℤ → ℕ × BlockFile
seek_by b f start offset =
    if before_start start offset then (neg32 4, f) else seek_to b f (sum64 start offset)

abbrev pub blockdev_seek : Devices → BlockFile → Whence → ℤ → ℕ × BlockFile
blockdev_seek s f whence offset = elim (lookup_blockdev f.dev s) [
  | none ↦ (neg32 16, f)
  | some b ↦ elim (seek_from whence b f) [
    | none ↦ (neg32 4, f)
    | some start ↦ seek_by b f start offset
  ]
]

module _ {ℓ} {Disk : Type ℓ} (read_block : Disk → List ℕ → ℕ → ℕ × List ℕ)
    (write_block : Option (Disk → List ℕ → ℕ → ℕ × Disk)) (block_buf : List ℕ) where
  -- The code, the bytes read and the file.
  abbrev pub blockdev_read : Devices → Disk → BlockFile → ℕ → ℕ × List ℕ × BlockFile
  blockdev_read s disk f len = elim (lookup_blockdev f.dev s) [
    | none ↦ (neg32 16, [], f)
    | some b ↦
        let r = blkdev_generic_read (read_block disk block_buf) (some b) f.offset len in
        (r.0, r.1, record f { offset = f.offset + length (r.1) })
  ]

  -- The code, how much was written, the disk and the file.
  abbrev pub blockdev_write :
      Devices → Disk → BlockFile → List ℕ → ℕ → Exec (ℕ × ℕ × Disk × BlockFile)
  blockdev_write s disk f src_buf len = elim (lookup_blockdev f.dev s) [
    | none ↦ ok (neg32 16, len, disk, f)
    | some b ↦
        blkdev_generic_write read_block write_block (some b) block_buf disk f.offset src_buf len
        >>= (λ r. ok (r.0, r.1, r.2, record f { offset = f.offset + r.1 }))
  ]
