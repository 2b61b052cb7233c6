-- ===== src/Fs/Ramdisk.antt =====
-- core/fs/ramdisk/ramdisk.c: files and directories in memory. An inode is known by its address, a
-- circular list is a List from its head on. `get_vm_area` and `kmalloc` are taken to succeed, as the
-- source does.
pub mod Content
pub mod Stream
pub mod Reading
pub mod Directory
pub mod Inodes
pub mod Order
pub mod Listing
pub mod Names
pub mod Lifetime
mod Tests
use haoud_os.Base.{
  ℕ, zero, suc, ◌+◌, ◌-◌, ◌*◌, ◌/◌, ◌%◌, ◌^◌, Bool, true, false, not, ◌&&◌, ◌||◌, Option, none,
  some, List, [], ◌∷◌, ◌++◌, length, get_or, take, drop, replicate, ltb, leb, ◌==◌, if◌then◌else◌,
  add32, sub32, mul32, neg32, page_size,
}
use haoud_os.Stdlib.{memcpy, strlen, strcmp}
use haoud_os.Mm.Phys.{phys_align_sup}
use haoud_os.Dev.Block.Opened.{ℤ, before_start, sum64, Whence, seek_set, seek_cur, seek_end, other}

pub data InodeType : Type 0 where
  inode_file : InodeType
  inode_directory : InodeType
  inode_char_device : InodeType
  inode_block_device : InodeType
  inode_other : InodeType

-- `data_ptr` points to `allocated_size` bytes, or is NULL.
pub record RamFile : Type 0 where
  pub data_ptr : Option (List ℕ)
  pub file_size : ℕ
  pub allocated_size : ℕ

pub record Dirent : Type 0 where
  pub name : List ℕ
  pub inode : ℕ
  pub creat_order : ℕ

pub record RamDir : Type 0 where
  pub entries : List Dirent
  pub top_creat_order : ℕ

abbrev pub is_file : InodeType → Bool
is_file inode_file = true
is_file inode_directory = false
is_file inode_char_device = false
is_file inode_block_device = false
is_file inode_other = false

-- The area that `data_ptr` pointed to, and what the memory holds behind it.
abbrev pub old_data : Option (List ℕ) → List ℕ → List ℕ → ℕ → List ℕ
old_data none behind zeros new_size = zeros
old_data (some xs) behind zeros new_size = memcpy zeros 0 (xs ++ behind) 0 new_size

unfoldable pub ramdisk_resize_file : List ℕ → RamFile → ℕ → RamFile
ramdisk_resize_file behind f new_size =
    let nb_pages_data = phys_align_sup new_size / page_size in
    let zeros = replicate (nb_pages_data * page_size) 0 in
    if leb new_size f.allocated_size then record f { file_size = new_size } else record {
      data_ptr = some (old_data f.data_ptr behind zeros new_size);
      file_size = new_size;
      allocated_size = nb_pages_data * page_size;
    }

abbrev pub data_at : Option (List ℕ) → List ℕ
data_at none = []
data_at (some xs) = xs

-- The bytes at `data_ptr`.
abbrev pub contents : RamFile → List ℕ
contents f = data_at f.data_ptr

-- The code, the bytes read and the offset afterwards.
abbrev pub ramdisk_read : InodeType → RamFile → (offset len : ℕ) → ℕ × List ℕ × ℕ
ramdisk_read kind f offset len =
    let n = if leb f.file_size (offset + len) then f.file_size - offset else len in
    if not (is_file kind)
    then (neg32 8, [], offset)
    else if leb f.file_size offset
    then (0, [], offset)
    else (0, take n (drop offset (contents f)), offset + n)

abbrev pub copy_into : Option (List ℕ) → ℕ → List ℕ → ℕ → Option (List ℕ)
copy_into none offset src_buf len = none
copy_into (some xs) offset src_buf len = some (memcpy xs offset src_buf 0 len)

-- `memcpy` to the area at `data_ptr`.
abbrev pub put_data : RamFile → ℕ → List ℕ → ℕ → RamFile
put_data f offset src_buf len = record f { data_ptr = copy_into f.data_ptr offset src_buf len }

-- The code, how much was written, the offset and the file.
abbrev pub ramdisk_write :
    List ℕ → InodeType → RamFile → (offset : ℕ) → List ℕ → (len : ℕ) → ℕ × ℕ × ℕ × RamFile
ramdisk_write behind kind f offset src_buf len =
    let f' =
      if leb f.file_size (offset + len)
      then ramdisk_resize_file behind f (add32 (offset % 2 ^ 32) len)
      else f in
    if not (is_file kind)
    then (neg32 8, len, offset, f)
    else (0, len, offset + len, put_data f' (offset % 2 ^ 32) src_buf len)

abbrev pub starting_offset : Whence → RamFile → ℕ → Option ℕ
starting_offset seek_set f offset = some 0
starting_offset seek_cur f offset = some offset
starting_offset seek_end f offset = some f.file_size
starting_offset other f offset = none

-- A file may be moved beyond its end, but not before its start. The position is an `off_t` as its word
-- of 64 bits, and the sum of two large ones is a negative position.
abbrev pub shift_by : ℕ → ℕ → ℤ → ℕ × ℕ
shift_by current start offset =
    if before_start start offset then (neg32 4, current) else (0, sum64 start offset)

abbrev pub ramdisk_seek : InodeType → RamFile → ℕ → Whence → ℤ → ℕ × ℕ
ramdisk_seek kind f current whence offset =
    if not (is_file kind) then (neg32 8, current) else elim (starting_offset whence f current) [
      | none ↦ (neg32 4, current)
      | some start ↦ shift_by current start offset
    ]

abbrev pub ramdisk_truncate : List ℕ → InodeType → RamFile → ℕ → ℕ × RamFile
ramdisk_truncate behind kind f len =
    if not (is_file kind) then (neg32 8, f) else (0, ramdisk_resize_file behind f (len % 2 ^ 32))
