-- ===== src/Fs/Ramdisk/Inodes.antt =====
-- core/fs/ramdisk/ramdisk.c: the inodes of a RAM disk and its mount. `address` is what `kmalloc` returns
-- for an inode, which is also its number.
use haoud_os.Base.{
  ℕ, zero, suc, ◌+◌, ◌/◌, ◌%◌, ◌^◌, Bool, true, false, not, Option, none, some, List, [], ◌∷◌, ◌++◌,
  map, ltb, ◌==◌, if◌then◌else◌, neg32, page_size,
}
use haoud_os.Fs.Ramdisk.{
  InodeType, inode_file, inode_directory, inode_char_device, inode_block_device, inode_other,
  RamFile, RamDir,
}

-- The part of an inode that its type uses.
pub data Payload : Type 0 where
  file : RamFile → Payload
  dir : RamDir → Payload
  device : Payload

pub record RamInode : Type 0 where
  pub inode_id : ℕ
  pub kind : InodeType
  pub memory_count : ℕ
  pub disk_count : ℕ
  pub generation : ℕ
  pub is_dirty : Bool
  pub payload : Payload

pub record RamSuper : Type 0 where
  pub inode_list : List RamInode
  pub used_list : List ℕ
  pub dirty_list : List ℕ
  pub root : Option ℕ

abbrev pub empty_file : RamFile
empty_file = record { data_ptr = none; file_size = 0; allocated_size = 0 }

abbrev pub empty_dir : RamDir
empty_dir = record { entries = []; top_creat_order = 0 }

-- What a new inode of the type holds; types the RAM disk does not take have nothing.
abbrev pub new_payload : InodeType → Option Payload
new_payload inode_file = some (file empty_file)
new_payload inode_directory = some (dir empty_dir)
new_payload inode_char_device = some device
new_payload inode_block_device = some device
new_payload inode_other = none

abbrev pub new_inode : ℕ → InodeType → Payload → RamInode
new_inode address kind payload = record {
  inode_id = address;
  kind = kind;
  memory_count = 1;
  disk_count = 0;
  generation = 0;
  is_dirty = false;
  payload = payload;
}

-- `list_add_after` the head.
abbrev pub add_inode : RamInode → List RamInode → List RamInode
add_inode i [] = i ∷ []
add_inode i (head ∷ is) = head ∷ i ∷ is

abbrev pub ramdisk_allocate_inode : ℕ → InodeType → RamSuper → ℕ × Option ℕ × RamSuper
ramdisk_allocate_inode address kind s = elim (new_payload kind) [
  | none ↦ (neg32 1, none, s)
  | some p ↦
      (0, some address, record s { inode_list = add_inode (new_inode address kind p) s.inode_list })
]

unfoldable pub inode_at : ℕ → List RamInode → Option RamInode
inode_at address [] = none
inode_at address (i ∷ is) = if i.inode_id == address then some i else inode_at address is

unfoldable pub delete_inode : ℕ → List RamInode → List RamInode
delete_inode address [] = []
delete_inode address (i ∷ is) = if i.inode_id == address then is else i ∷ delete_inode address is

-- The memory of an inode goes back when no entry of a directory names it.
abbrev pub ramdisk_inode_destructor : RamInode → RamSuper → RamSuper
ramdisk_inode_destructor to_del s =
    if to_del.disk_count == 0
    then record s { inode_list = delete_inode to_del.inode_id s.inode_list }
    else s

abbrev pub ramdisk_fetch_inode : ℕ → ℕ × ℕ
ramdisk_fetch_inode inode_id = (0, inode_id % 2 ^ 32)

-- An empty super block, then its root, which enters the list of inodes in use.
abbrev pub register_root_inode : ℕ → RamSuper → RamSuper
register_root_inode root s = record s { root = some root; used_list = root ∷ [] }

abbrev pub ramdisk_mount : ℕ → RamSuper
ramdisk_mount address =
    let empty : RamSuper = record {
      inode_list = [];
      used_list = [];
      dirty_list = [];
      root = none;
    } in
    let (code, root, s) = ramdisk_allocate_inode address inode_directory empty in
    register_root_inode address s

-- What a release of memory is about.
pub data Release : Type 0 where
  -- `PagingUnmap` of a page of an area, by its number in it
  unmaps : (inode page : ℕ) → Release
  -- `FreeVmArea`
  frees_area : ℕ → Release
  -- `kfree` of the name and of the entry
  frees_entry : (inode order : ℕ) → Release
  -- `kfree` of the inode
  frees_inode : ℕ → Release

-- The pages from `i` on, one every `PAGE_SIZE` bytes of the area.
unfoldable pub unmap_pages : (rounds : ℕ) → ℕ → (i size : ℕ) → List Release
unmap_pages zero inode i size = []
unmap_pages (suc rounds) inode i size =
    let rest = unmap_pages rounds inode (i + page_size) size in
    if ltb i size then unmaps inode (i / page_size) ∷ rest else []

abbrev pub release_payload : ℕ → Payload → List Release
release_payload i (file f) =
    if f.allocated_size == 0
    then []
    else unmap_pages (f.allocated_size / page_size + 1) i 0 f.allocated_size ++ frees_area i ∷ []
release_payload i (dir d) = map (λ e. frees_entry i e.creat_order) d.entries
release_payload i device = []

unfoldable pub release_inodes : List RamInode → List Release
release_inodes [] = []
release_inodes (i ∷ is) =
    release_payload i.inode_id i.payload ++ frees_inode i.inode_id ∷ release_inodes is

-- The releases in their order; the super block goes last.
abbrev pub ramdisk_umount : RamSuper → ℕ × List Release
ramdisk_umount s = (0, release_inodes s.inode_list)

-- An opened file or directory, `generation` and the unset operations as `kmalloc` left them.
pub record Opened : Type 0 where
  pub offset : ℕ
  pub owner : ℕ
  pub open_flags : ℕ
  pub custom_data : Option ℕ
  pub has_dir_op : Bool

abbrev pub is_directory : InodeType → Bool
is_directory inode_file = false
is_directory inode_directory = true
is_directory inode_char_device = false
is_directory inode_block_device = false
is_directory inode_other = false

-- `left` is whether the memory that `kmalloc` returned holds a `dir_op`.
abbrev pub ramdisk_open_file : Bool → Bool → InodeType → ℕ → ℕ → ℕ × Option Opened
ramdisk_open_file memory left kind owner open_flags = if not memory then (neg32 10, none) else (
  0,
  some (record {
    offset = 0;
    owner = owner;
    open_flags = open_flags;
    custom_data = none;
    has_dir_op = if is_directory kind then true else left;
  }),
)

abbrev pub ramdisk_duplicate_open_file : Bool → Opened → ℕ → ℕ × Option Opened
ramdisk_duplicate_open_file memory this_file for_process =
    if not memory then (neg32 10, none) else (0, some (record this_file { owner = for_process }))
