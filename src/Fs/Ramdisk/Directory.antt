-- ===== src/Fs/Ramdisk/Directory.antt =====
-- core/fs/ramdisk/ramdisk.c: the entries of a directory. An entry is known by its order of creation,
-- which no other entry of the directory has.
use haoud_os.Base.{
  ℕ, Option, none, some, List, [], ◌∷◌, ◌++◌, take, ltb, leb, ◌==◌, if◌then◌else◌, add32, sub32,
  neg32, Exec, ok, fault, ◌>>=◌,
}
use haoud_os.Stdlib.{strlen, strcmp}
use haoud_os.Fs.Ramdisk.{InodeType, Dirent, RamDir}

-- An opened directory: `custom_data` points to the entry read last.
pub record OpenDir : Type 0 where
  pub offset : ℕ
  pub generation : ℕ
  pub custom_data : Option ℕ

-- `struct dirent`
pub record DirentInfo : Type 0 where
  pub inode_id : ℕ
  pub offset_in_dirfile : ℕ
  pub kind : InodeType
  pub name : List ℕ

abbrev pub head? : List Dirent → Option Dirent
head? [] = none
head? (d ∷ ds) = some d

-- The entry behind the one that was read last; an entry that is gone is freed memory.
unfoldable pub next_sibling : ℕ → List Dirent → Exec (Option Dirent)
next_sibling o [] = fault
next_sibling o (d ∷ ds) = if d.creat_order == o then ok (head? ds) else next_sibling o ds

abbrev pub better : ℕ → Option Dirent → Dirent → Option Dirent
better offset none d = if leb d.creat_order offset then none else some d
better offset (some c) d =
    if leb d.creat_order offset
    then some c
    else if ltb d.creat_order c.creat_order
    then some d
    else some c

-- The search by the order of creation.
unfoldable pub find_next : ℕ → Option Dirent → List Dirent → Option Dirent
find_next offset found [] = found
find_next offset found (d ∷ ds) = find_next offset (better offset found d) ds

abbrev pub next_direntry : (generation : ℕ) → RamDir → OpenDir → Exec (Option Dirent)
next_direntry generation dir f = elim f.custom_data [
  | none ↦ ok (find_next f.offset none dir.entries)
  | some o ↦
      if f.generation == generation
      then next_sibling o dir.entries
      else ok (find_next f.offset none dir.entries)
]

abbrev pub give_entry : (ℕ → InodeType) → OpenDir → Option Dirent → ℕ × Option DirentInfo × OpenDir
give_entry kinds f none = (neg32 7, none, record f { offset = 0; custom_data = none })
give_entry kinds f (some d) = (
  0,
  some (record {
    inode_id = d.inode;
    offset_in_dirfile = d.creat_order;
    kind = kinds d.inode;
    name = d.name;
  }),
  record f { offset = d.creat_order; custom_data = some d.creat_order },
)

-- `kinds` gives the type of an inode, `generation` is the directory's.
abbrev pub ramdisk_readdir :
    (ℕ → InodeType) → (generation : ℕ) → RamDir → OpenDir → Exec (ℕ × Option DirentInfo × OpenDir)
ramdisk_readdir kinds generation dir f =
    next_direntry generation dir f >>= (λ d. ok (give_entry kinds f d))

unfoldable pub find_name : List ℕ → List Dirent → Option Dirent
find_name name [] = none
find_name name (d ∷ ds) = if strcmp name d.name == 0 then some d else find_name name ds

-- The code and the inode's number.
abbrev pub ramdisk_lookup : RamDir → List ℕ → ℕ × ℕ
ramdisk_lookup dir name = elim (find_name name dir.entries) [
  | none ↦ (neg32 7, 0)
  | some d ↦ (0, d.inode)
]

-- `list_add_after` the head.
abbrev pub add_entry : Dirent → List Dirent → List Dirent
add_entry d [] = d ∷ []
add_entry d (head ∷ ds) = head ∷ d ∷ ds

-- `disk_count` of every inode.
abbrev pub Counts : Type 0
Counts = ℕ → ℕ

abbrev pub set_count : ℕ → ℕ → Counts → Counts
set_count i n counts j = if j == i then n else counts j

abbrev pub count_up : ℕ → Counts → Counts
count_up i counts = set_count i (add32 (counts i) 1) counts

abbrev pub count_down : ℕ → Counts → Counts
count_down i counts = set_count i (sub32 (counts i) 1) counts

-- The copy of the name with its zero byte.
abbrev pub stored_name : List ℕ → List ℕ
stored_name name = take (strlen name) name ++ 0 ∷ []

abbrev pub ramdisk_link :
    (this_inode : ℕ) → List ℕ → (inode : ℕ) → RamDir → Counts → RamDir × Counts
ramdisk_link this_inode name inode dir counts =
    let order = add32 dir.top_creat_order 1 in
    (
      record {
        entries =
            add_entry (record { name = stored_name name; inode = inode; creat_order = order })
              dir.entries;
        top_creat_order = order;
      },
      count_up inode (count_up this_inode counts),
    )

-- The first entry with the name is taken out.
unfoldable pub delete_name : List ℕ → List Dirent → List Dirent
delete_name name [] = []
delete_name name (d ∷ ds) = if strcmp name d.name == 0 then ds else d ∷ delete_name name ds

-- A name that is not there gives `ERR_NO_ENTRY` without the sign.
abbrev pub ramdisk_unlink : (this_inode : ℕ) → List ℕ → RamDir → Counts → ℕ × RamDir × Counts
ramdisk_unlink this_inode name dir counts = elim (find_name name dir.entries) [
  | none ↦ (7, dir, counts)
  | some d ↦ (
    0,
    record dir { entries = delete_name name dir.entries },
    count_down this_inode (count_down d.inode counts),
  )
]
