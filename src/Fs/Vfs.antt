-- ===== src/Fs/Vfs.antt =====
-- core/fs/inode.c: the inodes of a mounted file system in memory, their references, and the search of a
-- path. An inode is known by its number in the super block. The operations of the file system are
-- arguments; what it is told when an inode leaves the memory is noted as an event.
pub mod Cache
pub mod Lookup
pub mod Walk
pub mod Unref
pub mod Path
pub mod Fetch
pub mod Find
pub mod Create
pub mod Child
mod Tests
use haoud_os.Base.{
  ℕ, zero, suc, ◌+◌, ◌-◌, ◌%◌, ◌^◌, Bool, true, false, not, ◌&&◌, ◌||◌, Option, none, some, List,
  [], ◌∷◌, length, get_or, drop, ltb, ◌==◌, if◌then◌else◌, add32, sub32, neg32, Exec, ok, panic,
  fault, ◌>>=◌,
}

-- `enum inode_type`
abbrev pub inode_file : ℕ
inode_file = 1

abbrev pub inode_directory : ℕ
inode_directory = 2

abbrev pub inode_char_device : ℕ
inode_char_device = 3

abbrev pub inode_block_device : ℕ
inode_block_device = 4

abbrev pub inode_pipe : ℕ
inode_pipe = 6

pub record Inode : Type 0 where
  pub inode_id : ℕ
  pub kind : ℕ
  pub memory_count : ℕ
  pub disk_count : ℕ
  pub generation : ℕ
  pub is_dirty : Bool
  pub dev : ℕ

pub data Event : Type 0 where
  -- `inode_op->sync` and its code
  synced : (inode code : ℕ) → Event
  -- `destructor`
  destroyed : ℕ → Event
  -- `chardev_ref_new_inode` or `blockdev_ref_new_inode`, whose code is not looked at
  device_referenced : ℕ → Event

-- The lists hold the inodes from their head on; a dirty inode stands in the second by its number.
pub record Super : Type 0 where
  pub used_list : List Inode
  pub dirty_list : List ℕ
  pub root : ℕ
  pub mount_sync : Bool
  pub read_only : Bool
  pub events : List Event

unfoldable pub inode_in : ℕ → List Inode → Option Inode
inode_in i [] = none
inode_in i (x ∷ xs) = if x.inode_id == i then some x else inode_in i xs

unfoldable pub change : ℕ → (Inode → Inode) → List Inode → List Inode
change i f [] = []
change i f (x ∷ xs) = if x.inode_id == i then f x ∷ xs else x ∷ change i f xs

-- `list_delete_named`
unfoldable pub remove : ℕ → List Inode → List Inode
remove i [] = []
remove i (x ∷ xs) = if x.inode_id == i then xs else x ∷ remove i xs

unfoldable pub remove_id : ℕ → List ℕ → List ℕ
remove_id i [] = []
remove_id i (x ∷ xs) = if x == i then xs else x ∷ remove_id i xs

abbrev pub with_inode : ℕ → (Inode → Inode) → Super → Super
with_inode i f s = record s { used_list = change i f s.used_list }

abbrev pub ref_inode : ℕ → Super → Super
ref_inode i s = with_inode i (λ x. record x { memory_count = add32 x.memory_count 1 }) s

abbrev pub add_dirty : ℕ → List ℕ → List ℕ
add_dirty i [] = i ∷ []
add_dirty i (head ∷ is) = head ∷ i ∷ is

abbrev pub marked : Inode → Inode
marked x = record x { is_dirty = true; generation = add32 x.generation 1 }

-- `sync` is the code of the file system's operation.
module _ (sync : ℕ → ℕ) where
  abbrev pub sync_inode : Inode → Super → Super
  sync_inode x s =
      let told = record s { events = synced x.inode_id (sync x.inode_id) ∷ s.events } in
      if not x.is_dirty then s else if not (sync x.inode_id == 0) then told else record told {
        used_list = change x.inode_id (λ y. record y { is_dirty = false }) s.used_list;
        dirty_list = remove_id x.inode_id s.dirty_list;
      }

  -- `delete_inode`: the inode leaves the memory.
  abbrev pub delete_inode : Inode → Super → Super
  delete_inode x s =
      let s1 = if x.is_dirty then sync_inode x s else s in
      record s1 {
        used_list =
            if not (x.kind == inode_pipe) then remove x.inode_id s1.used_list else s1.used_list;
        events = destroyed x.inode_id ∷ s1.events;
      }

  -- An inode that is not in memory is freed memory.
  abbrev pub unref_inode : ℕ → Super → Exec Super
  unref_inode i s = elim (inode_in i s.used_list) [
    | none ↦ fault
    | some x ↦
        if x.memory_count == 1
        then ok (delete_inode x s)
        else if x.memory_count == 0
        then panic
        else ok (with_inode i (λ y. record y { memory_count = y.memory_count - 1 }) s)
  ]

  abbrev pub mark_inode_as_dirty : ℕ → Super → Super
  mark_inode_as_dirty i s = elim (inode_in i s.used_list) [
    | none ↦ s
    | some x ↦
        let s1 = record s {
          used_list = change i marked s.used_list;
          dirty_list = if x.is_dirty then s.dirty_list else add_dirty i s.dirty_list;
        } in
        if s.mount_sync then sync_inode (marked x) s1 else s1
  ]

-- `list_add_after_named` the head.
abbrev pub add_inode : Inode → List Inode → List Inode
add_inode x [] = x ∷ []
add_inode x (head ∷ xs) = head ∷ x ∷ xs

-- A device that the inode stands for is told of it.
abbrev pub reference_device : Inode → List Event → List Event
reference_device x events =
    if x.kind == inode_char_device
    then device_referenced x.inode_id ∷ events
    else if x.kind == inode_block_device
    then device_referenced x.inode_id ∷ events
    else events

-- `fetch` is the file system's operation: a code and the inode read.
abbrev pub fetch_inode : (ℕ → ℕ × Inode) → ℕ → Super → ℕ × Super
fetch_inode fetch i s = elim (inode_in i s.used_list) [
  | some x ↦ (0, s)
  | none ↦ if not ((fetch i).0 == 0) then ((fetch i).0, s) else (
    0,
    record s {
      used_list = add_inode (record ((fetch i).1) { generation = 0 }) s.used_list;
      events = reference_device ((fetch i).1) s.events;
    },
  )
]

-- `while (*path == '\\') path++`
unfoldable pub skip_separators : List ℕ → List ℕ
skip_separators [] = []
skip_separators (c ∷ path) = if c == 92 then skip_separators path else c ∷ path

abbrev pub ends_name : ℕ → Bool
ends_name c = c == 92 || c == 0

unfoldable pub first_name : List ℕ → List ℕ
first_name [] = []
first_name (c ∷ path) = if ends_name c then [] else c ∷ first_name path

unfoldable pub behind_name : List ℕ → List ℕ
behind_name [] = []
behind_name (c ∷ path) = if ends_name c then c ∷ path else behind_name path

-- "." and ".."
abbrev pub is_dots : List ℕ → Bool
is_dots [] = false
is_dots (c ∷ []) = c == 46
is_dots (c ∷ d ∷ []) = c == 46 && d == 46
is_dots (c ∷ d ∷ e ∷ name) = false

abbrev pub kind_of : ℕ → Super → ℕ
kind_of i s = elim (inode_in i s.used_list) [ none ↦ 0 | some x ↦ x.kind ]

-- What lookup_inode returns: the code, `remaning_path`, `result`, and the super block.
pub record Found : Type 0 where
  pub code : ℕ
  pub remaning_path : Option (List ℕ)
  pub result : Option ℕ
  pub super : Super

-- A round of the loop ends the search or goes on with a path and an inode.
pub data Round : Type 0 where
  done : Found → Round
  next : (path : List ℕ) (total_len current : ℕ) → Super → Round

abbrev pub found : ℕ → Option (List ℕ) → Option ℕ → Super → Found
found code remaning result s = record {
  code = code;
  remaning_path = remaning;
  result = result;
  super = s;
}
