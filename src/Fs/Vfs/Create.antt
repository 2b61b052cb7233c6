-- ===== src/Fs/Vfs/Create.antt =====
-- core/fs/inode.c: new inodes and their names. `allocate` and `link` are the file system's operations;
-- `same_super` says whether two inodes stand in one super block.
use haoud_os.Base.{
  ℕ, zero, suc, Bool, true, not, ◌&&◌, Option, none, some, List, [], ◌∷◌, get_or, take, ◌==◌,
  if◌then◌else◌, neg32, Exec, ok, panic, fault, ◌>>=◌,
}
use haoud_os.Stdlib.{strlen}
use haoud_os.Fs.Vfs.{
  Inode, Super, Found, found, add_inode, with_inode, unref_inode, mark_inode_as_dirty, first_name,
  kind_of, inode_directory, inode_char_device, inode_block_device,
}
use haoud_os.Fs.Vfs.Lookup.{lookup_inode}

abbrev pub register_root_inode : Inode → Super → Super
register_root_inode root s = record s { root = root.inode_id; used_list = root ∷ [] }

module _ (sync : ℕ → ℕ) (allocate : ℕ → ℕ × Inode) (link : ℕ → List ℕ → ℕ → ℕ) where
  -- The code and the number of the inode.
  abbrev pub allocate_inode : ℕ → Super → ℕ × ℕ × Super
  allocate_inode kind s =
      let (code, x) = allocate kind in
      if s.read_only then (neg32 5, 0, s) else if not (code == 0) then (code, 0, s) else (
        0,
        x.inode_id,
        mark_inode_as_dirty sync x.inode_id (record s { used_list = add_inode x s.used_list }),
      )

  abbrev pub register_child_inode :
      (same_super : Bool) → ℕ → Option (List ℕ) → ℕ → Super → ℕ × Super
  register_child_inode same_super parent none to_register s =
      if not (kind_of parent s == inode_directory) then (neg32 6, s) else (neg32 4, s)
  register_child_inode same_super parent (some name) to_register s =
      if not (kind_of parent s == inode_directory)
      then (neg32 6, s)
      else if get_or name 0 0 == 0
      then (neg32 4, s)
      else if not same_super
      then (neg32 8, s)
      else if not (link parent name to_register == 0)
      then (link parent name to_register, s)
      else (0, mark_inode_as_dirty sync to_register (mark_inode_as_dirty sync parent s))

  -- The same code a second time.
  abbrev pub connext_existing_child_inode :
      (same_super : Bool) → ℕ → Option (List ℕ) → ℕ → Super → ℕ × Super
  connext_existing_child_inode = register_child_inode

  -- The code of register_child_inode is not looked at.
  abbrev pub add_child : ℕ → List ℕ → ℕ → Super → Exec (ℕ × Super)
  add_child parent name kind s =
      let (code, new_inode, s1) = allocate_inode kind s in
      if not (code == 0)
      then ok (code, s1)
      else unref_inode sync new_inode
          ((register_child_inode true parent (some name) new_inode s1).1)
        >>= (λ s2. ok (0, s2))

  abbrev pub create_child_inode : ℕ → Option (List ℕ) → ℕ → Super → Exec (ℕ × Super)
  create_child_inode parent none kind s =
      if not (kind_of parent s == inode_directory) then ok (neg32 6, s) else ok (neg32 4, s)
  create_child_inode parent (some name) kind s =
      if not (kind_of parent s == inode_directory)
      then ok (neg32 6, s)
      else if get_or name 0 0 == 0
      then ok (neg32 4, s)
      else add_child parent name kind s

  module _ (dir_lookup : ℕ → List ℕ → ℕ × ℕ) (fetch : ℕ → ℕ × Inode) (mounted : Bool) where
    -- With what lookup_inode found.
    abbrev pub create_found : ℕ → Found → Exec (ℕ × Super)
    create_found kind f = elim f.result [
      | none ↦ if not (f.code == 0) then ok (f.code, f.super) else fault
      | some parent ↦ if not (f.code == 0) then ok (f.code, f.super) else elim f.remaning_path [
        | none ↦ unref_inode sync parent f.super >>= (λ s. ok (neg32 9, s))
        | some remaning_path ↦
            create_child_inode parent (some (first_name remaning_path)) kind f.super
            >>= (λ r. unref_inode sync parent (r.1) >>= (λ s. ok (r.0, s)))
      ]
    ]

    abbrev pub create_inode : List ℕ → (parsed : ℕ × List ℕ) → ℕ → Super → Exec (ℕ × Super)
    create_inode _path parsed kind s =
        lookup_inode sync dir_lookup fetch mounted (some _path) parsed s >>= create_found kind

    -- The device number of the node that was made.
    abbrev pub set_device : ℕ → Found → Exec (ℕ × Super)
    set_device devid f = elim f.result [
      | none ↦ if not (f.code == 0) then ok (f.code, f.super) else ok (neg32 1, f.super)
      | some i ↦ if not (f.code == 0) then ok (f.code, f.super) else elim f.remaning_path [
        | some rest ↦ ok (neg32 8, f.super)
        | none ↦
            unref_inode sync i
              (mark_inode_as_dirty sync i (with_inode i (λ x. record x { dev = devid }) f.super))
            >>= (λ s. ok (0, s))
      ]
    ]

    abbrev pub make_speacial_node :
        List ℕ → (parsed : ℕ × List ℕ) → ℕ → (devid : ℕ) → Super → Exec (ℕ × Super)
    make_speacial_node _path parsed kind devid s =
        if not (kind == inode_char_device) && not (kind == inode_block_device)
        then panic
        else create_inode _path parsed kind s >>= (λ r.
          if not (r.0 == 0)
          then ok r
          else lookup_inode sync dir_lookup fetch mounted (some _path) parsed (r.1)
            >>= set_device devid)

-- From the end back to a separator, but not before the start: how many characters stand before it.
unfoldable pub last_separator : List ℕ → (from : ℕ) → ℕ
last_separator path zero = 0
last_separator path (suc n) = if get_or path (suc n) 0 == 92 then suc n else last_separator path n

module _ (sync : ℕ → ℕ) (dir_lookup : ℕ → List ℕ → ℕ × ℕ) (fetch : ℕ → ℕ × Inode)
    (mounted : Bool) where
  abbrev pub parent_found : Found → Exec Found
  parent_found f = elim f.result [
    | none ↦ if not (f.code == 0) then ok f else fault
    | some i ↦
        if not (f.code == 0)
        then ok f
        else if not (kind_of i f.super == inode_directory)
        then unref_inode sync i f.super >>= (λ s. ok (found (neg32 12) f.remaning_path (some i) s))
        else ok f
  ]

  -- `parse` is parse_path, applied to the path of the parent.
  abbrev pub lookup_parent : (parse : List ℕ → ℕ × List ℕ) → List ℕ → Super → Exec Found
  lookup_parent parse _path s =
      let n = last_separator _path (strlen _path) in
      if n == 0
      then ok (found (neg32 8) none none s)
      else lookup_inode sync dir_lookup fetch mounted (some (take n _path)) (parse (take n _path)) s
        >>= parent_found
