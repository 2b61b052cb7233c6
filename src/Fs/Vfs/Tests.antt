-- ===== src/Fs/Vfs/Tests.antt =====
-- A file system whose root, inode 2, has one name, that of inode 7.
use haoud_os.Base.{
  ℕ, ◌≡◌, true, false, none, some, List, [], ◌∷◌, ◌==◌, if◌then◌else◌, arith, refl, ok, ◌>>=◌,
}
use haoud_os.Fs.Vfs.{
  Inode, Super, inode_in, change, remove, skip_separators, first_name, behind_name,
}
use haoud_os.Fs.Vfs.Lookup.{walk, lookup_inode}
use haoud_os.Fs.Vfs.Cache.{count_in}
use haoud_os.Fs.Vfs.Walk.{Held}
use haoud_os.Fs.Vfs.Create.{create_child_inode}
use haoud_os.Fs.Vfs.Child.{create_child_inode_lem}

abbrev inode : ℕ → ℕ → ℕ → Inode
inode i kind count = record {
  inode_id = i;
  kind = kind;
  memory_count = count;
  disk_count = 1;
  generation = 0;
  is_dirty = false;
  dev = 0;
}

abbrev disk : Super
disk = record {
  used_list = inode 2 2 1 ∷ [];
  dirty_list = [];
  root = 2;
  mount_sync = false;
  read_only = false;
  events = [];
}

abbrev sync : ℕ → ℕ
sync i = 0

abbrev dir_lookup : ℕ → List ℕ → ℕ × ℕ
dir_lookup i name = if i == 2 then (0, 7) else (1, 0)

abbrev fetch : ℕ → ℕ × Inode
fetch i = (0, inode i 1 0)

abbrev c0 : ℕ → ℕ
c0 j = if j == 2 then 1 else 0

start : Held c0 none disk
unfolding inode_in
start = record { tidy = (refl, (λ p. ground arith), refl); counts = λ j. ground arith }

-- "C:\a"
abbrev path : List ℕ
path = 67 ∷ 58 ∷ 92 ∷ 97 ∷ []

-- Reads inodes as ext2 does, with a reference.
abbrev fetch_one : ℕ → ℕ × Inode
fetch_one i = (0, inode i 1 1)

-- The inode that is found has two references after the search, of which the caller knows one.
kept :
    lookup_inode sync dir_lookup fetch_one true (some path) (0, path) disk
      >>= (λ f. ok (count_in 7 f.super.used_list))
    ≡ ok 2
unfolding inode_in change remove walk skip_separators first_name behind_name
kept = refl

abbrev allocate : ℕ → ℕ × Inode
allocate kind = (0, inode 9 kind 1)

-- The entry in the directory fails.
abbrev link : ℕ → List ℕ → ℕ → ℕ
link parent name i = 15

create_child_inode_lem_example :
    (s' : Super) × (create_child_inode sync allocate link 2 (some (98 ∷ [])) 1 disk ≡ ok (0, s'))
    × Held c0 none s'
unfolding inode_in
create_child_inode_lem_example =
    create_child_inode_lem sync allocate link c0 2 (98 ∷ []) 1 (inode 9 1 1) disk refl refl refl
      (λ p. ground arith) refl refl refl start
