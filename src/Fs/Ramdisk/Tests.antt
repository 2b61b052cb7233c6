-- ===== src/Fs/Ramdisk/Tests.antt =====
-- A file of four bytes, a directory with two entries, an empty RAM disk.
use mathlib.Core.List.{Memᴰ}
use haoud_os.Base.{
  ℕ, zero, suc, ◌≡◌, ◌≢◌, inl, none, some, List, [], ◌∷◌, take, arith, refl, ok, true, Option, ◌⊎◌,
  neg32,
}
use haoud_os.Stdlib.{strcmp}
use haoud_os.Stdlib.Text.{text, Bytes}
use haoud_os.Fs.Ramdisk.{
  RamFile, inode_file, inode_other, InodeType, Dirent, RamDir, ramdisk_write, ramdisk_read,
  ramdisk_resize_file,
}
use haoud_os.Fs.Ramdisk.Content.{Sound, view}
use haoud_os.Fs.Ramdisk.Stream.{splice, ramdisk_write_lem}
use haoud_os.Fs.Ramdisk.Reading.{moved_to, read-write}
use haoud_os.Fs.Ramdisk.Directory.{
  OpenDir, next_sibling, find_next, give_entry, ramdisk_readdir, find_name, Counts, ramdisk_lookup,
  ramdisk_link, ramdisk_unlink,
}
use haoud_os.Fs.Ramdisk.Order.{Least, ramdisk_readdir_lem}
use haoud_os.Fs.Ramdisk.Listing.{Distinct, read_dir, Ends, ramdisk_readdir-Ends}
use haoud_os.Fs.Ramdisk.Names.{unlink-link}
use haoud_os.Fs.Ramdisk.Inodes.{RamSuper, inode_at, ramdisk_allocate_inode}
use haoud_os.Fs.Ramdisk.Lifetime.{Lives, destructor-allocate}

abbrev four : RamFile
four = record { data_ptr = some (1 ∷ 2 ∷ 3 ∷ 4 ∷ []); file_size = 3; allocated_size = 4 }

four-Sound : Sound four
four-Sound = record { area = refl; fits = omega arith }

abbrev new_bytes : List ℕ
new_bytes = 7 ∷ 8 ∷ []

ramdisk_write_lem_example :
    (f' : RamFile) × (ramdisk_write [] inode_file four 2 new_bytes 2 ≡ (0, 2, 4, f'))
    × Sound f'
    × (view f' ≡ splice (view four) 2 (take 2 new_bytes))
ramdisk_write_lem_example =
    ramdisk_write_lem [] four 2 new_bytes 2 four-Sound (omega arith) (omega arith) (omega arith)

read-write_example :
    ramdisk_read inode_file ((ramdisk_write [] inode_file four 2 new_bytes 2).3) 2 2
    ≡ moved_to (take 2 new_bytes) ((ramdisk_write [] inode_file four 2 new_bytes 2).2)
read-write_example =
    read-write [] four 2 new_bytes 2 four-Sound (omega arith) (omega arith) (omega arith)

-- A file made shorter and longer again shows its old byte.
stale : view (ramdisk_resize_file [] (ramdisk_resize_file [] four 1) 3) ≡ 1 ∷ 2 ∷ 3 ∷ []
unfolding ramdisk_resize_file
stale = refl

abbrev first : Dirent
first = record { name = 97 ∷ 0 ∷ []; inode = 100; creat_order = 1 }

abbrev second : Dirent
second = record { name = 98 ∷ 0 ∷ []; inode = 200; creat_order = 2 }

abbrev two : RamDir
two = record { entries = first ∷ second ∷ []; top_creat_order = 2 }

abbrev opened : OpenDir
opened = record { offset = 0; generation = 0; custom_data = none }

abbrev kinds : ℕ → InodeType
kinds i = inode_file

ramdisk_readdir_lem_example :
    (r : Option Dirent) × (ramdisk_readdir kinds 5 two opened ≡ ok (give_entry kinds opened r))
    × Least 0 (λ e. Memᴰ e two.entries) r
ramdisk_readdir_lem_example = ramdisk_readdir_lem kinds 5 two opened (inl refl)

two-Distinct : Distinct two.entries
two-Distinct = (((λ e. absurd (omega arith)), tt), (tt, tt))

ramdisk_readdir-Ends_example : Ends kinds 5 two 3 opened
ramdisk_readdir-Ends_example = ramdisk_readdir-Ends kinds 5 two opened refl two-Distinct

-- The third entry stands before the second, and the first has been taken out. With the generation of
-- the inode in the opened directory, the loop begins at the second and never gives the third.
abbrev unlinked : RamDir
unlinked = record {
  entries = record { name = 99 ∷ 0 ∷ []; inode = 300; creat_order = 3 } ∷ second ∷ [];
  top_creat_order = 3;
}

misses :
    read_dir kinds 0 unlinked 3 opened
    ≡ ok (
      record { inode_id = 200; offset_in_dirfile = 2; kind = inode_file; name = 98 ∷ 0 ∷ [] } ∷ [],
      true,
    )
unfolding read_dir next_sibling find_next
misses = refl

abbrev name : List ℕ
name = 99 ∷ 0 ∷ []

name-Bytes : Bytes name
name-Bytes zero = omega arith
name-Bytes (suc zero) = omega arith
name-Bytes (suc (suc i)) = omega arith

abbrev ones : Counts
ones i = 1

unlink-link_example :
    (ramdisk_lookup ((ramdisk_link 9 name 300 two ones).0) name ≡ (0, 300))
    × ((name' : List ℕ)
        → Bytes name'
        → text name' ≢ text name
        → ramdisk_lookup ((ramdisk_link 9 name 300 two ones).0) name' ≡ ramdisk_lookup two name')
    × ((ramdisk_unlink 9 name
          ((ramdisk_link 9 name 300 two ones).0)
          ((ramdisk_link 9 name 300 two ones).1)).0
        ≡ 0)
    × ((ramdisk_unlink 9 name
          ((ramdisk_link 9 name 300 two ones).0)
          ((ramdisk_link 9 name 300 two ones).1)).1.entries
        ≡ two.entries)
    × ((k : ℕ)
        → (ramdisk_unlink 9 name
              ((ramdisk_link 9 name 300 two ones).0)
              ((ramdisk_link 9 name 300 two ones).1)).2
            k
          ≡ 1)
unfolding find_name strcmp
unlink-link_example = unlink-link 9 300 name two ones name-Bytes refl (λ k. omega arith)

abbrev empty_disk : RamSuper
empty_disk = record { inode_list = []; used_list = []; dirty_list = []; root = none }

destructor-allocate_example :
    Lives 500 inode_file empty_disk (ramdisk_allocate_inode 500 inode_file empty_disk)
    ⊎ ((inode_file ≡ inode_other)
        × (ramdisk_allocate_inode 500 inode_file empty_disk ≡ (neg32 1, none, empty_disk)))
unfolding inode_at
destructor-allocate_example = destructor-allocate 500 inode_file empty_disk refl
