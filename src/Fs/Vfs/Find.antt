-- ===== src/Fs/Vfs/Find.antt =====
-- lookup_inode of core/fs/inode.c, and the references that it takes and gives back.
use haoud_os.Base.{ℕ, ◌+◌, ◌<◌, ◌≡◌, ◌⊎◌, false, fault, some, List, length, ◌==◌, Exec, ok}
use haoud_os.Fs.Vfs.{Inode, Super, Found, Round, done, next}
use haoud_os.Fs.Vfs.Lookup.{walk}
use haoud_os.Fs.Vfs.Cache.{count_in}
use haoud_os.Fs.Vfs.Walk.{Held, held_on}
use haoud_os.Fs.Vfs.Fetch.{Room, Grown}

module _ (sync : ℕ → ℕ) (dir_lookup : ℕ → List ℕ → ℕ × ℕ) (fetch : ℕ → ℕ × Inode) where
  -- The file system cannot read some inode.
  abbrev pub Unreadable : Type 0
  Unreadable = (i : ℕ) × (((fetch i).0 == 0) ≡ false)

  -- After a round that ends, a reference is held on the result; after another, on the next inode, with a
  -- shorter path.
  abbrev HeldAfter : (ℕ → ℕ) → List ℕ → Round → Type 0
  HeldAfter c path (done f) = Held c f.result f.super
  HeldAfter c path (next path' total_len current s) =
      (Held c (some current) s) × (length path' < length path)

  record After (c : ℕ → ℕ) (path : List ℕ) (r : Round) : Type 0 where
    counts_now : ℕ → ℕ
    grown : Grown dir_lookup fetch c counts_now
    room : Room dir_lookup fetch counts_now
    held : HeldAfter counts_now path r

  -- A round that returns, or that reads behind the path since an inode could not be read.
  abbrev Rounds : (ℕ → ℕ) → List ℕ → Exec Round → Type 0
  Rounds c path x = ((r : Round) × (x ≡ ok r) × After c path r) ⊎ ((x ≡ fault) × Unreadable)

  -- What a whole search leaves, for the references at its start.
  abbrev pub Searched : (ℕ → ℕ) → Exec Found → Type 0
  Searched c x =
      ((f : Found) × (c' : ℕ → ℕ) × (x ≡ ok f)
        × Grown dir_lookup fetch c c'
        × Held c' f.result f.super)
      ⊎ ((x ≡ fault) × Unreadable)

  abbrev goes : ℕ → Round → Exec Found
  goes rounds r = elim r [
    | done f ↦ ok f
    | next path total_len current s ↦ walk sync dir_lookup fetch rounds path total_len current s
  ]

  -- Every search with so many rounds comes to its end.
  abbrev Walks : ℕ → Type 0
  Walks rounds =
      (path : List ℕ) (total_len current : ℕ) (s : Super) (c : ℕ → ℕ)
      → Room dir_lookup fetch c
      → length path < rounds
      → Held c (some current) s
      → Searched c (walk sync dir_lookup fetch rounds path total_len current s)

  -- The references after the search: those of `c0`, one more on the result, and on an inode that was
  -- not referenced before and has been read, those with which it was read.
  abbrev pub References : (ℕ → ℕ) → Found → Type 0
  References c0 f =
      (j : ℕ)
      → (count_in j f.super.used_list ≡ c0 j + held_on f.result j)
        ⊎ ((c0 j ≡ 0)
            × ((fetch j).0 ≡ 0)
            × (count_in j f.super.used_list ≡ (fetch j).1.memory_count + held_on f.result j))
