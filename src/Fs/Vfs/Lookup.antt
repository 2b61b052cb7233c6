-- ===== src/Fs/Vfs/Lookup.antt =====
-- core/fs/inode.c: lookup_inode, from the name of a drive on. `parsed` is what parse_path makes of the
-- path; `dir_lookup` and `fetch` are the file system's operations.
use haoud_os.Base.{
  ℕ, zero, suc, ◌+◌, Bool, not, Option, none, some, List, length, get_or, drop, ltb, ◌==◌,
  if◌then◌else◌, neg32, Exec, ok, fault, ◌>>=◌,
}
use haoud_os.Stdlib.{strlen}
use haoud_os.Fs.Vfs.{
  Inode, Super, Found, Round, done, next, found, ref_inode, unref_inode, fetch_inode,
  skip_separators, first_name, behind_name, is_dots, kind_of, inode_directory,
}

module _ (sync : ℕ → ℕ) (dir_lookup : ℕ → List ℕ → ℕ × ℕ) (fetch : ℕ → ℕ × Inode) where
  -- A name that was found in the directory `current`. When its inode cannot be read, the code copies the
  -- path from `total_len` on, though `path` stands behind the name already: if this is beyond the end of
  -- the path, the size for `kmalloc` wraps around and the copy reads behind the path, a fault here.
  abbrev pub enter : List ℕ → ℕ → ℕ → ℕ → Super → Exec Round
  enter path total_len current tmp_inode_id s =
      let (code, s1) = fetch_inode fetch tmp_inode_id s in
      if not (code == 0)
      then (if ltb (strlen path) total_len
          then fault
          else unref_inode sync current s1
            >>= (λ s2. ok (done (found code (some (drop total_len path)) none s2))))
      else unref_inode sync current s1
        >>= (λ s2. ok (next path total_len tmp_inode_id (ref_inode tmp_inode_id s2)))

  -- From the label `search` on.
  abbrev pub search : List ℕ → ℕ → ℕ → Super → Exec Round
  search path total_len current s =
      let name_ptr = skip_separators path in
      let name = first_name name_ptr in
      let total_len' = total_len + length name in
      let (code, tmp_inode_id) = dir_lookup current name in
      if get_or name_ptr 0 0 == 0
      then ok (done (found 0 none (some current) s))
      else if not (kind_of current s == inode_directory)
      then unref_inode sync current s >>= (λ s1. ok (done (found (neg32 6) none none s1)))
      else if is_dots name
      then ok (next (behind_name name_ptr) total_len' current s)
      else if not (code == 0)
      then ok (done (found 0 (some name_ptr) (some current) s))
      else enter (behind_name name_ptr) total_len' current tmp_inode_id s

  -- Each round takes a character of the path at least.
  unfoldable pub walk : (rounds : ℕ) → List ℕ → ℕ → ℕ → Super → Exec Found
  walk zero path total_len current s = fault
  walk (suc rounds) path total_len current s = search path total_len current s >>= (λ r. elim r [
    | done f ↦ ok f
    | next path' total_len' current' s' ↦ walk rounds path' total_len' current' s'
  ])

  abbrev pub lookup_inode :
      (mounted : Bool) → Option (List ℕ) → (parsed : ℕ × List ℕ) → Super → Exec Found
  lookup_inode mounted none parsed s = ok (found (neg32 4) none none s)
  lookup_inode mounted (some path) parsed s =
      if not (parsed.0 == 0)
      then ok (found (parsed.0) none none s)
      else if not mounted
      then ok (found (neg32 8) (some path) none s)
      else walk (suc (length (drop 2 (parsed.1)))) (drop 2 (parsed.1)) 0 s.root (ref_inode s.root s)
