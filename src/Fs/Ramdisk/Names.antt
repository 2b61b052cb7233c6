-- ===== src/Fs/Ramdisk/Names.antt =====
-- Names in a directory of the RAM disk, core/fs/ramdisk/ramdisk.c.
use haoud_os.Base.{
  ℕ, zero, suc, ◌^◌, ◌<◌, ◌≡◌, ◌≢◌, inl, inr, true, false, none, some, List, [], ◌∷◌, ◌++◌, ◌==◌,
  add32, sub32, arith, refl, sym, ap, ◌∙◌, Bool-cases,
}
use haoud_os.Stdlib.{strcmp}
use haoud_os.Stdlib.Text.{text, Bytes, Bytes-tail}
use haoud_os.Stdlib.Copy.{text_of_text, take-strlen}
use haoud_os.Stdlib.Compare.{strcmp_lem}
use haoud_os.Fs.Ramdisk.{Dirent, RamDir}
use haoud_os.Fs.Ramdisk.Directory.{
  Counts, find_name, add_entry, delete_name, stored_name, set_count, count_up, count_down,
  ramdisk_lookup, ramdisk_link, ramdisk_unlink,
}

text-stored_name : (name : List ℕ) → text (stored_name name) ≡ text name
text-stored_name name = ap (λ l. text (l ++ 0 ∷ [])) (take-strlen name) ∙ text_of_text name []

Bytes-cons : (c : ℕ) (s : List ℕ) → c < 256 → Bytes s → Bytes (c ∷ s)
Bytes-cons c s h hs zero = h
Bytes-cons c s h hs (suc i) = hs i

Bytes-end : Bytes (0 ∷ [])
Bytes-end zero = omega arith
Bytes-end (suc i) = omega arith

Bytes-closed : (s : List ℕ) → Bytes s → Bytes (text s ++ 0 ∷ [])
Bytes-closed [] h i = Bytes-end i
Bytes-closed (c ∷ s) h i = elim (Bool-cases (c == 0)) [
  | inl z ↦ rw (z) (Bytes-end i)
  | inr n ↦ rw (n) (Bytes-cons c (text s ++ 0 ∷ []) (h 0) (Bytes-closed s (Bytes-tail c s h)) i)
]

Bytes-stored_name : (name : List ℕ) → Bytes name → Bytes (stored_name name)
Bytes-stored_name name h i = rw (take-strlen name) (Bytes-closed name h i)

-- The comparison of a name with a stored one.
finds_itself : (name : List ℕ) → Bytes name → (strcmp name (stored_name name) == 0) ≡ true
finds_itself name h =
    let same =
      (strcmp_lem name (stored_name name) h (Bytes-stored_name name h)).1
        (sym (text-stored_name name)) in
    ground (arith, same)

finds_no_other :
    (name name' : List ℕ)
    → Bytes name
    → Bytes name'
    → text name' ≢ text name
    → (strcmp name' (stored_name name) == 0) ≡ false
finds_no_other name name' h h' n = elim (Bool-cases (strcmp name' (stored_name name) == 0)) [
  | inl y ↦ absurd (
      n (
        (strcmp_lem name' (stored_name name) h' (Bytes-stored_name name h)).0 (ground arith)
        ∙ text-stored_name name))
  | inr y ↦ y
]

-- The new entry stands behind the head, which has another name.
find-added :
    (name : List ℕ) (d : Dirent) (ds : List Dirent)
    → find_name name ds ≡ none
    → (strcmp name d.name == 0) ≡ true
    → find_name name (add_entry d ds) ≡ some d
unfolding find_name
find-added name d [] e y = rw (y) refl
find-added name d (head ∷ ds) e y = ground arith

find_other :
    (name : List ℕ) (d : Dirent) (ds : List Dirent)
    → (strcmp name d.name == 0) ≡ false
    → find_name name (add_entry d ds) ≡ find_name name ds
unfolding find_name
find_other name d [] n = rw (n) refl
find_other name d (head ∷ ds) n = rw (n) refl

delete-added :
    (name : List ℕ) (d : Dirent) (ds : List Dirent)
    → find_name name ds ≡ none
    → (strcmp name d.name == 0) ≡ true
    → delete_name name (add_entry d ds) ≡ ds
unfolding find_name delete_name
delete-added name d [] e y = rw (y) refl
delete-added name d (head ∷ ds) e y =
    let other : (strcmp name head.name == 0) ≡ false = ground arith in rw (other, y) refl

-- Counts that went up by a link and down by an unlink.
down-up :
    (i : ℕ) (counts : Counts) (k : ℕ)
    → counts k < 2 ^ 32
    → count_down i (count_up i counts) k ≡ counts k
down-up i counts k small = ground arith

set_count-cong :
    (i : ℕ) (f : ℕ → ℕ) (counts counts' : Counts)
    → ((k : ℕ) → counts k ≡ counts' k)
    → (k : ℕ) → set_count i (f (counts i)) counts k ≡ set_count i (f (counts' i)) counts' k
set_count-cong i f counts counts' e k = elim (Bool-cases (k == i)) [
  | inl y ↦ rw (y) (ap f (e i))
  | inr y ↦ rw (y) (e k)
]

small_up :
    (i : ℕ) (counts : Counts)
    → ((k : ℕ) → counts k < 2 ^ 32)
    → (k : ℕ) → count_up i counts k < 2 ^ 32
small_up i counts small k = elim (Bool-cases (k == i)) [
  | inl y ↦ rw (y) (omega arith)
  | inr y ↦ rw (y) (small k)
]

counts_back :
    (i j : ℕ) (counts : Counts)
    → ((k : ℕ) → counts k < 2 ^ 32)
    → (k : ℕ) → count_down i (count_down j (count_up j (count_up i counts))) k ≡ counts k
counts_back i j counts small k =
    set_count-cong i (λ n. sub32 n 1) (count_down j (count_up j (count_up i counts)))
      (count_up i counts) (λ m. down-up j (count_up i counts) m (small_up i counts small m)) k
    ∙ down-up i counts k (small k)

-- A link of a name that is not in the directory makes lookup find the inode under it, and leaves what
-- lookup finds under every other name; an unlink of the name then succeeds, and gives back the entries
-- and the counts of references on the disk as they were before the link.
pub unlink-link :
    (this inode : ℕ) (name : List ℕ) (dir : RamDir) (counts : Counts)
    → Bytes name
    → find_name name dir.entries ≡ none
    → ((k : ℕ) → counts k < 2 ^ 32)
    → let (dir', counts') = ramdisk_link this name inode dir counts in
      let (code, dir'', counts'') = ramdisk_unlink this name dir' counts' in
      (ramdisk_lookup dir' name ≡ (0, inode))
      × ((name' : List ℕ)
          → Bytes name'
          → text name' ≢ text name
          → ramdisk_lookup dir' name' ≡ ramdisk_lookup dir name')
      × (code ≡ 0)
      × (dir''.entries ≡ dir.entries)
      × ((k : ℕ) → counts'' k ≡ counts k)
unlink-link this inode name dir counts h e small =
    let d : Dirent = record {
      name = stored_name name;
      inode = inode;
      creat_order = add32 dir.top_creat_order 1;
    } in
    let found = find-added name d dir.entries e (finds_itself name h) in
    (
      rw (ramdisk_lookup, found) refl,
      (λ name' h' n.
          rw (ramdisk_lookup, find_other name' d dir.entries (finds_no_other name name' h h' n))
            refl),
      rw (ramdisk_unlink, found) refl,
      rw (ramdisk_unlink, found) (delete-added name d dir.entries e (finds_itself name h)),
      rw (ramdisk_unlink, found) (counts_back this inode counts small),
    )
