-- ===== src/Fs/File/Fork.antt =====
-- duplicate_fd_struct: the descriptors of a process that is copied.
use haoud_os.Base.{
  ℕ, zero, suc, ◌+◌, ◌^◌, ◌<◌, ◌≤◌, ◌≡◌, inl, inr, Option, none, some, List, [], ◌∷◌, get_or, set,
  length, add32, arith, ap, ◌∙◌, length-set, get_or-set_ne, get_or-set_self,
}
use haoud_os.Fs.File.{
  OpenFile, Store, file, table, entry, set_entry, ref_open_file, copy_entries, duplicate_fd_struct,
}
use haoud_os.Fs.File.Counting.{Owes, Sound, holders-small, in_store, ref-set_ref}
use haoud_os.Fs.File.Dup.{Sound-dup}

-- The files of the entries are in use.
unfoldable pub AllUsed : List (Option ℕ) → Store → Type 0
AllUsed [] s = 0 ≡ zero
AllUsed (none ∷ os) s = AllUsed os s
AllUsed (some f ∷ os) s = (0 < (file s f).ref) × AllUsed os s

-- Where the copy goes: entries that are free from `i` on.
pub record Room (to i n : ℕ) (s : Store) : Type 0 where
  pub process : to < length s.tables
  pub entries : i + n ≤ length (table s to)
  pub free : (k : ℕ) → i ≤ k → entry s to k ≡ none

abbrev copied : ℕ → ℕ → ℕ → Store → Store
copied to i f s = ref_open_file f (set_entry to i (some f) s)

positive_after :
    (f g : ℕ) (s : Store)
    → 0 < (file s f).ref
    → (file s f).ref + 1 < 2 ^ 32
    → 0 < (file s g).ref
    → 0 < (file (ref_open_file f s) g).ref
positive_after f g s h small hg =
    elim (ref-set_ref f (add32 (file s f).ref 1) g s (in_store f s h)) [
      | inl (n, e) ↦ omega (arith, ap OpenFile.ref e)
      | inr (_, e) ↦ omega (arith, e)
    ]

AllUsed-copied :
    (os : List (Option ℕ)) (to i f : ℕ) (s : Store)
    → 0 < (file s f).ref
    → (file s f).ref + 1 < 2 ^ 32
    → AllUsed os s
    → AllUsed os (copied to i f s)
unfolding AllUsed
AllUsed-copied [] to i f s h small used = used
AllUsed-copied (none ∷ os) to i f s h small used = AllUsed-copied os to i f s h small used
AllUsed-copied (some g ∷ os) to i f s h small (positive, used) =
    (positive_after f g s h small positive, AllUsed-copied os to i f s h small used)

table_after :
    (to i f : ℕ) (s : Store)
    → to < length s.tables
    → table (copied to i f s) to ≡ set (table s to) i (some f)
table_after to i f s h = get_or-set_self s.tables to (set (table s to) i (some f)) [] h

Room-copied : (to i n f : ℕ) (s : Store) → Room to i (suc n) s → Room to (i + 1) n (copied to i f s)
Room-copied to i n f s room = record {
  process = omega (arith, room.process, length-set s.tables to (set (table s to) i (some f)));
  entries = omega (
    arith,
    room.entries,
    ap length (table_after to i f s room.process),
    length-set (table s to) i (some f),
  );
  free = λ k h.
      ap (λ t. get_or t k none) (table_after to i f s room.process)
      ∙ get_or-set_ne (table s to) i k (some f) none (λ e. omega arith)
      ∙ room.free k (omega arith);
}

Room-skip : (to i n : ℕ) (s : Store) → Room to i (suc n) s → Room to (i + 1) n s
Room-skip to i n s room = record {
  process = room.process;
  entries = omega (arith, room.entries);
  free = λ k h. room.free k (omega arith);
}

ref_small : (f : ℕ) (s : Store) → Sound s → (file s f).ref + 1 < 2 ^ 32
unfolding Owes
ref_small f s sound = omega (arith, sound.refs f, holders-small f s sound.fits)

copy_entries-Sound :
    (os : List (Option ℕ)) (to i : ℕ) (s : Store)
    → Sound s
    → Room to i (length os) s
    → AllUsed os s
    → Sound (copy_entries to i os s)
unfolding copy_entries AllUsed
copy_entries-Sound [] to i s sound room used = sound
copy_entries-Sound (none ∷ os) to i s sound room used =
    copy_entries-Sound os to (i + 1) s sound (Room-skip to i (length os) s room) used
copy_entries-Sound (some f ∷ os) to i s sound room (positive, used) =
    let small = ref_small f s sound in
    copy_entries-Sound os to (i + 1) (copied to i f s)
      (Sound-dup f to i s sound positive small room.process (omega (arith, room.entries))
        (room.free i (omega arith)))
      (Room-copied to i (length os) f s room) (AllUsed-copied os to i f s positive small used)

-- In a sound store, copying the descriptors of a process, all for files in use, into a table that
-- is empty and has room for them keeps the store sound.
pub duplicate_fd_struct-Sound :
    (modele copieur : ℕ) (s : Store)
    → Sound s
    → Room copieur 0 (length (table s modele)) s
    → AllUsed (table s modele) s
    → Sound (duplicate_fd_struct modele copieur s)
duplicate_fd_struct-Sound modele copieur s sound room used =
    copy_entries-Sound (table s modele) copieur 0 s sound room used
