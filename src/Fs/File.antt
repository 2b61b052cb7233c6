-- ===== src/Fs/File.antt =====
-- Open files, core/fs/file.c with the reference count of core/fs/inode.c, and the system calls on
-- descriptors, core/syscall/sys_dup.c, sys_dup2.c and sys_close.c. Pointers to files and inodes are
-- indexes. What the file system does when a file is closed or an inode deleted is noted as an event;
-- `close` says which code its `close_file` returns.
pub mod Counting
pub mod Register
pub mod Reference
pub mod Inode
pub mod Release
pub mod Close
pub mod Dup
pub mod Dup2
pub mod Fork
mod Tests
use haoud_os.Base.{
  ℕ, zero, suc, ◌+◌, ◌-◌, Bool, true, false, not, Option, none, some, List, [], ◌∷◌, get_or, set,
  replicate, ltb, leb, ◌==◌, if◌then◌else◌, add32, sub32, neg32, Exec, ok, panic, fault, ◌>>=◌,
}

pub record OpenFile : Type 0 where
  pub ref : ℕ
  pub inode : ℕ
  pub open_flags : ℕ
  pub generation : ℕ

pub data Event : Type 0 where
  -- `f->inode->close_file(f->inode, f)`
  closes : ℕ → Event
  -- the inode is written back and destroyed
  deletes : ℕ → Event

-- Files, the inodes' `memory_count`, the descriptor table of each process, and `current`.
pub record Store : Type 0 where
  pub files : List OpenFile
  pub memory_counts : List ℕ
  pub tables : List (List (Option ℕ))
  pub current : ℕ
  pub events : List Event

abbrev pub zero_file : OpenFile
zero_file = record { ref = 0; inode = 0; open_flags = 0; generation = 0 }

abbrev pub file : Store → ℕ → OpenFile
file s f = get_or s.files f zero_file

abbrev pub memory_count : Store → ℕ → ℕ
memory_count s i = get_or s.memory_counts i 0

abbrev pub table : Store → ℕ → List (Option ℕ)
table s p = get_or s.tables p []

abbrev pub entry : Store → ℕ → ℕ → Option ℕ
entry s p fd = get_or (table s p) fd none

abbrev pub set_entry : ℕ → ℕ → Option ℕ → Store → Store
set_entry p fd o s = record s { tables = set s.tables p (set (table s p) fd o) }

abbrev pub max_opened_file : ℕ
max_opened_file = 32

abbrev pub set_ref : ℕ → ℕ → Store → Store
set_ref f n s = record s { files = set s.files f (record (file s f) { ref = n }) }

abbrev pub ref_open_file : ℕ → Store → Store
ref_open_file f s = set_ref f (add32 (file s f).ref 1) s

abbrev pub ref_inode : ℕ → Store → Store
ref_inode i s = record s { memory_counts = set s.memory_counts i (add32 (memory_count s i) 1) }

unfoldable pub unref_inode : ℕ → Store → Exec Store
unref_inode i s =
    let less = record s { memory_counts = set s.memory_counts i (memory_count s i - 1) } in
    if memory_count s i == 1
    then ok (record less { events = deletes i ∷ s.events })
    else if memory_count s i == 0
    then panic
    else ok less

module _ (close : ℕ → ℕ) where
  -- `delete_fd`: the code is that of `close_file`.
  abbrev pub delete_fd : ℕ → Store → Exec (ℕ × Store)
  delete_fd f s =
      unref_inode (file s f).inode (record s { events = closes f ∷ s.events })
      >>= (λ s'. ok (close f, s'))

  unfoldable pub unref_open_file : ℕ → Store → Exec (ℕ × Store)
  unref_open_file f s =
      let less = set_ref f (sub32 (file s f).ref 1) s in
      if (file s f).ref == 0
      then panic
      else if (file less f).ref == 0
      then delete_fd f less
      else ok (0, less)

abbrev pub init_fd_struct : ℕ → Store → Store
init_fd_struct p s = record s { tables = set s.tables p (replicate max_opened_file none) }

unfoldable pub unregister_open_file : ℕ → ℕ → Store → Exec (ℕ × Store)
unregister_open_file p fd s =
    if leb max_opened_file fd
    then ok (neg32 4, s)
    else elim (entry s p fd) [ none ↦ panic | some f ↦ ok (0, set_entry p fd none s) ]

-- The code, and `*result`.
abbrev pub get_open_file : ℕ → ℕ → Store → ℕ × Option ℕ
get_open_file p fd s = if leb max_opened_file fd then (neg32 4, none) else (0, entry s p fd)

-- The first free entry, from index `i` on.
unfoldable pub find_free_fd : ℕ → List (Option ℕ) → Option ℕ
find_free_fd i [] = none
find_free_fd i (none ∷ os) = some i
find_free_fd i (some f ∷ os) = find_free_fd (i + 1) os

-- The code (`ERR_NOT_FOUND`, without the sign) and the index, -1 for none.
abbrev pub found_free_process_fd : ℕ → Store → ℕ × ℕ
found_free_process_fd p s = elim (find_free_fd 0 (table s p)) [
  | none ↦ (3, neg32 1)
  | some i ↦ (0, i)
]

-- The code, the index, and the store.
unfoldable pub register_open_file : ℕ → ℕ → Store → ℕ × ℕ × Store
register_open_file p f s =
    let (ret, fd_index) = found_free_process_fd p s in
    if not (ret == 0) then (ret, 0, s) else (0, fd_index, set_entry p fd_index (some f) s)

-- A descriptor number is an `int`: what is negative is above 31 as a word.
abbrev pub is_valid_fd : ℕ → Bool
is_valid_fd fd = leb fd 31

unfoldable pub sys_dup : ℕ → Store → ℕ × Store
sys_dup oldfd s = if not (is_valid_fd oldfd) then (neg32 4, s) else elim (entry s s.current oldfd) [
  | none ↦ (neg32 10, s)
  | some f ↦
      let (ret, fd, s') = register_open_file s.current f (ref_open_file f s) in
      if not (ret == 0) then (ret, s') else (fd, s')
]

module _ (close : ℕ → ℕ) where
  -- The entry that is overwritten loses its file.
  abbrev pub drop_entry : ℕ → Store → Exec Store
  drop_entry fd s = elim (entry s s.current fd) [
    | none ↦ ok s
    | some g ↦ unref_open_file close g s >>= (λ r. ok r.1)
  ]

  unfoldable pub sys_dup2 : ℕ → ℕ → Store → Exec (ℕ × Store)
  sys_dup2 oldfd newfd s =
      if not (is_valid_fd oldfd)
      then ok (neg32 4, s)
      else if not (is_valid_fd newfd)
      then ok (neg32 4, s)
      else if newfd == oldfd
      then ok (newfd, s)
      else elim (entry s s.current oldfd) [
        | none ↦ ok (neg32 10, s)
        | some f ↦
            drop_entry newfd (ref_open_file f s)
            >>= (λ s'. ok (newfd, set_entry s.current newfd (some f) s'))
      ]

  unfoldable pub sys_close : ℕ → Store → Exec (ℕ × Store)
  sys_close fd s =
      let (ret, to_close) = get_open_file s.current fd s in
      if not (ret == 0) then ok (ret, s) else elim to_close [
        | none ↦ ok (neg32 4, s)
        | some f ↦
            unregister_open_file s.current fd s
            >>= (λ r. unref_open_file close f r.1 >>= (λ r'. ok (0, r'.1)))
      ]

-- The loop of duplicate_fd_struct, entry by entry.
unfoldable pub copy_entries : ℕ → ℕ → List (Option ℕ) → Store → Store
copy_entries to i [] s = s
copy_entries to i (none ∷ os) s = copy_entries to (i + 1) os s
copy_entries to i (some f ∷ os) s =
    copy_entries to (i + 1) os (ref_open_file f (set_entry to i (some f) s))

abbrev pub duplicate_fd_struct : ℕ → ℕ → Store → Store
duplicate_fd_struct modele copieur s = copy_entries copieur 0 (table s modele) s

-- new_opened_file: `opened` is what the inode's `open_file` returns, the index of a new file or a code.
abbrev pub opened_file : ℕ → ℕ → ℕ → OpenFile
opened_file inode flags now = record {
  ref = 1;
  inode = inode;
  open_flags = flags;
  generation = now;
}

unfoldable pub new_opened_file : ℕ → ℕ → ℕ → (ℕ × Option ℕ) → Store → ℕ × Option ℕ × Store
new_opened_file inode flags now opened s =
    let (ret, result) = opened in
    elim result [
      | none ↦ (ret, none, s)
      | some f ↦ (
        0,
        some f,
        ref_inode inode (record s { files = set s.files f (opened_file inode flags now) }),
      )
    ]
