-- ===== src/Fs/File/Tests.antt =====
-- Two processes; the first has one file open.
use haoud_os.Base.{
  ℕ, zero, suc, ◌≡◌, some, none, [], ◌∷◌, replicate, get_or-replicate, length, refl, arith, ok,
}
use haoud_os.Fs.File.{
  Store, table, entry, register_open_file, sys_dup, sys_dup2, sys_close, duplicate_fd_struct,
  find_free_fd,
}
use haoud_os.Fs.File.Counting.{Owes, InodesHeld, Sound}
use haoud_os.Fs.File.Close.{InTable, Closed, sys_close_lem}
use haoud_os.Fs.File.Dup.{Dupped, sys_dup_lem}
use haoud_os.Fs.File.Dup2.{Dupped2, sys_dup2_lem}
use haoud_os.Fs.File.Fork.{AllUsed, Room, duplicate_fd_struct-Sound}

abbrev two : Store
two = record {
  files = record { ref = 1; inode = 0; open_flags = 0; generation = 1 } ∷ [];
  memory_counts = 2 ∷ [];
  tables = (some 0 ∷ replicate 31 none) ∷ replicate 32 none ∷ [];
  current = 0;
  events = [];
}

abbrev close : ℕ → ℕ
close f = 0

two-Owes : Owes none none two
unfolding Owes
two-Owes zero = refl
two-Owes (suc g) = ground arith

two-InodesHeld : InodesHeld two
unfolding InodesHeld
two-InodesHeld zero = omega arith
two-InodesHeld (suc i) = ground arith

two-Sound : Sound two
two-Sound = record { refs = two-Owes; inodes = two-InodesHeld; fits = omega arith }

two-InTable : InTable two
two-InTable = record { process = omega arith; entries = refl }

sys_close_lem_example : (z : ℕ × Store) × (sys_close close 0 two ≡ ok z) × Closed close 0 two z
sys_close_lem_example = sys_close_lem close 0 two two-Sound two-InTable

sys_dup_lem_example : Dupped 0 two (sys_dup 0 two)
sys_dup_lem_example = sys_dup_lem 0 two two-Sound two-InTable

free_from : (k : ℕ) → entry two 1 k ≡ none
free_from k = get_or-replicate 32 k none

two-Room : Room 1 0 (length (table two 0)) two
two-Room = record { process = omega arith; entries = omega arith; free = λ k h. free_from k }

two-AllUsed : AllUsed (table two 0) two
unfolding AllUsed
two-AllUsed = (omega arith, refl)

duplicate_fd_struct-Sound_example : Sound (duplicate_fd_struct 0 1 two)
duplicate_fd_struct-Sound_example = duplicate_fd_struct-Sound 0 1 two two-Sound two-Room two-AllUsed

sys_dup2_lem_example : (z : ℕ × Store) × (sys_dup2 close 0 5 two ≡ ok z) × Dupped2 0 5 two z
sys_dup2_lem_example = sys_dup2_lem close 0 5 two two-Sound two-InTable

-- The descriptor found is the first free one.
dup_fd : let (fd, s) = sys_dup 0 two in fd ≡ 1
unfolding find_free_fd register_open_file sys_dup
dup_fd = refl
