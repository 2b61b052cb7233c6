-- ===== src/Fs/Mount.antt =====
-- The table of mounted super blocks, core/fs/super.c: a drive letter for each.
pub mod Table
use haoud_os.Base.{
  ℕ, ◌-◌, Bool, true, false, Option, none, some, List, [], ◌∷◌, ◌==◌, if◌then◌else◌, get_or, set,
  replicate, Exec, ok, panic, ◌>>=◌,
}
use haoud_os.Stdlib.{is_letter, is_lower}

-- A super block and the file system it belongs to, by their addresses.
pub record SuperBlock : Type 0 where
  pub id : ℕ
  pub fs : ℕ

-- `mount_point`, and the `super_list` of each file system from its head on.
pub record Mounts : Type 0 where
  pub mount_point : List (Option SuperBlock)
  pub super_list : ℕ → List ℕ

abbrev pub max_mount : ℕ
max_mount = 26

unfoldable pub init_mount_list : Mounts → Mounts
init_mount_list m = record m { mount_point = replicate max_mount none }

unfoldable pub letter_to_index : ℕ → Exec ℕ
letter_to_index drive_letter =
    if is_letter drive_letter
    then ok (if is_lower drive_letter then drive_letter - 97 else drive_letter - 65)
    else panic

unfoldable pub get_super : ℕ → Mounts → Exec (Option SuperBlock)
get_super drive m = letter_to_index drive >>= (λ i. ok (get_or m.mount_point i none))

-- `list_singleton` and `list_add_after`, at the head.
abbrev pub list_add_after : List ℕ → ℕ → List ℕ
list_add_after [] item = item ∷ []
list_add_after (head ∷ rest) item = head ∷ item ∷ rest

-- `list_delete`
abbrev pub list_delete : ℕ → List ℕ → List ℕ
list_delete item [] = []
list_delete item (x ∷ xs) = if x == item then xs else x ∷ list_delete item xs

abbrev pub change_list : ℕ → (List ℕ → List ℕ) → (ℕ → List ℕ) → ℕ → List ℕ
change_list fs g lists f = if f == fs then g (lists f) else lists f

abbrev pub mounted : SuperBlock → ℕ → Mounts → Mounts
mounted super i m = record {
  mount_point = set m.mount_point i (some super);
  super_list = change_list super.fs (λ l. list_add_after l super.id) m.super_list;
}

abbrev pub unmounted : SuperBlock → ℕ → Mounts → Mounts
unmounted super i m = record {
  mount_point = set m.mount_point i none;
  super_list = change_list super.fs (list_delete super.id) m.super_list;
}

-- What the slot of the letter holds decides.
abbrev pub mount_at : SuperBlock → ℕ → Mounts → Option SuperBlock → Exec Mounts
mount_at super i m none = ok (mounted super i m)
mount_at super i m (some used) = panic

unfoldable pub add_super : SuperBlock → ℕ → Mounts → Exec Mounts
add_super super drive_letter m =
    letter_to_index drive_letter >>= (λ i. mount_at super i m (get_or m.mount_point i none))

abbrev pub unmount_at : ℕ → Mounts → Option SuperBlock → Exec Mounts
unmount_at i m none = panic
unmount_at i m (some to_remove) = ok (unmounted to_remove i m)

unfoldable pub remove_super : ℕ → Mounts → Exec Mounts
remove_super drive_letter m =
    letter_to_index drive_letter >>= (λ i. unmount_at i m (get_or m.mount_point i none))
