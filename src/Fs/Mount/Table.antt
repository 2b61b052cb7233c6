-- ===== src/Fs/Mount/Table.antt =====
-- Entries and removals in the table of core/fs/super.c.
use haoud_os.Base.{
  ℕ, ◌+◌, ◌<◌, ◌≡◌, refl, ap, ◌∙◌, inl, inr, true, false, none, some, List, [], ◌∷◌, length, ◌==◌,
  Bool-cases, get_or, get_or-set_self, set-set, set-get_or, ok, arith,
}
use haoud_os.Fs.Mount.{
  SuperBlock, Mounts, letter_to_index, get_super, list_add_after, list_delete, mounted, unmounted,
  mount_at, add_super, unmount_at, remove_super,
}

list_delete-list_add_after :
    (item : ℕ) (xs : List ℕ)
    → (get_or xs 0 (item + 1) == item) ≡ false
    → list_delete item (list_add_after xs item) ≡ xs
list_delete-list_add_after item [] h =
    let same : (item == item) ≡ true = ground arith in rw same refl
list_delete-list_add_after item (x ∷ xs) h =
    let same : (item == item) ≡ true = ground arith in rw (h, same) refl

pub letter_to_index-lt : (letter i : ℕ) → letter_to_index letter ≡ ok i → i < 26
unfolding letter_to_index
letter_to_index-lt letter i e = ground arith

-- A super block whose letter is free and which does not stand at the head of its file system's list can
-- be mounted; its letter then leads to it, and its removal restores the table and each list.
pub remove-add_super :
    (super : SuperBlock) (letter i : ℕ) (m : Mounts)
    → letter_to_index letter ≡ ok i
    → length m.mount_point ≡ 26
    → get_or m.mount_point i none ≡ none
    → (get_or (m.super_list super.fs) 0 (super.id + 1) == super.id) ≡ false
    → (entered : Mounts) × (add_super super letter m ≡ ok entered)
      × (get_super letter entered ≡ ok (some super))
      × ((left : Mounts) × (remove_super letter entered ≡ ok left)
          × (left.mount_point ≡ m.mount_point)
          × ((fs : ℕ) → left.super_list fs ≡ m.super_list fs))
unfolding add_super remove_super get_super
remove-add_super super letter i m e size free other =
    let h : i < length m.mount_point = omega (arith, letter_to_index-lt letter i e, size) in
    let there = get_or-set_self m.mount_point i (some super) none h in
    (
      mounted super i m,
      rw e (ap (mount_at super i m) free),
      rw e (ap ok there),
      (
        unmounted super i (mounted super i m),
        rw e (ap (unmount_at i (mounted super i m)) there),
        set-set m.mount_point i (some super) none ∙ set-get_or m.mount_point i none none free h,
        (λ fs. elim (Bool-cases (fs == super.fs)) [
          | inl same ↦
              let at : fs ≡ super.fs = ground arith in
              rw (same, at) (list_delete-list_add_after super.id (m.super_list super.fs) other)
          | inr differs ↦ rw differs refl
        ]),
      ),
    )
