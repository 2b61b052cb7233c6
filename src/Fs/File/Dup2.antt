-- ===== src/Fs/File/Dup2.antt =====
-- sys_dup2.
use mathlib.Core.Path.{subst}
use haoud_os.Base.{
  ℕ, ◌+◌, ◌^◌, ◌<◌, ◌≤◌, ◌≡◌, ◌≢◌, inl, inr, true, false, none, some, length, ◌==◌, neg32, add32,
  Exec, ok, ◌>>=◌, arith, refl, sym, ap, ◌∙◌, Option-cases, in_or_out, decide_equal,
}
use haoud_os.Fs.File.{
  OpenFile, Store, file, table, entry, set_entry, max_opened_file, is_valid_fd, ref_open_file,
  unref_open_file, drop_entry, sys_dup2,
}
use haoud_os.Fs.File.Counting.{
  Owes, InodesHeld, Sound, Fits-set_entry, Owes-set_entry, in_store, ref-set_ref,
}
use haoud_os.Fs.File.Reference.{Owes-ref_open_file, InodesHeld-ref_open_file, Owes-set_ref}
use haoud_os.Fs.File.Release.{unreferenced, Unreferences, unref_open_file_lem}
use haoud_os.Fs.File.Close.{InTable, ref_positive}
use haoud_os.Fs.File.Dup.{Sound-dup}

-- The new descriptor stands for the file of the old one, and every other entry is as it was.
pub data Dupped2 (oldfd newfd : ℕ) (s : Store) : ℕ × Store → Type 0 where
  dupped :
      (f : ℕ) (u : Store)
      → entry s s.current oldfd ≡ some f
      → oldfd ≢ newfd
      → u.tables ≡ (set_entry s.current newfd (some f) s).tables
      → Sound u
      → Dupped2 oldfd newfd s (newfd, u)
  same : oldfd ≡ newfd → Dupped2 oldfd newfd s (newfd, s)
  not_open : entry s s.current oldfd ≡ none → Dupped2 oldfd newfd s (neg32 10, s)
  old_out_of_range : max_opened_file ≤ oldfd → Dupped2 oldfd newfd s (neg32 4, s)
  new_out_of_range : max_opened_file ≤ newfd → Dupped2 oldfd newfd s (neg32 4, s)

ref_after_ref :
    (f g : ℕ) (s : Store)
    → 0 < (file s f).ref
    → (file s f).ref + 1 < 2 ^ 32
    → 0 < (file s g).ref
    → (0 < (file (ref_open_file f s) g).ref)
      × ((file (ref_open_file f s) g).ref ≤ (file s g).ref + 1)
ref_after_ref f g s h small hg =
    elim (ref-set_ref f (add32 (file s f).ref 1) g s (in_store f s h)) [
      | inl (n, e) ↦ (omega (arith, ap OpenFile.ref e), omega (arith, ap OpenFile.ref e))
      | inr (e', e) ↦ (omega (arith, e), omega (arith, e, ap (λ i. (file s i).ref) e'))
    ]

module _ (close : ℕ → ℕ) (oldfd newfd f : ℕ) (s : Store) (sound : Sound s) (inside : InTable s)
    (old_valid : oldfd < max_opened_file) (new_valid : newfd < max_opened_file)
    (other : oldfd ≢ newfd) (e : entry s s.current oldfd ≡ some f) where
  steps : sys_dup2 close oldfd newfd s ≡ (
      drop_entry close newfd (ref_open_file f s)
      >>= (λ s'. ok (newfd, set_entry s.current newfd (some f) s')))
  unfolding sys_dup2
  steps =
      let v : is_valid_fd oldfd ≡ true = ground arith in
      let v' : is_valid_fd newfd ≡ true = ground arith in
      let d : (newfd == oldfd) ≡ false = ground arith in rw (v, v', d, e) refl

  bounds : (0 < (file s f).ref) × ((file s f).ref + 1 < 2 ^ 32)
  bounds = ref_positive f s.current oldfd s sound inside.process (omega (arith, inside.entries)) e

  into_free :
      entry s s.current newfd ≡ none
      → (z : ℕ × Store) × (sys_dup2 close oldfd newfd s ≡ ok z) × Dupped2 oldfd newfd s z
  into_free free =
      let u = set_entry s.current newfd (some f) (ref_open_file f s) in
      (
        (newfd, u),
        steps ∙ rw (drop_entry, free) refl,
        dupped f u e other refl (
            Sound-dup f s.current newfd s sound bounds.0 bounds.1 inside.process
              (omega (arith, inside.entries)) free),
      )

  replaced :
      (g : ℕ) (r : Exec (ℕ × Store))
      → entry s s.current newfd ≡ some g
      → Unreferences close g (ref_open_file f s) r
      → (z : ℕ × Store) × (((r >>= (λ q. ok q.1))
            >>= (λ s'. ok (newfd, set_entry s.current newfd (some f) s')))
          ≡ ok z)
        × Dupped2 oldfd newfd s z
  unfolding Unreferences Owes InodesHeld
  replaced g r eg (c, counts, events, er, held, _, _) =
      let t = ref_open_file f s in
      let v = unreferenced g counts events t in
      let u = set_entry s.current newfd (some f) v in
      let hf : newfd < length (table s s.current) = omega (arith, inside.entries) in
      let (positive, small) = ref_positive g s.current newfd s sound inside.process hf eg in
      let (gp, gs) = ref_after_ref f g s bounds.0 bounds.1 positive in
      let taken : Owes (some f) none t =
        Owes-ref_open_file f none s (in_store f s bounds.0) bounds.1 sound.refs in
      let owes : Owes (some f) (some g) v = Owes-set_ref g (some f) t gp (omega arith) taken in
      (
        (newfd, u),
        ap
            (λ x.
              (x >>= (λ q. ok q.1)) >>= (λ s'. ok (newfd, set_entry s.current newfd (some f) s')))
            er,
        dupped f u e other refl (record {
          refs =
              Owes-set_entry s.current newfd (some f) v inside.process hf
                (subst (λ o. Owes (some f) o v) (sym eg) owes);
          inodes = held;
          fits = Fits-set_entry s.current newfd (some f) v inside.process sound.fits;
        }),
      )

  drop_steps :
      (g : ℕ)
      → entry s s.current newfd ≡ some g
      → drop_entry close newfd (ref_open_file f s)
        ≡ (unref_open_file close g (ref_open_file f s) >>= (λ q. ok q.1))
  drop_steps g eg = rw (drop_entry, eg) refl

  into_used :
      (g : ℕ)
      → entry s s.current newfd ≡ some g
      → (z : ℕ × Store) × (sys_dup2 close oldfd newfd s ≡ ok z) × Dupped2 oldfd newfd s z
  into_used g eg =
      let t = ref_open_file f s in
      let hf : newfd < length (table s s.current) = omega (arith, inside.entries) in
      let (positive, small) = ref_positive g s.current newfd s sound inside.process hf eg in
      let (gp, gs) = ref_after_ref f g s bounds.0 bounds.1 positive in
      let held = InodesHeld-ref_open_file f s bounds.0 bounds.1 sound.inodes in
      let (z, ez, result) =
        replaced g (unref_open_file close g t) eg
          (unref_open_file_lem close g t gp (omega arith) held) in
      (
        z,
        steps
            ∙ ap (λ x. x >>= (λ s'. ok (newfd, set_entry s.current newfd (some f) s')))
                (drop_steps g eg)
            ∙ ez,
        result,
      )

  opened : (z : ℕ × Store) × (sys_dup2 close oldfd newfd s ≡ ok z) × Dupped2 oldfd newfd s z
  opened = elim (Option-cases (entry s s.current newfd)) [
    | inl free ↦ into_free free
    | inr (g, eg) ↦ into_used g eg
  ]

module _ (close : ℕ → ℕ) (oldfd newfd : ℕ) (s : Store) where
  old_out : max_opened_file ≤ oldfd → sys_dup2 close oldfd newfd s ≡ ok (neg32 4, s)
  unfolding sys_dup2
  old_out h = let v : is_valid_fd oldfd ≡ false = ground arith in rw (v) refl

  new_out :
      oldfd < max_opened_file
      → max_opened_file ≤ newfd
      → sys_dup2 close oldfd newfd s ≡ ok (neg32 4, s)
  unfolding sys_dup2
  new_out h h' =
      let v : is_valid_fd oldfd ≡ true = ground arith in
      let v' : is_valid_fd newfd ≡ false = ground arith in rw (v, v') refl

  same_fd : oldfd < max_opened_file → oldfd ≡ newfd → sys_dup2 close oldfd newfd s ≡ ok (newfd, s)
  unfolding sys_dup2
  same_fd h e =
      let v : is_valid_fd oldfd ≡ true = ground arith in
      let v' : is_valid_fd newfd ≡ true = ground arith in
      let d : (newfd == oldfd) ≡ true = ground arith in rw (v, v', d) refl

  nothing :
      oldfd < max_opened_file
      → newfd < max_opened_file
      → oldfd ≢ newfd
      → entry s s.current oldfd ≡ none
      → sys_dup2 close oldfd newfd s ≡ ok (neg32 10, s)
  unfolding sys_dup2
  nothing h h' n e =
      let v : is_valid_fd oldfd ≡ true = ground arith in
      let v' : is_valid_fd newfd ≡ true = ground arith in
      let d : (newfd == oldfd) ≡ false = ground arith in rw (v, v', d, e) refl

  in_range :
      Sound s
      → InTable s
      → oldfd < max_opened_file
      → newfd < max_opened_file
      → (z : ℕ × Store) × (sys_dup2 close oldfd newfd s ≡ ok z) × Dupped2 oldfd newfd s z
  in_range sound inside h h' = elim (decide_equal oldfd newfd) [
    | inl e ↦ ((newfd, s), same_fd h e, same e)
    | inr n ↦ elim (Option-cases (entry s s.current oldfd)) [
      | inl e ↦ ((neg32 10, s), nothing h h' n e, not_open e)
      | inr (f, e) ↦ opened close oldfd newfd f s sound inside h h' n e
    ]
  ]

  -- In a sound store, for a process whose table has its 32 entries, `sys_dup2` never panics. The
  -- new descriptor then stands for the file of the old one, all other entries are as before, and
  -- the references of every file are its descriptors, so the file that was replaced has lost one.
  -- If the numbers are equal, out of range, or the old one is not open, nothing changes.
  pub sys_dup2_lem :
      Sound s
      → InTable s
      → (z : ℕ × Store) × (sys_dup2 close oldfd newfd s ≡ ok z) × Dupped2 oldfd newfd s z
  sys_dup2_lem sound inside = elim (in_or_out oldfd max_opened_file) [
    | inr out ↦ ((neg32 4, s), old_out out, old_out_of_range out)
    | inl h ↦ elim (in_or_out newfd max_opened_file) [
      | inr out ↦ ((neg32 4, s), new_out h out, new_out_of_range out)
      | inl h' ↦ in_range sound inside h h'
    ]
  ]
