-- ===== src/Fs/File/Close.antt =====
-- sys_close, and the store after it.
use mathlib.Core.Path.{subst}
use haoud_os.Base.{
  ℕ, ◌+◌, ◌^◌, ◌<◌, ◌≤◌, ◌≡◌, inl, inr, true, false, none, some, List, [], length, leb, neg32, Exec,
  ok, ◌>>=◌, arith, refl, ap, ◌∙◌, Option-cases, in_or_out, total, get_or-le_total,
}
use haoud_os.Fs.File.{
  Store, Event, file, table, entry, set_entry, max_opened_file, unref_open_file,
  unregister_open_file, sys_close,
}
use haoud_os.Fs.File.Counting.{
  points, holders, Owes, InodesHeld, Fits, Sound, holders-small, Fits-set_entry, Owes-clear_entry,
}
use haoud_os.Fs.File.Reference.{Owes-set_ref, Owes-cancel}
use haoud_os.Fs.File.Release.{unreferenced, Unreferences, unref_open_file_lem}

-- A process whose table has its 32 entries.
pub record InTable (s : Store) : Type 0 where
  pub process : s.current < length s.tables
  pub entries : length (table s s.current) ≡ max_opened_file

points-le_holders :
    (g p fd : ℕ) (s : Store)
    → p < length s.tables
    → fd < length (table s p)
    → points g (entry s p fd) ≤ holders g s
points-le_holders g p fd s hp hf = omega (
  arith,
  get_or-le_total (total (points g)) s.tables p [] hp,
  get_or-le_total (points g) (table s p) fd none hf,
)

points-entry : (g p fd : ℕ) (s : Store) → entry s p fd ≡ some g → points g (entry s p fd) ≡ 1
points-entry g p fd s e = rw (e) (ground arith)

-- A file that a descriptor stands for is in use.
pub ref_positive :
    (g p fd : ℕ) (s : Store)
    → Sound s
    → p < length s.tables
    → fd < length (table s p)
    → entry s p fd ≡ some g
    → (0 < (file s g).ref) × ((file s g).ref + 1 < 2 ^ 32)
unfolding Owes
ref_positive g p fd s sound hp hf e =
    let held = points-le_holders g p fd s hp hf in
    let one = points-entry g p fd s e in
    (omega (arith, sound.refs g), omega (arith, sound.refs g, holders-small g s sound.fits))

-- The store after an unref, of which one reference was in hand.
pub Sound-unreferenced :
    (f : ℕ) (counts : List ℕ) (events : List Event) (t : Store)
    → 0 < (file t f).ref
    → (file t f).ref < 2 ^ 32
    → Owes (some f) none t
    → Fits t
    → InodesHeld (unreferenced f counts events t)
    → Sound (unreferenced f counts events t)
unfolding Owes InodesHeld
Sound-unreferenced f counts events t h small owes fits held = record {
  refs = Owes-cancel f (unreferenced f counts events t) (Owes-set_ref f (some f) t h small owes);
  inodes = held;
  fits = fits;
}

unregister_steps :
    (p fd f : ℕ) (s : Store)
    → fd < max_opened_file
    → entry s p fd ≡ some f
    → unregister_open_file p fd s ≡ ok (0, set_entry p fd none s)
unfolding unregister_open_file
unregister_steps p fd f s h e =
    let inside : leb max_opened_file fd ≡ false = ground arith in rw (inside, e) refl

module _ (close : ℕ → ℕ) where
  -- `sys_close` on an open descriptor and on anything else.
  pub data Closed (fd : ℕ) (s : Store) : ℕ × Store → Type 0 where
    closed :
        (f : ℕ) (u : Store)
        → entry s s.current fd ≡ some f
        → u.tables ≡ (set_entry s.current fd none s).tables
        → Sound u
        → Closed fd s (0, u)
    refused : entry s s.current fd ≡ none → Closed fd s (neg32 4, s)
    out_of_range : max_opened_file ≤ fd → Closed fd s (neg32 4, s)

  close_steps :
      (fd f : ℕ) (s : Store)
      → fd < max_opened_file
      → entry s s.current fd ≡ some f
      → sys_close close fd s
        ≡ (unref_open_file close f (set_entry s.current fd none s) >>= (λ r. ok (0, r.1)))
  unfolding sys_close
  close_steps fd f s h e =
      let inside : leb max_opened_file fd ≡ false = ground arith in
      rw (inside, e)
        (ap (λ x. x >>= (λ r. unref_open_file close f r.1 >>= (λ r'. ok (0, r'.1))))
          (unregister_steps s.current fd f s h e))

  Closed-result :
      (fd f : ℕ) (s : Store) (r : Exec (ℕ × Store))
      → Sound s
      → InTable s
      → fd < max_opened_file
      → entry s s.current fd ≡ some f
      → Unreferences close f (set_entry s.current fd none s) r
      → (z : ℕ × Store) × ((r >>= (λ q. ok (0, q.1))) ≡ ok z) × Closed fd s z
  unfolding Unreferences InodesHeld
  Closed-result fd f s r sound inside h e (c, counts, events, er, held, last, more) =
      let t = set_entry s.current fd none s in
      let hf : fd < length (table s s.current) = omega (arith, inside.entries) in
      let (positive, small) = ref_positive f s.current fd s sound inside.process hf e in
      let owes : Owes (some f) none t =
        subst (λ o. Owes o none t) e
          (Owes-clear_entry s.current fd s inside.process hf sound.refs) in
      let u = unreferenced f counts events t in
      (
        (0, u),
        ap (λ x. x >>= (λ q. ok (0, q.1))) er,
        closed f u e refl (
            Sound-unreferenced f counts events t positive (omega arith) owes
              (Fits-set_entry s.current fd none s inside.process sound.fits) held),
      )

  Closed-some :
      (fd f : ℕ) (s : Store)
      → Sound s
      → InTable s
      → fd < max_opened_file
      → entry s s.current fd ≡ some f
      → (z : ℕ × Store) × (sys_close close fd s ≡ ok z) × Closed fd s z
  unfolding InodesHeld
  Closed-some fd f s sound inside h e =
      let t = set_entry s.current fd none s in
      let (positive, small) =
        ref_positive f s.current fd s sound inside.process (omega (arith, inside.entries)) e in
      let (z, ez, result) =
        Closed-result fd f s (unref_open_file close f t) sound inside h e
          (unref_open_file_lem close f t positive (omega arith) sound.inodes) in
      (z, close_steps fd f s h e ∙ ez, result)

  close_out : (fd : ℕ) (s : Store) → max_opened_file ≤ fd → sys_close close fd s ≡ ok (neg32 4, s)
  unfolding sys_close
  close_out fd s h = let outside : leb max_opened_file fd ≡ true = ground arith in rw (outside) refl

  close-none :
      (fd : ℕ) (s : Store)
      → fd < max_opened_file
      → entry s s.current fd ≡ none
      → sys_close close fd s ≡ ok (neg32 4, s)
  unfolding sys_close
  close-none fd s h e =
      let inside : leb max_opened_file fd ≡ false = ground arith in rw (inside, e) refl

  -- In a store where the references of every file are its descriptors and every file in use is
  -- counted for its inode, `sys_close` never panics, for a process whose table has its 32 entries.
  -- An open descriptor is closed: its entry is empty afterwards, all other entries are as before,
  -- and the store stays sound. For any other number it returns an error and changes nothing.
  pub sys_close_lem :
      (fd : ℕ) (s : Store)
      → Sound s
      → InTable s
      → (z : ℕ × Store) × (sys_close close fd s ≡ ok z) × Closed fd s z
  sys_close_lem fd s sound inside = elim (in_or_out fd max_opened_file) [
    | inr out ↦ ((neg32 4, s), close_out fd s out, out_of_range out)
    | inl h ↦ elim (Option-cases (entry s s.current fd)) [
      | inl e ↦ ((neg32 4, s), close-none fd s h e, refused e)
      | inr (f, e) ↦ Closed-some fd f s sound inside h e
    ]
  ]
