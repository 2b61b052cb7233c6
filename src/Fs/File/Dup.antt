-- ===== src/Fs/File/Dup.antt =====
-- sys_dup and sys_dup2.
use mathlib.Core.Path.{subst}
use haoud_os.Base.{
  ℕ, ◌+◌, ◌^◌, ◌<◌, ◌≤◌, ◌≡◌, inl, inr, true, false, not, none, some, length, ◌==◌, if◌then◌else◌,
  neg32, add32, arith, refl, sym, ap, Option-cases, in_or_out, get_or-set_self,
}
use haoud_os.Fs.File.{
  OpenFile, Store, file, table, entry, set_entry, max_opened_file, is_valid_fd, ref_open_file,
  register_open_file, sys_dup,
}
use haoud_os.Fs.File.Counting.{
  holders, Owes, InodesHeld, Sound, Fits-set_entry, Owes-set_entry, in_store,
}
use haoud_os.Fs.File.Register.{IsFull, Registered, registered, full, register_open_file_lem}
use haoud_os.Fs.File.Reference.{Owes-ref_open_file, InodesHeld-ref_open_file}
use haoud_os.Fs.File.Close.{InTable, ref_positive}

-- What comes out of `sys_dup`. With a full table the reference that was taken is not given back, and
-- the code 3 has no sign: it is a valid descriptor number.
pub data Dupped (oldfd : ℕ) (s : Store) : ℕ × Store → Type 0 where
  dupped :
      (f fd : ℕ)
      → entry s s.current oldfd ≡ some f
      → fd < max_opened_file
      → entry s s.current fd ≡ none
      → Sound (set_entry s.current fd (some f) (ref_open_file f s))
      → Dupped oldfd s (fd, set_entry s.current fd (some f) (ref_open_file f s))
  not_open : entry s s.current oldfd ≡ none → Dupped oldfd s (neg32 10, s)
  out_of_range : max_opened_file ≤ oldfd → Dupped oldfd s (neg32 4, s)
  leaks :
      (f : ℕ)
      → entry s s.current oldfd ≡ some f
      → IsFull (table s s.current)
      → (file (ref_open_file f s) f).ref ≡ holders f s + 1
      → Dupped oldfd s (3, ref_open_file f s)

ref_more :
    (f : ℕ) (s : Store)
    → Sound s
    → 0 < (file s f).ref
    → (file s f).ref + 1 < 2 ^ 32
    → (file (ref_open_file f s) f).ref ≡ holders f s + 1
unfolding Owes
ref_more f s sound h small =
    let owes = sound.refs f in
    let e = ap OpenFile.ref (
      get_or-set_self s.files f (record (file s f) { ref = add32 (file s f).ref 1 })
        (record { ref = 0; inode = 0; open_flags = 0; generation = 0 }) (in_store f s h)) in
    omega (arith, owes, e)

-- A descriptor that stands for no file gets one more for file `f`.
pub Sound-dup :
    (f p fd : ℕ) (s : Store)
    → Sound s
    → 0 < (file s f).ref
    → (file s f).ref + 1 < 2 ^ 32
    → p < length s.tables
    → fd < length (table s p)
    → entry s p fd ≡ none
    → Sound (set_entry p fd (some f) (ref_open_file f s))
unfolding Owes InodesHeld
Sound-dup f p fd s sound h small hp hf free =
    let t = ref_open_file f s in
    let owes : Owes (some f) none t =
      Owes-ref_open_file f none s (in_store f s h) small sound.refs in
    record {
      refs = Owes-set_entry p fd (some f) t hp hf (subst (λ o. Owes (some f) o t) (sym free) owes);
      inodes = InodesHeld-ref_open_file f s h small sound.inodes;
      fits = Fits-set_entry p fd (some f) t hp sound.fits;
    }

dup_result :
    (oldfd f : ℕ) (s : Store) (r : ℕ × ℕ × Store)
    → Sound s
    → InTable s
    → entry s s.current oldfd ≡ some f
    → 0 < (file s f).ref
    → (file s f).ref + 1 < 2 ^ 32
    → Registered s.current f (ref_open_file f s) r
    → Dupped oldfd s (if not (r.0 == 0) then (r.0, r.2) else (r.1, r.2))
dup_result oldfd f s _ sound inside e h small (registered fd hf free before) =
    dupped f fd e (omega (arith, inside.entries)) free
      (Sound-dup f s.current fd s sound h small inside.process hf free)
dup_result oldfd f s _ sound inside e h small (full is_full) =
    leaks f e is_full (ref_more f s sound h small)

dup_steps :
    (oldfd f : ℕ) (s : Store)
    → oldfd < max_opened_file
    → entry s s.current oldfd ≡ some f
    → let r = register_open_file s.current f (ref_open_file f s) in
      sys_dup oldfd s ≡ (if not (r.0 == 0) then (r.0, r.2) else (r.1, r.2))
unfolding sys_dup
dup_steps oldfd f s h e = let valid : is_valid_fd oldfd ≡ true = ground arith in rw (valid, e) refl

dup_out : (oldfd : ℕ) (s : Store) → max_opened_file ≤ oldfd → sys_dup oldfd s ≡ (neg32 4, s)
unfolding sys_dup
dup_out oldfd s h = let invalid : is_valid_fd oldfd ≡ false = ground arith in rw (invalid) refl

dup_none :
    (oldfd : ℕ) (s : Store)
    → oldfd < max_opened_file
    → entry s s.current oldfd ≡ none
    → sys_dup oldfd s ≡ (neg32 10, s)
unfolding sys_dup
dup_none oldfd s h e = let valid : is_valid_fd oldfd ≡ true = ground arith in rw (valid, e) refl

-- In a sound store, for a process whose table has its 32 entries, an open descriptor is duplicated
-- into a free one, and the store stays sound. With no free one the reference taken stays, the
-- number 3 comes out, and the file has one reference more than descriptors. For any other number
-- nothing changes.
pub sys_dup_lem : (oldfd : ℕ) (s : Store) → Sound s → InTable s → Dupped oldfd s (sys_dup oldfd s)
sys_dup_lem oldfd s sound inside = elim (in_or_out oldfd max_opened_file) [
  | inr out ↦ subst (Dupped oldfd s) (sym (dup_out oldfd s out)) (out_of_range out)
  | inl h ↦ elim (Option-cases (entry s s.current oldfd)) [
    | inl e ↦ subst (Dupped oldfd s) (sym (dup_none oldfd s h e)) (not_open e)
    | inr (f, e) ↦
        let (positive, small) =
          ref_positive f s.current oldfd s sound inside.process (omega (arith, inside.entries)) e in
        subst (Dupped oldfd s) (sym (dup_steps oldfd f s h e)) (
          dup_result oldfd f s (register_open_file s.current f (ref_open_file f s)) sound inside e
            positive small (register_open_file_lem s.current f (ref_open_file f s)))
  ]
]
