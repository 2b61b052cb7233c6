-- ===== src/Fs/File/Reference.antt =====
-- A file's references: one more, one less.
use haoud_os.Base.{
  ℕ, ◌+◌, ◌^◌, ◌<◌, ◌≡◌, ◌≢◌, inl, inr, Option, none, some, length, total-set, add32, sub32, arith,
  ap,
}
use haoud_os.Fs.File.{OpenFile, Store, zero_file, file, set_ref, ref_open_file}
use haoud_os.Fs.File.Counting.{points, Owes, on, InodesHeld, in_store, ref-set_ref}

points-other : (f g : ℕ) → f ≢ g → points g (some f) ≡ 0
points-other f g n = ground arith

points-same : (f g : ℕ) → f ≡ g → points g (some f) ≡ 1
points-same f g e = ground arith

-- One reference more, in hand.
pub Owes-ref_open_file :
    (f : ℕ) (m : Option ℕ) (s : Store)
    → f < length s.files
    → (file s f).ref + 1 < 2 ^ 32
    → Owes none m s
    → Owes (some f) m (ref_open_file f s)
unfolding Owes
Owes-ref_open_file f m s h small owes g = elim (ref-set_ref f (add32 (file s f).ref 1) g s h) [
  | inl (n, e) ↦ omega (arith, ap OpenFile.ref e, owes g, points-other f g n)
  | inr (e, e') ↦ omega (arith, e', owes g, points-same f g e, ap (λ i. (file s i).ref) e)
]

pub on-alive :
    (i f n : ℕ) (s : Store)
    → 0 < (file s f).ref
    → 0 < n
    → on i (record (file s f) { ref = n }) ≡ on i (file s f)
on-alive i f n s h h' = ground arith

pub InodesHeld-ref_open_file :
    (f : ℕ) (s : Store)
    → 0 < (file s f).ref
    → (file s f).ref + 1 < 2 ^ 32
    → InodesHeld s
    → InodesHeld (ref_open_file f s)
unfolding InodesHeld
InodesHeld-ref_open_file f s h small held i =
    let n = add32 (file s f).ref 1 in
    let change =
      total-set (on i) s.files f (record (file s f) { ref = n }) zero_file (in_store f s h) in
    omega (arith, held i, change, on-alive i f n s h (omega arith))

-- One reference less.
pub Owes-set_ref :
    (f : ℕ) (a : Option ℕ) (s : Store)
    → 0 < (file s f).ref
    → (file s f).ref < 2 ^ 32
    → Owes a none s
    → Owes a (some f) (set_ref f (sub32 (file s f).ref 1) s)
unfolding Owes
Owes-set_ref f a s h small owes g =
    elim (ref-set_ref f (sub32 (file s f).ref 1) g s (in_store f s h)) [
      | inl (n, e) ↦ omega (arith, ap OpenFile.ref e, owes g, points-other f g n)
      | inr (e, e') ↦ omega (arith, e', owes g, points-same f g e, ap (λ i. (file s i).ref) e)
    ]

-- A reference in hand that is released.
pub Owes-cancel : (f : ℕ) (s : Store) → Owes (some f) (some f) s → Owes none none s
unfolding Owes
Owes-cancel f s owes g = omega (arith, owes g)
