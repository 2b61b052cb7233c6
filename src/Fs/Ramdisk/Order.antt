-- ===== src/Fs/Ramdisk/Order.antt =====
-- The search of ramdisk_readdir by the order of creation, core/fs/ramdisk/ramdisk.c.
use mathlib.Core.List.{Memᴰ}
use mathlib.Core.List.Memᴰ
use haoud_os.Base.{
  ℕ, suc, ◌<◌, ◌≤◌, ◌≡◌, ◌⊎◌, inl, inr, false, Option, none, some, List, [], ◌∷◌, ltb, leb, ◌==◌,
  if◌then◌else◌, arith, refl, sym, ap, ◌∙◌, Bool-cases, ok, panic, fault, Exec, ◌>>=◌,
}
use haoud_os.Fs.Ramdisk.{InodeType, Dirent, RamDir}
use haoud_os.Fs.Ramdisk.Directory.{
  OpenDir, DirentInfo, better, find_next, next_direntry, give_entry, ramdisk_readdir,
}

-- Of the entries with `P`, that of the least order above the offset, or none when no order is above it.
pub data Least (offset : ℕ) (P : Dirent → Type 0) : Option Dirent → Type 0 where
  least :
      (d : Dirent)
      → P d
      → offset < d.creat_order
      → ((e : Dirent) → P e → offset < e.creat_order → d.creat_order ≤ e.creat_order)
      → Least offset P (some d)
  at_end : ((e : Dirent) → P e → e.creat_order ≤ offset) → Least offset P none

Least-map :
    (offset : ℕ) (P Q : Dirent → Type 0) (r : Option Dirent)
    → ((e : Dirent) → P e → Q e)
    → ((e : Dirent) → Q e → P e)
    → Least offset P r
    → Least offset Q r
Least-map offset P Q r to back (least d p h l) = least d (to d p) h (λ e q. l e (back e q))
Least-map offset P Q r to back (at_end below) = at_end (λ e q. below e (back e q))

same_order : (d e : Dirent) → e ≡ d → e.creat_order ≡ d.creat_order
same_order d e same = ap (λ x. x.creat_order) same

-- One more entry.
extend :
    (offset : ℕ) (P : Dirent → Type 0) (found : Option Dirent) (d : Dirent)
    → Least offset P found
    → Least offset (λ e. (e ≡ d) ⊎ P e) (better offset found d)
extend offset P none d (at_end below) = elim (Bool-cases (leb d.creat_order offset)) [
  | inl y ↦ rw (y) (
      at_end (λ e m. elim m [ inl same ↦ ground (arith, same_order d e same) | inr p ↦ below e p ]))
  | inr y ↦ rw (y) (
      least d (inl refl) (ground arith) (λ e m above. elim m [
        | inl same ↦ omega (arith, same_order d e same)
        | inr p ↦ absurd (omega (arith, below e p))
      ]))
]
extend offset P (some c) d (least _ pc above_c l) = elim (Bool-cases (leb d.creat_order offset)) [
  | inl y ↦ rw (y) (
      least c (inr pc) above_c (λ e m above. elim m [
        | inl same ↦ absurd (ground (arith, same_order d e same))
        | inr p ↦ l e p above
      ]))
  | inr y ↦ elim (Bool-cases (ltb d.creat_order c.creat_order)) [
    | inl z ↦
        rw (y, z)
          (least d (inl refl) (ground arith) (λ e m above. elim m [
            | inl same ↦ omega (arith, same_order d e same)
            | inr p ↦ ground (arith, l e p above)
          ]))
    | inr z ↦
        rw (y, z)
          (least c (inr pc) above_c (λ e m above. elim m [
            | inl same ↦ ground (arith, same_order d e same)
            | inr p ↦ l e p above
          ]))
  ]
]

find_next-Least :
    (offset : ℕ) (P : Dirent → Type 0) (found : Option Dirent) (ds : List Dirent)
    → Least offset P found
    → Least offset (λ e. P e ⊎ Memᴰ e ds) (find_next offset found ds)
unfolding find_next
find_next-Least offset P found [] l =
    Least-map offset P (λ e. P e ⊎ Memᴰ e []) found (λ e p. inl p)
      (λ e m. elim m [ inl p ↦ p | inr n ↦ absurd (Memᴰ.not-nil n) ]) l
find_next-Least offset P found (d ∷ ds) l =
    Least-map offset (λ e. ((e ≡ d) ⊎ P e) ⊎ Memᴰ e ds) (λ e. P e ⊎ Memᴰ e (d ∷ ds))
      (find_next offset (better offset found d) ds)
      (λ e m. elim m [
        | inl (inl same) ↦ inr (Memᴰ.head same)
        | inl (inr p) ↦ inl p
        | inr t ↦ inr (Memᴰ.tail t)
      ])
      (λ e m. elim m [
        | inl p ↦ inl (inr p)
        | inr t ↦ elim (Memᴰ.cases_cons t) [ inl same ↦ inl (inl same) | inr t' ↦ inr t' ]
      ])
      (find_next-Least offset (λ e. (e ≡ d) ⊎ P e) (better offset found d) ds
        (extend offset P found d l))

pub first_above :
    (offset : ℕ) (ds : List Dirent) → Least offset (λ e. Memᴰ e ds) (find_next offset none ds)
first_above offset ds =
    Least-map offset (λ e. ⊥ ⊎ Memᴰ e ds) (λ e. Memᴰ e ds) (find_next offset none ds)
      (λ e m. elim m [ inl never ↦ absurd never | inr t ↦ t ]) (λ e t. inr t)
      (find_next-Least offset (λ e. ⊥) none ds (at_end (λ e never. absurd never)))

-- The first call, or a directory that has changed since the last one.
abbrev pub Searches : ℕ → OpenDir → Type 0
Searches generation f = (f.custom_data ≡ none) ⊎ ((f.generation == generation) ≡ false)

searches :
    (generation : ℕ) (dir : RamDir) (f : OpenDir)
    → Searches generation f
    → next_direntry generation dir f ≡ ok (find_next f.offset none dir.entries)
searches generation dir f (inl e) = rw (next_direntry, e) refl
searches generation dir f (inr e) = by_generation f.custom_data
  where
    by_generation :
        (o : Option ℕ)
        → next_direntry generation dir (record f { custom_data = o })
          ≡ ok (find_next f.offset none dir.entries)
    by_generation none = refl
    by_generation (some o) = rw (e) refl

-- On the first call, and whenever the generation of the opened directory is not that of the inode,
-- ramdisk_readdir gives the entry with the least order of creation above the offset, or the end when no
-- entry is above it. An entry that was added since the last call is given like the others.
pub ramdisk_readdir_lem :
    (kinds : ℕ → InodeType) (generation : ℕ) (dir : RamDir) (f : OpenDir)
    → Searches generation f
    → (r : Option Dirent) × (ramdisk_readdir kinds generation dir f ≡ ok (give_entry kinds f r))
      × Least f.offset (λ e. Memᴰ e dir.entries) r
ramdisk_readdir_lem kinds generation dir f s = (
  find_next f.offset none dir.entries,
  ap (λ n. n >>= (λ d. ok (give_entry kinds f d))) (searches generation dir f s),
  first_above f.offset dir.entries,
)

-- How many entries are above an offset.
unfoldable pub above : ℕ → List Dirent → ℕ
above offset [] = 0
above offset (d ∷ ds) = if leb d.creat_order offset then above offset ds else suc (above offset ds)

above_le : (o o' : ℕ) (ds : List Dirent) → o ≤ o' → above o' ds ≤ above o ds
unfolding above
above_le o o' [] h = omega arith
above_le o o' (d ∷ ds) h = let rest = above_le o o' ds h in ground arith

pub above-lt :
    (o : ℕ) (d : Dirent) (ds : List Dirent)
    → Memᴰ d ds
    → o < d.creat_order
    → above d.creat_order ds < above o ds
unfolding above
above-lt o d [] m h = absurd (Memᴰ.not-nil m)
above-lt o d (e ∷ ds) m h = elim (Memᴰ.cases_cons m) [
  | inl same ↦
      let order : d.creat_order ≡ e.creat_order = same_order e d same in
      let rest = above_le o d.creat_order ds (omega arith) in ground arith
  | inr t ↦ let rest = above-lt o d ds t h in ground arith
]

-- Each entry that ramdisk_readdir gives by the search leaves fewer entries above the offset.
pub ramdisk_readdir-decreases :
    (kinds : ℕ → InodeType) (generation : ℕ) (dir : RamDir) (f f' : OpenDir) (info : DirentInfo)
    → Searches generation f
    → ramdisk_readdir kinds generation dir f ≡ ok (0, some info, f')
    → above f'.offset dir.entries < above f.offset dir.entries
ramdisk_readdir-decreases kinds generation dir f f' info s e =
    let (r, given, l) = ramdisk_readdir_lem kinds generation dir f s in by_entry r (sym given ∙ e) l
  where
    offset_of : Exec (ℕ × Option DirentInfo × OpenDir) → ℕ
    offset_of (ok r) = r.2.offset
    offset_of panic = 0
    offset_of fault = 0

    code_of : Exec (ℕ × Option DirentInfo × OpenDir) → ℕ
    code_of (ok r) = r.0
    code_of panic = 0
    code_of fault = 0

    by_entry :
        (r : Option Dirent)
        → ok (give_entry kinds f r) ≡ ok (0, some info, f')
        → Least f.offset (λ e. Memᴰ e dir.entries) r
        → above f'.offset dir.entries < above f.offset dir.entries
    by_entry none same l = absurd (omega (arith, ap code_of same))
    by_entry (some d) same (least _ m h l) =
        let o : d.creat_order ≡ f'.offset = ap offset_of same in
        rw (sym o) (above-lt f.offset d dir.entries m h)
