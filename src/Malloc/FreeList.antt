-- ===== src/Malloc/FreeList.antt =====
-- The free list of kernel/malloc.c as a linked list in the store.
pub mod Cut
pub mod Edit
use ts_os.Base.{
  ℕ, ◌≡◌, ◌≢◌, refl, Bool, true, false, ◌||◌, Option, none, some, List, [], ◌∷◌, arith, ◌==◌, leb,
  if◌then◌else◌,
}
use ts_os.Malloc.{Ptr, null, RegionHeader, Store, put, region_free}

-- a header's address and size
abbrev pub Cells : Type 0
Cells = List (Ptr × ℕ)

abbrev pub has : (x : Ptr) → Cells → Bool
has x [] = false
has x ((at, size) ∷ rest) = (x == at) || has x rest

abbrev pub free_header : (magic size : ℕ) → Ptr → RegionHeader
free_header m s q = record { type = region_free; magic = m; size = s; link = q }

-- from `p` the links lead through the distinct free headers `xs` to NULL
pub data Chain (c : Store) : Ptr → Cells → Type 0 where
  nil : Chain c null []
  cons :
      {p q : Ptr} {m s : ℕ} {xs : Cells}
      → p ≢ null
      → c p ≡ some (free_header m s q)
      → has p xs ≡ false
      → Chain c q xs
      → Chain c p ((p, s) ∷ xs)

-- From `head` the links lead through the distinct free headers `xs`, last first, to `q`. The last
-- one is `prev`, which is NULL if there is none.
pub data Front (c : Store) (head : Ptr) : Ptr → Cells → Ptr → Type 0 where
  start : {q : Ptr} → q ≡ head → Front c head null [] q
  step :
      {prev p q : Ptr} {m s : ℕ} {xs : Cells}
      → Front c head prev xs p
      → p ≢ null
      → c p ≡ some (free_header m s q)
      → has p xs ≡ false
      → Front c head p ((p, s) ∷ xs) q

-- joins what was passed, last first, and what is left
abbrev pub onto : Cells → Cells → Cells
onto [] ys = ys
onto (x ∷ xs) ys = onto xs (x ∷ ys)

-- `fs` with a new cell before the first one that is as large, and `fs` without the cell at `a`
unfoldable pub insert : Ptr × ℕ → Cells → Cells
insert x [] = x ∷ []
insert (p, s) ((q, t) ∷ fs) = if leb s t then (p, s) ∷ (q, t) ∷ fs else (q, t) ∷ insert (p, s) fs

unfoldable pub remove : Ptr → Cells → Cells
remove a [] = []
remove a ((q, t) ∷ fs) = if q == a then fs else (q, t) ∷ remove a fs

-- What a store holds, but for the links of free headers, which only the free list is about.
abbrev pub forget : RegionHeader → RegionHeader
forget hd = if hd.type == region_free then record hd { link = null } else hd

abbrev pub forget_some : Option RegionHeader → Option RegionHeader
forget_some none = none
forget_some (some hd) = some (forget hd)

abbrev pub view : Store → Ptr → Option RegionHeader
view c a = forget_some (c a)

abbrev pub SameView : Store → Store → Type 0
SameView c d = (a : Ptr) → view d a ≡ view c a

abbrev pub Apart : Cells → Cells → Type 0
Apart xs ys = (a : Ptr) → has a xs ≡ true → has a ys ≡ false

module _ {c : Store} where
  pub Chain-frame :
      {d : Store} {p : Ptr} {xs : Cells}
      → Chain c p xs
      → ((a : Ptr) → has a xs ≡ true → d a ≡ c a)
      → Chain d p xs
  Chain-frame nil same = nil
  Chain-frame (cons {p} {m} ne e out r) same =
      cons {m = m} ne (ground (arith, same p)) out (Chain-frame r λ a i. same a (ground arith))

  pub Front-frame :
      {d : Store} {head prev q : Ptr} {xs : Cells}
      → Front c head prev xs q
      → ((a : Ptr) → has a xs ≡ true → d a ≡ c a)
      → Front d head prev xs q
  Front-frame (start e) same = start e
  Front-frame (step {p} {m} r ne e out) same =
      step {m = m} (Front-frame r λ a i. same a (ground arith)) ne (ground (arith, same p)) out

  -- the two halves of a list make a list
  pub join :
      {head prev q : Ptr} {xs ys : Cells}
      → Front c head prev xs q
      → Chain c q ys
      → Apart xs ys
      → Chain c head (onto xs ys)
  join (start e) r apart = rw (← e) r
  join {ys} (step {p} {xs} f ne e out) r apart =
      join f (cons ne e (apart p (ground arith)) r) (λ a i. ground (arith, apart a))
