-- ===== src/Malloc/Tiles/Gaps.antt =====
-- The free blocks of a tiling, and where they stand.
use ts_os.Base.{
  ℕ, ◌+◌, ◌*◌, ◌≤◌, ◌<◌, ◌≡◌, refl, ◌∙◌, ap, true, false, ◌||◌, [], ◌∷◌, arith, ◌==◌, Bool-cases,
  inl, inr, length,
}
use native.Mathlib.Nat.{add-zero}
use ts_os.Malloc.{Ptr, Store, heap_start, heap_end, r_header_size}
use ts_os.Malloc.FreeList.{Cells, has, onto}
use ts_os.Malloc.FreeList.Edit.{has-onto}
use ts_os.Malloc.Tiles.Shape.{starts_free}
use ts_os.Malloc.Tiles.{Blocks, Tiles, end, block, rejoin, extent}

-- address and size of each free block, from `p` on
abbrev pub gaps : Ptr → Blocks → Cells
gaps p [] = []
gaps p ((true, s) ∷ bs) = gaps (p + r_header_size + s) bs
gaps p ((false, s) ∷ bs) = (p, s) ∷ gaps (p + r_header_size + s) bs

-- those of blocks that stand last first, last first
abbrev pub back_gaps : Blocks → Cells
back_gaps [] = []
back_gaps ((true, s) ∷ rb) = back_gaps rb
back_gaps ((false, s) ∷ rb) = (heap_start + extent rb, s) ∷ back_gaps rb

pub gaps-rejoin :
    (rb bs : Blocks)
    → gaps heap_start (rejoin rb bs) ≡ onto (back_gaps rb) (gaps (heap_start + extent rb) bs)
gaps-rejoin [] bs = ap (λ p. gaps p bs) (omega arith)
gaps-rejoin ((true, s) ∷ rb) bs =
    gaps-rejoin rb ((true, s) ∷ bs) ∙ ap (λ p. onto (back_gaps rb) (gaps p bs)) (omega arith)
gaps-rejoin ((false, s) ∷ rb) bs =
    gaps-rejoin rb ((false, s) ∷ bs)
    ∙ ap (λ p. onto (back_gaps rb) ((heap_start + extent rb, s) ∷ gaps p bs)) (omega arith)

pub has-gaps-rejoin :
    (a : Ptr) (rb bs : Blocks)
    → has a (gaps heap_start (rejoin rb bs))
      ≡ (has a (back_gaps rb) || has a (gaps (heap_start + extent rb) bs))
has-gaps-rejoin a rb bs =
    rw gaps-rejoin (has-onto a (back_gaps rb) (gaps (heap_start + extent rb) bs))

-- free blocks lie where the blocks lie
pub gaps-from : (a p : Ptr) (bs : Blocks) → has a (gaps p bs) ≡ true → p ≤ a
gaps-from a p [] i = cc
gaps-from a p ((true, s) ∷ bs) i = omega (arith, gaps-from a (p + r_header_size + s) bs i)
gaps-from a p ((false, s) ∷ bs) i = ground (arith, gaps-from a (p + r_header_size + s) bs)

pub back_gaps-below :
    (a : Ptr) (rb : Blocks) → has a (back_gaps rb) ≡ true → a < heap_start + extent rb
back_gaps-below a [] i = cc
back_gaps-below a ((true, s) ∷ rb) i = omega (arith, back_gaps-below a rb i)
back_gaps-below a ((false, s) ∷ rb) i = ground (arith, back_gaps-below a rb)

length-onto : (xs ys : Cells) → length (onto xs ys) ≡ length xs + length ys
length-onto [] ys = omega arith
length-onto (x ∷ xs) ys = omega (arith, length-onto xs (x ∷ ys))

pub length-gaps-rejoin :
    (rb bs : Blocks)
    → length (gaps heap_start (rejoin rb bs))
      ≡ length (back_gaps rb) + length (gaps (heap_start + extent rb) bs)
length-gaps-rejoin rb bs =
    rw gaps-rejoin (length-onto (back_gaps rb) (gaps (heap_start + extent rb) bs))

-- a header for each free block fits the heap
pub length-gaps-le :
    {c : Store} {prev p : Ptr} {bs : Blocks}
    → Tiles c prev p bs
    → p + r_header_size * length (gaps p bs) ≤ heap_end
length-gaps-le (end e) = omega arith
length-gaps-le (block m {b = (true, s)} {bs} e v t) =
    omega (arith, length-gaps-le t, ap (λ x. length (gaps x bs)) e)
length-gaps-le (block m {b = (false, s)} {bs} e v t) =
    omega (arith, length-gaps-le t, ap (λ x. length (gaps x bs)) e)

-- the blocks around the free block at an address
pub record Place (bs : Blocks) (a : Ptr) : Type 0 where
  pub rb : Blocks
  pub size : ℕ
  pub post : Blocks
  pub whole : rejoin rb ((false, size) ∷ post) ≡ bs
  pub at_a : a ≡ heap_start + extent rb

locate_from :
    (a : Ptr) (rb bs : Blocks)
    → has a (gaps (heap_start + extent rb) bs) ≡ true
    → Place (rejoin rb bs) a
locate_from a rb [] i = cc
locate_from a rb ((true, s) ∷ bs) i =
    let e : heap_start + extent rb + r_header_size + s
        ≡ heap_start + (extent rb + r_header_size + s) =
      omega arith in
    locate_from a ((true, s) ∷ rb) bs (rw e at i)
locate_from a rb ((false, s) ∷ bs) i =
    let e : heap_start + extent rb + r_header_size + s
        ≡ heap_start + (extent rb + r_header_size + s) =
      omega arith in
    elim (Bool-cases (a == heap_start + extent rb)) [
      | inl here ↦ record { rb = rb; size = s; post = bs; whole = refl; at_a = ground arith }
      | inr later ↦ locate_from a ((false, s) ∷ rb) bs (rw (← e) (ground arith))
    ]

pub locate : (a : Ptr) (bs : Blocks) → has a (gaps heap_start bs) ≡ true → Place bs a
locate a bs i = locate_from a [] bs (rw (add-zero heap_start) i)

-- behind an allocated block, free blocks begin later
pub gaps-after :
    (a p : Ptr) (bs : Blocks) → starts_free bs ≡ false → has a (gaps p bs) ≡ true → p < a
gaps-after a p [] used i = cc
gaps-after a p ((true, s) ∷ bs) used i = omega (arith, gaps-from a (p + r_header_size + s) bs i)
gaps-after a p ((false, s) ∷ bs) used i = cc
