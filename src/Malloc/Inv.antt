-- ===== src/Malloc/Inv.antt =====
-- The invariant of the kernel heap: the headers tile it, and the free list holds its free blocks.
use ts_os.Base.{
  ℕ, ◌+◌, ◌≤◌, ◌<◌, ◌≡◌, refl, true, false, ◌||◌, ◌&&◌, not, [], ◌∷◌, arith, ◌==◌, length, All,
}
use ts_os.Malloc.{Ptr, null, Heap, Store, heap_start, rounds}
use ts_os.Malloc.FreeList.{Cells, has, Chain, nil, cons, insert, remove}
use ts_os.Malloc.Tiles.{Blocks, Tiles}
use ts_os.Malloc.Tiles.Gaps.{gaps, length-gaps-le}
use ts_os.Malloc.Tiles.Shape.{Alternate, starts_free}

-- sizes never fall along the list
abbrev pub Sorted : Cells → Type 0
Sorted [] = Unit {0}
Sorted ((p, s) ∷ fs) = All (λ x. s ≤ x.1) fs × Sorted fs

pub record IsHeap (h : Heap) (bs : Blocks) (fs : Cells) : Type 0 where
  pub tiles : Tiles h.cell null heap_start bs
  pub alternate : Alternate false bs
  pub first : starts_free bs ≡ true
  pub chain : Chain h.cell h.index_head fs
  pub members : (a : Ptr) → has a fs ≡ has a (gaps heap_start bs)
  pub count : length fs ≡ length (gaps heap_start bs)
  pub sorted : Sorted fs

pub length-lt-rounds : {h : Heap} {bs : Blocks} {fs : Cells} → IsHeap h bs fs → length fs < rounds
unfolding rounds
length-lt-rounds v = omega (arith, length-gaps-le v.tiles, v.count)

pub has-insert :
    (a p : Ptr) (s : ℕ) (fs : Cells) → has a (insert (p, s) fs) ≡ ((a == p) || has a fs)
unfolding insert
has-insert a p s [] = refl
has-insert a p s (x ∷ fs) = ground (arith, has-insert a p s fs)

pub has-remove :
    {c : Store} {q : Ptr} {fs : Cells} (a p : Ptr)
    → Chain c q fs
    → has a (remove p fs) ≡ (not (a == p) && has a fs)
unfolding remove
has-remove a p nil = ground arith
has-remove a p (cons {p = q} ne e out r) = ground (arith, has-remove a p r)

pub length-insert : (x : Ptr × ℕ) (fs : Cells) → length (insert x fs) ≡ length fs + 1
unfolding insert
length-insert x [] = omega arith
length-insert x (y ∷ fs) = ground (arith, length-insert x fs)

pub length-remove : (p : Ptr) (fs : Cells) → has p fs ≡ true → length (remove p fs) + 1 ≡ length fs
unfolding remove
length-remove p [] i = cc
length-remove p (y ∷ fs) i = ground (arith, length-remove p fs)

All-insert :
    (k : ℕ) (x : Ptr × ℕ) (fs : Cells)
    → k ≤ x.1
    → All (λ y. k ≤ y.1) fs
    → All (λ y. k ≤ y.1) (insert x fs)
unfolding insert
All-insert k x [] h all = (h, tt)
All-insert k x (y ∷ fs) h all = ground (arith, All-insert k x fs h all.1)

All-weaken : (k l : ℕ) (fs : Cells) → l ≤ k → All (λ y. k ≤ y.1) fs → All (λ y. l ≤ y.1) fs
All-weaken k l [] h all = tt
All-weaken k l (y ∷ fs) h all = (omega (arith, all.0), All-weaken k l fs h all.1)

pub Sorted-insert : (x : Ptr × ℕ) (fs : Cells) → Sorted fs → Sorted (insert x fs)
unfolding insert
Sorted-insert x [] h = (tt, tt)
Sorted-insert x (y ∷ fs) h =
    ground (arith, All-weaken y.1 x.1 fs, All-insert y.1 x fs, Sorted-insert x fs h.1)

All-remove :
    (k : ℕ) (p : Ptr) (fs : Cells) → All (λ y. k ≤ y.1) fs → All (λ y. k ≤ y.1) (remove p fs)
unfolding remove
All-remove k p [] all = tt
All-remove k p (y ∷ fs) all = ground (arith, All-remove k p fs)

pub Sorted-remove : (p : Ptr) (fs : Cells) → Sorted fs → Sorted (remove p fs)
unfolding remove
Sorted-remove p [] h = tt
Sorted-remove p (y ∷ fs) h = ground (arith, All-remove y.1 p fs, Sorted-remove p fs)
