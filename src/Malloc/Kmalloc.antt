-- ===== src/Malloc/Kmalloc.antt =====
-- `kmalloc` of kernel/malloc.c as a whole: best fit, and what a second caller cannot get.
use ts_os.Base.{
  ℕ, ◌+◌, ◌-◌, ◌^◌, ◌≤◌, ◌<◌, ◌≡◌, ◌≢◌, ◌⊎◌, refl, ◌∙◌, sym, ap, true, false, Bool-cases, inl, inr,
  Option, some, [], ◌∷◌, arith, ◌==◌, leb, u32, Outcome, done, All,
}
use mathlib.Core.Path.{ap₂}
use ts_os.Malloc.{Ptr, null, Heap, heap_start, r_header_size, rounds, split_region, kmalloc}
use ts_os.Malloc.FreeList.{Cells, has, free_header, Chain, nil, cons, start, view}
use ts_os.Malloc.FreeList.Cut.{Cut, SizeCut, find_size-SizeCut}
use ts_os.Malloc.FreeList.Edit.{has-onto, head_of}
use ts_os.Malloc.Tiles.{Blocks, rejoin, extent, split-Around, uncons}
use ts_os.Malloc.Tiles.Gaps.{Place, locate}
use ts_os.Malloc.Inv.{IsHeap, Sorted, length-lt-rounds}
use ts_os.Malloc.Alloc.{Malloced, full, cut_off, first_fit, first_fit-onto}
use ts_os.Malloc.Split.{split_region-IsHeap}

nil_of : {c : _} {ys : Cells} → Chain c null ys → ys ≡ []
nil_of nil = refl
nil_of (cons ne e out r) = absurd (ne refl)

module _ (h : Heap) {bs : Blocks} {fs : Cells} (n : ℕ) (v : IsHeap h bs fs) where
  at_place :
      {prev : Ptr} (rb post : Blocks) (t : ℕ)
      → rejoin rb ((false, n + r_header_size + t) ∷ post) ≡ bs
      → Cut h.cell h.index_head fs prev (heap_start + extent rb)
      → first_fit (n + r_header_size) fs ≡ some (heap_start + extent rb, n + r_header_size + t)
      → Malloced bs fs n h (split_region n prev (heap_start + extent rb) h)
  at_place rb post t whole cut fit =
      let v' : IsHeap h (rejoin rb ((false, n + r_header_size + t) ∷ post)) fs = rw whole v in
      let (h', runs, after) = split_region-IsHeap h rb post fs n t v' cut in
      rw runs (cut_off rb post t (sym whole) fit after)

  -- the size in the free list is that of the block
  size_of_Place :
      {a m s l : ℕ} (pl : Place bs a) → h.cell a ≡ some (free_header m s l) → pl.size ≡ s
  size_of_Place {a} pl got =
      let t = rw (← pl.whole) at v.tiles in
      let (m', q, e, view_a, tail) =
        uncons (split-Around pl.rb ((false, pl.size) ∷ pl.post) t).after in
      let view_a' : view h.cell a ≡ some (free_header m' pl.size null) = rw pl.at_a view_a in
      ground arith

  found :
      {prev cur : Ptr}
      → SizeCut h.cell h.index_head fs (n + r_header_size) prev cur
      → cur ≢ null
      → Malloced bs fs n h (split_region n prev cur h)
  found {prev} {cur} sc ne =
      let cut = sc.cut in
      let (m, s, l, zs, split, got, out, r) = head_of cut.back ne in
      let big : n + r_header_size ≤ s = rw split at sc.big in
      let fit : first_fit (n + r_header_size) fs ≡ some (cur, s) =
        ap (first_fit (n + r_header_size)) (sym cut.whole)
        ∙ first_fit-onto (n + r_header_size) cut.xs cut.ys sc.small
        ∙ rw split (unfold first_fit in ground arith) in
      let i : has cur fs ≡ true = rw (← cut.whole, has-onto, split) (ground arith) in
      let pl = locate cur bs (sym (v.members cur) ∙ i) in
      let size_eq : pl.size ≡ n + r_header_size + (s - n - r_header_size) =
        omega (arith, size_of_Place pl got) in
      let s_eq : s ≡ n + r_header_size + (s - n - r_header_size) = omega arith in
      rw pl.at_a (
        at_place pl.rb pl.post (s - n - r_header_size)
          (ap (λ z. rejoin pl.rb ((false, z) ∷ pl.post)) (sym size_eq) ∙ pl.whole)
          (rw pl.at_a at cut) (fit ∙ ap₂ (λ x y. some (x, y)) pl.at_a s_eq))

  -- On a heap whose headers tile it and whose free list holds its free blocks by size, `kmalloc`
  -- returns NULL and changes nothing if no free block has `n + 12` bytes, and otherwise cuts the
  -- block off the end of the first listed one that has, keeping the invariant. It needs that
  -- `n + 12` does not wrap.
  pub kmalloc-Malloced : n + r_header_size < 2 ^ 32 → Malloced bs fs n h (kmalloc n h)
  unfolding kmalloc
  kmalloc-Malloced small =
      let (prev, cur, runs, sc) =
        find_size-SizeCut h h.index_head fs rounds (n + r_header_size) (start refl) v.chain
          (λ a i. cc) refl tt (length-lt-rounds v) in
      let word : u32 (n + r_header_size) ≡ n + r_header_size = omega arith in
      rw (word, runs)
        (elim (Bool-cases (cur == null)) [
          | inr some_cur ↦ rw some_cur (found sc (ground arith))
          | inl no_cur ↦ rw no_cur (
              full (
                ap (first_fit (n + r_header_size)) (sym sc.cut.whole)
                ∙ first_fit-onto (n + r_header_size) sc.cut.xs sc.cut.ys sc.small
                ∙ rw (nil_of (let e : cur ≡ null = ground arith in rw e at sc.cut.back))
                    (unfold first_fit in refl)))
        ])

-- the free list has a block of `s` bytes at `a`
abbrev pub Listed : (a s : ℕ) → Cells → Type 0
Listed a s [] = ⊥
Listed a s ((b, t) ∷ fs) = ((b ≡ a) × (t ≡ s)) ⊎ Listed a s fs

first_fit_least :
    (want : ℕ) (fs : Cells) (a s : ℕ)
    → Sorted fs
    → first_fit want fs ≡ some (a, s)
    → (want ≤ s) × Listed a s fs × All (λ y. want ≤ y.1 → s ≤ y.1) fs
unfolding first_fit
first_fit_least want [] a s sorted e = cc
first_fit_least want ((b, t) ∷ fs) a s sorted e = elim (Bool-cases (leb want t)) [
  | inl fits ↦
      let e' : ◌≡◌ {A = Option (Ptr × ℕ)} (some (b, t)) (some (a, s)) = rw fits at e in
      let b≡a : b ≡ a = cc in
      let t≡s : t ≡ s = cc in
      (ground arith, inl (b≡a, t≡s), (λ h. omega arith, later fs s (rw t≡s at (sorted.0))))
  | inr tight ↦
      let rest = first_fit_least want fs a s sorted.1 (rw tight at e) in
      (rest.0, inr rest.1, (λ h. ground arith, rest.2))
]
  where
    later : (gs : Cells) (s : ℕ) → All (λ y. s ≤ y.1) gs → All (λ y. want ≤ y.1 → s ≤ y.1) gs
    later [] s all = tt
    later (g ∷ gs) s all = (λ h. all.0, later gs s all.1)

-- Best fit: where `kmalloc` succeeds on a well-formed heap and `n + 12` does not wrap, the free list
-- has a block at `a` of `s` bytes, with room for `n` bytes and a header, no listed block with that
-- room is smaller, and the result lies `n` bytes before the end of this block.
pub kmalloc_best_fit :
    (h : Heap) {h' : Heap} {bs : Blocks} {fs : Cells} (n : ℕ) {p : Ptr}
    → IsHeap h bs fs
    → n + r_header_size < 2 ^ 32
    → kmalloc n h ≡ done (p, h')
    → p ≢ null
    → (a s : ℕ) × (p + n ≡ a + r_header_size + s)
      × (n + r_header_size ≤ s)
      × Listed a s fs
      × All (λ y. n + r_header_size ≤ y.1 → s ≤ y.1) fs
kmalloc_best_fit h {h'} {bs} {fs} n {p} v small runs ne = go (kmalloc-Malloced h n v small) runs
  where
    go :
        {r : Outcome (Ptr × Heap)}
        → Malloced bs fs n h r
        → r ≡ done (p, h')
        → (a s : ℕ) × (p + n ≡ a + r_header_size + s)
          × (n + r_header_size ≤ s)
          × Listed a s fs
          × All (λ y. n + r_header_size ≤ y.1 → s ≤ y.1) fs
    go (full none_fits) e = absurd (ne (cc e))
    go (cut_off rb post s whole fit after) e =
        let (le, i, all) =
          first_fit_least (n + r_header_size) fs (heap_start + extent rb) (n + r_header_size + s)
            v.sorted fit in
        let at_p : p ≡ heap_start + extent rb + r_header_size + s + r_header_size = cc e in
        (heap_start + extent rb, n + r_header_size + s, omega arith, le, i, all)
