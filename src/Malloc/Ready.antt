-- ===== src/Malloc/Ready.antt =====
-- The last step of `kfree` of kernel/malloc.c restores the invariant.
use ts_os.Base.{ℕ, ◌+◌, ◌<◌, ◌≡◌, ◌∙◌, true, false, ◌||◌, ◌∷◌, arith, done, length}
use ts_os.Malloc.{Ptr, Heap, r_header_size, rounds}
use ts_os.Malloc.FreeList.{Cells, has, insert}
use ts_os.Malloc.Tiles.{Blocks, rejoin}
use ts_os.Malloc.Tiles.Gaps.{
  gaps, back_gaps, has-gaps-rejoin, length-gaps-rejoin, gaps-after, back_gaps-below,
}
use ts_os.Malloc.Tiles.Shape.{
  Alternate, AlternateBack, ends_free, starts_back, rejoin-Alternate, starts_free-rejoin,
  Alternate-weaken,
}
use ts_os.Malloc.Inv.{IsHeap, Sorted, has-insert, length-insert, Sorted-insert}
use ts_os.Malloc.Stage.{Stage, header_at, finish, Stage-finish}

-- A heap that lacks only one free header on its list, between allocated blocks.
pub record Ready (h : Heap) (rb : Blocks) (s : ℕ) (post : Blocks) (fs : Cells) : Type 0 where
  pub stage : Stage h rb s post fs
  pub members :
      (x : Ptr)
      → has x fs ≡ (has x (back_gaps rb) || has x (gaps (header_at rb + r_header_size + s) post))
  pub count :
      length fs ≡ length (back_gaps rb) + length (gaps (header_at rb + r_header_size + s) post)
  pub alternate_back : AlternateBack rb
  pub ends : ends_free rb ≡ false
  pub alternate : Alternate true post
  pub first : starts_back rb true ≡ true
  pub sorted : Sorted fs
  pub fuel : length fs < rounds

pub Ready-finish :
    (h : Heap) {rb post : Blocks} {s : ℕ} {fs : Cells}
    → Ready h rb s post fs
    → (h' : Heap) × (finish (header_at rb) h ≡ done (tt, h'))
      × IsHeap h' (rejoin rb ((false, s) ∷ post)) (insert (header_at rb, s) fs)
Ready-finish h {rb} {post} {s} {fs} r =
    let u = header_at rb in
    let q = u + r_header_size + s in
    let used = (Alternate-weaken post r.alternate).1 in
    let (h', runs, chain, tiles) =
      Stage-finish h r.stage used
        (λ x i. ground (arith, r.members x, back_gaps-below x rb, gaps-after x q post used))
        r.fuel in
    (
      h',
      runs,
      record {
        tiles = tiles;
        alternate = rejoin-Alternate rb ((false, s) ∷ post) r.alternate_back (r.ends, r.alternate);
        first = starts_free-rejoin rb ((false, s) ∷ post) ∙ r.first;
        chain = chain;
        members = λ x.
            rw (has-gaps-rejoin x rb ((false, s) ∷ post))
              (ground (arith, has-insert x u s fs, r.members x));
        count =
            omega
              (arith, length-insert (u, s) fs, r.count, length-gaps-rejoin rb ((false, s) ∷ post));
        sorted = Sorted-insert (u, s) fs r.sorted;
      },
    )
