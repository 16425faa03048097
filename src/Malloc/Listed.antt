-- ===== src/Malloc/Listed.antt =====
-- The free list of kernel/malloc.c against the free blocks on both sides of a header.
use ts_os.Base.{ℕ, ◌+◌, ◌<◌, ◌≡◌, true, false, ◌||◌, ◌∷◌, arith, length}
use ts_os.Malloc.{Ptr, Store, r_header_size}
use ts_os.Malloc.FreeList.{Cells, has, Chain, remove}
use ts_os.Malloc.Tiles.{Blocks}
use ts_os.Malloc.Tiles.Gaps.{gaps, back_gaps, gaps-from, back_gaps-below}
use ts_os.Malloc.Inv.{Sorted, has-remove, length-remove, Sorted-remove}
use ts_os.Malloc.Stage.{header_at}

-- `fs` holds the free blocks of `rb`, which stand last first, and those of `post` from `q` on.
pub record Listed (rb : Blocks) (q : Ptr) (post : Blocks) (fs : Cells) : Type 0 where
  pub members : (x : Ptr) → has x fs ≡ (has x (back_gaps rb) || has x (gaps q post))
  pub count : length fs ≡ length (back_gaps rb) + length (gaps q post)
  pub sorted : Sorted fs

module _ {c : Store} {head q s : ℕ} {rb post : Blocks} {fs : Cells} (chain : Chain c head fs) where
  pub Listed-back :
      header_at rb < q
      → Listed ((false, s) ∷ rb) q post fs
      → Listed rb q post (remove (header_at rb) fs)
        × (has (header_at rb) fs ≡ true)
        × (has (header_at rb) (remove (header_at rb) fs) ≡ false)
        × (length (remove (header_at rb) fs) < length fs)
  Listed-back below l =
      let i : has (header_at rb) fs ≡ true = ground (arith, l.members (header_at rb)) in
      (
        record {
          members = λ x. ground (
            arith,
            has-remove x (header_at rb) chain,
            l.members x,
            back_gaps-below x rb,
            gaps-from x q post,
          );
          count = omega (arith, length-remove (header_at rb) fs i, l.count);
          sorted = Sorted-remove (header_at rb) fs l.sorted;
        },
        i,
        ground (arith, has-remove (header_at rb) (header_at rb) chain),
        omega (arith, length-remove (header_at rb) fs i),
      )

  pub Listed-front :
      header_at rb < q
      → Listed rb q ((false, s) ∷ post) fs
      → Listed rb (q + r_header_size + s) post (remove q fs)
        × (has q fs ≡ true)
        × (length (remove q fs) < length fs)
  Listed-front below l =
      let i : has q fs ≡ true = ground (arith, l.members q) in
      (
        record {
          members = λ x. ground (
            arith,
            has-remove x q chain,
            l.members x,
            back_gaps-below x rb,
            gaps-from x (q + r_header_size + s) post,
          );
          count = omega (arith, length-remove q fs i, l.count);
          sorted = Sorted-remove q fs l.sorted;
        },
        i,
        omega (arith, length-remove q fs i),
      )
