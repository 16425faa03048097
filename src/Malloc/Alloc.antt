-- ===== src/Malloc/Alloc.antt =====
-- `kmalloc` of kernel/malloc.c takes its block from the end of the first free block that is large
-- enough, which is the smallest such.
use ts_os.Base.{
  ℕ, ◌+◌, ◌<◌, ◌≡◌, ◌≢◌, refl, ◌∙◌, true, false, Option, none, some, [], ◌∷◌, arith, leb,
  if◌then◌else◌, u32, Outcome, done, length,
}
use ts_os.Malloc.{
  Ptr, null, Heap, Store, put, set_size, heap_start, heap_end, r_header_size, rounds,
  del_free_region, search_and_add_free_region, add_alloc_region,
}
use ts_os.Malloc.Access.{read-ok, set_size-ok, set_link-ok}
use ts_os.Malloc.FreeList.{Cells, has, free_header, Chain, onto, insert, remove, view, Chain-frame}
use ts_os.Malloc.FreeList.Cut.{Cut, Smaller}
use ts_os.Malloc.FreeList.Edit.{del_free_region-Edited, search_and_add_free_region-Edited}
use ts_os.Malloc.Tiles.{Blocks, used_header, Tiles, rejoin, extent}
use ts_os.Malloc.Tiles.Relink.{
  view-free, view_of_free, view-put_ne, put_self, put_ne, Relink, at_end, at_block,
}
use ts_os.Malloc.Inv.{IsHeap, has-remove, length-remove}

-- the first cell of at least `want` bytes
unfoldable pub first_fit : ℕ → Cells → Option (Ptr × ℕ)
first_fit want [] = none
first_fit want ((p, s) ∷ fs) = if leb want s then some (p, s) else first_fit want fs

pub first_fit-onto :
    (want : ℕ) (xs ys : Cells) → Smaller want xs → first_fit want (onto xs ys) ≡ first_fit want ys
first_fit-onto want [] ys small = refl
first_fit-onto want (x ∷ xs) ys small = first_fit-onto want xs (x ∷ ys) small.1 ∙ over
  where
    over : first_fit want (x ∷ ys) ≡ first_fit want ys
    over = unfold first_fit in ground arith

-- What `kmalloc n` may do to a heap of blocks `bs` and free list `fs`: nothing, if no free block has
-- room for `n` bytes and a header, or cut the block for `n` bytes off the end of the first free one
-- that has. The result is the address behind the new block's header.
pub data Malloced (bs : Blocks) (fs : Cells) (n : ℕ) (h : Heap)
    : Outcome (Ptr × Heap) → Type 0 where
  full : first_fit (n + r_header_size) fs ≡ none → Malloced bs fs n h (done (null, h))
  cut_off :
      (rb post : Blocks) (s : ℕ) {h' : Heap}
      → bs ≡ rejoin rb ((false, n + r_header_size + s) ∷ post)
      → first_fit (n + r_header_size) fs ≡ some (heap_start + extent rb, n + r_header_size + s)
      → IsHeap h'
          (rejoin rb ((false, s) ∷ (true, n) ∷ post))
          (insert (heap_start + extent rb, s) (remove (heap_start + extent rb) fs))
      → Malloced bs fs n h (done (heap_start + extent rb + r_header_size + s + r_header_size, h'))

-- the step behind the new header: the block after it is linked to it
pub record Linked (h : Heap) (new q : Ptr) (bs : Blocks) (h' : Heap) : Type 0 where
  pub same_head : h'.index_head ≡ h.index_head
  pub tiles : Tiles h'.cell new q bs
  pub others : (x : Ptr) → x ≢ q → h'.cell x ≡ h.cell x

pub add_alloc_region-Linked :
    (h : Heap) {m n prev prev' new q : ℕ} {bs : Blocks}
    → new ≢ null
    → h.cell new ≡ some (used_header m n prev)
    → u32 (u32 (new + n) + r_header_size) ≡ q
    → q ≢ null
    → Relink h.cell prev' q bs
    → (h' : Heap) × (add_alloc_region new h ≡ done (tt, h')) × Linked h new q bs h'
unfolding add_alloc_region
add_alloc_region-Linked h {new} ne e next ne' (at_end here tiles) =
    let reached : leb heap_end heap_end ≡ true = ground arith in
    (
      h,
      rw (read-ok h ne e, next, here) refl,
      record { same_head = refl; tiles = tiles new; others = λ x d. refl },
    )
add_alloc_region-Linked h {new} {q} ne e next ne' (at_block m s below at_q tiles) =
    let reached : leb heap_end q ≡ false = ground arith in
    (
      record h { cell = put h.cell q (used_header m s new) },
      rw (read-ok h ne e, next, reached, read-ok h ne' at_q, set_link-ok h ne' at_q new) refl,
      record {
        same_head = refl;
        tiles = tiles new;
        others = put_ne h.cell q (used_header m s new);
      },
    )

-- the steps up to the new header: the free block at `a` is given the size `t`, and its new place
pub record Shrunk (h : Heap) (fs : Cells) (prev a s t : ℕ) : Type 0 where
  pub h1 : Heap
  pub h2 : Heap
  pub h3 : Heap
  pub m : ℕ
  pub l1 : Ptr
  pub l3 : Ptr
  pub deleted : del_free_region prev a h ≡ done (tt, h1)
  pub got1 : h1.cell a ≡ some (free_header m s l1)
  pub sized : set_size a t h1 ≡ done (tt, h2)
  pub added : search_and_add_free_region a h2 ≡ done (tt, h3)
  pub got3 : h3.cell a ≡ some (free_header m t l3)
  pub chain : Chain h3.cell h3.index_head (insert (a, t) (remove a fs))
  pub same : (x : Ptr) → x ≢ a → view h3.cell x ≡ view h.cell x

pub shrink :
    (h : Heap) {fs : Cells} {prev a m s l : ℕ} (t : ℕ)
    → Cut h.cell h.index_head fs prev a
    → Chain h.cell h.index_head fs
    → has a fs ≡ true
    → a ≢ null
    → h.cell a ≡ some (free_header m s l)
    → length fs < rounds
    → Shrunk h fs prev a s t
shrink h {fs} {prev} {a} {m} {s} {l} t cut chain i ne e fuel =
    let (h1, deleted, edit1) = del_free_region-Edited h cut ne in
    let (l1, got1) = view-free h1.cell a (edit1.same a ∙ view_of_free h.cell a e) in
    let c2 : Store = put h1.cell a (free_header m t l1) in
    let h2 : Heap = record h1 { cell = c2 } in
    let gone : has a (remove a fs) ≡ false = rw (has-remove a a chain) (ground arith) in
    let chain2 : Chain c2 h1.index_head (remove a fs) =
      Chain-frame edit1.chain
        λ x j. put_ne h1.cell a (free_header m t l1) x λ x≡a. cc (rw x≡a at j) in
    let (h3, added, edit3) =
      search_and_add_free_region-Edited h2 {l = l1} chain2 (put_self h1.cell a (free_header m t l1))
        gone ne (omega (arith, length-remove a fs i)) in
    let (l3, got3) =
      view-free h3.cell a
        (edit3.same a ∙ view_of_free c2 a (put_self h1.cell a (free_header m t l1))) in
    record {
      h1 = h1;
      h2 = h2;
      h3 = h3;
      m = m;
      l1 = l1;
      l3 = l3;
      deleted = deleted;
      got1 = got1;
      sized = set_size-ok h1 ne got1 t;
      added = added;
      got3 = got3;
      chain = edit3.chain;
      same = λ x d. edit3.same x ∙ view-put_ne h1.cell a (free_header m t l1) x d ∙ edit1.same x;
    }
