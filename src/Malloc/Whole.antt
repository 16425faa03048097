-- ===== src/Malloc/Whole.antt =====
-- kernel/malloc.c from `init_heap` on: `kfree` takes back what `kmalloc` gave.
use ts_os.Base.{
  ℕ, ◌+◌, ◌-◌, ◌^◌, ◌<◌, ◌≡◌, ◌≢◌, refl, ◌∙◌, sym, ap, true, false, [], ◌∷◌, arith, Outcome, done,
}
use ts_os.Malloc.{
  Ptr, null, Heap, put, write, set_head, init_heap, heap_start, r_header_size, kmalloc, kfree,
}
use ts_os.Malloc.FreeList.{Cells, nil, cons}
use ts_os.Malloc.Tiles.{Blocks, end, block, rejoin, extent}
use ts_os.Malloc.Tiles.Shape.{starts_free, split-Alternate, Alternate-weaken}
use ts_os.Malloc.Inv.{IsHeap}
use ts_os.Malloc.Alloc.{Malloced, full, cut_off}
use ts_os.Malloc.Kmalloc.{kmalloc-Malloced}
use ts_os.Malloc.Merge.{released}
use ts_os.Malloc.Stage.{header_at}
use ts_os.Malloc.Kfree.{kfree-IsHeap}

-- the heap's bytes behind its first header
abbrev pub all_free : ℕ
all_free = 0x400000 - 12

-- Whatever memory and list head held before, `init_heap` sets up a heap that is one free block.
pub init_heap-IsHeap :
    (h : Heap)
    → (h' : Heap) × (init_heap h ≡ done (tt, h'))
      × IsHeap h' ((false, all_free) ∷ []) ((heap_start, all_free) ∷ [])
unfolding init_heap write set_head put
init_heap-IsHeap h = (
  _,
  refl,
  record {
    tiles = block 0x87 refl refl (end refl);
    alternate = (refl, tt);
    first = refl;
    chain = cons (omega arith) refl refl nil;
    members = λ a. refl;
    count = refl;
    sorted = (tt, tt);
  },
)

-- behind a free block the next is not free
released_back :
    (rb post : Blocks) (n s : ℕ)
    → starts_free post ≡ false
    → released ((false, s) ∷ rb) n post ≡ rejoin rb ((false, n + r_header_size + s) ∷ post)
released_back rb [] n s used = ap (λ z. rejoin rb ((false, z) ∷ [])) (omega arith)
released_back rb ((true, t) ∷ post) n s used =
    ap (λ z. rejoin rb ((false, z) ∷ (true, t) ∷ post)) (omega arith)
released_back rb ((false, t) ∷ post) n s used = cc

-- Round trip: on a well-formed heap, `kfree` of an address that `kmalloc` has just returned succeeds
-- and leaves a well-formed heap of the same blocks as before both. It needs that `n + 12` does not
-- wrap and that `kmalloc` did not return NULL.
pub kfree-kmalloc :
    (h : Heap) {h' : Heap} {bs : Blocks} {fs : Cells} (n : ℕ) {p : Ptr}
    → IsHeap h bs fs
    → n + r_header_size < 2 ^ 32
    → kmalloc n h ≡ done (p, h')
    → p ≢ null
    → (h'' : Heap) × (kfree p h' ≡ done (tt, h'')) × (gs : Cells) × IsHeap h'' bs gs
kfree-kmalloc h {h'} {bs} {fs} n {p} v small runs ne = go (kmalloc-Malloced h n v small) runs
  where
    go :
        {r : Outcome (Ptr × Heap)}
        → Malloced bs fs n h r
        → r ≡ done (p, h')
        → (h'' : Heap) × (kfree p h' ≡ done (tt, h'')) × (gs : Cells) × IsHeap h'' bs gs
    go (full none_fits) e = absurd (ne (cc e))
    go (cut_off rb post s {h' = h1} whole fit after) e =
        let (h2, freed, gs, v2) = kfree-IsHeap h1 ((false, s) ∷ rb) post n _ after in
        let sh =
          split-Alternate rb ((false, n + r_header_size + s) ∷ post) (rw whole at v.alternate) in
        let same : released ((false, s) ∷ rb) n post ≡ bs =
          released_back rb post n s (Alternate-weaken post sh.1.1).1 ∙ sym whole in
        let at_p : heap_start + extent rb + r_header_size + s + r_header_size ≡ p = cc e in
        let at_p' : header_at ((false, s) ∷ rb) + r_header_size ≡ p = omega arith in
        let at_h : h1 ≡ h' = cc e in
        (h2, sym (ap (kfree p) at_h) ∙ sym (ap (λ x. kfree x h1) at_p') ∙ freed, gs, rw same at v2)
