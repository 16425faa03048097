-- ===== src/Malloc/Split.antt =====
-- `kmalloc` of kernel/malloc.c behind its search: the new block at the end of a free one.
use ts_os.Base.{
  ℕ, ◌+◌, ◌≤◌, ◌<◌, ◌≡◌, ◌≢◌, refl, ◌∙◌, sym, ap, true, false, ◌||◌, some, ◌∷◌, arith, ◌==◌, u32,
  sub32, done, length,
}
use ts_os.Malloc.{
  Ptr, null, Heap, Store, put, write, heap_start, heap_end, r_header_size, split_region,
}
use ts_os.Malloc.Access.{read-ok}
use ts_os.Malloc.FreeList.{
  Cells, has, free_header, Chain, insert, remove, view, forget_some, Chain-frame,
}
use ts_os.Malloc.FreeList.Cut.{Cut}
use ts_os.Malloc.Tiles.{
  Blocks, used_header, Tiles, block, Before-frame, Tiles-frame, rejoin, rejoin-Tiles, extent,
  Around, split-Around, uncons,
}
use ts_os.Malloc.Tiles.Gaps.{
  gaps, back_gaps, has-gaps-rejoin, length-gaps-rejoin, gaps-after, back_gaps-below,
}
use ts_os.Malloc.Tiles.Shape.{
  Alternate, starts_free, AlternateBack, ends_free, split-Alternate, rejoin-Alternate,
  starts_free-rejoin, Alternate-weaken,
}
use ts_os.Malloc.Tiles.Relink.{view-free, view-put_ne, put_self, put_ne, relink, Tiles-le}
use ts_os.Malloc.Inv.{
  IsHeap, length-lt-rounds, has-insert, has-remove, length-insert, length-remove, Sorted-insert,
  Sorted-remove,
}
use ts_os.Malloc.Alloc.{add_alloc_region-Linked, Shrunk, shrink}

-- `split_region` on the free block behind `rb`, which has `n + 12 + t` bytes
module _ (h : Heap) (rb post : Blocks) (fs : Cells) (n t : ℕ)
    (v : IsHeap h (rejoin rb ((false, n + r_header_size + t) ∷ post)) fs) where
  abbrev a : Ptr
  a = heap_start + extent rb

  abbrev new : Ptr
  new = a + r_header_size + t

  abbrev stop : Ptr
  stop = new + r_header_size + n

  around : Around h.cell rb ((false, n + r_header_size + t) ∷ post)
  around = split-Around rb ((false, n + r_header_size + t) ∷ post) v.tiles

  old_tail : Tiles h.cell a stop post
  old_tail =
      let (m, q, e, view_a, tail) = uncons around.after in
      let e' : q ≡ stop = omega arith in rw e' at tail

  old_cell : (m l : ℕ) × (h.cell a ≡ some (free_header m (n + r_header_size + t) l))
  old_cell =
      let (m, q, e, view_a, tail) = uncons around.after in
      let (l, got) = view-free h.cell a view_a in (m, l, got)

  stop-le : stop ≤ heap_end
  stop-le = Tiles-le old_tail

  shape :
      AlternateBack rb × (ends_free rb ≡ false) × Alternate false post × (starts_free post ≡ false)
  shape =
      let s = split-Alternate rb ((false, n + r_header_size + t) ∷ post) v.alternate in
      let w = Alternate-weaken post s.1.1 in (s.0, s.1.0, w.0, w.1)

  -- where free blocks stand
  members-of : (x : Ptr) → has x fs ≡ (has x (back_gaps rb) || ((x == a) || has x (gaps stop post)))
  members-of x =
      let e : a + r_header_size + (n + r_header_size + t) ≡ stop = omega arith in
      v.members x ∙ rw (has-gaps-rejoin x rb ((false, n + r_header_size + t) ∷ post), e) refl

  listed : has a fs ≡ true
  listed = ground (arith, members-of a)

  apart : (x : Ptr) → has x fs ≡ true → (x ≢ new) × (x ≢ stop)
  apart x i = ground (arith, members-of x, back_gaps-below x rb, gaps-after x stop post shape.3)

  members-after :
      (x : Ptr)
      → has x (insert (a, t) (remove a fs))
        ≡ has x (gaps heap_start (rejoin rb ((false, t) ∷ (true, n) ∷ post)))
  members-after x =
      rw (has-gaps-rejoin x rb ((false, t) ∷ (true, n) ∷ post))
        (ground (arith, has-insert x a t (remove a fs), has-remove x a v.chain, members-of x))

  count-after :
      length (insert (a, t) (remove a fs))
      ≡ length (gaps heap_start (rejoin rb ((false, t) ∷ (true, n) ∷ post)))
  count-after =
      let e : a + r_header_size + (n + r_header_size + t) ≡ stop = omega arith in
      omega (
        arith,
        length-insert (a, t) (remove a fs),
        length-remove a fs listed,
        v.count,
        length-gaps-rejoin rb ((false, n + r_header_size + t) ∷ post),
        length-gaps-rejoin rb ((false, t) ∷ (true, n) ∷ post),
        ap (λ x. length (gaps x post)) e,
      )

  -- the invariant from what the new store holds
  cut-IsHeap :
      (h' : Heap) (m : ℕ)
      → Chain h'.cell h'.index_head (insert (a, t) (remove a fs))
      → ((x : Ptr) → x < a → view h'.cell x ≡ view h.cell x)
      → view h'.cell a ≡ some (free_header m t null)
      → view h'.cell new ≡ some (used_header 0x87 n a)
      → Tiles h'.cell new stop post
      → IsHeap h' (rejoin rb ((false, t) ∷ (true, n) ∷ post)) (insert (a, t) (remove a fs))
  cut-IsHeap h' m chain low at_a at_new tail = record {
    tiles =
        rejoin-Tiles (Before-frame around.before low)
          (block m refl at_a (block 0x87 refl at_new tail));
    alternate = rejoin-Alternate rb ((false, t) ∷ (true, n) ∷ post) shape.0 (shape.1, shape.2);
    first =
        starts_free-rejoin rb ((false, t) ∷ (true, n) ∷ post)
        ∙ sym (starts_free-rejoin rb ((false, n + r_header_size + t) ∷ post))
        ∙ v.first;
    chain = chain;
    members = members-after;
    count = count-after;
    sorted = Sorted-insert (a, t) (remove a fs) (Sorted-remove a fs v.sorted);
  }

  -- the free list is `fs'`, the blocks have been cut, and nothing else has changed
  pub split_region-IsHeap :
      {prev : Ptr}
      → Cut h.cell h.index_head fs prev a
      → (h' : Heap) × (split_region n prev a h ≡ done (new + r_header_size, h'))
        × IsHeap h' (rejoin rb ((false, t) ∷ (true, n) ∷ post)) (insert (a, t) (remove a fs))
  unfolding split_region write
  split_region-IsHeap {prev} cut =
      let ne : a ≢ null = omega arith in
      let (m, l, got) = old_cell in
      let sh : Shrunk h fs prev a (n + r_header_size + t) t =
        shrink h t cut v.chain listed ne got (length-lt-rounds v) in
      let fs' = insert (a, t) (remove a fs) in
      let c4 : Store = put sh.h3.cell new (used_header 0x87 n a) in
      let h4 : Heap = record sh.h3 { cell = c4 } in
      let same4 : (x : Ptr) → x ≢ a → x ≢ new → view c4 x ≡ view h.cell x =
        λ x da dn. view-put_ne sh.h3.cell new (used_header 0x87 n a) x dn ∙ sh.same x da in
      let tail4 : Tiles c4 a stop post =
        Tiles-frame old_tail λ x le. same4 x (omega arith) (omega arith) in
      let (h5, linked, lk) =
        add_alloc_region-Linked h4 {m = 0x87} {n = n} {prev = a} {prev' = a} {new = new} {q = stop}
          (omega arith) (put_self sh.h3.cell new (used_header 0x87 n a)) (omega (arith, stop-le))
          (omega arith) (relink tail4 shape.3) in
      let t_eq : sub32 (sub32 (n + r_header_size + t) n) r_header_size ≡ t =
        omega (arith, stop-le) in
      let new_eq : u32 (u32 (a + t) + r_header_size) ≡ new = omega (arith, stop-le) in
      let out_eq : u32 (new + r_header_size) ≡ new + r_header_size = omega (arith, stop-le) in
      (
        h5,
        rw
            (
              sh.deleted,
              read-ok sh.h1 ne sh.got1,
              t_eq,
              sh.sized,
              sh.added,
              read-ok sh.h3 ne sh.got3,
              new_eq,
              linked,
              out_eq,
            )
            refl,
        cut-IsHeap h5 sh.m
            (rw (lk.same_head) (
              Chain-frame sh.chain λ x i.
                let (dn, ds) = apart x (
                  ground (arith, has-insert x a t (remove a fs), has-remove x a v.chain, listed)) in
                lk.others x ds ∙ put_ne sh.h3.cell new (used_header 0x87 n a) x dn))
            (λ x lt.
              ap forget_some (lk.others x (omega arith)) ∙ same4 x (omega arith) (omega arith))
            (ap forget_some (
              lk.others a (omega arith)
              ∙ put_ne sh.h3.cell new (used_header 0x87 n a) a (omega arith)
              ∙ sh.got3))
            (ap forget_some
              (lk.others new (omega arith) ∙ put_self sh.h3.cell new (used_header 0x87 n a)))
            lk.tiles,
      )
