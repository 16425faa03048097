-- ===== src/Malloc/Kfree.antt =====
-- `kfree` of kernel/malloc.c frees a block and joins it with the free blocks beside it.
use ts_os.Base.{
  ℕ, ◌+◌, ◌<◌, ◌≡◌, ◌≢◌, refl, ◌∙◌, sym, Bool, true, false, ◌||◌, some, [], ◌∷◌, arith, leb, u32,
  sub32, if◌then◌else◌, done, length,
}
use ts_os.Malloc.{
  Ptr, null, Heap, put, only_free, heap_end, r_header_size, region_free, rounds, reach_heap_end,
  kfree, M, pure,
}
use ts_os.Malloc.Access.{read-ok, set_type-ok}
use ts_os.Malloc.FreeList.{Cells, has, free_header, Chain-frame}
use ts_os.Malloc.Tiles.{
  Blocks, used_header, Tiles, end, block, Before, Before-frame, Tiles-frame, rejoin, Around,
  split-Around, uncons, unsnoc,
}
use ts_os.Malloc.Tiles.Gaps.{
  gaps, back_gaps, has-gaps-rejoin, length-gaps-rejoin, gaps-from, back_gaps-below,
}
use ts_os.Malloc.Tiles.Shape.{
  Alternate, AlternateBack, starts_back, split-Alternate, starts_free-rejoin,
}
use ts_os.Malloc.Tiles.Relink.{view-used, view-free, view-put_ne, put_self, put_ne, Tiles-le}
use ts_os.Malloc.Inv.{IsHeap, length-lt-rounds}
use ts_os.Malloc.Stage.{Stage, header_at}
use ts_os.Malloc.Listed.{Listed}
use ts_os.Malloc.Merge.{
  released, free_prev, free_next, merge, merge_neither, merge_next, merge_prev, merge_both,
}

module _ (h : Heap) (rb post : Blocks) (n : ℕ) (fs : Cells)
    (v : IsHeap h (rejoin rb ((true, n) ∷ post)) fs) where
  abbrev a : Ptr
  a = header_at rb

  abbrev stop : Ptr
  stop = a + r_header_size + n

  around : Around h.cell rb ((true, n) ∷ post)
  around = split-Around rb ((true, n) ∷ post) v.tiles

  tail : Tiles h.cell a stop post
  tail = let (m, q, e, view_a, t) = uncons around.after in rw e at t

  cell_a : (m : ℕ) × (h.cell a ≡ some (used_header m n around.prev))
  cell_a = let (m, q, e, view_a, t) = uncons around.after in (m, view-used h.cell a view_a)

  members-of : (x : Ptr) → has x fs ≡ (has x (back_gaps rb) || has x (gaps stop post))
  members-of x = v.members x ∙ has-gaps-rejoin x rb ((true, n) ∷ post)

  count-of : length fs ≡ length (back_gaps rb) + length (gaps stop post)
  count-of = v.count ∙ length-gaps-rejoin rb ((true, n) ∷ post)

  shape : AlternateBack rb × Alternate false post
  shape = split-Alternate rb ((true, n) ∷ post) v.alternate

  not-listed : has a fs ≡ false
  not-listed = ground (arith, members-of a, back_gaps-below a rb, gaps-from a stop post)

  -- after `header->type = REGION_FREE`
  abbrev freed : Heap
  freed = record h { cell = put h.cell a (free_header cell_a.0 n around.prev) }

  freed-Stage : Stage freed rb n post fs
  freed-Stage = record {
    prev = around.prev;
    back = a;
    m = cell_a.0;
    l = around.prev;
    before =
        Before-frame around.before
          (λ x lt. view-put_ne h.cell a (free_header cell_a.0 n around.prev) x (omega arith));
    at_header = put_self h.cell a (free_header cell_a.0 n around.prev);
    after =
        Tiles-frame tail
          (λ x le. view-put_ne h.cell a (free_header cell_a.0 n around.prev) x (omega arith));
    chain = Chain-frame v.chain λ x i.
        put_ne h.cell a (free_header cell_a.0 n around.prev) x λ x≡a. cc (rw x≡a at i, not-listed);
    apart = not-listed;
  }

  freed-Listed : Listed rb stop post fs
  freed-Listed = record { members = members-of; count = count-of; sorted = v.sorted }

-- the choice of the neighbours
select_prev :
    (h : Heap) {prev : Ptr} {b : Bool} {s : ℕ} (rb : Blocks)
    → Before h.cell prev (header_at ((b, s) ∷ rb)) ((b, s) ∷ rb)
    → only_free prev h ≡ done (free_prev ((b, s) ∷ rb), h)
unfolding only_free
select_prev h {b = true} rb before =
    let (pp, m, at_p, rest, view_p) = unsnoc before in
    let got = view-used h.cell (header_at rb) view_p in rw (at_p, read-ok h (omega arith) got) refl
select_prev h {b = false} rb before =
    let (pp, m, at_p, rest, view_p) = unsnoc before in
    let (l, got) = view-free h.cell (header_at rb) view_p in
    rw (at_p, read-ok h (omega arith) got) refl

select_prev_of :
    (h : Heap) {prev : Ptr} (rb : Blocks)
    → Before h.cell prev (header_at rb) rb
    → starts_back rb false ≡ true
    → only_free prev h ≡ done (free_prev rb, h)
select_prev_of h [] before first = cc
select_prev_of h ((b, s) ∷ rb) before first = select_prev h rb before

abbrev choose_next : Ptr → M Ptr
choose_next next = if reach_heap_end next then pure null else only_free next

select_next :
    (h : Heap) {prev q : Ptr} (post : Blocks)
    → Tiles h.cell prev q post
    → q ≢ null
    → choose_next q h ≡ done (free_next q post, h)
unfolding only_free
select_next h [] (end e) ne = rw e refl
select_next h ((true, s) ∷ post) (block {p = q} m e view_q t) ne =
    let inside : leb heap_end q ≡ false = ground (arith, Tiles-le t) in
    rw (inside, read-ok h ne (view-used h.cell q view_q)) refl
select_next h ((false, s) ∷ post) (block {p = q} m e view_q t) ne =
    let inside : leb heap_end q ≡ false = ground (arith, Tiles-le t) in
    let (l, got) = view-free h.cell q view_q in rw (inside, read-ok h ne got) refl

merged_all :
    (h : Heap) (rb post : Blocks) (n : ℕ) {fs : Cells}
    → Stage h rb n post fs
    → Listed rb (header_at rb + r_header_size + n) post fs
    → AlternateBack rb
    → Alternate false post
    → starts_back rb false ≡ true
    → length fs < rounds
    → (h' : Heap) × (merge
          (header_at rb)
          (free_prev rb)
          (free_next (header_at rb + r_header_size + n) post)
          h
        ≡ done (tt, h'))
      × (gs : Cells) × IsHeap h' (released rb n post) gs
merged_all h [] post n st l b f first fuel = cc
merged_all h ((true, s) ∷ rb) [] n st l b f first fuel =
    merge_neither h st l b refl refl f first fuel
merged_all h ((true, s) ∷ rb) ((true, s2) ∷ post) n st l b f first fuel =
    merge_neither h st l b refl refl f first fuel
merged_all h ((true, s) ∷ rb) ((false, s2) ∷ post) n st l b f first fuel =
    merge_next h st l b refl f.1 first fuel
merged_all h ((false, s1) ∷ rb) [] n st l b f first fuel =
    merge_prev h st l b.1 b.0 refl f first fuel
merged_all h ((false, s1) ∷ rb) ((true, s2) ∷ post) n st l b f first fuel =
    merge_prev h st l b.1 b.0 refl f first fuel
merged_all h ((false, s1) ∷ rb) ((false, s2) ∷ post) n st l b f first fuel =
    merge_both h st l b.1 b.0 f.1 first fuel

-- On a well-formed heap, `kfree` of the data address of an allocated block returns, and leaves a
-- well-formed heap in which that block is free and forms one block with the free blocks right before
-- and right behind it, all other blocks being as before.
pub kfree-IsHeap :
    (h : Heap) (rb post : Blocks) (n : ℕ) (fs : Cells)
    → IsHeap h (rejoin rb ((true, n) ∷ post)) fs
    → (h' : Heap) × (kfree (header_at rb + r_header_size) h ≡ done (tt, h'))
      × (gs : Cells) × IsHeap h' (released rb n post) gs
unfolding kfree
kfree-IsHeap h rb post n fs v =
    let a : Ptr = header_at rb in
    let (m, got) = cell_a h rb post n fs v in
    let at_a : sub32 (a + r_header_size) r_header_size ≡ a =
      omega (arith, Tiles-le (tail h rb post n fs v)) in
    let at_stop : u32 (u32 (a + n) + r_header_size) ≡ a + r_header_size + n =
      omega (arith, Tiles-le (tail h rb post n fs v)) in
    let first : starts_back rb false ≡ true =
      sym (starts_free-rejoin rb ((true, n) ∷ post)) ∙ v.first in
    let sh = shape h rb post n fs v in
    let (h', runs, gs, v') =
      merged_all (freed h rb post n fs v) rb post n (freed-Stage h rb post n fs v)
        (freed-Listed h rb post n fs v) sh.0 sh.1 first (length-lt-rounds v) in
    (
      h',
      rw
          (
            at_a,
            read-ok h (omega arith) got,
            at_stop,
            select_next h post (tail h rb post n fs v) (omega arith),
            select_prev_of h rb (around h rb post n fs v).before first,
            set_type-ok h (omega arith) got region_free,
          )
          runs,
      gs,
      v',
    )
