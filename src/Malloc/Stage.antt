-- ===== src/Malloc/Stage.antt =====
-- The heap in the middle of `kfree` of kernel/malloc.c: one free header is not on the free list.
use ts_os.Base.{
  ℕ, ◌+◌, ◌≤◌, ◌<◌, ◌≡◌, ◌≢◌, refl, ◌∙◌, ap, true, false, not, some, ◌∷◌, arith, leb, u32, done,
  length,
}
use ts_os.Malloc.{
  Ptr, null, Heap, put, read, heap_start, heap_end, r_header_size, rounds, unlink, absorb,
  search_and_add_free_region, get_next_header, reach_heap_end, set_link, when, M, ◌>>=◌, ◌>>◌,
}
use ts_os.Malloc.Access.{read-ok, set_size-ok, set_link-ok}
use ts_os.Malloc.FreeList.{Cells, has, free_header, Chain, insert, remove, forget_some, Chain-frame}
use ts_os.Malloc.FreeList.Edit.{unlink-Edited, search_and_add_free_region-Edited}
use ts_os.Malloc.Tiles.{
  Blocks, used_header, Tiles, Before, block, Before-frame, Tiles-frame, rejoin, rejoin-Tiles,
  extent, uncons, unsnoc,
}
use ts_os.Malloc.Tiles.Shape.{starts_free}
use ts_os.Malloc.Tiles.Relink.{
  view-free, view_of_free, view-put_ne, put_self, put_ne, Relink, at_end, at_block, relink,
  Tiles-le,
}
use ts_os.Malloc.Inv.{has-insert, has-remove}
use ts_os.Malloc.Alloc.{Linked}

abbrev pub header_at : Blocks → Ptr
header_at rb = heap_start + extent rb

-- A free header of `s` bytes stands behind the blocks `rb` and before the blocks `post`. The free
-- list `fs` does not hold it.
pub record Stage (h : Heap) (rb : Blocks) (s : ℕ) (post : Blocks) (fs : Cells) : Type 0 where
  pub prev : Ptr
  pub back : Ptr
  pub m : ℕ
  pub l : Ptr
  pub before : Before h.cell prev (header_at rb) rb
  pub at_header : h.cell (header_at rb) ≡ some (free_header m s l)
  pub after : Tiles h.cell back (header_at rb + r_header_size + s) post
  pub chain : Chain h.cell h.index_head fs
  pub apart : has (header_at rb) fs ≡ false

-- taking another region off the list
pub Stage-unlink :
    (h : Heap) {rb post : Blocks} {s : ℕ} {fs : Cells} (p : Ptr)
    → Stage h rb s post fs
    → has p fs ≡ true
    → p ≢ null
    → length fs < rounds
    → (h' : Heap) × (unlink p h ≡ done (tt, h')) × Stage h' rb s post (remove p fs)
Stage-unlink h {rb} {post} {s} {fs} p st i ne fuel =
    let (h', runs, edit) = unlink-Edited h st.chain i ne fuel in
    let (l', got) =
      view-free h'.cell (header_at rb)
        (edit.same (header_at rb) ∙ view_of_free h.cell (header_at rb) st.at_header) in
    (
      h',
      runs,
      record {
        prev = st.prev;
        back = st.back;
        m = st.m;
        l = l';
        before = Before-frame st.before (λ x lt. edit.same x);
        at_header = got;
        after = Tiles-frame st.after (λ x le. edit.same x);
        chain = edit.chain;
        apart = ground (arith, has-remove (header_at rb) p st.chain, st.apart);
      },
    )

-- `absorb`, at two free headers
absorb-runs :
    (h : Heap) {u p m s l m' s' l' : ℕ}
    → u ≢ null
    → p ≢ null
    → h.cell u ≡ some (free_header m s l)
    → h.cell p ≡ some (free_header m' s' l')
    → s + r_header_size + s' ≤ heap_end
    → absorb u p h
      ≡ done (tt, record h { cell = put h.cell u (free_header m (s + r_header_size + s') l) })
unfolding absorb
absorb-runs h {u} {p} {m} {s} {l} {m'} {s'} ne ne' e e' small =
    let sum : u32 (s + u32 (r_header_size + s')) ≡ s + r_header_size + s' = omega arith in
    rw (read-ok h ne' e', read-ok h ne e, sum) (set_size-ok h ne e (s + r_header_size + s'))

-- the free block before the header swallows it
pub Stage-absorb_prev :
    (h : Heap) {rb post : Blocks} {s s1 : ℕ} {fs : Cells}
    → Stage h ((false, s1) ∷ rb) s post fs
    → has (header_at rb) fs ≡ false
    → (h' : Heap) × (absorb (header_at rb) (header_at ((false, s1) ∷ rb)) h ≡ done (tt, h'))
      × Stage h' rb (s1 + r_header_size + s) post fs
Stage-absorb_prev h {rb} {post} {s} {s1} {fs} st out =
    let (pp, m, at_p, before, view_p) = unsnoc st.before in
    let (l, got) = view-free h.cell (header_at rb) view_p in
    let hd' = free_header m (s1 + r_header_size + s) l in
    let e : header_at ((false, s1) ∷ rb) + r_header_size + s
        ≡ header_at rb + r_header_size + (s1 + r_header_size + s) =
      omega arith in
    (
      record h { cell = put h.cell (header_at rb) hd' },
      absorb-runs h (omega arith) (omega arith) got st.at_header (omega (arith, Tiles-le st.after)),
      record {
        prev = pp;
        back = st.back;
        m = m;
        l = l;
        before =
            Before-frame before (λ x lt. view-put_ne h.cell (header_at rb) hd' x (omega arith));
        at_header = put_self h.cell (header_at rb) hd';
        after =
            Tiles-frame (rw e at st.after)
              (λ x le. view-put_ne h.cell (header_at rb) hd' x (omega arith));
        chain =
            Chain-frame st.chain λ x i. put_ne h.cell (header_at rb) hd' x λ x≡p. cc (rw x≡p at i);
        apart = out;
      },
    )

-- the header swallows the free block behind it
pub Stage-absorb_next :
    (h : Heap) {rb post : Blocks} {s s2 : ℕ} {fs : Cells}
    → Stage h rb s ((false, s2) ∷ post) fs
    → (h' : Heap) × (absorb (header_at rb) (header_at rb + r_header_size + s) h ≡ done (tt, h'))
      × Stage h' rb (s + r_header_size + s2) post fs
Stage-absorb_next h {rb} {post} {s} {s2} {fs} st =
    let (m, q, e, view_p, tail) = uncons st.after in
    let p = header_at rb + r_header_size + s in
    let (l, got) = view-free h.cell p view_p in
    let hd' = free_header st.m (s + r_header_size + s2) st.l in
    let e' : q ≡ header_at rb + r_header_size + (s + r_header_size + s2) = omega arith in
    (
      record h { cell = put h.cell (header_at rb) hd' },
      absorb-runs h (omega arith) (omega arith) st.at_header got (omega (arith, Tiles-le tail)),
      record {
        prev = st.prev;
        back = p;
        m = st.m;
        l = st.l;
        before =
            Before-frame st.before (λ x lt. view-put_ne h.cell (header_at rb) hd' x (omega arith));
        at_header = put_self h.cell (header_at rb) hd';
        after =
            Tiles-frame (rw e' at tail)
              (λ x le. view-put_ne h.cell (header_at rb) hd' x (omega arith));
        chain =
            Chain-frame st.chain
              λ x i. put_ne h.cell (header_at rb) hd' x λ x≡p. cc (rw x≡p at i, st.apart);
        apart = st.apart;
      },
    )

-- the end of `kfree`: the header goes on the list, and the block behind it is linked to it
abbrev link_next : Ptr → M (Unit {0})
link_next unified = do
  hd ← read unified
  let next = get_next_header unified hd
  when (not (reach_heap_end next)) (set_link next unified)

link_next-Linked :
    (h : Heap) {m s l prev u q : ℕ} {bs : Blocks}
    → u ≢ null
    → h.cell u ≡ some (free_header m s l)
    → u32 (u32 (u + s) + r_header_size) ≡ q
    → q ≢ null
    → Relink h.cell prev q bs
    → (h' : Heap) × (link_next u h ≡ done (tt, h')) × Linked h u q bs h'
link_next-Linked h {u} ne e next ne' (at_end here tiles) = (
  h,
  rw (read-ok h ne e, next, here) refl,
  record { same_head = refl; tiles = tiles u; others = λ x d. refl },
)
link_next-Linked h {u} {q} ne e next ne' (at_block m s below at_q tiles) =
    let reached : leb heap_end q ≡ false = ground arith in
    (
      record h { cell = put h.cell q (used_header m s u) },
      rw (read-ok h ne e, next, reached, set_link-ok h ne' at_q u) refl,
      record { same_head = refl; tiles = tiles u; others = put_ne h.cell q (used_header m s u) },
    )

abbrev pub finish : Ptr → M (Unit {0})
finish unified = search_and_add_free_region unified >> link_next unified

pub Stage-finish :
    (h : Heap) {rb post : Blocks} {s : ℕ} {fs : Cells}
    → Stage h rb s post fs
    → starts_free post ≡ false
    → ((x : Ptr) → has x fs ≡ true → x ≢ header_at rb + r_header_size + s)
    → length fs < rounds
    → (h' : Heap) × (finish (header_at rb) h ≡ done (tt, h'))
      × Chain h'.cell h'.index_head (insert (header_at rb, s) fs)
      × Tiles h'.cell null heap_start (rejoin rb ((false, s) ∷ post))
Stage-finish h {rb} {post} {s} {fs} st used clear fuel =
    let u = header_at rb in
    let q = u + r_header_size + s in
    let ne : u ≢ null = omega arith in
    let (h1, added, edit) =
      search_and_add_free_region-Edited h st.chain st.at_header st.apart ne fuel in
    let (l, got) = view-free h1.cell u (edit.same u ∙ view_of_free h.cell u st.at_header) in
    let tail : Tiles h1.cell st.back q post = Tiles-frame st.after (λ x le. edit.same x) in
    let (h2, linked, lk) =
      link_next-Linked h1 {q = q} ne got (omega (arith, Tiles-le st.after)) (omega arith)
        (relink tail used) in
    (
      h2,
      rw (added) linked,
      rw lk.same_head (
          Chain-frame edit.chain λ x i. lk.others x (ground (arith, has-insert x u s fs, clear x))),
      rejoin-Tiles
          (Before-frame st.before λ x lt. ap forget_some (lk.others x (omega arith)) ∙ edit.same x)
          (block st.m refl (ap forget_some (lk.others u (omega arith)) ∙ view_of_free h1.cell u got)
            lk.tiles),
    )
