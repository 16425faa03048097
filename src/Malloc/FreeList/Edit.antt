-- ===== src/Malloc/FreeList/Edit.antt =====
-- Taking a region off the free list of kernel/malloc.c and putting one on it.
use ts_os.Base.{
  ℕ, ◌<◌, ◌≡◌, ◌≢◌, refl, ◌∙◌, ap, true, false, ◌||◌, some, [], ◌∷◌, arith, done, length,
}
use ts_os.Malloc.{
  Ptr, null, Heap, Store, put, set_head, set_link, set_next, add_free_region, del_free_region,
  search_and_add_free_region, unlink, rounds,
}
use ts_os.Malloc.Access.{not_null, read-ok, set_link-ok}
use ts_os.Malloc.FreeList.{
  Cells, has, free_header, Chain, nil, cons, Front, start, step, onto, Apart, insert, remove,
  SameView, Chain-frame, Front-frame, join,
}
use ts_os.Malloc.FreeList.Cut.{Cut, SizeCut, Smaller, FirstBig, find_size-SizeCut, find_ptr-Cut}

pub has-onto : (a : Ptr) (xs ys : Cells) → has a (onto xs ys) ≡ (has a xs || has a ys)
has-onto a [] ys = refl
has-onto a (x ∷ xs) ys = ground (arith, has-onto a xs (x ∷ ys))

insert-past :
    (x : Ptr × ℕ) (xs ys : Cells) → Smaller x.1 xs → insert x (onto xs ys) ≡ onto xs (insert x ys)
insert-past x [] ys small = refl
insert-past x (y ∷ xs) ys small = insert-past x xs (y ∷ ys) small.1 ∙ ap (onto xs) over
  where
    over : insert x (y ∷ ys) ≡ y ∷ insert x ys
    over = unfold insert in ground arith

insert-here : (x : Ptr × ℕ) (ys : Cells) → FirstBig x.1 ys → insert x ys ≡ x ∷ ys
unfolding insert
insert-here x [] big = refl
insert-here x (y ∷ ys) big = ground arith

insert-onto :
    (x : Ptr × ℕ) (xs ys : Cells)
    → Smaller x.1 xs
    → FirstBig x.1 ys
    → insert x (onto xs ys) ≡ onto xs (x ∷ ys)
insert-onto x xs ys small big = insert-past x xs ys small ∙ ap (onto xs) (insert-here x ys big)

remove-past :
    (a : Ptr) (xs ys : Cells) → has a xs ≡ false → remove a (onto xs ys) ≡ onto xs (remove a ys)
remove-past a [] ys out = refl
remove-past a (y ∷ xs) ys out = remove-past a xs (y ∷ ys) (ground arith) ∙ ap (onto xs) over
  where
    over : remove a (y ∷ ys) ≡ y ∷ remove a ys
    over = unfold remove in ground arith

remove-onto :
    (a : Ptr) (s : ℕ) (xs ys : Cells)
    → has a xs ≡ false
    → remove a (onto xs ((a, s) ∷ ys)) ≡ onto xs ys
remove-onto a s xs ys out = remove-past a xs ((a, s) ∷ ys) out ∙ ap (onto xs) here
  where
    here : remove a ((a, s) ∷ ys) ≡ ys
    here = unfold remove in ground arith

SameView-put :
    (c : Store) (p : Ptr) (m s : ℕ) (q q' : Ptr)
    → c p ≡ some (free_header m s q)
    → SameView c (put c p (free_header m s q'))
unfolding put
SameView-put c p m s q q' e a = ground arith

-- `set_next` leads the first half of a list to a new second half
pub set_next-Front :
    (h : Heap) {prev q : Ptr} {xs : Cells} (v : Ptr)
    → Front h.cell h.index_head prev xs q
    → (h' : Heap) × (set_next prev v h ≡ done (tt, h'))
      × Front h'.cell h'.index_head prev xs v
      × SameView h.cell h'.cell
      × ((a : Ptr) → has a xs ≡ false → h'.cell a ≡ h.cell a)
unfolding set_next set_head
set_next-Front h v (start e) =
    (record h { index_head = v }, refl, start refl, λ a. refl, λ a i. refl)
set_next-Front h v (step {p} {q} {m} {s} {xs} f ne e out) = (
  record h { cell = put h.cell p (free_header m s v) },
  rw (not_null ne, set_link-ok h ne e v),
  step {q = v} {m = m} {s = s} (Front-frame f (λ a i. unfold put in ground arith)) ne
      (unfold put in ground arith) out,
  SameView-put h.cell p m s q v e,
  λ a i. unfold put in ground arith,
)

-- What an edit leaves: the list `fs`, and the rest of the store as it was.
pub record Edited (h : Heap) (fs : Cells) (h' : Heap) : Type 0 where
  pub chain : Chain h'.cell h'.index_head fs
  pub same : SameView h.cell h'.cell

-- the first cell of a list that is not empty
pub head_of :
    {c : Store} {p : Ptr} {ys : Cells}
    → Chain c p ys
    → p ≢ null
    → (m s q : ℕ) × (zs : Cells) × (ys ≡ (p, s) ∷ zs)
      × (c p ≡ some (free_header m s q))
      × (has p zs ≡ false)
      × Chain c q zs
head_of nil ne = absurd (ne refl)
head_of (cons {q} {m} {s} {xs} ne e out r) ne' = (m, s, q, xs, refl, e, out, r)

pub del_free_region-Edited :
    (h : Heap) {fs : Cells} {prev p : Ptr}
    → Cut h.cell h.index_head fs prev p
    → p ≢ null
    → (h' : Heap) × (del_free_region prev p h ≡ done (tt, h')) × Edited h (remove p fs) h'
unfolding del_free_region
del_free_region-Edited h {fs} {prev} {p} cut ne =
    let (m, s, q, zs, split, e, out, r) = head_of cut.back ne in
    let (h', runs, front, same, others) = set_next-Front h q cut.front in
    let apart : Apart cut.xs ((p, s) ∷ zs) = rw split at cut.apart in
    let out' : has p cut.xs ≡ false = ground (arith, apart p) in
    let whole : onto cut.xs ((p, s) ∷ zs) ≡ fs = rw split at cut.whole in
    (
      h',
      rw (not_null ne, read-ok h ne e) runs,
      record {
        chain =
            rw (← whole, remove-onto p s cut.xs zs out')
              (join front (Chain-frame r λ a i. others a (ground (arith, apart a)))
                λ a i. ground (arith, apart a));
        same = same;
      },
    )

-- the loop of `kfree` that finds a region, and the `del_free_region` behind it
pub unlink-Edited :
    (h : Heap) {fs : Cells} {p : Ptr}
    → Chain h.cell h.index_head fs
    → has p fs ≡ true
    → p ≢ null
    → length fs < rounds
    → (h' : Heap) × (unlink p h ≡ done (tt, h')) × Edited h (remove p fs) h'
unfolding unlink
unlink-Edited h {fs} {p} chain i ne fuel =
    let (prev, runs, cut) =
      find_ptr-Cut h h.index_head fs rounds p (start refl) chain (λ a i. cc) refl i fuel in
    let (h', runs', edited) = del_free_region-Edited h cut ne in
    (h', rw (not_null ne, runs, runs'), edited)

add_free_region-Edited :
    (h : Heap) {fs : Cells} {prev cur new : Ptr} {m s : ℕ} {l : Ptr}
    → (cut : SizeCut h.cell h.index_head fs s prev cur) → h.cell new ≡ some (free_header m s l)
    → has new fs ≡ false
    → new ≢ null
    → (h' : Heap) × (add_free_region prev cur new h ≡ done (tt, h'))
      × Edited h (insert (new, s) fs) h'
unfolding add_free_region
add_free_region-Edited h {fs} {prev} {cur} {new} {m} {s} {l} sc e out ne =
    let cut = sc.cut in
    let apart_new : (has new cut.xs || has new cut.ys) ≡ false =
      rw (← has-onto new cut.xs cut.ys, cut.whole) out in
    let (h1, runs, front, same, others) = set_next-Front h new cut.front in
    let e1 : h1.cell new ≡ some (free_header m s l) = rw (others new (ground arith)) e in
    let h2 : Heap = record h1 { cell = put h1.cell new (free_header m s cur) } in
    let runs2 : set_link new cur h1 ≡ done (tt, h2) = set_link-ok h1 ne e1 cur in
    (
      h2,
      rw (runs, runs2),
      record {
        chain =
            rw (← cut.whole, insert-onto (new, s) cut.xs cut.ys sc.small sc.big)
              (join (Front-frame front (λ a i. unfold put in ground arith))
                (cons {q = cur} {m = m} {s = s} ne (unfold put in ground arith) (ground arith)
                  (Chain-frame cut.back λ a i. unfold put in ground (arith, others a, cut.apart a)))
                λ a i. ground (arith, cut.apart a));
        same = λ a. SameView-put h1.cell new m s l cur e1 a ∙ same a;
      },
    )

pub search_and_add_free_region-Edited :
    (h : Heap) {fs : Cells} {new : Ptr} {m s : ℕ} {l : Ptr}
    → Chain h.cell h.index_head fs
    → h.cell new ≡ some (free_header m s l)
    → has new fs ≡ false
    → new ≢ null
    → length fs < rounds
    → (h' : Heap) × (search_and_add_free_region new h ≡ done (tt, h'))
      × Edited h (insert (new, s) fs) h'
unfolding search_and_add_free_region
search_and_add_free_region-Edited h {fs} {new} {m} {s} chain e out ne fuel =
    let (prev, cur, runs, cut) =
      find_size-SizeCut h h.index_head fs rounds s (start refl) chain (λ a i. cc) refl tt fuel in
    let (h', runs', edited) = add_free_region-Edited h cut e out ne in
    (h', rw (read-ok h ne e, runs, runs'), edited)
