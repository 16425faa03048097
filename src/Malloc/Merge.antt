-- ===== src/Malloc/Merge.antt =====
-- `kfree` of kernel/malloc.c behind its choice of the free neighbours.
use ts_os.Base.{
  ℕ, ◌+◌, ◌<◌, ◌≡◌, refl, true, false, not, [], ◌∷◌, arith, ◌==◌, if◌then◌else◌, done, length,
}
use ts_os.Malloc.{Ptr, null, Heap, M, ◌>>◌, when, r_header_size, rounds, unlink, absorb}
use ts_os.Malloc.Access.{not_null}
use ts_os.Malloc.FreeList.{Cells, has, insert, remove}
use ts_os.Malloc.Tiles.{Blocks, rejoin}
use ts_os.Malloc.Tiles.Shape.{Alternate, AlternateBack, ends_free, starts_free, starts_back}
use ts_os.Malloc.Inv.{IsHeap, has-remove}
use ts_os.Malloc.Stage.{
  Stage, header_at, finish, Stage-unlink, Stage-absorb_prev, Stage-absorb_next,
}
use ts_os.Malloc.Ready.{Ready-finish}
use ts_os.Malloc.Listed.{Listed, Listed-back, Listed-front}

-- Freeing the block of `n` bytes between `rb`, whose blocks stand last first, and `post`.
abbrev pub joined_next : ℕ → Blocks → Blocks
joined_next s ((false, s2) ∷ post) = (false, s + r_header_size + s2) ∷ post
joined_next s post = (false, s) ∷ post

abbrev pub released : Blocks → ℕ → Blocks → Blocks
released ((false, s1) ∷ rb) n post = rejoin rb (joined_next (s1 + r_header_size + n) post)
released rb n post = rejoin rb (joined_next n post)

-- the free neighbours, or NULL
abbrev pub free_prev : Blocks → Ptr
free_prev ((false, _) ∷ rb) = header_at rb
free_prev rb = null

abbrev pub free_next : Ptr → Blocks → Ptr
free_next q ((false, _) ∷ post) = q
free_next q post = null

abbrev pub merge : (header prev next : Ptr) → M (Unit {0})
merge header prev next = do
  unlink prev
  unlink next
  let unified = if prev == null then header else prev
  when (not (prev == null)) (absorb prev header)
  when (not (next == null)) (absorb unified next)
  finish unified

-- what `merge` ends in
abbrev Merged : Heap → Ptr → Ptr → Ptr → Blocks → Type 0
Merged h header prev next bs =
    (h' : Heap) × (merge header prev next h ≡ done (tt, h')) × (gs : Cells) × IsHeap h' bs gs

strong : (post : Blocks) → starts_free post ≡ false → Alternate false post → Alternate true post
strong [] used a = a
strong ((true, s) ∷ post) used a = a
strong ((false, s) ∷ post) used a = cc

unlink-null : (h : Heap) → unlink null h ≡ done (tt, h)
unfolding unlink
unlink-null h = refl

module _ (h : Heap) {rb post : Blocks} {s : ℕ} {fs : Cells} where
  settle :
      Stage h rb s post fs
      → Listed rb (header_at rb + r_header_size + s) post fs
      → AlternateBack rb
      → ends_free rb ≡ false
      → Alternate true post
      → starts_back rb true ≡ true
      → length fs < rounds
      → (h' : Heap) × (finish (header_at rb) h ≡ done (tt, h'))
        × (gs : Cells) × IsHeap h' (rejoin rb ((false, s) ∷ post)) gs
  settle st l b e f first fuel =
      let (h', runs, v) = Ready-finish h (record {
        stage = st;
        members = l.members;
        count = l.count;
        alternate_back = b;
        ends = e;
        alternate = f;
        first = first;
        sorted = l.sorted;
        fuel = fuel;
      }) in
      (h', runs, insert (header_at rb, s) fs, v)

module _ (h : Heap) {rb post : Blocks} {s : ℕ} {fs : Cells} where
  -- neither neighbour is free
  pub merge_neither :
      Stage h rb s post fs
      → Listed rb (header_at rb + r_header_size + s) post fs
      → AlternateBack rb
      → ends_free rb ≡ false
      → starts_free post ≡ false
      → Alternate false post
      → starts_back rb true ≡ true
      → length fs < rounds
      → Merged h (header_at rb) null null (rejoin rb ((false, s) ∷ post))
  unfolding unlink
  merge_neither st l b e used f first fuel = settle h st l b e (strong post used f) first fuel

  -- the next one is
  pub merge_next :
      {s2 : ℕ}
      → Stage h rb s ((false, s2) ∷ post) fs
      → Listed rb (header_at rb + r_header_size + s) ((false, s2) ∷ post) fs
      → AlternateBack rb
      → ends_free rb ≡ false
      → Alternate true post
      → starts_back rb true ≡ true
      → length fs < rounds
      → Merged h
          (header_at rb)
          null
          (header_at rb + r_header_size + s)
          (rejoin rb ((false, s + r_header_size + s2) ∷ post))
  merge_next {s2} st l b e f first fuel =
      let q = header_at rb + r_header_size + s in
      let (l1, i, less) = Listed-front st.chain (omega arith) l in
      let (h1, runs1, st1) = Stage-unlink h q st i (omega arith) fuel in
      let (h2, runs2, st2) = Stage-absorb_next h1 st1 in
      let at : q + r_header_size + s2 ≡ header_at rb + r_header_size + (s + r_header_size + s2) =
        omega arith in
      let l2 : Listed rb (header_at rb + r_header_size + (s + r_header_size + s2)) post
          (remove q fs) =
        rw at at l1 in
      let (h3, runs3, gs, v) = settle h2 st2 l2 b e f first (omega arith) in
      let ne : (q == null) ≡ false = not_null (omega arith) in
      (h3, rw (unlink-null h, runs1, ne, runs2) runs3, gs, v)

module _ (h : Heap) {rb post : Blocks} {s s1 : ℕ} {fs : Cells} where
  -- the previous one is
  pub merge_prev :
      Stage h ((false, s1) ∷ rb) s post fs
      → Listed ((false, s1) ∷ rb) (header_at ((false, s1) ∷ rb) + r_header_size + s) post fs
      → AlternateBack rb
      → ends_free rb ≡ false
      → starts_free post ≡ false
      → Alternate false post
      → starts_back rb true ≡ true
      → length fs < rounds
      → Merged h
          (header_at ((false, s1) ∷ rb))
          (header_at rb)
          null
          (rejoin rb ((false, s1 + r_header_size + s) ∷ post))
  merge_prev st l b e used f first fuel =
      let p = header_at rb in
      let q = header_at ((false, s1) ∷ rb) + r_header_size + s in
      let (l1, i, out, less) = Listed-back st.chain (omega arith) l in
      let (h1, runs1, st1) = Stage-unlink h p st i (omega arith) fuel in
      let (h2, runs2, st2) = Stage-absorb_prev h1 st1 out in
      let at : q ≡ header_at rb + r_header_size + (s1 + r_header_size + s) = omega arith in
      let l2 : Listed rb (header_at rb + r_header_size + (s1 + r_header_size + s)) post
          (remove p fs) =
        rw at at l1 in
      let (h3, runs3, gs, v) = settle h2 st2 l2 b e (strong post used f) first (omega arith) in
      let ne : (p == null) ≡ false = not_null (omega arith) in
      (h3, rw (runs1, unlink-null h1, ne, runs2) runs3, gs, v)

  -- both are
  pub merge_both :
      {s2 : ℕ}
      → Stage h ((false, s1) ∷ rb) s ((false, s2) ∷ post) fs
      → Listed
          ((false, s1) ∷ rb)
          (header_at ((false, s1) ∷ rb) + r_header_size + s)
          ((false, s2) ∷ post)
          fs
      → AlternateBack rb
      → ends_free rb ≡ false
      → Alternate true post
      → starts_back rb true ≡ true
      → length fs < rounds
      → Merged h
          (header_at ((false, s1) ∷ rb))
          (header_at rb)
          (header_at ((false, s1) ∷ rb) + r_header_size + s)
          (rejoin rb ((false, s1 + r_header_size + s + r_header_size + s2) ∷ post))
  merge_both {s2} st l b e f first fuel =
      let p = header_at rb in
      let q = header_at ((false, s1) ∷ rb) + r_header_size + s in
      let (l1, i1, out1, less1) = Listed-back st.chain (omega arith) l in
      let (h1, runs1, st1) = Stage-unlink h p st i1 (omega arith) fuel in
      let (l2, i2, less2) = Listed-front st1.chain (omega arith) l1 in
      let (h2, runs2, st2) = Stage-unlink h1 q st1 i2 (omega arith) (omega arith) in
      let out2 : has p (remove q (remove p fs)) ≡ false =
        ground (arith, has-remove p q st1.chain, out1) in
      let (h3, runs3, st3) = Stage-absorb_prev h2 st2 out2 in
      let (h4, runs4, st4) = Stage-absorb_next h3 st3 in
      let at_q : p + r_header_size + (s1 + r_header_size + s) ≡ q = omega arith in
      let runs4' : absorb p q h3 ≡ done (tt, h4) = rw at_q at runs4 in
      let at : q + r_header_size + s2
          ≡ p + r_header_size + (s1 + r_header_size + s + r_header_size + s2) =
        omega arith in
      let l4 = rw at at l2 in
      let (h5, runs5, gs, v) = settle h4 st4 l4 b e f first (omega arith) in
      let ne_p : (p == null) ≡ false = not_null (omega arith) in
      let ne_q : (q == null) ≡ false = not_null (omega arith) in
      (h5, rw (runs1, runs2, ne_p, ne_q, runs3, runs4') runs5, gs, v)
