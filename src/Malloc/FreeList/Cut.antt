-- ===== src/Malloc/FreeList/Cut.antt =====
-- The searches of kernel/malloc.c cut the free list in two.
use ts_os.Base.{
  ℕ, zero, suc, ◌≤◌, ◌<◌, ◌≡◌, refl, true, false, Bool-cases, inl, inr, [], ◌∷◌, arith, ◌==◌, leb,
  done, length, All,
}
use ts_os.Malloc.{Ptr, null, Heap, Store, find_size, find_ptr}
use ts_os.Malloc.Access.{not_null, read-ok}
use ts_os.Malloc.FreeList.{Cells, has, Chain, nil, cons, Front, step, onto, Apart}

-- The list `fs` in two halves: `prev` ends the first one, whose cells stand last first, and `cur`
-- begins the second.
pub record Cut (c : Store) (head : Ptr) (fs : Cells) (prev cur : Ptr) : Type 0 where
  pub xs : Cells
  pub ys : Cells
  pub front : Front c head prev xs cur
  pub back : Chain c cur ys
  pub apart : Apart xs ys
  pub whole : onto xs ys ≡ fs

-- the first cell, if there is one, has at least `want` bytes
abbrev pub FirstBig : ℕ → Cells → Type 0
FirstBig want [] = Unit
FirstBig want ((_, s) ∷ _) = want ≤ s

abbrev pub Smaller : ℕ → Cells → Type 0
Smaller want = All (λ x. x.1 < want)

pub record SizeCut (c : Store) (head : Ptr) (fs : Cells) (want : ℕ) (prev cur : Ptr) : Type 0 where
  pub cut : Cut c head fs prev cur
  pub small : Smaller want cut.xs
  pub big : FirstBig want cut.ys

Apart-step :
    (p : Ptr) (s : ℕ) (xs ys : Cells)
    → has p ys ≡ false
    → Apart xs ((p, s) ∷ ys)
    → Apart ((p, s) ∷ xs) ys
Apart-step p s xs ys out apart a i = ground (arith, apart a)

module _ (h : Heap) (head : Ptr) (fs : Cells) where
  pub find_size-SizeCut :
      (k want : ℕ) {prev cur : Ptr} {xs ys : Cells}
      → Front h.cell head prev xs cur
      → Chain h.cell cur ys
      → Apart xs ys
      → onto xs ys ≡ fs
      → Smaller want xs
      → length ys < k
      → (prev' cur' : Ptr) × (find_size k want prev cur h ≡ done ((prev', cur'), h))
        × SizeCut h.cell head fs want prev' cur'
  unfolding find_size
  find_size-SizeCut zero want f r apart whole small fuel = absurd (omega arith)
  find_size-SizeCut (suc k) want {prev} {xs} f nil apart whole small fuel = (
    prev,
    null,
    refl,
    record {
      cut = record { xs = xs; ys = []; front = f; back = nil; apart = apart; whole = whole };
      small = small;
      big = tt;
    },
  )
  find_size-SizeCut (suc k) want {prev} {xs} f (cons {p} {q} {m} {s} {xs = ys} ne e out r) apart
        whole small fuel =
      rw (not_null ne, read-ok h ne e)
        (elim (Bool-cases (leb want s)) [
          | inl fits ↦ rw fits (
            prev,
            p,
            refl,
            record {
              cut = record {
                xs = xs;
                ys = (p, s) ∷ ys;
                front = f;
                back = cons ne e out r;
                apart = apart;
                whole = whole;
              };
              small = small;
              big = ground arith;
            },
          )
          | inr tight ↦ rw tight (
              let new : has p xs ≡ false = ground (arith, apart p) in
              find_size-SizeCut k want (step f ne e new) r (Apart-step p s xs ys out apart) whole
                (ground arith, small) (omega arith))
        ])

  pub find_ptr-Cut :
      (k target : ℕ) {prev cur : Ptr} {xs ys : Cells}
      → Front h.cell head prev xs cur
      → Chain h.cell cur ys
      → Apart xs ys
      → onto xs ys ≡ fs
      → has target ys ≡ true
      → length ys < k
      → (prev' : Ptr) × (find_ptr k target prev cur h ≡ done (prev', h))
        × Cut h.cell head fs prev' target
  unfolding find_ptr
  find_ptr-Cut zero target f r apart whole i fuel = absurd (omega arith)
  find_ptr-Cut (suc k) target f nil apart whole i fuel = cc
  find_ptr-Cut (suc k) target {prev} {xs} f (cons {p} {q} {m} {s} {xs = ys} ne e out r) apart whole
        i fuel =
      elim (Bool-cases (p == target)) [
        | inl hit ↦
            let here : p ≡ target = ground arith in
            let cut : Cut h.cell head fs prev p = record {
              xs = xs;
              ys = (p, s) ∷ ys;
              front = f;
              back = cons ne e out r;
              apart = apart;
              whole = whole;
            } in
            rw hit (prev, refl, rw here at cut)
        | inr miss ↦
            let new : has p xs ≡ false = ground (arith, apart p) in
            rw (miss, read-ok h ne e)
              (find_ptr-Cut k target (step f ne e new) r (Apart-step p s xs ys out apart) whole
                (ground arith) (omega arith))
      ]
