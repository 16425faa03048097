-- ===== src/Malloc/Tiles.antt =====
-- The regions of kernel/malloc.c tile the heap: a list of blocks in address order.
pub mod Gaps
pub mod Relink
pub mod Shape
use ts_os.Base.{
  ℕ, zero, suc, ◌+◌, ◌*◌, ◌≤◌, ◌<◌, ◌≡◌, refl, ◌∙◌, Bool, true, false, ◌||◌, not, Option, none,
  some, List, [], ◌∷◌, arith, ◌==◌, if◌then◌else◌, length,
}
use native.Mathlib.Nat.{add-zero}
use ts_os.Malloc.{Ptr, null, RegionHeader, Store, region_alloc, heap_start, heap_end, r_header_size}
use ts_os.Malloc.FreeList.{Cells, has, free_header, onto, view}

-- whether a block is allocated, and its size
abbrev pub Blocks : Type 0
Blocks = List (Bool × ℕ)

abbrev pub used_header : (magic size : ℕ) → Ptr → RegionHeader
used_header m s p = record { type = region_alloc; magic = m; size = s; link = p }

-- the header that stands at a block, behind the block at `prev`
abbrev pub block_header : Ptr → ℕ → Bool × ℕ → RegionHeader
block_header prev m (true, s) = used_header m s prev
block_header prev m (false, s) = free_header m s null

-- From `p` on, the headers are those of `bs`, which fill the heap to its end.
pub data Tiles (c : Store) : Ptr → Ptr → Blocks → Type 0 where
  end : {prev p : Ptr} → p ≡ heap_end → Tiles c prev p []
  block :
      {prev p q : Ptr} (m : ℕ) {b : Bool × ℕ} {bs : Blocks}
      → q ≡ p + r_header_size + b.1
      → view c p ≡ some (block_header prev m b)
      → Tiles c p q bs
      → Tiles c prev p (b ∷ bs)

-- From the start of the heap to `p` the headers are those of `rb`, last first.
pub data Before (c : Store) : Ptr → Ptr → Blocks → Type 0 where
  origin : {p : Ptr} → p ≡ heap_start → Before c null p []
  block :
      {prev p q : Ptr} (m : ℕ) {b : Bool × ℕ} {rb : Blocks}
      → Before c prev p rb
      → q ≡ p + r_header_size + b.1
      → view c p ≡ some (block_header prev m b)
      → Before c p q (b ∷ rb)

abbrev pub rejoin : Blocks → Blocks → Blocks
rejoin [] bs = bs
rejoin (b ∷ rb) bs = rejoin rb (b ∷ bs)

abbrev pub extent : Blocks → ℕ
extent [] = 0
extent ((_, s) ∷ bs) = extent bs + r_header_size + s

-- both parts of the tiling around the end of `rb`
pub record Around (c : Store) (rb bs : Blocks) : Type 0 where
  pub prev : Ptr
  pub before : Before c prev (heap_start + extent rb) rb
  pub after : Tiles c prev (heap_start + extent rb) bs

module _ {c : Store} where
  pub Tiles-frame :
      {d : Store} {prev p : Ptr} {bs : Blocks}
      → Tiles c prev p bs
      → ((a : Ptr) → p ≤ a → view d a ≡ view c a)
      → Tiles d prev p bs
  Tiles-frame (end e) same = end e
  Tiles-frame (block {p} m {b} e v r) same =
      block m e (same p (omega arith) ∙ v) (Tiles-frame r λ a h. same a (omega arith))

  pub Before-frame :
      {d : Store} {prev p : Ptr} {rb : Blocks}
      → Before c prev p rb
      → ((a : Ptr) → a < p → view d a ≡ view c a)
      → Before d prev p rb
  Before-frame (origin e) same = origin e
  Before-frame (block {p} m r e v) same =
      block m (Before-frame r λ a h. same a (omega arith)) e (same p (omega arith) ∙ v)

  pub rejoin-Tiles :
      {prev p : Ptr} {rb bs : Blocks}
      → Before c prev p rb
      → Tiles c prev p bs
      → Tiles c null heap_start (rejoin rb bs)
  rejoin-Tiles (origin e) t = rw (← e) t
  rejoin-Tiles (block m r e v) t = rejoin-Tiles r (block m e v t)

  pub uncons :
      {prev p : Ptr} {b : Bool × ℕ} {bs : Blocks}
      → Tiles c prev p (b ∷ bs)
      → (m q : ℕ) × (q ≡ p + r_header_size + b.1)
        × (view c p ≡ some (block_header prev m b))
        × Tiles c p q bs
  uncons (block {q} m e v t) = (m, q, e, v, t)

  shift : {rb bs : Blocks} {b : Bool × ℕ} → Around c rb (b ∷ bs) → Around c (b ∷ rb) bs
  shift {rb} {bs} {b} r =
      let (m, q, e, v, t) = uncons r.after in
      let at_q : q ≡ heap_start + (extent rb + r_header_size + b.1) = omega arith in
      record {
        prev = heap_start + extent rb;
        before = block m r.before (omega arith) v;
        after = rw at_q at t;
      }

  pub split-Around : (rb bs : Blocks) → Tiles c null heap_start (rejoin rb bs) → Around c rb bs
  split-Around [] bs t = record {
    prev = null;
    before = origin (omega arith);
    after = rw (add-zero heap_start) t;
  }
  split-Around (b ∷ rb) bs t = shift (split-Around rb (b ∷ bs) t)

  pub Before-extent : {prev p : Ptr} {rb : Blocks} → Before c prev p rb → p ≡ heap_start + extent rb
  Before-extent (origin e) = omega arith
  Before-extent (block m r e v) = omega (arith, Before-extent r)

  pub unsnoc :
      {prev q : Ptr} {b : Bool × ℕ} {rb : Blocks}
      → Before c prev q (b ∷ rb)
      → (pp m : ℕ) × (prev ≡ heap_start + extent rb)
        × Before c pp (heap_start + extent rb) rb
        × (view c (heap_start + extent rb) ≡ some (block_header pp m b))
  unsnoc (block {prev = pp} {p} m r e v) =
      let at_p : p ≡ heap_start + extent _ = Before-extent r in
      (pp, m, at_p, rw at_p at r, rw at_p at v)
