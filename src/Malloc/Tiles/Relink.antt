-- ===== src/Malloc/Tiles/Relink.antt =====
-- Headers behind their views, and the link from a block back to the one before it.
use ts_os.Base.{ℕ, ◌≤◌, ◌<◌, ◌≡◌, ◌≢◌, refl, true, false, Option, none, some, arith}
use ts_os.Malloc.{Ptr, null, RegionHeader, Store, put, heap_end}
use ts_os.Malloc.FreeList.{free_header, forget_some, view}
use ts_os.Malloc.Tiles.{Blocks, used_header, Tiles, end, block, Tiles-frame}
use ts_os.Malloc.Tiles.Shape.{starts_free}

pub view-used :
    (c : Store) (p : Ptr) {m s : ℕ} {q : Ptr}
    → view c p ≡ some (used_header m s q)
    → c p ≡ some (used_header m s q)
view-used c p e = ground arith

pub view-free :
    (c : Store) (p : Ptr) {m s : ℕ}
    → view c p ≡ some (free_header m s null)
    → (l : Ptr) × (c p ≡ some (free_header m s l))
view-free c p {m} {s} e = go (c p) e
  where
    go :
        (o : Option RegionHeader)
        → forget_some o ≡ some (free_header m s null)
        → (l : Ptr) × (o ≡ some (free_header m s l))
    go none e = cc
    go (some hd) e = (hd.link, ground arith)

pub view_of_free :
    (c : Store) (p : Ptr) {m s : ℕ} {l : Ptr}
    → c p ≡ some (free_header m s l)
    → view c p ≡ some (free_header m s null)
view_of_free c p e = ground arith

pub view-put_ne :
    (c : Store) (p : Ptr) (hd : RegionHeader) (a : Ptr) → a ≢ p → view (put c p hd) a ≡ view c a
unfolding put
view-put_ne c p hd a ne = ground arith

pub put_self : (c : Store) (p : Ptr) (hd : RegionHeader) → put c p hd p ≡ some hd
unfolding put
put_self c p hd = ground arith

pub put_ne : (c : Store) (p : Ptr) (hd : RegionHeader) (a : Ptr) → a ≢ p → put c p hd a ≡ c a
unfolding put
put_ne c p hd a ne = ground arith

-- Either the heap ends at `q`, or an allocated block stands there whose link may be changed.
pub data Relink (c : Store) (prev q : Ptr) (bs : Blocks) : Type 0 where
  at_end : q ≡ heap_end → ((new : Ptr) → Tiles c new q bs) → Relink c prev q bs
  at_block :
      (m s : ℕ)
      → q < heap_end
      → c q ≡ some (used_header m s prev)
      → ((new : Ptr) → Tiles (put c q (used_header m s new)) new q bs)
      → Relink c prev q bs

pub Tiles-le : {c : Store} {prev q : Ptr} {bs : Blocks} → Tiles c prev q bs → q ≤ heap_end
Tiles-le (end e) = omega arith
Tiles-le (block m e v t) = omega (arith, Tiles-le t)

pub relink :
    {c : Store} {prev q : Ptr} {bs : Blocks}
    → Tiles c prev q bs
    → starts_free bs ≡ false
    → Relink c prev q bs
relink (end e) used = at_end e (λ new. end e)
relink (block m {b = (false, s)} e v t) used = cc
relink {c} {q} (block m {b = (true, s)} e v t) used =
    at_block m s (omega (arith, Tiles-le t)) (view-used c q v) λ new.
      block m e (rw put_self refl)
        (Tiles-frame t λ a h. view-put_ne c q (used_header m s new) a (omega arith))
