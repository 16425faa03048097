-- ===== src/Malloc/Access.antt =====
-- Reads and writes of the heap model where a header stands.
use ts_os.Base.{◌≡◌, ◌≢◌, false, some, arith, ◌==◌, done, ℕ}
use ts_os.Malloc.{Ptr, null, RegionHeader, Heap, put, read, write, set_link, set_size, set_type}

pub not_null : {p : Ptr} → p ≢ null → (p == null) ≡ false
not_null ne = ground arith

module _ (h : Heap) {p : Ptr} {hd : RegionHeader} (ne : p ≢ null) (got : h.cell p ≡ some hd) where
  pub read-ok : read p h ≡ done (hd, h)
  unfolding read
  read-ok = rw (not_null ne, got)

  pub set_link-ok :
      (q : Ptr)
      → set_link p q h ≡ done (tt, record h { cell = put h.cell p (record hd { link = q }) })
  unfolding set_link write
  set_link-ok q = rw read-ok

  pub set_size-ok :
      (n : ℕ)
      → set_size p n h ≡ done (tt, record h { cell = put h.cell p (record hd { size = n }) })
  unfolding set_size write
  set_size-ok n = rw read-ok

  pub set_type-ok :
      (t : ℕ)
      → set_type p t h ≡ done (tt, record h { cell = put h.cell p (record hd { type = t }) })
  unfolding set_type write
  set_type-ok t = rw read-ok
