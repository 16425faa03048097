-- ===== src/Fat/Offset.antt =====
-- Offsets in clusters: which cluster they lie in, and how far from its start.
use ts_os.Base.{ℕ, ◌+◌, ◌-◌, ◌*◌, ◌/◌, ◌%◌, ◌<◌, ◌≡◌, ◌∙◌, ap, arith}
use native.Mathlib.Nat.{div-add-mod', mod-lt, add-div_right, div-eq_of_lt-le}

module _ (cb offset : ℕ) (pos : 0 < cb) where
  -- the end of the cluster, as `fat_read_file` computes it
  pub cluster_end : (offset + cb) / cb * cb ≡ offset + (cb - offset % cb)
  cluster_end =
      let e : (offset + cb) / cb ≡ offset / cb + 1 = add-div_right offset pos in
      ap (λ (q : ℕ). q * cb) e ∙ omega (arith, div-add-mod' offset cb, mod-lt offset pos)

  module _ (n : ℕ) where
    pub same_cluster : offset % cb + n < cb → (offset + n) / cb ≡ offset / cb
    same_cluster lt =
        div-eq_of_lt-le cb (omega (arith, div-add-mod' offset cb))
          (omega (arith, div-add-mod' offset cb))

    pub same_cluster-mod : offset % cb + n < cb → (offset + n) % cb ≡ offset % cb + n
    same_cluster-mod lt = omega (
      arith,
      div-add-mod' (offset + n) cb,
      div-add-mod' offset cb,
      ap (λ (q : ℕ). q * cb) (same_cluster lt),
    )

    pub next_cluster : offset % cb + n ≡ cb → (offset + n) / cb ≡ offset / cb + 1
    next_cluster e =
        div-eq_of_lt-le cb (omega (arith, div-add-mod' offset cb))
          (omega (arith, div-add-mod' offset cb))

    pub next_cluster-mod : offset % cb + n ≡ cb → (offset + n) % cb ≡ 0
    next_cluster-mod e = omega (
      arith,
      div-add-mod' (offset + n) cb,
      div-add-mod' offset cb,
      ap (λ (q : ℕ). q * cb) (next_cluster e),
    )
