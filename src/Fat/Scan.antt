-- ===== src/Fat/Scan.antt =====
-- The search of fs/fat16.c for a free cluster in one block of the table.
use ts_os.Base.{
  ℕ, zero, suc, ◌+◌, ◌*◌, ◌%◌, ◌≤◌, ◌<◌, ◌≡◌, ◌≢◌, refl, ◌∙◌, ap, sym, true, false, ◌&&◌,
  Bool-cases, inl, inr, ◌⊎◌, List, arith, ◌==◌, ltb, u16, done, ◌>>=◌,
}
use mathlib.Core.Path.{subst}
use ts_os.Base.Bytes.{get_u16}
use ts_os.Base.Words.{get_u16-done}
use ts_os.Ata.{Media}
use ts_os.Ata.Transfer.{stretch}
use ts_os.Fat.{Fat16Volume, fat_get_next_cluster, fat_clus_free, scan_block}
use ts_os.Fat.Table.{IsFat, IsFat-Located}
use ts_os.Fat.Block.{block_entry}

-- no cluster from `lo` on and below `hi` is free, but for the first three
abbrev pub Taken : Fat16Volume → Media → (lo hi : ℕ) → Type 0
Taken v media lo hi =
    (d : ℕ)
    → lo ≤ d
    → d < hi
    → 2 < d
    → (e : ℕ) × (fat_get_next_cluster v media d ≡ done e) × (e ≢ 0)

pub data Scan (v : Fat16Volume) (media : Media) (lo hi : ℕ) : ℕ ⊎ ℕ → Type 0 where
  hit :
      (c : ℕ)
      → lo ≤ c
      → c < hi
      → 2 < c
      → fat_get_next_cluster v media c ≡ done 0
      → Taken v media lo c
      → Scan v media lo hi (inl c)
  miss : (n : ℕ) → n ≡ u16 hi → Taken v media lo hi → Scan v media lo hi (inr n)

Taken-suc :
    (v : Fat16Volume) (media : Media) (lo hi e : ℕ)
    → fat_get_next_cluster v media lo ≡ done e
    → (2 < lo → e ≢ 0)
    → Taken v media (suc lo) hi
    → Taken v media lo hi
Taken-suc v media lo hi e entry used later d le lt two = elim (Bool-cases (lo == d)) [
  | inl same ↦
      let lo≡d : lo ≡ d = ground arith in
      (e, ap (fat_get_next_cluster v media) (sym lo≡d) ∙ entry, used (omega arith))
  | inr other ↦ later d (ground arith) lt two
]

Scan-suc :
    (v : Fat16Volume) (media : Media) (lo hi e : ℕ) {r : ℕ ⊎ ℕ}
    → fat_get_next_cluster v media lo ≡ done e
    → (2 < lo → e ≢ 0)
    → Scan v media (suc lo) hi r
    → Scan v media lo hi r
Scan-suc v media lo hi e entry used (hit c le lt two free taken) =
    hit c (omega arith) lt two free (Taken-suc v media lo c e entry used taken)
Scan-suc v media lo hi e entry used (miss n word taken) =
    miss n word (Taken-suc v media lo hi e entry used taken)

scan_block-found :
    (k i cb cnt e : ℕ) (buf : List ℕ)
    → ltb (2 * i) cb ≡ true
    → get_u16 buf i ≡ done e
    → (ltb 2 cnt && fat_clus_free e) ≡ true
    → scan_block (suc k) buf cb i cnt ≡ done (inl cnt)
unfolding scan_block
scan_block-found k i cb cnt e buf go got free = rw (scan_block, go, got, ◌>>=◌, free) refl

scan_block-past :
    (k i cb cnt e : ℕ) (buf : List ℕ)
    → ltb (2 * i) cb ≡ true
    → get_u16 buf i ≡ done e
    → (ltb 2 cnt && fat_clus_free e) ≡ false
    → scan_block (suc k) buf cb i cnt ≡ scan_block k buf cb (i + 1) (u16 (cnt + 1))
unfolding scan_block
scan_block-past k i cb cnt e buf go got used = rw (scan_block, go, got, ◌>>=◌, used) refl

module _ (v : Fat16Volume) (media : Media) (b n : ℕ) (fat : IsFat v media)
    (inside : b + n ≤ v.sb.sectors_fat) (small : v.sb.sectors_fat ≤ 256)
    (whole : v.cluster_bytes ≡ 512 * n) where
  abbrev block : List ℕ
  block = stretch media (v.fat_start + b) n

  pub scan_block-Scan :
      (k i : ℕ)
      → i ≤ 256 * n
      → 256 * n < k + i
      → (r : ℕ ⊎ ℕ) × (scan_block k block v.cluster_bytes i (u16 (256 * b + i)) ≡ done r)
        × Scan v media (256 * b + i) (256 * (b + n)) r
  unfolding scan_block fat_clus_free
  scan_block-Scan zero i le fuel = absurd (omega arith)
  scan_block-Scan (suc k) i le fuel = elim (Bool-cases (ltb (2 * i) v.cluster_bytes)) [
    | inr stop ↦
        let at_end : i ≡ 256 * n = ground arith in
        (
          inr (u16 (256 * b + i)),
          rw (scan_block, stop) refl,
          miss (u16 (256 * b + i)) (omega arith) (λ d ge lt two. absurd (omega arith)),
        )
    | inl go ↦
        let lt : i < 256 * n = ground arith in
        let l = IsFat-Located v media (256 * b + i) fat (omega arith) in
        let (e, word) = get_u16-done l.sector ((256 * b + i) % 256) (omega (arith, l.full)) in
        let entry = l.next ∙ word in
        let got = block_entry v media b n i fat inside lt ∙ entry in
        let exact : u16 (256 * b + i) ≡ 256 * b + i = omega arith in
        let step : u16 (u16 (256 * b + i) + 1) ≡ u16 (256 * b + (i + 1)) = omega arith in
        elim (Bool-cases (ltb 2 (u16 (256 * b + i)) && fat_clus_free e)) [
          | inl free ↦
              let e≡0 : e ≡ 0 = ground arith in
              (
                inl (256 * b + i),
                scan_block-found k i v.cluster_bytes (u16 (256 * b + i)) e block go got free
                    ∙ ap (λ (c : ℕ). done (inl c)) exact,
                hit (256 * b + i) (omega arith) (omega arith) (ground arith) (entry ∙ ap done e≡0)
                    (λ d ge lt two. absurd (omega arith)),
              )
          | inr used ↦
              let (r, runs, found) = scan_block-Scan k (i + 1) (omega arith) (omega arith) in
              let up : 256 * b + (i + 1) ≡ suc (256 * b + i) = omega arith in
              (
                r,
                scan_block-past k i v.cluster_bytes (u16 (256 * b + i)) e block go got used
                    ∙ ap (scan_block k block v.cluster_bytes (i + 1)) step
                    ∙ runs,
                Scan-suc v media (256 * b + i) (256 * (b + n)) e entry (λ two z. ground arith)
                    (subst (λ (lo : ℕ). Scan v media lo (256 * (b + n)) r) up found),
              )
        ]
  ]
