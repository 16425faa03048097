-- ===== src/Fat/Free.antt =====
-- The search of fs/fat16.c for a free cluster.
use ts_os.Base.{
  ℕ, zero, suc, ◌+◌, ◌*◌, ◌≤◌, ◌<◌, ◌≡◌, true, false, Bool-cases, inl, inr, ◌⊎◌, arith, ltb, u16,
  u32, sub32, Outcome, done, halted, ◌>>=◌,
}
use mathlib.Core.Path.{subst}
use ts_os.Ata.{Media}
use ts_os.Ata.Transfer.{ata_read_sector-stretch}
use ts_os.Fat.{Fat16Volume, fat_get_next_cluster, free_cluster_from, fat_get_free_cluster}
use ts_os.Fat.Table.{IsFat, InFat}
use ts_os.Fat.Scan.{Taken, Scan, hit, miss, scan_block-Scan}

-- what the search returns: the first free cluster from number 3 on, or it stops for good if none is
-- free
pub data FreeCluster (v : Fat16Volume) (media : Media) : Outcome ℕ → Type 0 where
  found :
      (c : ℕ)
      → InFat v c
      → 2 < c
      → fat_get_next_cluster v media c ≡ done 0
      → Taken v media 0 c
      → FreeCluster v media (done c)
  none_left : Taken v media 0 (256 * v.sb.sectors_fat) → FreeCluster v media halted

Taken-join :
    (v : Fat16Volume) (media : Media) (mid hi : ℕ)
    → Taken v media 0 mid
    → Taken v media mid hi
    → Taken v media 0 hi
Taken-join v media mid hi low high d le lt two = elim (Bool-cases (ltb d mid)) [
  | inl below ↦ low d le (ground arith) two
  | inr above ↦ high d (ground arith) lt two
]

module _ (v : Fat16Volume) (media : Media) (fat : IsFat v media) (small : v.sb.sectors_fat ≤ 256)
    (some_sector : 0 < v.sb.sectors_per_cluster) (byte : v.sb.sectors_per_cluster < 256)
    (whole : v.cluster_bytes ≡ 512 * v.sb.sectors_per_cluster) where
  after_block :
      (k b : ℕ) {r : ℕ ⊎ ℕ}
      → Taken v media 0 (256 * b)
      → b + v.sb.sectors_per_cluster ≤ v.sb.sectors_fat
      → Scan v media (256 * b + 0) (256 * (b + v.sb.sectors_per_cluster)) r
      → (Taken v media 0 (256 * (b + v.sb.sectors_per_cluster))
          → FreeCluster v media (
              free_cluster_from k v media
                (v.fat_start + (b + v.sb.sectors_per_cluster))
                (u16 (256 * (b + v.sb.sectors_per_cluster)))))
      → FreeCluster v media (elim r [
        | inl cluster ↦ done cluster
        | inr fat_cnt' ↦
            free_cluster_from k v media (u32 (v.fat_start + b + v.sb.sectors_per_cluster)) fat_cnt'
      ])
  after_block k b before inside (hit c le lt two free taken) rest =
      let start : 256 * b + 0 ≡ 256 * b = omega arith in
      found c (omega arith) two free (Taken-join v media (256 * b) c before (rw start at taken))
  after_block k b before inside (miss m word taken) rest =
      let start : 256 * b + 0 ≡ 256 * b = omega arith in
      let lba : u32 (v.fat_start + b + v.sb.sectors_per_cluster)
          ≡ v.fat_start + (b + v.sb.sectors_per_cluster) =
        omega (arith, fat.placed) in
      rw (lba, word)
        (rest (
          Taken-join v media (256 * b) (256 * (b + v.sb.sectors_per_cluster)) before
            (rw start at taken)))

  free_cluster_from-FreeCluster :
      (k q b : ℕ)
      → b + q * v.sb.sectors_per_cluster ≡ v.sb.sectors_fat
      → Taken v media 0 (256 * b)
      → q < k
      → FreeCluster v media (free_cluster_from k v media (v.fat_start + b) (u16 (256 * b)))
  unfolding free_cluster_from
  free_cluster_from-FreeCluster zero q b blocks before fuel = absurd (omega arith)
  free_cluster_from-FreeCluster (suc k) zero b blocks before fuel =
      let at_end : b ≡ v.sb.sectors_fat = omega (arith, blocks) in
      let stop : ltb (sub32 (v.fat_start + b) v.fat_start) v.sb.sectors_fat ≡ false =
        ground (arith, fat.placed) in
      rw (free_cluster_from, stop)
        (none_left (subst (λ (h : ℕ). Taken v media 0 (256 * h)) at_end before))
  free_cluster_from-FreeCluster (suc k) (suc q) b blocks before fuel =
      let n = v.sb.sectors_per_cluster in
      let blocks' : b + (q * n + n) ≡ v.sb.sectors_fat = omega (arith, blocks) in
      let go : ltb (sub32 (v.fat_start + b) v.fat_start) v.sb.sectors_fat ≡ true =
        ground (arith, fat.placed) in
      let read =
        ata_read_sector-stretch media (v.fat_start + b) n v.cluster_bytes some_sector byte
          (omega arith) (omega (arith, fat.inside)) (omega (arith, fat.placed)) in
      let zeroth : u16 (256 * b) ≡ u16 (256 * b + 0) = omega arith in
      let (r, runs, scanned) =
        scan_block-Scan v media b n fat (omega arith) small whole (suc v.cluster_bytes) 0
          (omega arith) (omega arith) in
      rw (free_cluster_from, go, read, ◌>>=◌, zeroth, runs)
        (after_block k b before (omega arith) scanned
          (λ taken. free_cluster_from-FreeCluster k q (b + n) (omega arith) taken (omega arith)))

le_mul : (q n : ℕ) → 0 < n → q ≤ q * n
le_mul zero n pos = omega arith
le_mul (suc q) n pos = omega (arith, le_mul q n pos)

-- On a table of at most 256 sectors that are `q` whole clusters' worth of them,
-- `fat_get_free_cluster` returns the first cluster with a zero entry, of those from number 3 on, or
-- it stops for good and every one of them has an entry that is not zero.
pub fat_get_free_cluster-FreeCluster :
    (v : Fat16Volume) (media : Media) (q : ℕ)
    → IsFat v media
    → v.sb.sectors_fat ≤ 256
    → 0 < v.sb.sectors_per_cluster
    → v.sb.sectors_per_cluster < 256
    → v.cluster_bytes ≡ 512 * v.sb.sectors_per_cluster
    → q * v.sb.sectors_per_cluster ≡ v.sb.sectors_fat
    → FreeCluster v media (fat_get_free_cluster v media)
unfolding fat_get_free_cluster
fat_get_free_cluster-FreeCluster v media q fat small pos byte whole blocks =
    let start : v.fat_start + 0 ≡ v.fat_start = omega arith in
    let enough : q ≤ q * v.sb.sectors_per_cluster = le_mul q v.sb.sectors_per_cluster pos in
    rw start at (
      free_cluster_from-FreeCluster v media fat small pos byte whole (suc v.sb.sectors_fat) q 0
        (omega arith) (λ d le lt two. absurd (omega arith)) (omega arith))
