-- ===== src/Fat/Read.antt =====
-- What `fat_read_file` of fs/fat16.c reads of a chain of clusters.
use ts_os.Base.{
  ℕ, suc, ◌+◌, ◌*◌, ◌/◌, ◌%◌, ◌^◌, ◌≤◌, ◌<◌, ◌≡◌, refl, ◌∙◌, sym, true, false, ◌&&◌, not, List, [],
  ◌∷◌, ◌++◌, length, arith, ◌==◌, ltb, if◌then◌else◌, u32, sub32, done, ◌>>=◌,
}
use ts_os.Base.Bytes.{take, drop, length-take}
use ts_os.Base.Parts.{length-drop, bytes_at-inside, put_bytes-joined}
use ts_os.Ata.{Media}
use ts_os.Ata.Transfer.{IsDrive, stretch, length-stretch, ata_read_sector-stretch}
use ts_os.String.{Str}
use ts_os.Fat.{Fat16Volume, fat_clus_eof, cluster_lba, fat_read_cluster, fat_get_next_cluster}
use ts_os.Fat.File.{min, read_from}

-- a drive of whole sectors, of which a cluster has from 1 to 255
pub record HasClusters (v : Fat16Volume) (media : Media) : Type 0 where
  pub drive : IsDrive media
  pub some_sector : 0 < v.sb.sectors_per_cluster
  pub byte : v.sb.sectors_per_cluster < 256
  pub whole : v.cluster_bytes ≡ 512 * v.sb.sectors_per_cluster

-- the cluster lies on the drive
abbrev pub IsPlaced : Fat16Volume → Media → ℕ → Type 0
IsPlaced v media c =
    (cluster_lba v c + v.sb.sectors_per_cluster ≤ length media) × (cluster_lba v c < 2 ^ 28)

abbrev pub cluster : Fat16Volume → Media → ℕ → List ℕ
cluster v media c = stretch media (cluster_lba v c) v.sb.sectors_per_cluster

-- the bytes of the clusters of a file, one behind the other
abbrev pub content : Fat16Volume → Media → List ℕ → List ℕ
content v media [] = []
content v media (c ∷ cs) = cluster v media c ++ content v media cs

-- The clusters `cs` lie on the drive and follow each other from `c` on.
abbrev pub IsFileChain : Fat16Volume → Media → List ℕ → ℕ → Type 0
IsFileChain v media [] c = Unit
IsFileChain v media (d ∷ cs) c =
    (d ≡ c)
    × (fat_clus_eof c ≡ false)
    × IsPlaced v media c
    × (next : ℕ) × (fat_get_next_cluster v media c ≡ done next)
    × IsFileChain v media cs next

module _ (v : Fat16Volume) (media : Media) (has : HasClusters v media) where
  pub fat_read_cluster-cluster :
      (c : ℕ)
      → IsPlaced v media c
      → fat_read_cluster v media c ≡ done (v.sb.sectors_per_cluster, cluster v media c)
  unfolding fat_read_cluster
  fat_read_cluster-cluster c placed =
      ata_read_sector-stretch media (cluster_lba v c) v.sb.sectors_per_cluster v.cluster_bytes
        has.some_sector has.byte (omega (arith, has.whole)) placed.0 placed.1

  pub length-cluster : (c : ℕ) → IsPlaced v media c → length (cluster v media c) ≡ v.cluster_bytes
  length-cluster c placed =
      length-stretch v.sb.sectors_per_cluster media (cluster_lba v c) has.drive placed.0
      ∙ sym has.whole

-- one round of the loop
pub read_from-suc :
    (v : Fat16Volume) (media : Media) (k limit c offset n c' r : ℕ) (front old block : Str)
    → (ltb offset limit && not (fat_clus_eof c)) ≡ true
    → min limit (u32 (offset + v.cluster_bytes) / v.cluster_bytes * v.cluster_bytes) ≡ offset + n
    → sub32 (offset + n) offset ≡ n
    → u32 (length front + n) ≡ length front + n
    → fat_read_cluster v media c ≡ done (r, block)
    → offset % v.cluster_bytes + n ≤ length block
    → n ≤ length old
    → (if (offset + n) / v.cluster_bytes == offset / v.cluster_bytes
        then done c
        else fat_get_next_cluster v media c)
      ≡ done c'
    → read_from (suc k) v media limit c offset (length front) (front ++ old)
      ≡ read_from k v media limit c'
          (offset + n)
          (length front + n)
          (front ++ (take n (drop (offset % v.cluster_bytes) block) ++ drop n old))
unfolding read_from
read_from-suc v media k limit c offset n c' r front old block go end difference word read inside
      room next =
    let o = offset % v.cluster_bytes in
    let bytes = bytes_at-inside block o n inside in
    let some_bytes : length (take n (drop o block)) ≡ n =
      length-take n (drop o block) (omega (arith, length-drop o block)) in
    let put = put_bytes-joined front old (take n (drop o block)) (omega (arith, some_bytes)) in
    rw (read_from, go, end, difference, read, ◌>>=◌, bytes, put, next, word, some_bytes) refl
