-- ===== src/Fat.antt =====
-- fs/fat16.c and fs/fat16.h: the volume, the allocation table and the clusters on the drive of
-- drivers/ata.c. A buffer is the list of the bytes that were read into it; the bytes behind them are
-- those of an uninitialised array, and to read one is a `fault`.
pub mod Dirent
pub mod Name
pub mod Search
pub mod File
pub mod Open
pub mod Offset
pub mod Read
pub mod Reads
pub mod Whole
pub mod Remove
pub mod Create
pub mod Table
pub mod Chain
pub mod Block
pub mod Scan
pub mod Free
pub mod Extend
mod Tests
use ts_os.Base.{
  ℕ, zero, suc, ◌+◌, ◌-◌, ◌*◌, ◌/◌, ◌%◌, ◌^◌, Bool, true, false, ◌&&◌, ◌||◌, not, List, [], length,
  get_elem?, inl, inr, ◌⊎◌, ltb, leb, ◌==◌, if◌then◌else◌, u8, u16, u32, sub32, Outcome, done,
  halted, fault, out_of_fuel, ◌>>=◌, checked,
}
use ts_os.Base.Bytes.{get_u16, set_u16, u16_at, u32_at}
use ts_os.Ata.{Media, Command, ata_read_sector, ata_write_sector}

-- the values of an entry of the table
unfoldable pub fat_clus_normal : ℕ → Bool
fat_clus_normal c = leb 3 c && leb c 0xFFEF

unfoldable pub fat_clus_free : ℕ → Bool
fat_clus_free c = c == 0

unfoldable pub fat_clus_eof : ℕ → Bool
fat_clus_eof c = leb 0xFFF8 c && leb c 0xFFFF

abbrev pub fat_clus_root : ℕ
fat_clus_root = 0

pub record FatSuperBlock : Type 0 where
  pub bytes_per_sector : ℕ
  pub sectors_per_cluster : ℕ
  pub reserve_sectors : ℕ
  pub fat_num : ℕ
  pub root_ents_num : ℕ
  pub sectors_fat : ℕ
  pub hidden_sectors : ℕ

pub record Fat16Volume : Type 0 where
  pub sb : FatSuperBlock
  pub root_sectors : ℕ
  pub volume_start : ℕ
  pub fat_start : ℕ
  pub root_dir_start : ℕ
  pub data_start : ℕ
  pub cluster_bytes : ℕ

-- The fields that nothing reads are left out.
unfoldable pub fat16_get_superblock : Media → Outcome FatSuperBlock
fat16_get_superblock media =
    ata_read_sector media (record { lba_start = 0; sec_num = 1; buf_size = 512 }) >>= λ (_, buf).
    u16_at buf 11 >>= λ bytes_per_sector. checked (get_elem? buf 13) >>= λ sectors_per_cluster.
    u16_at buf 14 >>= λ reserve_sectors. checked (get_elem? buf 16) >>= λ fat_num.
    u16_at buf 17 >>= λ root_ents_num. u16_at buf 22 >>= λ sectors_fat.
    u32_at buf 28 >>= λ hidden_sectors. done (record {
      bytes_per_sector = bytes_per_sector;
      sectors_per_cluster = sectors_per_cluster;
      reserve_sectors = reserve_sectors;
      fat_num = fat_num;
      root_ents_num = root_ents_num;
      sectors_fat = sectors_fat;
      hidden_sectors = hidden_sectors;
    })

-- the places on the drive, `uint16_t` each
unfoldable pub volume_of : FatSuperBlock → Fat16Volume
volume_of sb =
    let volume_start = u16 sb.hidden_sectors in
    let fat_start = u16 (volume_start + sb.reserve_sectors) in
    let root_dir_start = u16 (fat_start + sb.sectors_fat * sb.fat_num) in
    record {
      sb = sb;
      root_sectors = (sb.root_ents_num * 32 + sb.bytes_per_sector - 1) / sb.bytes_per_sector;
      volume_start = volume_start;
      fat_start = fat_start;
      root_dir_start = root_dir_start;
      data_start = u16 (root_dir_start + sb.root_ents_num * 32 / sb.bytes_per_sector);
      cluster_bytes = sb.sectors_per_cluster * sb.bytes_per_sector;
    }

-- A division by zero traps.
unfoldable pub fat_get_volume : Media → Outcome Fat16Volume
fat_get_volume media = fat16_get_superblock media >>= λ sb.
    if sb.bytes_per_sector == 0 then halted else done (volume_of sb)

-- the sector of the table with the entry of a cluster, and its bytes
unfoldable pub read_fat : Fat16Volume → Media → (cluster : ℕ) → Outcome (ℕ × List ℕ)
read_fat v media cluster =
    let fat_sector = u16 (v.fat_start + cluster * 2 / v.sb.bytes_per_sector) in
    ata_read_sector media
      (record { lba_start = fat_sector; sec_num = 1; buf_size = v.sb.bytes_per_sector })
    >>= λ (_, buf). done (fat_sector, buf)

unfoldable pub write_fat : Fat16Volume → Media → (cluster val : ℕ) → Outcome (ℕ × Media)
write_fat v media cluster val = read_fat v media cluster >>= λ (sector, buf).
    set_u16 buf (cluster % (v.sb.bytes_per_sector / 2)) val >>= λ buf'.
    ata_write_sector media
      (record { lba_start = sector; sec_num = 1; buf_size = v.sb.bytes_per_sector }) buf'
    >>= λ (_, media'). done (sector, media')

unfoldable pub fat_get_next_cluster : Fat16Volume → Media → (cluster : ℕ) → Outcome ℕ
fat_get_next_cluster v media cluster =
    read_fat v media cluster >>= λ (_, buf). get_u16 buf (cluster % (v.sb.bytes_per_sector / 2))

-- the first sector of a cluster, on `uint32_t`
unfoldable pub cluster_lba : Fat16Volume → ℕ → ℕ
cluster_lba v cluster = u32 (v.data_start + sub32 cluster 2 * v.sb.sectors_per_cluster)

unfoldable pub fat_read_cluster : Fat16Volume → Media → (cluster : ℕ) → Outcome (ℕ × List ℕ)
fat_read_cluster v media cluster = ata_read_sector media (record {
  lba_start = cluster_lba v cluster;
  sec_num = v.sb.sectors_per_cluster;
  buf_size = v.cluster_bytes;
})

-- The loop over `sec_n` writes the same buffer to one cluster after the other.
unfoldable pub write_clusters : ℕ → Fat16Volume → Media → List ℕ → (lba : ℕ) → Outcome Media
write_clusters zero v media buf lba = done media
write_clusters (suc sec_n) v media buf lba =
    ata_write_sector media
      (record { lba_start = lba; sec_num = v.sb.sectors_per_cluster; buf_size = v.cluster_bytes })
      buf
    >>= λ (n, media'). write_clusters sec_n v media' buf (u32 (lba + n))

unfoldable pub fat_write_cluster :
    Fat16Volume → Media → List ℕ → (cluster_start sec_n : ℕ) → Outcome Media
fat_write_cluster v media buf cluster_start sec_n =
    write_clusters sec_n v media buf (cluster_lba v cluster_start)

-- the entries of one block: a free one behind number 2, or the number after the last
unfoldable pub scan_block : ℕ → List ℕ → (cluster_bytes i fat_cnt : ℕ) → Outcome (ℕ ⊎ ℕ)
scan_block zero buf cluster_bytes i fat_cnt = out_of_fuel
scan_block (suc k) buf cluster_bytes i fat_cnt = elim (ltb (2 * i) cluster_bytes) [
  | false ↦ done (inr fat_cnt)
  | true ↦ get_u16 buf i >>= λ entry. elim (ltb 2 fat_cnt && fat_clus_free entry) [
    | true ↦ done (inl fat_cnt)
    | false ↦ scan_block k buf cluster_bytes (i + 1) (u16 (fat_cnt + 1))
  ]
]

unfoldable pub free_cluster_from : ℕ → Fat16Volume → Media → (lba fat_cnt : ℕ) → Outcome ℕ
free_cluster_from zero v media lba fat_cnt = out_of_fuel
free_cluster_from (suc k) v media lba fat_cnt =
    elim (ltb (sub32 lba v.fat_start) v.sb.sectors_fat) [
      | false ↦ halted
      | true ↦
          ata_read_sector media (record {
            lba_start = lba;
            sec_num = v.sb.sectors_per_cluster;
            buf_size = v.cluster_bytes;
          })
          >>= λ (rd_sec, buf).
              scan_block (suc v.cluster_bytes) buf v.cluster_bytes 0 fat_cnt >>= λ found.
              elim found [
                | inl cluster ↦ done cluster
                | inr fat_cnt' ↦ free_cluster_from k v media (u32 (lba + rd_sec)) fat_cnt'
              ]
    ]

-- Every round takes at least a sector of the table, if a cluster has any.
unfoldable pub fat_get_free_cluster : Fat16Volume → Media → Outcome ℕ
fat_get_free_cluster v media = free_cluster_from (suc v.sb.sectors_fat) v media v.fat_start 0

-- A chain without a cycle has at most one cluster for each number.
abbrev pub chain_rounds : ℕ
chain_rounds = 2 ^ 16

unfoldable pub free_chain : ℕ → Fat16Volume → Media → (cluster : ℕ) → Outcome Media
free_chain zero v media cluster = out_of_fuel
free_chain (suc k) v media cluster = elim (fat_clus_normal cluster) [
  | false ↦ done media
  | true ↦ fat_get_next_cluster v media cluster >>= λ next.
      write_fat v media cluster 0 >>= λ (_, media'). free_chain k v media' next
]

unfoldable pub fat_free_clusters_until_end : Fat16Volume → Media → (cluster : ℕ) → Outcome Media
fat_free_clusters_until_end v media cluster = free_chain chain_rounds v media cluster
