-- ===== src/Fat/Open.antt =====
-- `fat_open` of fs/fat16.c for a path that exists, and the entry of an open file on the drive.
use ts_os.Base.{
  ℕ, zero, suc, true, false, Option, none, some, List, ◌==◌, bit_and, bit_or, if◌then◌else◌,
  Outcome, done, halted, out_of_fuel, ◌>>=◌,
}
use ts_os.Ata.{Media, ata_read_sector, ata_write_sector}
use ts_os.String.{Str}
use ts_os.Fat.{
  Fat16Volume, fat_clus_normal, fat_clus_root, fat_read_cluster, fat_write_cluster,
  fat_get_next_cluster, chain_rounds,
}
use ts_os.Fat.Dirent.{FatDirEntry, put_dirent, blank_dirent}
use ts_os.Fat.Search.{Fat16File, new_fat16_file, search_name_in_block, fat16_find}

abbrev pub ctl_dir : ℕ
ctl_dir = 0x01

abbrev pub ctl_write : ℕ
ctl_write = 0x02

abbrev pub ctl_append : ℕ
ctl_append = 0x04

abbrev pub ctl_create : ℕ
ctl_create = 0x08

-- the last cluster of a chain
unfoldable pub last_cluster : ℕ → Fat16Volume → Media → (cluster : ℕ) → Outcome ℕ
last_cluster zero v media cluster = out_of_fuel
last_cluster (suc k) v media cluster = fat_get_next_cluster v media cluster >>= λ tmp.
    elim (fat_clus_normal tmp) [ false ↦ done cluster | true ↦ last_cluster k v media tmp ]

-- `fat_open` without `FAT16_CTL_CREATE`. The entry of the new file is filled by `fat16_find`.
unfoldable pub open_existing :
    Fat16Volume → Media → (path : Str) → (flag : ℕ) → Outcome (Option Fat16File)
open_existing v media path flag = new_fat16_file (some path) none flag blank_dirent >>= λ fresh.
    fat16_find v media fresh path >>= λ found. elim found [
      | none ↦ done none
      | some file ↦
          if bit_and flag ctl_append == 0
          then done (some file)
          else (last_cluster chain_rounds v media file.dirent.start_cluster >>= λ cluster. done (
              some (record file {
                flag = bit_or file.flag ctl_write;
                current_cluster = cluster;
                byte_offset = file.dirent.file_size;
              })))
    ]

-- The sector in the root directory, or the cluster, with the entry; `found` is the entry's offset.
unfoldable pub dirent_block : Fat16Volume → Media → Fat16File → Outcome (List ℕ)
dirent_block v media file =
    if file.dirent_cluster == fat_clus_root
    then (ata_read_sector media
          (record { lba_start = file.dirent_sector; sec_num = 1; buf_size = v.cluster_bytes })
        >>= λ (_, buf). done buf)
    else (fat_read_cluster v media file.dirent_cluster >>= λ (_, buf). done buf)

unfoldable pub put_dirent_block : Fat16Volume → Media → Fat16File → List ℕ → Outcome Media
put_dirent_block v media file block =
    if file.dirent_cluster == fat_clus_root
    then (ata_write_sector media
          (record { lba_start = file.dirent_sector; sec_num = 1; buf_size = v.cluster_bytes }) block
        >>= λ (_, media'). done media')
    else fat_write_cluster v media block file.dirent_cluster 1

unfoldable pub fat_update_file_dirent :
    Fat16Volume → Media → Fat16File → (new_dirent : Option FatDirEntry) → Outcome Media
fat_update_file_dirent v media file new_dirent = dirent_block v media file >>= λ block.
    search_name_in_block block v.cluster_bytes file.dirent.filename >>= λ found. elim found [
      | none ↦ halted
      | some p ↦
          put_dirent block p (elim new_dirent [ none ↦ file.dirent | some d ↦ d ]) >>= λ block'.
          put_dirent_block v media file block'
    ]
