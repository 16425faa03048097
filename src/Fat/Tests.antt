-- ===== src/Fat/Tests.antt =====
-- Runs of fs/fat16.c on a small drive: a boot sector, one sector of table, one of root directory, and
-- clusters of one sector. Clusters 3 and 4 are a chain.
use ts_os.Base.{
  ◌+◌, ◌/◌, ◌%◌, ◌^◌, ◌≤◌, ◌<◌, ◌≡◌, refl, true, false, none, [], ◌∷◌, ◌++◌, length, arith, done,
}
use ts_os.Base.Bytes.{replicate, take, drop, get_u16, u16_at, u32_at}
use ts_os.Ata.{Media, Sector, command_registers, selected, requested, read_sectors, ata_read_sector}
use ts_os.Fat.{
  Fat16Volume, fat16_get_superblock, fat_get_volume, volume_of, read_fat, write_fat,
  fat_get_next_cluster, fat_get_free_cluster, fat_clus_normal, fat_clus_eof,
  fat_free_clusters_until_end, cluster_lba,
}
use ts_os.Ata.Transfer.{IsDrive}
use ts_os.Fat.Chain.{IsChain, Freed, fat_free_clusters_until_end-Freed}
use ts_os.Fat.Free.{FreeCluster, fat_get_free_cluster-FreeCluster}
use ts_os.Fat.Extend.{Extended, next_or_new-IsChain}
use ts_os.Fat.File.{next_or_new, Io, count, fat_read_file}
use ts_os.Fat.Dirent.{blank_dirent, is_directory}
use ts_os.Fat.Search.{Fat16File}
use ts_os.Fat.Read.{content}
use ts_os.Fat.Whole.{IsReadable, lesser, fat_read_file-content}
use ts_os.Fat.Table.{IsFat, Updated, write_fat-Updated}

abbrev boot : Sector
boot =
    replicate 11 0 ++ (0 ∷ 2 ∷ 1 ∷ 1 ∷ 0 ∷ 1 ∷ 16 ∷ 0 ∷ 0 ∷ 0 ∷ 0 ∷ 1 ∷ 0 ∷ []) ++ replicate 488 0

abbrev table : Sector
table = 248 ∷ 255 ∷ 255 ∷ 255 ∷ 0 ∷ 0 ∷ 4 ∷ 0 ∷ 255 ∷ 255 ∷ replicate 502 0

abbrev drive : Media
drive = boot ∷ table ∷ replicate 6 (replicate 512 0)

abbrev volume : Fat16Volume
volume = record {
  sb = record {
    bytes_per_sector = 512;
    sectors_per_cluster = 1;
    reserve_sectors = 1;
    fat_num = 1;
    root_ents_num = 16;
    sectors_fat = 1;
    hidden_sectors = 0;
  };
  root_sectors = 1;
  volume_start = 0;
  fat_start = 1;
  root_dir_start = 2;
  data_start = 3;
  cluster_bytes = 512;
}

mounted : fat_get_volume drive ≡ done volume
unfolding fat_get_volume fat16_get_superblock volume_of ata_read_sector read_sectors selected
    requested command_registers u16_at u32_at
mounted = refl

volume-drive : IsDrive drive
volume-drive = (refl, (refl, (refl, (refl, (refl, (refl, (refl, (refl, tt))))))))

volume-IsFat : IsFat volume drive
volume-IsFat = record {
  sector_size = refl;
  placed = omega arith;
  inside = omega arith;
  drive = volume-drive;
}

write_fat-Updated_example :
    (media' : Media) × (write_fat volume drive 4 5 ≡ done (1 + 4 / 256, media'))
    × Updated volume drive 4 5 media'
write_fat-Updated_example =
    write_fat-Updated volume drive 4 5 volume-IsFat (omega arith) (omega arith)

-- the entries of the chain
entry_3 : fat_get_next_cluster volume drive 3 ≡ done 4
unfolding fat_get_next_cluster read_fat ata_read_sector read_sectors selected requested
    command_registers get_u16
entry_3 = refl

entry_4 : fat_get_next_cluster volume drive 4 ≡ done 0xFFFF
unfolding fat_get_next_cluster read_fat ata_read_sector read_sectors selected requested
    command_registers get_u16
entry_4 = refl

chain : IsChain volume drive (3 ∷ 4 ∷ []) 3
unfolding fat_clus_normal
chain = (
  refl,
  refl,
  omega arith,
  4,
  entry_3,
  ((λ e. omega arith), tt),
  (refl, refl, omega arith, 0xFFFF, entry_4, tt, refl),
)

fat_free_clusters_until_end-Freed_example :
    (media' : Media) × (fat_free_clusters_until_end volume drive 3 ≡ done media')
    × Freed volume drive (3 ∷ 4 ∷ []) media'
fat_free_clusters_until_end-Freed_example =
    fat_free_clusters_until_end-Freed volume drive 3 (3 ∷ 4 ∷ []) volume-IsFat chain (omega arith)

fat_get_free_cluster-FreeCluster_example :
    FreeCluster volume drive (fat_get_free_cluster volume drive)
fat_get_free_cluster-FreeCluster_example =
    fat_get_free_cluster-FreeCluster volume drive 1 volume-IsFat (omega arith) (omega arith)
      (omega arith) refl refl

eof_mark : fat_clus_eof 0xFFFF ≡ true
unfolding fat_clus_eof
eof_mark = refl

next_or_new-IsChain_example : Extended volume drive (3 ∷ 4 ∷ []) 3 4 (next_or_new volume drive 4)
next_or_new-IsChain_example =
    next_or_new-IsChain volume drive 1 (3 ∷ 4 ∷ []) 3 4 0xFFFF volume-IsFat (omega arith)
      (omega arith) (omega arith) refl refl chain refl (omega arith) entry_4 eof_mark

-- a file of 600 bytes in clusters 3 and 4, of which ten are read
abbrev opened : Fat16File
opened = record {
  path = none;
  dirent = record blank_dirent { start_cluster = 3; file_size = 600 };
  dirent_sector = 2;
  dirent_cluster = 0;
  current_cluster = 3;
  byte_offset = 508;
  flag = 0;
}

live_3 : fat_clus_eof 3 ≡ false
unfolding fat_clus_eof
live_3 = refl

live_4 : fat_clus_eof 4 ≡ false
unfolding fat_clus_eof
live_4 = refl

plain : is_directory opened.dirent ≡ 0
unfolding is_directory
plain = refl

placed_3 : (cluster_lba volume 3 + 1 ≤ length drive) × (cluster_lba volume 3 < 2 ^ 28)
unfolding cluster_lba
placed_3 = (omega arith, omega arith)

placed_4 : (cluster_lba volume 4 + 1 ≤ length drive) × (cluster_lba volume 4 < 2 ^ 28)
unfolding cluster_lba
placed_4 = (omega arith, omega arith)

opened-IsReadable : IsReadable volume drive opened (3 ∷ 4 ∷ [])
opened-IsReadable = record {
  clusters = record {
    drive = volume-drive;
    some_sector = omega arith;
    byte = omega arith;
    whole = refl;
  };
  chain = (refl, live_3, placed_3, 4, entry_3, (refl, live_4, placed_4, 0xFFFF, entry_4, tt));
  live = live_3;
  started = λ e. omega arith;
  plain = plain;
  left = omega arith;
}

fat_read_file-content_example :
    (io : Io) × (fat_read_file volume drive opened (replicate 12 1) 10 ≡ done io)
    × (io.ret ≡ count (lesser 10 92))
    × (io.file.byte_offset ≡ 508 + lesser 10 92)
    × (io.user_buf
        ≡ take 10 (drop (508 % 512) (content volume drive (3 ∷ 4 ∷ [])))
          ++ drop 10 (replicate 12 1))
    × (io.media ≡ drive)
fat_read_file-content_example =
    fat_read_file-content volume drive opened (3 ∷ 4 ∷ []) (replicate 12 1) 10 opened-IsReadable
      (omega arith) (omega arith) (omega arith)
