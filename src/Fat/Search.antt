-- ===== src/Fat/Search.antt =====
-- Open files of fs/fat16.c, and the search for an entry in a block, a directory and along a path.
use ts_os.Base.{
  ℕ, zero, suc, ◌+◌, ◌*◌, ◌/◌, true, false, Option, none, some, List, [], ◌∷◌, length, ltb, ◌==◌,
  bit_or, u32, sub32, if◌then◌else◌, Outcome, done, halted, out_of_fuel, ◌>>=◌, checked, get_elem?,
}
use ts_os.Base.Bytes.{replicate, u16_at}
use ts_os.Ata.{Media, ata_read_sector}
use ts_os.String.{Str, strlen, strcpy, string_equal}
use ts_os.String.Memory.{strtok}
use ts_os.Fat.{
  Fat16Volume, fat_clus_normal, fat_clus_free, fat_clus_root, fat_read_cluster,
  fat_get_next_cluster, chain_rounds,
}
use ts_os.Fat.Dirent.{FatDirEntry, dirent_at, blank_dirent}
use ts_os.Fat.Name.{fat_filename_match, fat16_filename_fmt}

pub record Fat16File : Type 0 where
  pub path : Option Str
  pub dirent : FatDirEntry
  pub dirent_sector : ℕ
  pub dirent_cluster : ℕ
  pub current_cluster : ℕ
  pub byte_offset : ℕ
  pub flag : ℕ

-- `fresh` is what the memory of a new entry holds.
unfoldable pub new_fat16_file :
    Option Str → (ent : Option FatDirEntry) → (flag : ℕ) → (fresh : FatDirEntry) → Outcome Fat16File
new_fat16_file path ent flag fresh = strlen path >>= λ l.
    strcpy path (elim path [ none ↦ none | some s ↦ some (replicate (l + 1) 0) ]) >>= λ copy.
    done (record {
      path = copy;
      dirent = elim ent [ none ↦ fresh | some e ↦ e ];
      dirent_sector = 0xFF;
      dirent_cluster = 0xFF;
      current_cluster = elim ent [ none ↦ 0xFF | some e ↦ e.start_cluster ];
      byte_offset = 0;
      flag = flag;
    })

-- the offset of the first entry in use with the name, from `p` on
unfoldable pub search_entries :
    ℕ → (block : List ℕ) → (bsize p : ℕ) → (name : Str) → Outcome (Option ℕ)
search_entries zero block bsize p name = out_of_fuel
search_entries (suc k) block bsize p name = elim (ltb p bsize) [
  | false ↦ done none
  | true ↦ u16_at block (p + 26) >>= λ start_cluster.
      (if fat_clus_free start_cluster then done 0 else fat_filename_match block p name) >>= λ found.
      elim (found == 0) [
        | false ↦ done (some p)
        | true ↦ search_entries k block bsize (p + 32) name
      ]
]

unfoldable pub search_name_in_block :
    (block : List ℕ) → (bsize : ℕ) → (name : Str) → Outcome (Option ℕ)
search_name_in_block block bsize name = search_entries (suc bsize) block bsize 0 name

-- an entry in the root directory: the first sector of its block, its offset in this, and the block
pub record RootEntry : Type 0 where
  pub lba : ℕ
  pub offset : ℕ
  pub block : List ℕ

unfoldable pub search_root_from :
    ℕ → Fat16Volume → Media → (name : Str) → (lba : ℕ) → Outcome (Option RootEntry)
search_root_from zero v media name lba = out_of_fuel
search_root_from (suc k) v media name lba = elim (ltb (sub32 lba v.root_dir_start) v.root_sectors) [
  | false ↦ done none
  | true ↦
      ata_read_sector media
        (record { lba_start = lba; sec_num = v.sb.sectors_per_cluster; buf_size = v.cluster_bytes })
      >>= λ (read_sector, buf).
          search_name_in_block buf (read_sector * v.sb.bytes_per_sector) name >>= λ target.
          elim target [
            | some p ↦ done (some (record { lba = lba; offset = p; block = buf }))
            | none ↦ search_root_from k v media name (u32 (lba + read_sector))
          ]
]

-- Every round reads a sector of the directory at least, if a cluster has any.
unfoldable pub fat_search_root :
    Fat16Volume → Media → Fat16File → (name : Str) → Outcome (Option Fat16File)
fat_search_root v media file name =
    search_root_from (suc v.root_sectors) v media name v.root_dir_start >>= λ found. elim found [
      | none ↦ done none
      | some r ↦ dirent_at r.block r.offset >>= λ dirent. done (
          some (record file {
            dirent = dirent;
            current_cluster = dirent.start_cluster;
            dirent_cluster = fat_clus_root;
            dirent_sector = r.lba + r.offset / v.sb.bytes_per_sector;
          }))
    ]

unfoldable pub search_clusters :
    ℕ → Fat16Volume → Media → Fat16File → (name : Str) → (cluster : ℕ) → Outcome (Option Fat16File)
search_clusters zero v media file name cluster = out_of_fuel
search_clusters (suc k) v media file name cluster = elim (fat_clus_normal cluster) [
  | false ↦ done none
  | true ↦ fat_read_cluster v media cluster >>= λ (n, buf). elim (n == 0) [
    | true ↦ halted
    | false ↦ search_name_in_block buf v.cluster_bytes name >>= λ target. elim target [
      | some p ↦ dirent_at buf p >>= λ dirent. done (
          some (record file {
            dirent = dirent;
            dirent_cluster = cluster;
            current_cluster = dirent.start_cluster;
          }))
      | none ↦
          fat_get_next_cluster v media cluster >>= λ next. search_clusters k v media file name next
    ]
  ]
]

-- `_fat_search_file`
unfoldable pub fat_search_formatted :
    Fat16Volume
    → Media
    → Fat16File
    → (fmt_name : Str) → (start_cluster : ℕ) → Outcome (Option Fat16File)
fat_search_formatted v media file fmt_name start_cluster =
    if start_cluster == fat_clus_root
    then fat_search_root v media file fmt_name
    else search_clusters chain_rounds v media file fmt_name start_cluster

unfoldable pub fat_search_file :
    Fat16Volume
    → Media
    → Fat16File
    → (name : Str) → (start_cluster : ℕ) → Outcome (Option Fat16File)
fat_search_file v media file name start_cluster =
    fat16_filename_fmt (replicate 16 0) name >>= λ fmt_name.
    fat_search_formatted v media file fmt_name start_cluster

abbrev pub slash : Str
slash = 47 ∷ 0 ∷ []

-- the segments of a path, from `next` on
unfoldable pub find_from :
    ℕ → Fat16Volume → Media → Fat16File → (next seg : Str) → Outcome (Option Fat16File)
find_from zero v media file next seg = out_of_fuel
find_from (suc k) v media file next seg = strtok next slash seg >>= λ (next', seg').
    checked (get_elem? seg' 0) >>= λ first. elim (first == 0) [
      | true ↦ done (some file)
      | false ↦ fat_search_file v media file seg' file.dirent.start_cluster >>= λ found.
          elim found [
            | none ↦ done none
            | some file' ↦ elim next' [
              | none ↦ done (some file')
              | some rest ↦ find_from k v media file' rest seg'
            ]
          ]
    ]

-- Every round takes a byte off the path. Bit 31 of the flag says that the file is the root.
unfoldable pub fat16_find :
    Fat16Volume → Media → Fat16File → (path : Str) → Outcome (Option Fat16File)
fat16_find v media file path = string_equal (some slash) (some path) >>= λ is_root.
    if is_root == 0
    then find_from (length path) v media (record file { dirent = blank_dirent }) path
        (replicate 16 0)
    else done (
        some (record file {
          dirent = blank_dirent;
          current_cluster = fat_clus_root;
          dirent_cluster = 0xFF;
          dirent_sector = 0xFF;
          flag = bit_or file.flag 0x80000000;
        }))
