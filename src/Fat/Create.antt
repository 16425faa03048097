-- ===== src/Fat/Create.antt =====
-- Creating files in fs/fat16.c, and `fat_open` with `FAT16_CTL_CREATE`.
use ts_os.Base.{
  ℕ, zero, suc, ◌+◌, ◌-◌, ◌*◌, ◌/◌, ◌^◌, true, false, Option, none, some, List, [], ◌∷◌, ltb, ◌==◌,
  bit_and, bit_or, u32, sub32, if◌then◌else◌, Outcome, done, fault, out_of_fuel, ◌>>=◌,
}
use ts_os.Base.Bytes.{replicate, put_bytes, drop, u16_at, u16_bytes}
use ts_os.Ata.{Media, ata_write_sector}
use ts_os.String.{Str, at_offset}
use ts_os.Fat.{
  Fat16Volume, fat_clus_free, fat_clus_eof, fat_clus_root, fat_write_cluster, fat_get_free_cluster,
  write_fat, chain_rounds,
}
use ts_os.Fat.Dirent.{ent_attr_dir}
use ts_os.Fat.Name.{fat16_filename_fmt, fat_filename_match, get_basedir, get_filename}
use ts_os.Fat.Search.{Fat16File}
use ts_os.Fat.Open.{ctl_dir, ctl_create, open_existing}
use ts_os.Fat.File.{fat_read_file}

-- The literals `"."` and `".."` with the bytes that stand behind them in memory: nine bytes of each
-- are copied.
pub record Literals : Type 0 where
  pub dot : Str
  pub dot_dot : Str

-- a zeroed entry at `p` that gets a name, the bytes `extra` at `at` of it and a first cluster
unfoldable pub new_entry :
    (buf : List ℕ)
    → (p : ℕ) → (name : Str) → (at : ℕ) → (extra : List ℕ) → (start_cluster : ℕ) → Outcome (List ℕ)
new_entry buf p name at extra start_cluster = put_bytes buf p (replicate 32 0) >>= λ zeroed.
    at_offset p (λ b. fat16_filename_fmt b name) zeroed >>= λ named.
    put_bytes named (p + at) extra >>= λ extended.
    put_bytes extended (p + 26) (u16_bytes start_cluster)

-- `attr |= ENT_ATTR_DIR` for a directory, the extension `txt` for a file
unfoldable pub file_entry :
    List ℕ → (p : ℕ) → (name : Str) → (flag start_cluster : ℕ) → Outcome (List ℕ)
file_entry buf p name flag start_cluster =
    if bit_and flag ctl_dir == 0
    then new_entry buf p name 8 (116 ∷ 120 ∷ 116 ∷ []) start_cluster
    else new_entry buf p name 11 (ent_attr_dir ∷ []) start_cluster

-- the first cluster of the new file
unfoldable pub first_block :
    Literals → Fat16Volume → (flag new_cluster parent_cluster : ℕ) → Outcome (List ℕ)
first_block lits v flag new_cluster parent_cluster =
    let zeros = replicate v.cluster_bytes 0 in
    if bit_and flag ctl_dir == 0
    then done zeros
    else (new_entry zeros 0 lits.dot 11 (ent_attr_dir ∷ []) new_cluster >>= λ one.
        new_entry one 32 lits.dot_dot 11 (ent_attr_dir ∷ []) parent_cluster)

-- the sector of the root directory, or the cluster, with the new entry at `p`
unfoldable pub put_parent_block :
    Fat16Volume
    → Media
    → (parent : Fat16File) → (buf : List ℕ) → (p parent_cluster : ℕ) → Outcome Media
put_parent_block v media parent buf p parent_cluster =
    let bps = v.sb.bytes_per_sector in
    if parent.dirent.start_cluster == fat_clus_root
    then (ata_write_sector media
          (record {
            lba_start = u32 (
                sub32 (v.root_dir_start + parent.byte_offset / bps) v.sb.sectors_per_cluster
                + p / bps);
            sec_num = 1;
            buf_size = bps;
          })
          (drop (p / bps * bps) buf)
        >>= λ (_, media'). done media')
    else fat_write_cluster v media buf parent_cluster 1

-- from the label `create_file_dirent` on
unfoldable pub create_file_dirent :
    Literals
    → Fat16Volume
    → Media
    → (parent : Fat16File) → (buf : List ℕ) → (p : ℕ) → (name : Str) → (flag parent_cluster : ℕ)
    → Outcome Media
create_file_dirent lits v media parent buf p name flag parent_cluster =
    fat_get_free_cluster v media >>= λ new_cluster.
    file_entry buf p name flag new_cluster >>= λ buf'.
    put_parent_block v media parent buf' p parent_cluster >>= λ listed.
    write_fat v listed new_cluster 0xFFFF >>= λ (_, marked).
    first_block lits v flag new_cluster parent_cluster >>= λ first.
    fat_write_cluster v marked first new_cluster 1

-- the literal `"..      "`
abbrev pub dots_name : Str
dots_name = 46 ∷ 46 ∷ 32 ∷ 32 ∷ 32 ∷ 32 ∷ 32 ∷ 32 ∷ 0 ∷ []

-- the offset of the first entry that is free and not `..`, from `p` on
unfoldable pub free_entry : ℕ → (buf : List ℕ) → (cluster_bytes p : ℕ) → Outcome (Option ℕ)
free_entry zero buf cluster_bytes p = out_of_fuel
free_entry (suc k) buf cluster_bytes p = elim (ltb p cluster_bytes) [
  | false ↦ done none
  | true ↦ u16_at buf (p + 26) >>= λ start_cluster.
      (if fat_clus_free start_cluster then fat_filename_match buf p dots_name else done 1)
      >>= λ taken. elim (taken == 0) [
        | true ↦ done (some p)
        | false ↦ free_entry k buf cluster_bytes (p + 32)
      ]
]

-- the loop over the clusters of the parent, with the buffer of the last round
unfoldable pub create_from :
    ℕ
    → Literals
    → Fat16Volume
    → Media
    → (parent : Fat16File) → (buf : List ℕ) → (name : Str) → (flag parent_cluster : ℕ)
    → Outcome Media
create_from zero lits v media parent buf name flag parent_cluster = out_of_fuel
create_from (suc k) lits v media parent buf name flag parent_cluster =
    fat_read_file v media parent buf v.cluster_bytes >>= λ io.
    elim (fat_clus_eof io.file.current_cluster) [
      | true ↦ fat_get_free_cluster v io.media >>= λ new.
          write_fat v io.media parent.current_cluster new >>= λ (_, linked).
          write_fat v linked new 0xFFFF >>= λ (_, marked).
          create_file_dirent lits v marked io.file (replicate v.cluster_bytes 0) 0 name flag new
      | false ↦ free_entry (suc v.cluster_bytes) io.user_buf v.cluster_bytes 0 >>= λ place.
          elim place [
            | some p ↦
                create_file_dirent lits v io.media io.file io.user_buf p name flag parent_cluster
            | none ↦
                create_from k lits v io.media io.file io.user_buf name flag io.file.current_cluster
          ]
    ]

-- `_fat_create_file`
unfoldable pub fat_create_file :
    Literals
    → Fat16Volume
    → Media
    → (parent : Fat16File) → (name : Str) → (flag : ℕ) → Outcome Media
fat_create_file lits v media parent name flag =
    create_from chain_rounds lits v media parent (replicate v.cluster_bytes 0) name flag
      parent.dirent.start_cluster

-- a path that does not exist
unfoldable pub open_created :
    Literals → Fat16Volume → Media → (path : Str) → (flag : ℕ) → Outcome (Option Fat16File × Media)
open_created lits v media path flag = get_basedir path (replicate 128 0) >>= λ (_, base_dir).
    get_filename (some path) (replicate 128 0) >>= λ (name, filename). elim name [
      | none ↦ done (none, media)
      | some _ ↦ open_existing v media base_dir 0 >>= λ parent. elim parent [
        | none ↦ done (none, media)
        | some dir ↦ fat_create_file lits v media dir filename flag >>= λ media'.
            open_existing v media' path (bit_and flag (2 ^ 32 - 1 - ctl_create)) >>= λ opened.
            elim opened [
              | none ↦ fault
              | some file ↦ done (some (record file { flag = bit_or file.flag ctl_create }), media')
            ]
      ]
    ]

unfoldable pub fat_open :
    Literals → Fat16Volume → Media → (path : Str) → (flag : ℕ) → Outcome (Option Fat16File × Media)
fat_open lits v media path flag =
    if bit_and flag ctl_create == 0
    then (open_existing v media path flag >>= λ opened. done (opened, media))
    else (open_existing v media path (bit_and flag (2 ^ 32 - 1 - ctl_create)) >>= λ opened.
        elim opened [
          | some file ↦ done (some (record file { flag = flag }), media)
          | none ↦ open_created lits v media path flag
        ])
