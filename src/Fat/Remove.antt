-- ===== src/Fat/Remove.antt =====
-- Deleting in fs/fat16.c: the clusters of a directory's files, and the entry.
use ts_os.Base.{
  ℕ, zero, suc, ◌+◌, Bool, true, false, not, none, some, List, [], ◌∷◌, ltb, ◌==◌, bit_and, set,
  if◌then◌else◌, Outcome, done, out_of_fuel, ◌>>=◌, checked, get_elem?,
}
use ts_os.Base.Bytes.{u16_at}
use ts_os.Ata.{Media}
use ts_os.String.{Str}
use ts_os.Fat.{
  Fat16Volume, fat_clus_normal, fat_clus_root, fat_read_cluster, fat_get_next_cluster,
  fat_free_clusters_until_end, write_fat, chain_rounds,
}
use ts_os.Fat.Dirent.{ent_attr_dir, is_directory}
use ts_os.Fat.Name.{fat_filename_match}
use ts_os.Fat.Open.{open_existing, fat_update_file_dirent}

-- the literals `".        "` and `"..       "`
abbrev pub dot_name : Str
dot_name = 46 ∷ 32 ∷ 32 ∷ 32 ∷ 32 ∷ 32 ∷ 32 ∷ 32 ∷ 32 ∷ 0 ∷ []

abbrev pub dot_dot_name : Str
dot_dot_name = 46 ∷ 46 ∷ 32 ∷ 32 ∷ 32 ∷ 32 ∷ 32 ∷ 32 ∷ 32 ∷ 0 ∷ []

-- whether the entry at `p` is one to free: of a cluster, and neither `.` nor `..`
unfoldable pub is_child : (block : List ℕ) → (p start_cluster : ℕ) → Outcome Bool
is_child block p start_cluster =
    if not (fat_clus_normal start_cluster)
    then done false
    else (fat_filename_match block p dot_name >>= λ dot.
        if dot == 0
        then (fat_filename_match block p dot_dot_name >>= λ dots. done (dots == 0))
        else done false)

-- The entries of a block from `p` on. `free_dir` frees the files of a directory by its first cluster.
unfoldable pub free_entries :
    ℕ
    → (free_dir : Media → ℕ → Outcome Media) → Fat16Volume
    → Media
    → (block : List ℕ) → (p : ℕ) → Outcome Media
free_entries zero free_dir v media block p = out_of_fuel
free_entries (suc k) free_dir v media block p = elim (ltb p v.cluster_bytes) [
  | false ↦ done media
  | true ↦ u16_at block (p + 26) >>= λ start_cluster. is_child block p start_cluster >>= λ child.
      (if child
        then (checked (get_elem? block (p + 11)) >>= λ attr.
            if bit_and attr ent_attr_dir == 0
            then fat_free_clusters_until_end v media start_cluster
            else free_dir media start_cluster)
        else done media)
      >>= λ media'. free_entries k free_dir v media' block (p + 32)
]

-- the clusters of a directory
unfoldable pub free_dir_chain :
    ℕ → (free_dir : Media → ℕ → Outcome Media) → Fat16Volume → Media → (cluster : ℕ) → Outcome Media
free_dir_chain zero free_dir v media cluster = out_of_fuel
free_dir_chain (suc k) free_dir v media cluster = elim (fat_clus_normal cluster) [
  | false ↦ done media
  | true ↦ fat_read_cluster v media cluster >>= λ (_, block).
      free_entries (suc v.cluster_bytes) free_dir v media block 0 >>= λ freed.
      fat_get_next_cluster v freed cluster >>= λ next.
      write_fat v freed cluster 0 >>= λ (_, media'). free_dir_chain k free_dir v media' next
]

-- `_fat_free_childs_under_dir` by the first cluster of the directory, `depth` calls deep
unfoldable pub free_childs : (depth : ℕ) → Fat16Volume → Media → (cluster : ℕ) → Outcome Media
free_childs zero v media cluster = out_of_fuel
free_childs (suc depth) v media cluster =
    free_dir_chain chain_rounds (free_childs depth v) v media cluster

-- Directories are less deep than there are clusters. What `printl` shows is left out.
unfoldable pub fat_delete_file : Fat16Volume → Media → (path : Str) → Outcome (Bool × Media)
fat_delete_file v media path = open_existing v media path 0 >>= λ opened. elim opened [
  | none ↦ done (false, media)
  | some file ↦
      if file.current_cluster == fat_clus_root
      then done (false, media)
      else ((if is_directory file.dirent == 0
            then fat_free_clusters_until_end v media file.dirent.start_cluster
            else free_childs chain_rounds v media file.dirent.start_cluster)
          >>= λ freed.
              fat_update_file_dirent v freed file (
                some (record file.dirent {
                  filename = set file.dirent.filename 0 0xE5;
                  file_size = 0;
                  start_cluster = 0;
                }))
              >>= λ media'. done (true, media'))
]
