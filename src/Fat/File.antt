-- ===== src/Fat/File.antt =====
-- Reading and writing open files in fs/fat16.c.
use ts_os.Base.{
  ℕ, zero, suc, ◌+◌, ◌-◌, ◌*◌, ◌/◌, ◌%◌, Bool, true, false, ◌&&◌, ◌||◌, not, none, [], ltb, leb,
  ◌==◌, bit_and, u16, u32, sub32, ◌^◌, if◌then◌else◌, Outcome, done, halted, out_of_fuel, ◌>>=◌,
}
use ts_os.Base.Bytes.{bytes_at, put_bytes}
use ts_os.Ata.{Media, Command, ata_read_sector, ata_write_sector}
use ts_os.String.{Str}
use ts_os.Fat.{
  Fat16Volume, fat_clus_eof, fat_clus_root, fat_read_cluster, fat_write_cluster,
  fat_get_next_cluster, fat_get_free_cluster, write_fat,
}
use ts_os.Fat.Dirent.{is_directory}
use ts_os.Fat.Search.{Fat16File}
use ts_os.Fat.Open.{ctl_write, fat_update_file_dirent}

-- what the operations return: a number of bytes, -1 or -2
pub data Count : Type 0 where
  count : ℕ → Count
  end_of_file : Count
  refused : Count

-- the file, the user's buffer and the drive afterwards
pub record Io : Type 0 where
  pub ret : Count
  pub file : Fat16File
  pub user_buf : Str
  pub media : Media

-- An `int` is given by its 32 bits: `a<b`, and the quotient by a positive number, towards zero.
abbrev pub int_lt : ℕ → ℕ → Bool
int_lt a b = ltb (u32 (a + 2 ^ 31)) (u32 (b + 2 ^ 31))

abbrev pub int_div : ℕ → ℕ → ℕ
int_div a b = if ltb a (2 ^ 31) then a / b else u32 (2 ^ 32 - (2 ^ 32 - a) / b)

-- `int min(int a,int b)`
abbrev pub min : ℕ → ℕ → ℕ
min a b = if int_lt a b then a else b

-- one block of the root directory, into which or from which `n` bytes are copied
unfoldable pub rw_root_block :
    (write : Bool) → Command → Media → Str → (start rw_cnt n : ℕ) → Outcome (Str × Media)
rw_root_block true cmd media user_buf start rw_cnt n = ata_read_sector media cmd >>= λ (_, block).
    bytes_at user_buf rw_cnt n >>= λ bytes. put_bytes block start bytes >>= λ block'.
    ata_write_sector media cmd block' >>= λ (_, media'). done (user_buf, media')
rw_root_block false cmd media user_buf start rw_cnt n = ata_read_sector media cmd >>= λ (_, block).
    bytes_at block start n >>= λ bytes.
    put_bytes user_buf rw_cnt bytes >>= λ user_buf'. done (user_buf', media)

-- the loop of `fat_rw_root` up to `limit`, and what it has transferred
unfoldable pub rw_root_from :
    ℕ
    → Fat16Volume
    → (write : Bool) → (limit : ℕ) → Media
    → Str
    → (offset rw_cnt : ℕ) → Outcome (ℕ × Str × Media)
rw_root_from zero v write limit media user_buf offset rw_cnt = out_of_fuel
rw_root_from (suc k) v write limit media user_buf offset rw_cnt =
    elim (ltb offset limit && ltb (int_div offset v.sb.bytes_per_sector) v.root_sectors) [
      | false ↦ done (rw_cnt, user_buf, media)
      | true ↦
          let bps = v.sb.bytes_per_sector in
          let sector = int_div offset bps in
          let sec_num = min v.sb.sectors_per_cluster (v.root_sectors - sector) in
          let cmd : Command = record {
            lba_start = u32 (v.root_dir_start + sector);
            sec_num = sec_num;
            buf_size = v.cluster_bytes;
          } in
          let next_offset = min (u32 (offset + sec_num * bps)) limit in
          let n = sub32 next_offset offset in
          let start = sub32 offset (u32 (sector * bps)) in
          rw_root_block write cmd media user_buf start rw_cnt n >>= λ (user_buf', media').
          rw_root_from k v write limit media' user_buf' next_offset (u32 (rw_cnt + n))
    ]

-- Every round transfers a byte at least.
unfoldable pub fat_rw_root : Fat16Volume → Media → Fat16File → Str → (buf_size : ℕ) → Outcome Io
fat_rw_root v media file user_buf buf_size =
    if not (file.dirent.start_cluster == fat_clus_root)
    then done (record { ret = refused; file = file; user_buf = user_buf; media = media })
    else (if leb v.root_sectors (int_div file.byte_offset v.sb.bytes_per_sector)
        then done (record { ret = end_of_file; file = file; user_buf = user_buf; media = media })
        else (rw_root_from (suc buf_size) v (not (bit_and file.flag ctl_write == 0))
              (u32 (file.byte_offset + buf_size)) media user_buf file.byte_offset 0
            >>= λ (rw_cnt, user_buf', media'). done (record {
              ret = count rw_cnt;
              file = record file { byte_offset = u32 (file.byte_offset + rw_cnt) };
              user_buf = user_buf';
              media = media';
            })))

-- the loop of `fat_read_file` up to `limit`: the cluster and the offset reached, the bytes copied
unfoldable pub read_from :
    ℕ
    → Fat16Volume
    → Media
    → (limit : ℕ) → (cluster offset read_cnt : ℕ) → Str
    → Outcome (ℕ × ℕ × ℕ × Str)
read_from zero v media limit cluster offset read_cnt user_buf = out_of_fuel
read_from (suc k) v media limit cluster offset read_cnt user_buf =
    elim (ltb offset limit && not (fat_clus_eof cluster)) [
      | false ↦ done (cluster, offset, read_cnt, user_buf)
      | true ↦
          let cb = v.cluster_bytes in
          let next_offset = min limit (u32 (offset + cb) / cb * cb) in
          let n = sub32 next_offset offset in
          fat_read_cluster v media cluster >>= λ (_, block).
          bytes_at block (offset % cb) n >>= λ bytes.
          put_bytes user_buf read_cnt bytes >>= λ user_buf'.
          (if next_offset / cb == offset / cb
            then done cluster
            else fat_get_next_cluster v media cluster)
          >>= λ cluster'.
              read_from k v media limit cluster' next_offset (u32 (read_cnt + n)) user_buf'
    ]

-- what is returned of the bytes read up to `offset`
unfoldable pub read_count : Fat16File → (offset read_cnt : ℕ) → ℕ
read_count file offset read_cnt =
    if (is_directory file.dirent == 0) && leb file.dirent.file_size offset
    then sub32 read_cnt (offset - file.dirent.file_size)
    else read_cnt

unfoldable pub fat_read_file : Fat16Volume → Media → Fat16File → Str → (buf_size : ℕ) → Outcome Io
fat_read_file v media file user_buf buf_size =
    if file.dirent.start_cluster == fat_clus_root
    then fat_rw_root v media file user_buf buf_size
    else (if ((is_directory file.dirent == 0) && leb file.dirent.file_size file.byte_offset)
          || fat_clus_eof file.current_cluster
        then done (record { ret = end_of_file; file = file; user_buf = user_buf; media = media })
        else (read_from (suc buf_size) v media (u32 (file.byte_offset + buf_size))
              file.current_cluster file.byte_offset 0 user_buf
            >>= λ (cluster, offset, read_cnt, user_buf'). done (record {
              ret = count (read_count file offset read_cnt);
              file = record file {
                current_cluster = u16 cluster;
                byte_offset = u32 (file.byte_offset + read_count file offset read_cnt);
              };
              user_buf = user_buf';
              media = media;
            })))

-- the next cluster, where a chain that has ended is extended by a free one
unfoldable pub next_or_new : Fat16Volume → Media → (cluster : ℕ) → Outcome (ℕ × Media)
next_or_new v media cluster = fat_get_next_cluster v media cluster >>= λ tmp.
    if fat_clus_eof tmp
    then (fat_get_free_cluster v media >>= λ new. write_fat v media cluster new >>= λ (_, linked).
        write_fat v linked new 0xFFFF >>= λ (_, marked). done (new, marked))
    else done (tmp, media)

-- the loop of `fat_write_file`: the cluster, the offset and the drive afterwards
unfoldable pub write_from :
    ℕ
    → Fat16Volume
    → Str
    → (buf_size : ℕ) → Media
    → (cluster byte_offset write_cnt : ℕ) → Outcome (ℕ × ℕ × Media)
write_from zero v user_buf buf_size media cluster byte_offset write_cnt = out_of_fuel
write_from (suc k) v user_buf buf_size media cluster byte_offset write_cnt =
    elim (ltb write_cnt buf_size) [
      | false ↦ done (cluster, byte_offset, media)
      | true ↦
          let cb = v.cluster_bytes in
          let tmp = min (cb - byte_offset % cb) (buf_size - write_cnt) in
          fat_read_cluster v media cluster >>= λ (_, block).
          bytes_at user_buf write_cnt tmp >>= λ bytes.
          put_bytes block (byte_offset % cb) bytes >>= λ block'.
          fat_write_cluster v media block' cluster 1 >>= λ stored.
          (if u32 (byte_offset + tmp) % cb == 0
            then next_or_new v stored cluster
            else done (cluster, stored))
          >>= λ (cluster', media').
              write_from k v user_buf buf_size media' cluster' (u32 (byte_offset + tmp))
                (u32 (write_cnt + tmp))
    ]

unfoldable pub fat_write_file : Fat16Volume → Media → Fat16File → Str → (buf_size : ℕ) → Outcome Io
fat_write_file v media file user_buf buf_size =
    if not (is_directory file.dirent == 0) || (bit_and file.flag ctl_write == 0)
    then done (record { ret = refused; file = file; user_buf = user_buf; media = media })
    else (if fat_clus_eof file.current_cluster
        then done (record { ret = end_of_file; file = file; user_buf = user_buf; media = media })
        else (write_from (suc buf_size) v user_buf buf_size media file.current_cluster
              file.byte_offset 0
            >>= λ (cluster, byte_offset, media').
                let file' = record file {
                  dirent = record file.dirent { file_size = byte_offset };
                  current_cluster = u16 cluster;
                  byte_offset = byte_offset;
                } in
                fat_update_file_dirent v media' file' none >>= λ media''. done (record {
                  ret = count buf_size;
                  file = file';
                  user_buf = user_buf;
                  media = media'';
                })))

-- `fat_read_file_one_cluster`, with the bytes of the cluster
unfoldable pub fat_read_file_one_cluster :
    Fat16Volume → Media → Fat16File → Outcome (Count × Fat16File × Str)
fat_read_file_one_cluster v media file =
    if fat_clus_eof file.current_cluster
    then done (end_of_file, file, [])
    else (fat_read_cluster v media file.current_cluster >>= λ (ret, buf).
        if ret == 0
        then halted
        else (fat_get_next_cluster v media file.current_cluster >>= λ next. done (
          count (ret * v.sb.bytes_per_sector),
          record file {
            byte_offset = u32 (file.byte_offset + ret * v.sb.bytes_per_sector);
            current_cluster = next;
          },
          buf,
        )))
