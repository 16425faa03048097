-- ===== src/Fat/Whole.antt =====
-- `fat_read_file` of fs/fat16.c on a file whose clusters lie on the drive.
use ts_os.Base.{
  ℕ, suc, ◌+◌, ◌-◌, ◌*◌, ◌%◌, ◌^◌, ◌≤◌, ◌<◌, ◌≡◌, ◌≢◌, refl, ◌∙◌, false, ◌&&◌, ◌||◌, List, [], ◌++◌,
  length, arith, ◌==◌, leb, ltb, if◌then◌else◌, u16, u32, done,
}
use ts_os.Base.Bytes.{take, drop}
use ts_os.Ata.{Media}
use ts_os.String.{Str}
use ts_os.Fat.{Fat16Volume, fat_clus_eof, fat_clus_root}
use ts_os.Fat.Dirent.{is_directory}
use ts_os.Fat.Search.{Fat16File}
use ts_os.Fat.File.{Io, count, read_count, read_from, fat_read_file}
use ts_os.Fat.Read.{HasClusters, IsFileChain, content}
use ts_os.Fat.Reads.{Reads, read_from-Reads}

-- an open file, not a directory, with bytes left, whose clusters from the current one on are `cs`
pub record IsReadable (v : Fat16Volume) (media : Media) (file : Fat16File) (cs : List ℕ)
    : Type 0 where
  pub clusters : HasClusters v media
  pub chain : IsFileChain v media cs file.current_cluster
  pub live : fat_clus_eof file.current_cluster ≡ false
  pub started : file.dirent.start_cluster ≢ fat_clus_root
  pub plain : is_directory file.dirent ≡ 0
  pub left : file.byte_offset < file.dirent.file_size

-- the lesser of two numbers
abbrev pub lesser : ℕ → ℕ → ℕ
lesser a b = if ltb b a then b else a

read_count-lesser :
    (file : Fat16File) (n : ℕ)
    → is_directory file.dirent ≡ 0
    → file.byte_offset < file.dirent.file_size
    → file.byte_offset + n < 2 ^ 32
    → read_count file (file.byte_offset + n) n ≡ lesser n (file.dirent.file_size - file.byte_offset)
unfolding read_count
read_count-lesser file n plain left small = rw plain (ground arith)

Reads-front :
    (v : Fat16Volume) (media : Media) (has : HasClusters v media) (limit : ℕ)
    (fits : limit + v.cluster_bytes ≤ 2 ^ 31) (k c offset n : ℕ) (cs : List ℕ) (buf : Str)
    → limit - offset ≡ n
    → Reads v media has limit fits k c offset cs [] buf
    → (c' : ℕ) × (read_from k v media limit c offset 0 buf
        ≡ done (
          c',
          limit,
          n,
          take n (drop (offset % v.cluster_bytes) (content v media cs)) ++ drop n buf,
        ))
unfolding Reads
Reads-front v media has limit fits k c offset n cs buf amount (c', runs) =
    let zeroth : 0 + n ≡ n = omega arith in (c', runs ∙ rw (amount, zeroth) refl)

-- the file and the buffer after a read that ended in cluster `c'`
read_result : Media → Fat16File → (n c' : ℕ) → Str → Io
read_result media file n c' user_buf = record {
  ret = count (lesser n (file.dirent.file_size - file.byte_offset));
  file = record file {
    current_cluster = u16 c';
    byte_offset = u32 (file.byte_offset + lesser n (file.dirent.file_size - file.byte_offset));
  };
  user_buf = user_buf;
  media = media;
}

fat_read_file-read_result :
    (v : Fat16Volume) (media : Media) (file : Fat16File) (cs : List ℕ) (buf buf' : Str) (n c' : ℕ)
    → IsReadable v media file cs
    → file.byte_offset + n < 2 ^ 32
    → read_from (suc n) v media (file.byte_offset + n) file.current_cluster file.byte_offset 0 buf
      ≡ done (c', file.byte_offset + n, n, buf')
    → fat_read_file v media file buf n ≡ done (read_result media file n c' buf')
unfolding fat_read_file read_result
fat_read_file-read_result v media file cs buf buf' n c' r small runs =
    let off = file.byte_offset in
    let limit : u32 (off + n) ≡ off + n = omega arith in
    let not_root : (file.dirent.start_cluster == fat_clus_root) ≡ false =
      ground (arith, r.started) in
    let goes : (((is_directory file.dirent == 0) && leb file.dirent.file_size off)
          || fat_clus_eof file.current_cluster)
        ≡ false =
      rw (r.plain, r.live) (ground (arith, r.left)) in
    rw (not_root, goes, limit, runs, read_count-lesser file n r.plain r.left small) refl

-- `fat_read_file` of `n` bytes of a file that has bytes left returns, where the current cluster and
-- those that follow it hold so many from the offset on, the buffer has room for them, and the end of
-- the read and a cluster more are at most 2 ^ 31: it returns `n`, or the bytes left of the file if
-- these are fewer, and advances the offset by this number. The buffer begins with the `n` bytes of
-- the clusters from the offset on, and the rest of it and the drive are as before.
pub fat_read_file-content :
    (v : Fat16Volume) (media : Media) (file : Fat16File) (cs : List ℕ) (buf : Str) (n : ℕ)
    → IsReadable v media file cs
    → n ≤ length buf
    → file.byte_offset % v.cluster_bytes + n ≤ v.cluster_bytes * length cs
    → file.byte_offset + n + v.cluster_bytes ≤ 2 ^ 31
    → (io : Io) × (fat_read_file v media file buf n ≡ done io)
      × (io.ret ≡ count (lesser n (file.dirent.file_size - file.byte_offset)))
      × (io.file.byte_offset
          ≡ file.byte_offset + lesser n (file.dirent.file_size - file.byte_offset))
      × (io.user_buf
          ≡ take n (drop (file.byte_offset % v.cluster_bytes) (content v media cs)) ++ drop n buf)
      × (io.media ≡ media)
unfolding read_result
fat_read_file-content v media file cs buf n r room enough small =
    let off = file.byte_offset in
    let buf' = take n (drop (off % v.cluster_bytes) (content v media cs)) ++ drop n buf in
    let amount : (off + n) - off ≡ n = omega arith in
    let (c', runs) =
      Reads-front v media r.clusters (off + n) small (suc n) file.current_cluster off n cs buf
        amount
        (read_from-Reads v media r.clusters (off + n) small (suc n) file.current_cluster off cs []
          buf r.chain (omega arith) (omega arith) (omega arith) (omega arith) (omega arith)) in
    (
      read_result media file n c' buf',
      fat_read_file-read_result v media file cs buf buf' n c' r (omega arith) runs,
      refl,
      ground arith,
      refl,
      refl,
    )
