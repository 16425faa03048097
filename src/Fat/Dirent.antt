-- ===== src/Fat/Dirent.antt =====
-- Directory entries of fs/fat16.h, 32 bytes each, on the drive and as a structure.
use ts_os.Base.{
  ℕ, ◌+◌, List, ◌∷◌, ◌++◌, get_elem?, bit_and, ◌==◌, if◌then◌else◌, Outcome, done, ◌>>=◌, checked,
}
use ts_os.Base.Bytes.{bytes_at, put_bytes, u16_at, u32_at, u16_bytes, u32_bytes, replicate}

pub record FatDirEntry : Type 0 where
  pub filename : List ℕ
  pub ext : List ℕ
  pub attr : ℕ
  pub reserved : ℕ
  pub create_mill : ℕ
  pub create_time : ℕ
  pub create_date : ℕ
  pub last_access : ℕ
  pub reserve_32 : ℕ
  pub last_wtime : ℕ
  pub last_wdate : ℕ
  pub start_cluster : ℕ
  pub file_size : ℕ

abbrev pub ent_attr_dir : ℕ
ent_attr_dir = 0x10

unfoldable pub is_directory : FatDirEntry → ℕ
is_directory dirent = if bit_and dirent.attr ent_attr_dir == 0 then 0 else 1

-- the entry that an assignment from `*(FatDirEntry*)(buf + at)` copies
unfoldable pub dirent_at : List ℕ → (at : ℕ) → Outcome FatDirEntry
dirent_at buf at = bytes_at buf at 8 >>= λ filename. bytes_at buf (at + 8) 3 >>= λ ext.
    checked (get_elem? buf (at + 11)) >>= λ attr. checked (get_elem? buf (at + 12)) >>= λ reserved.
    checked (get_elem? buf (at + 13)) >>= λ create_mill. u16_at buf (at + 14) >>= λ create_time.
    u16_at buf (at + 16) >>= λ create_date. u16_at buf (at + 18) >>= λ last_access.
    u16_at buf (at + 20) >>= λ reserve_32. u16_at buf (at + 22) >>= λ last_wtime.
    u16_at buf (at + 24) >>= λ last_wdate. u16_at buf (at + 26) >>= λ start_cluster.
    u32_at buf (at + 28) >>= λ file_size. done (record {
      filename = filename;
      ext = ext;
      attr = attr;
      reserved = reserved;
      create_mill = create_mill;
      create_time = create_time;
      create_date = create_date;
      last_access = last_access;
      reserve_32 = reserve_32;
      last_wtime = last_wtime;
      last_wdate = last_wdate;
      start_cluster = start_cluster;
      file_size = file_size;
    })

-- the bytes behind the name and its extension, and those of the whole structure
unfoldable pub dirent_tail : FatDirEntry → List ℕ
dirent_tail d =
    d.attr
    ∷ d.reserved
    ∷ d.create_mill
    ∷ (u16_bytes d.create_time
        ++ (u16_bytes d.create_date
            ++ (u16_bytes d.last_access
                ++ (u16_bytes d.reserve_32
                    ++ (u16_bytes d.last_wtime
                        ++ (u16_bytes d.last_wdate
                            ++ (u16_bytes d.start_cluster ++ u32_bytes d.file_size)))))))

unfoldable pub dirent_bytes : FatDirEntry → List ℕ
dirent_bytes d = d.filename ++ (d.ext ++ dirent_tail d)

-- `*(FatDirEntry*)(buf + at) = d`
unfoldable pub put_dirent : List ℕ → (at : ℕ) → FatDirEntry → Outcome (List ℕ)
put_dirent buf at d = put_bytes buf at (dirent_bytes d)

-- the zeroed entry of the root directory, which starts in cluster zero
abbrev pub blank_dirent : FatDirEntry
blank_dirent = record {
  filename = replicate 8 0;
  ext = replicate 3 0;
  attr = 0;
  reserved = 0;
  create_mill = 0;
  create_time = 0;
  create_date = 0;
  last_access = 0;
  reserve_32 = 0;
  last_wtime = 0;
  last_wdate = 0;
  start_cluster = 0;
  file_size = 0;
}
