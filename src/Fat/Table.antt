-- ===== src/Fat/Table.antt =====
-- The allocation table of fs/fat16.c as a map from clusters to their entries.
use ts_os.Base.{
  ℕ, ◌+◌, ◌*◌, ◌/◌, ◌%◌, ◌^◌, ◌≤◌, ◌<◌, ◌≡◌, ◌≢◌, refl, ◌∙◌, ap, sym, Bool-cases, inl, inr, some,
  length, get_elem?, get_elem?-some, get_elem?-set_self, get_elem?-set_ne, length-set, set,
  All-get_elem?, arith, ◌==◌, done,
}
use ts_os.Base.Words.{
  put_word, length-put_word, set_u16-put_word, get_u16-put_word_self, get_u16-put_word_ne,
}
use ts_os.Base.Bytes.{get_u16, set_u16}
use ts_os.Ata.{Media, Sector}
use ts_os.Ata.Transfer.{
  IsDrive, stretch-one, ata_read_sector-stretch, ata_write_sector-one, set-IsDrive,
}
use ts_os.Fat.{Fat16Volume, read_fat, write_fat, fat_get_next_cluster}

-- sectors of 512 bytes, and the table inside the drive and the 16 bits of a sector's number
pub record IsFat (v : Fat16Volume) (media : Media) : Type 0 where
  pub sector_size : v.sb.bytes_per_sector ≡ 512
  pub placed : v.fat_start + v.sb.sectors_fat ≤ 2 ^ 16
  pub inside : v.fat_start + v.sb.sectors_fat ≤ length media
  pub drive : IsDrive media

-- the clusters whose entries the table holds, 256 in a sector
abbrev pub InFat : Fat16Volume → ℕ → Type 0
InFat v c = c < 256 * v.sb.sectors_fat

-- the sector with the entry of a cluster
pub record Located (v : Fat16Volume) (media : Media) (c : ℕ) : Type 0 where
  pub sector : Sector
  pub got : get_elem? media (v.fat_start + c / 256) ≡ some sector
  pub full : length sector ≡ 512
  pub reads : read_fat v media c ≡ done (v.fat_start + c / 256, sector)
  pub next : fat_get_next_cluster v media c ≡ get_u16 sector (c % 256)

pub IsFat-Located :
    (v : Fat16Volume) (media : Media) (c : ℕ) → IsFat v media → InFat v c → Located v media c
unfolding read_fat fat_get_next_cluster
IsFat-Located v media c fat in_fat =
    let at = v.fat_start + c / 256 in
    let (s, got) = get_elem?-some media at (omega (arith, fat.inside)) in
    let full : length s ≡ 512 =
      All-get_elem? (λ (t : Sector). length t ≡ 512) media at s fat.drive got in
    let at_sector : (v.fat_start + c * 2 / 512) % 2 ^ 16 ≡ at = omega (arith, fat.placed) in
    let bytes =
      ata_read_sector-stretch media at 1 512 (omega arith) (omega arith) (omega arith)
        (omega (arith, fat.inside)) (omega (arith, fat.placed)) in
    record {
      sector = s;
      got = got;
      full = full;
      reads = rw (fat.sector_size, at_sector, bytes, stretch-one media at s got) refl;
      next = rw (fat.sector_size, at_sector, bytes, stretch-one media at s got) refl;
    }

-- The table after a write of one entry: the entry is `val`, the other entries and the other sectors
-- are as before.
pub record Updated (v : Fat16Volume) (media : Media) (c val : ℕ) (media' : Media) : Type 0 where
  pub still : IsFat v media'
  pub here : fat_get_next_cluster v media' c ≡ done val
  pub others :
      (d : ℕ) → InFat v d → d ≢ c → fat_get_next_cluster v media' d ≡ fat_get_next_cluster v media d
  pub sectors : (i : ℕ) → i ≢ v.fat_start + c / 256 → get_elem? media' i ≡ get_elem? media i
  pub size : length media' ≡ length media

module _ (v : Fat16Volume) (media : Media) (c val : ℕ) (fat : IsFat v media)
    (l : Located v media c) where
  abbrev at : ℕ
  at = v.fat_start + c / 256

  abbrev word : Sector
  word = put_word l.sector (c % 256) val

  abbrev written : Media
  written = set media at word

  length-word : length word ≡ 512
  length-word = length-put_word l.sector (c % 256) val ∙ l.full

  written-IsFat : IsFat v written
  written-IsFat = record {
    sector_size = fat.sector_size;
    placed = fat.placed;
    inside = omega (arith, fat.inside, length-set media at word);
    drive = set-IsDrive media at word fat.drive length-word;
  }

  module _ (in_fat : InFat v c) where
    write_fat-written : write_fat v media c val ≡ done (at, written)
    unfolding write_fat
    write_fat-written =
        let index : c % (512 / 2) ≡ c % 256 = omega arith in
        let put : set_u16 l.sector (c % 256) val ≡ done word =
          set_u16-put_word l.sector (c % 256) val (omega (arith, l.full)) in
        let stored =
          ata_write_sector-one media at 512 word (omega (arith, fat.inside))
            (omega (arith, fat.placed)) length-word in
        rw (l.reads, fat.sector_size, index, put, stored) refl

    written-here : val < 2 ^ 16 → fat_get_next_cluster v written c ≡ done val
    written-here small =
        let l' = IsFat-Located v written c written-IsFat in_fat in
        let got : some l'.sector ≡ some word =
          sym l'.got ∙ get_elem?-set_self media at word (omega (arith, fat.inside)) in
        let same : l'.sector ≡ word = cc in
        l'.next
        ∙ ap (λ (s : Sector). get_u16 s (c % 256)) same
        ∙ get_u16-put_word_self l.sector (c % 256) val (omega (arith, l.full)) small

    same_sector :
        (d : ℕ)
        → InFat v d
        → d ≢ c
        → d / 256 ≡ c / 256
        → fat_get_next_cluster v written d ≡ fat_get_next_cluster v media d
    same_sector d in_d ne near =
        let before = IsFat-Located v media d fat in_d in
        let after = IsFat-Located v written d written-IsFat in_d in
        let at_d : v.fat_start + d / 256 ≡ at = omega arith in
        let old : some before.sector ≡ some l.sector =
          sym before.got ∙ ap (get_elem? media) at_d ∙ l.got in
        let new : some after.sector ≡ some word =
          sym after.got
          ∙ ap (get_elem? written) at_d
          ∙ get_elem?-set_self media at word (omega (arith, fat.inside)) in
        let old' : before.sector ≡ l.sector = cc in
        let new' : after.sector ≡ word = cc in
        after.next
        ∙ ap (λ (s : Sector). get_u16 s (d % 256)) new'
        ∙ get_u16-put_word_ne l.sector (c % 256) (d % 256) val (λ e. ne (omega arith))
        ∙ ap (λ (s : Sector). get_u16 s (d % 256)) (sym old')
        ∙ sym before.next

    other_sector :
        (d : ℕ)
        → InFat v d
        → d / 256 ≢ c / 256
        → fat_get_next_cluster v written d ≡ fat_get_next_cluster v media d
    other_sector d in_d far =
        let before = IsFat-Located v media d fat in_d in
        let after = IsFat-Located v written d written-IsFat in_d in
        let both : some after.sector ≡ some before.sector =
          sym after.got
          ∙ get_elem?-set_ne media at (v.fat_start + d / 256) word (λ e. far (omega arith))
          ∙ before.got in
        let same : after.sector ≡ before.sector = cc in
        after.next ∙ ap (λ (s : Sector). get_u16 s (d % 256)) same ∙ sym before.next

-- `write_fat` of a cluster in the table of a drive that has it returns, and the table on the drive
-- then gives the new value for this cluster and the former ones for all others; no sector changes but
-- the one with the entry.
pub write_fat-Updated :
    (v : Fat16Volume) (media : Media) (c val : ℕ)
    → IsFat v media
    → InFat v c
    → val < 2 ^ 16
    → (media' : Media) × (write_fat v media c val ≡ done (v.fat_start + c / 256, media'))
      × Updated v media c val media'
write_fat-Updated v media c val fat in_fat small =
    let l = IsFat-Located v media c fat in_fat in
    (
      written v media c val fat l,
      write_fat-written v media c val fat l in_fat,
      record {
        still = written-IsFat v media c val fat l;
        here = written-here v media c val fat l in_fat small;
        others = λ d in_d ne. elim (Bool-cases (d / 256 == c / 256)) [
          | inl near ↦ same_sector v media c val fat l in_fat d in_d ne (ground arith)
          | inr far ↦ other_sector v media c val fat l in_fat d in_d (λ e. ground arith)
        ];
        sectors = λ i ne.
            get_elem?-set_ne media (v.fat_start + c / 256) i (word v media c val fat l)
              (λ e. ne (sym e));
        size = length-set media (v.fat_start + c / 256) (word v media c val fat l);
      },
    )
