-- ===== src/Ata/Transfer.antt =====
-- What the transfers of drivers/ata.c read and write on a drive of whole sectors.
use ts_os.Base.{
  ℕ, zero, suc, ◌+◌, ◌*◌, ◌/◌, ◌^◌, ◌≤◌, ◌<◌, ◌≡◌, refl, ap, true, false, none, some, [], ◌∷◌, ◌++◌,
  length, List, get_elem?, get_elem?-some, All, set, All-set, All-get_elem?, arith, ltb, leb, ◌==◌,
  done,
}
use ts_os.Base.Bytes.{take, length-append}
use ts_os.Ata.{Sector, Media, read_sectors, write_sectors, ata_read_sector, ata_write_sector}
use ts_os.Ata.Address.{selected-command_registers, requested-command_registers}

abbrev pub IsDrive : Media → Type 0
IsDrive media = All (λ (s : Sector). length s ≡ 512) media

-- the bytes of `n` sectors from `at` on
unfoldable pub stretch : Media → (at n : ℕ) → List ℕ
stretch media at zero = []
stretch media at (suc n) =
    (elim (get_elem? media at) [ none ↦ [] | some s ↦ s ]) ++ stretch media (at + 1) n

append_nil : (xs : List ℕ) → xs ++ [] ≡ xs
append_nil [] = refl
append_nil (x ∷ xs) = ap (λ ys. x ∷ ys) (append_nil xs)

read_sectors-stretch :
    (n : ℕ) (media : Media) (at : ℕ)
    → at + n ≤ length media
    → read_sectors n media at ≡ done (stretch media at n)
unfolding read_sectors stretch
read_sectors-stretch zero media at fits = refl
read_sectors-stretch (suc n) media at fits =
    let (s, got) = get_elem?-some media at (omega arith) in
    rw (read_sectors, got, read_sectors-stretch n media (at + 1) (omega arith)) refl

-- A read into a buffer with room for the sectors returns their bytes.
pub ata_read_sector-stretch :
    (media : Media) (lba n room : ℕ)
    → 0 < n
    → n < 256
    → n ≤ room / 512
    → lba + n ≤ length media
    → lba < 2 ^ 28
    → ata_read_sector media (record { lba_start = lba; sec_num = n; buf_size = room })
      ≡ done (n, stretch media lba n)
unfolding ata_read_sector
ata_read_sector-stretch media lba n room pos small fits inside low =
    let all : ltb (room / 512) n ≡ false = ground arith in
    let some_sectors : (n == 0) ≡ false = ground arith in
    rw
      (
        all,
        some_sectors,
        requested-command_registers lba n pos (omega arith),
        selected-command_registers lba n low,
        read_sectors-stretch n media lba inside,
      )
      refl

pub stretch-one :
    (media : Media) (lba : ℕ) (s : Sector) → get_elem? media lba ≡ some s → stretch media lba 1 ≡ s
unfolding stretch
stretch-one media lba s got = rw got (append_nil s)

take-all : (n : ℕ) (xs : List ℕ) → length xs ≡ n → take n xs ≡ xs
take-all zero [] e = refl
take-all zero (x ∷ xs) e = absurd (omega arith)
take-all (suc n) [] e = absurd (omega arith)
take-all (suc n) (x ∷ xs) e = ap (λ ys. x ∷ ys) (take-all n xs (omega arith))

write_sectors-one :
    (media : Media) (lba : ℕ) (buf : Sector)
    → lba < length media
    → length buf ≡ 512
    → write_sectors 1 media lba buf ≡ done (set media lba buf)
unfolding write_sectors
write_sectors-one media lba buf inside len =
    let there : ltb lba (length media) ≡ true = ground arith in
    let full : leb 512 (length buf) ≡ true = ground arith in
    rw (write_sectors, there, full, take-all 512 buf len) refl

-- A write of one whole sector replaces it.
pub ata_write_sector-one :
    (media : Media) (lba room : ℕ) (buf : Sector)
    → lba < length media
    → lba < 2 ^ 28
    → length buf ≡ 512
    → ata_write_sector media (record { lba_start = lba; sec_num = 1; buf_size = room }) buf
      ≡ done (1, set media lba buf)
unfolding ata_write_sector
ata_write_sector-one media lba room buf inside low len =
    rw
      (
        requested-command_registers lba 1 (omega arith) (omega arith),
        selected-command_registers lba 1 low,
        write_sectors-one media lba buf inside len,
      )
      refl

pub set-IsDrive :
    (media : Media) (lba : ℕ) (buf : Sector)
    → IsDrive media
    → length buf ≡ 512
    → IsDrive (set media lba buf)
set-IsDrive media lba buf drive len =
    All-set (λ (s : Sector). length s ≡ 512) media lba buf drive len

pub length-stretch :
    (n : ℕ) (media : Media) (at : ℕ)
    → IsDrive media
    → at + n ≤ length media
    → length (stretch media at n) ≡ 512 * n
unfolding stretch
length-stretch zero media at drive inside = refl
length-stretch (suc n) media at drive inside =
    let (s, got) = get_elem?-some media at (omega arith) in
    let full : length s ≡ 512 =
      All-get_elem? (λ (t : Sector). length t ≡ 512) media at s drive got in
    rw (stretch, got)
      (omega (
        arith,
        length-append s (stretch media (at + 1) n),
        full,
        length-stretch n media (at + 1) drive (omega arith),
      ))
