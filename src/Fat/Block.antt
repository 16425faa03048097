-- ===== src/Fat/Block.antt =====
-- Blocks of sectors of the allocation table of fs/fat16.c.
use ts_os.Base.{
  ℕ, zero, suc, ◌+◌, ◌*◌, ◌/◌, ◌%◌, ◌≤◌, ◌<◌, ◌≡◌, refl, ◌∙◌, ap, some, List, [], ◌∷◌, ◌++◌, length,
  get_elem?, get_elem?-some, All-get_elem?, arith,
}
use ts_os.Base.Bytes.{get_u16}
use ts_os.Ata.{Media, Sector}
use ts_os.Ata.Transfer.{IsDrive, stretch}
use ts_os.Fat.{Fat16Volume, fat_get_next_cluster}
use ts_os.Fat.Table.{IsFat, IsFat-Located}

get_elem?-joined :
    (xs ys : List ℕ) (j : ℕ) → j < length xs → get_elem? (xs ++ ys) j ≡ get_elem? xs j
get_elem?-joined [] ys j lt = absurd (omega arith)
get_elem?-joined (x ∷ xs) ys zero lt = refl
get_elem?-joined (x ∷ xs) ys (suc j) lt = get_elem?-joined xs ys j (omega arith)

get_elem?-behind : (xs ys : List ℕ) (j : ℕ) → get_elem? (xs ++ ys) (length xs + j) ≡ get_elem? ys j
get_elem?-behind [] ys j = let e : 0 + j ≡ j = omega arith in ap (get_elem? ys) e
get_elem?-behind (x ∷ xs) ys j =
    let e : suc (length xs) + j ≡ suc (length xs + j) = omega arith in
    ap (get_elem? (x ∷ (xs ++ ys))) e ∙ get_elem?-behind xs ys j

-- a byte of a stretch is one of the sector it lies in
stretch-byte :
    (n : ℕ) (media : Media) (at i j : ℕ) (s : Sector)
    → IsDrive media
    → at + n ≤ length media
    → i < n
    → j < 512
    → get_elem? media (at + i) ≡ some s
    → get_elem? (stretch media at n) (512 * i + j) ≡ get_elem? s j
unfolding stretch
stretch-byte zero media at i j s drive inside lt low got = absurd (omega arith)
stretch-byte (suc n) media at zero j s drive inside lt low got =
    let here : at ≡ at + 0 = omega arith in
    let byte : 512 * 0 + j ≡ j = omega arith in
    let first : get_elem? media at ≡ some s = ap (get_elem? media) here ∙ got in
    let full : length s ≡ 512 =
      All-get_elem? (λ (t : Sector). length t ≡ 512) media at s drive first in
    rw (stretch, first)
      (ap (get_elem? (s ++ stretch media (at + 1) n)) byte
        ∙ get_elem?-joined s (stretch media (at + 1) n) j (omega arith))
stretch-byte (suc n) media at (suc i) j s drive inside lt low got =
    let (t, first) = get_elem?-some media at (omega arith) in
    let next : (at + 1) + i ≡ at + suc i = omega arith in
    let full : length t ≡ 512 =
      All-get_elem? (λ (t : Sector). length t ≡ 512) media at t drive first in
    let later : 512 * suc i + j ≡ length t + (512 * i + j) = omega arith in
    rw (stretch, first)
      (ap (get_elem? (t ++ stretch media (at + 1) n)) later
        ∙ get_elem?-behind t (stretch media (at + 1) n) (512 * i + j)
        ∙ stretch-byte n media (at + 1) i j s drive (omega arith) (omega arith) low
            (ap (get_elem? media) next ∙ got))

-- An entry in a block of the table is that of the cluster with its number.
pub block_entry :
    (v : Fat16Volume) (media : Media) (b n i : ℕ)
    → IsFat v media
    → b + n ≤ v.sb.sectors_fat
    → i < 256 * n
    → get_u16 (stretch media (v.fat_start + b) n) i ≡ fat_get_next_cluster v media (256 * b + i)
unfolding get_u16
block_entry v media b n i fat inside lt =
    let l = IsFat-Located v media (256 * b + i) fat (omega arith) in
    let block = stretch media (v.fat_start + b) n in
    let there : (v.fat_start + b) + i / 256 ≡ v.fat_start + (256 * b + i) / 256 = omega arith in
    let byte = λ (j : ℕ) (low : j < 512).
      stretch-byte n media (v.fat_start + b) (i / 256) j l.sector fat.drive
        (omega (arith, fat.inside)) (omega arith) low (ap (get_elem? media) there ∙ l.got) in
    let index : (256 * b + i) % 256 ≡ i % 256 = omega arith in
    let low_at : 2 * i ≡ 512 * (i / 256) + 2 * (i % 256) = omega arith in
    let high_at : 2 * i + 1 ≡ 512 * (i / 256) + (2 * (i % 256) + 1) = omega arith in
    let low = ap (get_elem? block) low_at ∙ byte (2 * (i % 256)) (omega arith) in
    let high = ap (get_elem? block) high_at ∙ byte (2 * (i % 256) + 1) (omega arith) in
    rw (low, high, l.next, index) refl
