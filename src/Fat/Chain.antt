-- ===== src/Fat/Chain.antt =====
-- Chains of clusters in the table of fs/fat16.c, and what is left of one that is freed.
use ts_os.Base.{
  ℕ, zero, suc, ◌+◌, ◌^◌, ◌≤◌, ◌<◌, ◌≡◌, ◌≢◌, refl, ◌∙◌, Bool, true, false, ◌||◌, Bool-cases, inl,
  inr, List, [], ◌∷◌, length, get_elem?, All, arith, ◌==◌, if◌then◌else◌, done,
}
use ts_os.Ata.{Media}
use ts_os.Fat.{
  Fat16Volume, fat_get_next_cluster, fat_clus_normal, free_chain, fat_free_clusters_until_end,
}
use ts_os.Fat.Table.{IsFat, InFat, Updated, write_fat-Updated}

-- The clusters `cs` follow each other from `c` on, each one once, up to an entry that is no
-- cluster's.
abbrev pub IsChain : Fat16Volume → Media → List ℕ → ℕ → Type 0
IsChain v media [] c = fat_clus_normal c ≡ false
IsChain v media (d ∷ cs) c =
    (d ≡ c)
    × (fat_clus_normal c ≡ true)
    × InFat v c
    × (next : ℕ) × (fat_get_next_cluster v media c ≡ done next)
    × All (λ e. e ≢ c) cs
    × IsChain v media cs next

abbrev pub has : ℕ → List ℕ → Bool
has d [] = false
has d (c ∷ cs) = (d == c) || has d cs

-- The clusters of `cs` are free, and no other entry has changed, nor a sector outside the table.
pub record Freed (v : Fat16Volume) (media : Media) (cs : List ℕ) (media' : Media) : Type 0 where
  pub still : IsFat v media'
  pub entries :
      (d : ℕ)
      → InFat v d
      → fat_get_next_cluster v media' d
        ≡ (if has d cs then done 0 else fat_get_next_cluster v media d)
  pub before : (i : ℕ) → i < v.fat_start → get_elem? media' i ≡ get_elem? media i
  pub behind : (i : ℕ) → v.fat_start + v.sb.sectors_fat ≤ i → get_elem? media' i ≡ get_elem? media i

IsChain-Updated :
    (v : Fat16Volume) (media media' : Media) (c val : ℕ) (cs : List ℕ) (d : ℕ)
    → Updated v media c val media'
    → All (λ e. e ≢ c) cs
    → IsChain v media cs d
    → IsChain v media' cs d
IsChain-Updated v media media' c val [] d up apart chain = chain
IsChain-Updated v media media' c val (e ∷ cs) d up apart
      (e≡d, normal, in_fat, next, link, once, rest) =
    (
      e≡d,
      normal,
      in_fat,
      next,
      up.others d in_fat (λ d≡c. apart.0 (e≡d ∙ d≡c)) ∙ link,
      once,
      IsChain-Updated v media media' c val cs next up apart.1 rest,
    )

has-apart : (c : ℕ) (cs : List ℕ) → All (λ e. e ≢ c) cs → has c cs ≡ false
has-apart c [] apart = refl
has-apart c (e ∷ cs) apart =
    let ne : e ≢ c = apart.0 in
    let first : (c == e) ≡ false = ground arith in rw first (has-apart c cs apart.1)

Freed-link :
    (v : Fat16Volume) (media m1 m2 : Media) (c : ℕ) (cs : List ℕ)
    → InFat v c
    → All (λ e. e ≢ c) cs
    → Updated v media c 0 m1
    → Freed v m1 cs m2
    → Freed v media (c ∷ cs) m2
Freed-link v media m1 m2 c cs in_fat apart up freed = record {
  still = freed.still;
  entries = λ d in_d. freed.entries d in_d ∙ elim (Bool-cases (d == c)) [
    | inl same ↦ let e : d ≡ c = ground arith in rw (same, e, has-apart c cs apart) up.here
    | inr other ↦ let ne : d ≢ c = (λ e. ground arith) in rw (other, up.others d in_d ne) refl
  ];
  before = λ i lt. freed.before i lt ∙ up.sectors i (λ e. omega arith);
  behind = λ i le. freed.behind i le ∙ up.sectors i (λ e. omega arith);
}

free_chain-Freed :
    (k : ℕ) (v : Fat16Volume) (media : Media) (c : ℕ) (cs : List ℕ)
    → IsFat v media
    → IsChain v media cs c
    → length cs < k
    → (media' : Media) × (free_chain k v media c ≡ done media') × Freed v media cs media'
unfolding free_chain
free_chain-Freed zero v media c cs fat chain fuel = absurd (omega arith)
free_chain-Freed (suc k) v media c [] fat chain fuel = (
  media,
  rw (free_chain, chain) refl,
  record { still = fat; entries = λ d in_d. refl; before = λ i lt. refl; behind = λ i le. refl },
)
free_chain-Freed (suc k) v media c (d ∷ cs) fat (d≡c, normal, in_fat, next, link, once, rest) fuel =
    let (m1, stored, up) = write_fat-Updated v media c 0 fat in_fat (omega arith) in
    let (m2, runs, freed) =
      free_chain-Freed k v m1 next cs up.still (IsChain-Updated v media m1 c 0 cs next up once rest)
        (omega arith) in
    (
      m2,
      rw (free_chain, normal, link, stored) runs,
      rw d≡c (Freed-link v media m1 m2 c cs in_fat once up freed),
    )

-- `fat_free_clusters_until_end` of a chain of clusters returns. Afterwards the entries of these
-- clusters are zero, every other entry of the table is as before, and so are the sectors before and
-- behind the table.
pub fat_free_clusters_until_end-Freed :
    (v : Fat16Volume) (media : Media) (c : ℕ) (cs : List ℕ)
    → IsFat v media
    → IsChain v media cs c
    → length cs < 2 ^ 16
    → (media' : Media) × (fat_free_clusters_until_end v media c ≡ done media')
      × Freed v media cs media'
unfolding fat_free_clusters_until_end
fat_free_clusters_until_end-Freed v media c cs fat chain short =
    free_chain-Freed (2 ^ 16) v media c cs fat chain short
