-- ===== src/String/Number.antt =====
-- Numbers and letters in lib/string.c.
use ts_os.Base.{
  ℕ, zero, suc, ◌+◌, ◌*◌, ◌^◌, ◌≤◌, ◌<◌, ◌≡◌, ◌≢◌, refl, Bool, true, false, Bool-cases, ◌&&◌, inl,
  inr, List, [], ◌∷◌, All, arith, leb, ltb, ◌==◌, if◌then◌else◌, u32, done,
}
use ts_os.Base.Bits.{check_below, check_below_sound}
use ts_os.String.{Str, upper_case, is_alpha, atoi, atoi_from, atoi_digit}
use ts_os.String.Equal.{ended}

-- the character of a digit, and the number that digits stand for in a base, first digit first
abbrev pub digit : ℕ → ℕ
digit d = if ltb d 10 then 48 + d else 55 + d

abbrev pub digits : List ℕ → Str
digits [] = []
digits (d ∷ ds) = digit d ∷ digits ds

abbrev pub value : (base sum : ℕ) → List ℕ → ℕ
value base sum [] = sum
value base sum (d ∷ ds) = value base (sum * base + d) ds

value-grows : (base sum : ℕ) (ds : List ℕ) → 1 ≤ base → sum ≤ value base sum ds
value-grows base sum [] pos = omega arith
value-grows zero sum (d ∷ ds) pos = absurd (omega arith)
value-grows (suc b) sum (d ∷ ds) pos = omega (arith, value-grows (suc b) (sum * suc b + d) ds pos)

pub digit_lem : (d : ℕ) → d < 36 → (digit d ≢ 0) × (atoi_digit (digit d) ≡ d)
unfolding atoi_digit
digit_lem d lt = elim (Bool-cases (ltb d 10)) [
  | inl small ↦ rw small (ground arith)
  | inr large ↦ rw large (ground arith)
]

atoi_from-value :
    (base sum : ℕ) (ds rest : List ℕ)
    → 1 ≤ base
    → All (λ d. d < 36) ds
    → value base sum ds < 2 ^ 32
    → atoi_from (ended (digits ds) rest) base sum ≡ done (value base sum ds)
unfolding atoi_from
atoi_from-value base sum [] rest pos ok small = refl
atoi_from-value base sum (d ∷ ds) rest pos ok small =
    let (ne, val) = digit_lem d ok.0 in
    let nz : (digit d == 0) ≡ false = ground arith in
    let grows = value-grows base (sum * base + d) ds pos in
    let step : u32 (u32 (sum * base) + d) ≡ sum * base + d = omega arith in
    rw (nz, val, step) (atoi_from-value base (sum * base + d) ds rest pos ok.1 small)

-- `atoi` of digits in a base from 1 on, written 0 to 9 and then A to Z, returns the number they stand
-- for, where that number has 32 bits.
pub atoi-digits :
    (base : ℕ) (ds rest : List ℕ)
    → 1 ≤ base
    → All (λ d. d < 36) ds
    → value base 0 ds < 2 ^ 32
    → atoi (ended (digits ds) rest) base ≡ done (value base 0 ds)
unfolding atoi
atoi-digits base ds rest pos ok small = atoi_from-value base 0 ds rest pos ok small

-- a byte keeps its kind, and becomes a capital if it is a letter
abbrev upper_row : ℕ → Bool
upper_row c =
    (upper_case (upper_case c) == upper_case c)
    && (if is_alpha c then leb 65 (upper_case c) && leb (upper_case c) 90 else upper_case c == c)

upper_table : check_below 256 upper_row ≡ true
unfolding check_below upper_case is_alpha
upper_table = refl

upper_sound :
    (c : ℕ)
    → upper_row c ≡ true
    → (upper_case (upper_case c) ≡ upper_case c)
      × (is_alpha c ≡ true → (65 ≤ upper_case c) × (upper_case c ≤ 90))
      × (is_alpha c ≡ false → upper_case c ≡ c)
upper_sound c h = ground arith

-- On a byte, `upper_case` does nothing more when it is repeated, takes what `is_alpha` accepts to a
-- capital letter, and leaves all else.
pub upper_case-is_alpha :
    (c : ℕ)
    → c < 256
    → (upper_case (upper_case c) ≡ upper_case c)
      × (is_alpha c ≡ true → (65 ≤ upper_case c) × (upper_case c ≤ 90))
      × (is_alpha c ≡ false → upper_case c ≡ c)
upper_case-is_alpha c byte = upper_sound c (check_below_sound 256 upper_row c upper_table byte)
