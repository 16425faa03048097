-- ===== src/Common/Scan.antt =====
-- What the bit scans of kernel/common.c find, by evaluation over all bytes.
use ts_os.Base.{
  ℕ, ◌<◌, ◌≡◌, ◌≢◌, refl, ◌⊎◌, inl, inr, Bool, true, false, ◌&&◌, ◌||◌, not, ◌==◌, ltb, arith,
}
use ts_os.Base.Bits.{test_bit, check_below, check_below_sound}
use ts_os.Common.{minus_one, first_clr_bit, first_set_bit}

-- `i` is the least bit number at which the byte differs from `v`, or `minus_one` if there is none.
abbrev pub FirstNot : Bool → ℕ → ℕ → Type 0
FirstNot v b i =
    ((i < 8) × (test_bit b i ≡ not v) × ((j : ℕ) → j < i → test_bit b j ≡ v))
    ⊎ ((i ≡ minus_one) × ((j : ℕ) → j < 8 → test_bit b j ≡ v))

abbrev agrees : Bool → ℕ → ℕ → Bool
agrees true b j = test_bit b j
agrees false b j = not (test_bit b j)

abbrev row : Bool → (ℕ → ℕ) → ℕ → Bool
row v scan b =
    (ltb (scan b) 8 && not (agrees v b (scan b)) && check_below (scan b) (agrees v b))
    || ((scan b == minus_one) && check_below 8 (agrees v b))

agrees_sound : (v : Bool) (b j : ℕ) → agrees v b j ≡ true → test_bit b j ≡ v
agrees_sound true b j h = h
agrees_sound false b j h = ground arith

disagrees_sound : (v : Bool) (b j : ℕ) → not (agrees v b j) ≡ true → test_bit b j ≡ not v
disagrees_sound true b j h = ground arith
disagrees_sound false b j h = ground arith

-- the parts of a row
row_parts :
    (v : Bool) (scan : ℕ → ℕ) (b : ℕ)
    → row v scan b ≡ true
    → ((ltb (scan b) 8 ≡ true)
        × (not (agrees v b (scan b)) ≡ true)
        × (check_below (scan b) (agrees v b) ≡ true))
      ⊎ (((scan b == minus_one) ≡ true) × (check_below 8 (agrees v b) ≡ true))
row_parts v scan b h =
    split_row (ltb (scan b) 8) (not (agrees v b (scan b))) (check_below (scan b) (agrees v b))
      (scan b == minus_one) (check_below 8 (agrees v b)) h
  where
    split_row :
        (p q r s t : Bool)
        → ((p && q && r) || (s && t)) ≡ true
        → ((p ≡ true) × (q ≡ true) × (r ≡ true)) ⊎ ((s ≡ true) × (t ≡ true))
    split_row p q r s t h = ground arith

row_sound : (v : Bool) (scan : ℕ → ℕ) (b : ℕ) → row v scan b ≡ true → FirstNot v b (scan b)
row_sound v scan b h = elim (row_parts v scan b h) [
  | inl (lt, here, below) ↦ inl (
    ground (arith, lt),
    disagrees_sound v b (scan b) here,
    λ j hj. agrees_sound v b j (check_below_sound (scan b) (agrees v b) j below hj),
  )
  | inr (e, all) ↦
      inr
        (ground (arith, e), λ j hj. agrees_sound v b j (check_below_sound 8 (agrees v b) j all hj))
]

clr_table : check_below 256 (row true first_clr_bit) ≡ true
unfolding check_below first_clr_bit test_bit
clr_table = refl

set_table : check_below 256 (row false first_set_bit) ≡ true
unfolding check_below first_set_bit test_bit
set_table = refl

-- On a byte, `first_clr_bit` returns the least bit number at which it has a zero, or -1 if it has
-- none.
pub first_clr_bit-FirstNot : (b : ℕ) → b < 256 → FirstNot true b (first_clr_bit b)
first_clr_bit-FirstNot b h =
    row_sound true first_clr_bit b (check_below_sound 256 (row true first_clr_bit) b clr_table h)

pub first_set_bit-FirstNot : (b : ℕ) → b < 256 → FirstNot false b (first_set_bit b)
first_set_bit-FirstNot b h =
    row_sound false first_set_bit b (check_below_sound 256 (row false first_set_bit) b set_table h)

none_table : check_below 256 (λ b. not (first_clr_bit b == minus_one) || (b == 255)) ≡ true
unfolding check_below first_clr_bit
none_table = refl

-- A byte with a zero in it is found by `first_clr_bit`, which the caller tests by `!= 0xFF`.
pub first_clr_bit-ne : (b : ℕ) → b < 256 → b ≢ 255 → first_clr_bit b ≢ minus_one
first_clr_bit-ne b h ne = ground (
  arith,
  check_below_sound 256 (λ b. not (first_clr_bit b == minus_one) || (b == 255)) b none_table h,
)
