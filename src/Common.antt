-- ===== src/Common.antt =====
-- kernel/common.c: the bit scans.
pub mod Scan
use ts_os.Base.{ℕ, zero, suc, ◌+◌, ◌-◌, ◌*◌, ◌^◌, bit_and, not, ◌==◌, if◌then◌else◌}

-- `int` results are 32-bit patterns, so -1 is this.
abbrev pub minus_one : ℕ
minus_one = 2 ^ 32 - 1

-- the loop of `first_set_bit`: `n` rounds left, at round `i` with the pattern `pat`
set_bit_from : ℕ → ℕ → ℕ → ℕ → ℕ
set_bit_from zero b i pat = minus_one
set_bit_from (suc n) b i pat =
    let rest = set_bit_from n b (i + 1) (pat * 2) in if not (bit_and pat b == 0) then i else rest

unfoldable pub first_set_bit : ℕ → ℕ
unfolding set_bit_from
first_set_bit b = set_bit_from 8 b 0 1

clr_bit_from : ℕ → ℕ → ℕ → ℕ → ℕ
clr_bit_from zero b i pat = minus_one
clr_bit_from (suc n) b i pat =
    let rest = clr_bit_from n b (i + 1) (pat * 2) in if bit_and pat b == 0 then i else rest

unfoldable pub first_clr_bit : ℕ → ℕ
unfolding clr_bit_from
first_clr_bit b = clr_bit_from 8 b 0 1
