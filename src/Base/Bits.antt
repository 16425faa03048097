-- ===== src/Base/Bits.antt =====
-- Single bits of a byte, with their laws by evaluation over all bytes.
use Prim.Native.Nat.{ℕ, zero, suc, ◌-◌, ◌^◌, ◌<◌, bit_and, bit_or}
use mathlib.Core.Path.{◌≡◌, refl}
use mathlib.Core.Bool.{Bool, true, false, ◌&&◌, ◌||◌, not}
use native.Mathlib.Omega.{arith}
use ts_os.Base.Tests.{◌==◌, ltb, ltb→lt}

-- `!!(b & 1 << k)`, `b | 1 << k` and `b & ~(1 << k)` on a byte
unfoldable pub test_bit : ℕ → ℕ → Bool
test_bit b k = not (bit_and b (2 ^ k) == 0)

unfoldable pub set_bit : ℕ → ℕ → ℕ
set_bit b k = bit_or b (2 ^ k)

unfoldable pub clear_bit : ℕ → ℕ → ℕ
clear_bit b k = bit_and b (255 - 2 ^ k)

-- whether a test passes at every number below the bound
unfoldable pub check_below : ℕ → (ℕ → Bool) → Bool
check_below zero test = true
check_below (suc m) test = check_below m test && test m

pub check_below_sound :
    (bound : ℕ) (test : ℕ → Bool) (y : ℕ)
    → check_below bound test ≡ true
    → y < bound
    → test y ≡ true
unfolding check_below
check_below_sound zero test y passed below = absurd (omega arith)
check_below_sound (suc m) test y passed below = ground (arith, check_below_sound m test y)

abbrev same : Bool → Bool → Bool
same true b = b
same false b = not b

same_sound : (a b : Bool) → same a b ≡ true → a ≡ b
same_sound a b h = ground arith

-- a fact about a byte and a bit number, and one about a byte and two bit numbers
abbrev table : (ℕ → ℕ → Bool) → Bool
table p = check_below 256 (λ b. check_below 8 (λ k. p b k))

table_sound : (p : ℕ → ℕ → Bool) → table p ≡ true → (b k : ℕ) → b < 256 → k < 8 → p b k ≡ true
table_sound p h b k hb hk =
    check_below_sound 8 (p b) k (check_below_sound 256 (λ b. check_below 8 (p b)) b h hb) hk

abbrev set_bit_row : ℕ → ℕ → Bool
set_bit_row b k =
    ltb (set_bit b k) 256
    && check_below 8 (λ j. same (test_bit (set_bit b k) j) ((k == j) || test_bit b j))

abbrev clear_bit_row : ℕ → ℕ → Bool
clear_bit_row b k =
    ltb (clear_bit b k) 256
    && check_below 8 (λ j. same (test_bit (clear_bit b k) j) (not (k == j) && test_bit b j))

set_bit_table : table set_bit_row ≡ true
unfolding check_below set_bit test_bit
set_bit_table = refl

clear_bit_table : table clear_bit_row ≡ true
unfolding check_below clear_bit test_bit
clear_bit_table = refl

and_left : (a b : Bool) → (a && b) ≡ true → a ≡ true
and_left a b h = ground arith

and_right : (a b : Bool) → (a && b) ≡ true → b ≡ true
and_right a b h = ground arith

pub set_bit-lt : (b k : ℕ) → b < 256 → k < 8 → set_bit b k < 256
set_bit-lt b k hb hk = ltb→lt _ _ (and_left _ _ (table_sound set_bit_row set_bit_table b k hb hk))

pub test_bit-set_bit :
    (b k j : ℕ) → b < 256 → k < 8 → j < 8 → test_bit (set_bit b k) j ≡ ((k == j) || test_bit b j)
test_bit-set_bit b k j hb hk hj =
    same_sound _ _
      (check_below_sound 8 _ j (and_right _ _ (table_sound set_bit_row set_bit_table b k hb hk)) hj)

pub clear_bit-lt : (b k : ℕ) → b < 256 → k < 8 → clear_bit b k < 256
clear_bit-lt b k hb hk =
    ltb→lt _ _ (and_left _ _ (table_sound clear_bit_row clear_bit_table b k hb hk))

pub test_bit-clear_bit :
    (b k j : ℕ)
    → b < 256
    → k < 8
    → j < 8
    → test_bit (clear_bit b k) j ≡ (not (k == j) && test_bit b j)
test_bit-clear_bit b k j hb hk hj = same_sound _ _ (
    check_below_sound 8 _ j (and_right _ _ (table_sound clear_bit_row clear_bit_table b k hb hk))
      hj)
