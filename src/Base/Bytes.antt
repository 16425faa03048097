-- ===== src/Base/Bytes.antt =====
-- Buffers as lists of bytes: parts of them, copies into them, and 16-bit words in them.
use Prim.Native.Nat.{ℕ, zero, suc, ◌+◌, ◌*◌, ◌/◌, ◌^◌, ◌≤◌}
use mathlib.Core.Path.{◌≡◌, refl, ap}
use mathlib.Core.List.{List, [], ◌∷◌, ◌++◌}
use native.Mathlib.Omega.{arith}
use ts_os.Base.Tests.{leb, if◌then◌else◌, Outcome, done, fault, ◌>>=◌, checked, u8}
use ts_os.Base.Lists.{length, get_elem?, set}

module _ {ℓ} {A : Type ℓ} where
  abbrev pub take : ℕ → List A → List A
  take zero xs = []
  take (suc n) [] = []
  take (suc n) (x ∷ xs) = x ∷ take n xs

  abbrev pub drop : ℕ → List A → List A
  drop zero xs = xs
  drop (suc n) [] = []
  drop (suc n) (x ∷ xs) = drop n xs

  abbrev pub replicate : ℕ → A → List A
  replicate zero a = []
  replicate (suc n) a = a ∷ replicate n a

  pub length-append : (xs ys : List A) → length (xs ++ ys) ≡ length xs + length ys
  length-append [] ys = omega arith
  length-append (x ∷ xs) ys = omega (arith, length-append xs ys)

  pub length-take : (n : ℕ) (xs : List A) → n ≤ length xs → length (take n xs) ≡ n
  length-take zero xs h = refl
  length-take (suc n) [] h = absurd (omega arith)
  length-take (suc n) (x ∷ xs) h = ap suc (length-take n xs (omega arith))

-- the `n` bytes at `at`
unfoldable pub bytes_at : List ℕ → (at n : ℕ) → Outcome (List ℕ)
bytes_at buf at n = if leb (at + n) (length buf) then done (take n (drop at buf)) else fault

-- `buf` after a copy of the bytes to `at`
unfoldable pub put_bytes : List ℕ → ℕ → List ℕ → Outcome (List ℕ)
put_bytes buf at bytes =
    if leb (at + length bytes) (length buf)
    then done (take at buf ++ (bytes ++ drop (at + length bytes) buf))
    else fault

-- `((uint16_t*)buf)[i]`, low byte first
unfoldable pub get_u16 : List ℕ → ℕ → Outcome ℕ
get_u16 buf i = checked (get_elem? buf (2 * i)) >>= λ low.
    checked (get_elem? buf (2 * i + 1)) >>= λ high. done (low + 2 ^ 8 * high)

unfoldable pub set_u16 : List ℕ → ℕ → ℕ → Outcome (List ℕ)
set_u16 buf i v =
    if leb (2 * i + 2) (length buf)
    then done (set (set buf (2 * i) (u8 v)) (2 * i + 1) (u8 (v / 2 ^ 8)))
    else fault

-- a `uint16_t` and a `uint32_t` at a byte offset, and the bytes of these
unfoldable pub u16_at : List ℕ → ℕ → Outcome ℕ
u16_at buf at = checked (get_elem? buf at) >>= λ low.
    checked (get_elem? buf (at + 1)) >>= λ high. done (low + 2 ^ 8 * high)

unfoldable pub u32_at : List ℕ → ℕ → Outcome ℕ
unfolding u16_at
u32_at buf at = u16_at buf at >>= λ low. u16_at buf (at + 2) >>= λ high. done (low + 2 ^ 16 * high)

unfoldable pub u16_bytes : ℕ → List ℕ
u16_bytes v = u8 v ∷ u8 (v / 2 ^ 8) ∷ []

unfoldable pub u32_bytes : ℕ → List ℕ
u32_bytes v = u8 v ∷ u8 (v / 2 ^ 8) ∷ u8 (v / 2 ^ 16) ∷ u8 (v / 2 ^ 24) ∷ []
