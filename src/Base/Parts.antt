-- ===== src/Base/Parts.antt =====
-- Parts of buffers that are joined.
use Prim.Native.Nat.{ℕ, zero, suc, ◌+◌, ◌-◌, ◌≤◌}
use mathlib.Core.Path.{◌≡◌, refl, ◌∙◌, ap}
use mathlib.Core.Bool.{true}
use mathlib.Core.List.{List, [], ◌∷◌, ◌++◌}
use native.Mathlib.Omega.{arith}
use ts_os.Base.Tests.{leb, done}
use ts_os.Base.Lists.{length}
use ts_os.Base.Bytes.{take, drop, length-append, bytes_at, put_bytes}

module _ {ℓ} {A : Type ℓ} where
  pub length-drop : (n : ℕ) (xs : List A) → length (drop n xs) ≡ length xs - n
  length-drop zero xs = omega arith
  length-drop (suc n) [] = omega arith
  length-drop (suc n) (x ∷ xs) = omega (arith, length-drop n xs)

  pub take_joined : (n : ℕ) (xs ys : List A) → n ≤ length xs → take n (xs ++ ys) ≡ take n xs
  take_joined zero xs ys le = refl
  take_joined (suc n) [] ys le = absurd (omega arith)
  take_joined (suc n) (x ∷ xs) ys le = ap (λ l. x ∷ l) (take_joined n xs ys (omega arith))

  pub drop_joined : (n : ℕ) (xs ys : List A) → n ≤ length xs → drop n (xs ++ ys) ≡ drop n xs ++ ys
  drop_joined zero xs ys le = refl
  drop_joined (suc n) [] ys le = absurd (omega arith)
  drop_joined (suc n) (x ∷ xs) ys le = drop_joined n xs ys (omega arith)

  pub take-front : (xs ys : List A) → take (length xs) (xs ++ ys) ≡ xs
  take-front [] ys = refl
  take-front (x ∷ xs) ys = ap (λ l. x ∷ l) (take-front xs ys)

  pub drop-front : (xs ys : List A) (n : ℕ) → drop (length xs + n) (xs ++ ys) ≡ drop n ys
  drop-front [] ys n = let e : 0 + n ≡ n = omega arith in ap (λ i. drop i ys) e
  drop-front (x ∷ xs) ys n =
      let e : suc (length xs) + n ≡ suc (length xs + n) = omega arith in
      ap (λ i. drop i (x ∷ (xs ++ ys))) e ∙ drop-front xs ys n

  pub take_add : (n m : ℕ) (xs : List A) → take (n + m) xs ≡ take n xs ++ take m (drop n xs)
  take_add zero m xs = let e : 0 + m ≡ m = omega arith in ap (λ i. take i xs) e
  take_add (suc n) zero [] = let e : suc n + 0 ≡ suc n = omega arith in ap (λ i. take i []) e
  take_add (suc n) (suc m) [] =
      let e : suc n + suc m ≡ suc (n + suc m) = omega arith in ap (λ i. take i []) e
  take_add (suc n) m (x ∷ xs) =
      let e : suc n + m ≡ suc (n + m) = omega arith in
      ap (λ i. take i (x ∷ xs)) e ∙ ap (λ l. x ∷ l) (take_add n m xs)

  pub drop-drop : (n m : ℕ) (xs : List A) → drop m (drop n xs) ≡ drop (n + m) xs
  drop-drop zero m xs = let e : m ≡ 0 + m = omega arith in ap (λ i. drop i xs) e
  drop-drop (suc n) zero [] = let e : suc n ≡ suc n + 0 = omega arith in ap (λ i. drop i []) e
  drop-drop (suc n) (suc m) [] =
      let e : suc (n + suc m) ≡ suc n + suc m = omega arith in ap (λ i. drop i []) e
  drop-drop (suc n) m (x ∷ xs) =
      let e : suc (n + m) ≡ suc n + m = omega arith in
      drop-drop n m xs ∙ ap (λ i. drop i (x ∷ xs)) e

pub bytes_at-inside :
    (buf : List ℕ) (at n : ℕ)
    → at + n ≤ length buf
    → bytes_at buf at n ≡ done (take n (drop at buf))
unfolding bytes_at
bytes_at-inside buf at n fits =
    let ok : leb (at + n) (length buf) ≡ true = ground arith in rw ok refl

-- a copy behind the front of a buffer
pub put_bytes-joined :
    (front old bytes : List ℕ)
    → length bytes ≤ length old
    → put_bytes (front ++ old) (length front) bytes
      ≡ done (front ++ (bytes ++ drop (length bytes) old))
unfolding put_bytes
put_bytes-joined front old bytes fits =
    let ok : leb (length front + length bytes) (length (front ++ old)) ≡ true =
      ground (arith, length-append front old) in
    rw (ok, take-front front old, drop-front front old (length bytes)) refl
