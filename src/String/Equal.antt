-- ===== src/String/Equal.antt =====
-- Length, comparison and copies of strings in lib/string.c.
use ts_os.Base.{
  ℕ, ◌+◌, ◌^◌, ◌<◌, ◌≡◌, ◌≢◌, refl, ◌∙◌, ap, true, false, Bool-cases, inl, inr, some, [], ◌∷◌, ◌++◌,
  length, All, arith, ◌==◌, if◌then◌else◌, u32, Outcome, done,
}
use ts_os.String.{
  Str, strlen, strlen_from, equal_from, string_equal, copy_from, strcpy, at_offset, strcat,
}

-- no byte is zero
abbrev pub IsText : Str → Type 0
IsText xs = All (λ c. c ≢ 0) xs

-- an object that holds the text `xs`, the zero byte and `rest`
abbrev pub ended : Str → Str → Str
ended xs rest = xs ++ 0 ∷ rest

strlen_from_lem :
    (xs rest : Str) (cnt : ℕ)
    → IsText xs
    → cnt + length xs < 2 ^ 32
    → strlen_from (ended xs rest) cnt ≡ done (cnt + length xs)
unfolding strlen_from
strlen_from_lem [] rest cnt text small = ap done (omega arith)
strlen_from_lem (x ∷ xs) rest cnt text small =
    let ne : (x == 0) ≡ false = ground (arith, text.0) in
    let word : u32 (cnt + 1) ≡ cnt + 1 = omega arith in
    rw (ne, word) (strlen_from_lem xs rest (cnt + 1) text.1 (omega arith) ∙ ap done (omega arith))

-- `strlen` counts the bytes before the zero byte.
pub strlen_lem :
    (xs rest : Str)
    → IsText xs
    → length xs < 2 ^ 32
    → strlen (some (ended xs rest)) ≡ done (length xs)
unfolding strlen
strlen_lem xs rest text small = strlen_from_lem xs rest 0 text (omega arith) ∙ ap done (omega arith)

same_text : Str → Str → ℕ
same_text [] [] = 1
same_text [] (y ∷ ys) = 0
same_text (x ∷ xs) [] = 0
same_text (x ∷ xs) (y ∷ ys) = if x == y then same_text xs ys else 0

equal_from-same_text :
    (xs ys r t : Str)
    → IsText xs
    → IsText ys
    → equal_from (ended xs r) (ended ys t) ≡ done (same_text xs ys)
unfolding equal_from same_text
equal_from-same_text [] [] r t tx ty = refl
equal_from-same_text [] (y ∷ ys) r t tx ty =
    let ne : (0 == y) ≡ false = ground (arith, ty.0) in rw ne refl
equal_from-same_text (x ∷ xs) [] r t tx ty =
    let ne : (x == 0) ≡ false = ground (arith, tx.0) in rw ne refl
equal_from-same_text (x ∷ xs) (y ∷ ys) r t tx ty =
    let nx : (x == 0) ≡ false = ground (arith, tx.0) in
    let ny : (y == 0) ≡ false = ground (arith, ty.0) in
    rw (nx, ny)
      (elim (Bool-cases (x == y)) [
        | inl e ↦ rw e (equal_from-same_text xs ys r t tx.1 ty.1)
        | inr d ↦ rw d refl
      ])

same_text_sound : (xs ys : Str) → same_text xs ys ≡ 1 → xs ≡ ys
unfolding same_text
same_text_sound [] [] e = refl
same_text_sound [] (y ∷ ys) e = absurd (omega arith)
same_text_sound (x ∷ xs) [] e = absurd (omega arith)
same_text_sound (x ∷ xs) (y ∷ ys) e = elim (Bool-cases (x == y)) [
  | inl same ↦
      let x≡y : x ≡ y = ground arith in
      let rest : xs ≡ ys = same_text_sound xs ys (rw same at e) in rw (x≡y, rest) refl
  | inr d ↦ let z : ◌≡◌ {A = ℕ} 0 1 = rw d at e in absurd (omega arith)
]

same_text_refl : (xs : Str) → same_text xs xs ≡ 1
unfolding same_text
same_text_refl [] = refl
same_text_refl (x ∷ xs) = let e : (x == x) ≡ true = ground arith in rw e (same_text_refl xs)

-- `string_equal` of two texts returns, with 1 exactly if they are the same, whatever stands behind
-- their zero bytes.
pub string_equal_iff :
    (xs ys r t : Str)
    → IsText xs
    → IsText ys
    → (n : ℕ) × (string_equal (some (ended xs r)) (some (ended ys t)) ≡ done n)
      × (n ≡ 1 → xs ≡ ys)
      × (xs ≡ ys → n ≡ 1)
unfolding string_equal
string_equal_iff xs ys r t tx ty = (
  same_text xs ys,
  equal_from-same_text xs ys r t tx ty,
  same_text_sound xs ys,
  λ e. rw (← e) (same_text_refl xs),
)

-- copying a text into room for it
copy_from-text :
    (xs rest old after : Str)
    → IsText xs
    → length old ≡ length xs + 1
    → copy_from (ended xs rest) (old ++ after) ≡ done (ended xs after)
unfolding copy_from
copy_from-text [] rest [] after text len = absurd (omega arith)
copy_from-text [] rest (d ∷ []) after text len = refl
copy_from-text [] rest (d ∷ e ∷ old) after text len = absurd (omega arith)
copy_from-text (x ∷ xs) rest [] after text len = absurd (omega arith)
copy_from-text (x ∷ xs) rest (d ∷ old) after text len =
    let ne : (x == 0) ≡ false = ground (arith, text.0) in
    rw (ne, copy_from-text xs rest old after text.1 (omega arith)) refl

at_offset-text :
    (xs : Str) {buf buf' : Str} (write : Str → Outcome Str)
    → write buf ≡ done buf'
    → at_offset (length xs) write (xs ++ buf) ≡ done (xs ++ buf')
unfolding at_offset
at_offset-text [] write e = e
at_offset-text (x ∷ xs) write e = rw (at_offset-text xs write e) refl

-- `strcpy` of a text into an object with room for it and its zero byte writes these, and leaves the
-- bytes behind them.
pub strcpy-text :
    (xs rest old after : Str)
    → IsText xs
    → length old ≡ length xs + 1
    → strcpy (some (ended xs rest)) (some (old ++ after)) ≡ done (some (ended xs after))
unfolding strcpy
strcpy-text xs rest old after text len = rw (copy_from-text xs rest old after text len) refl

-- `strcat` of two texts into an object with room for both and a zero byte writes the one behind the
-- other, and leaves the bytes behind them. `old` and `old'` are what stood in that room: the bytes
-- that the first copy overwrites, and those that only the second does.
pub strcat-text :
    (xs ys rx ry old old' after : Str)
    → IsText xs
    → IsText ys
    → length xs < 2 ^ 32
    → length old ≡ length xs + 1
    → length old' ≡ length ys
    → strcat (some (ended xs rx)) (some (ended ys ry)) (some (old ++ (old' ++ after)))
      ≡ done (some (xs ++ ended ys after))
unfolding strcat
strcat-text xs ys rx ry old old' after tx ty small len len' =
    let second : copy_from (ended ys ry) (0 ∷ (old' ++ after)) ≡ done (ended ys after) =
      copy_from-text ys ry (0 ∷ old') after ty (omega arith) in
    rw
      (
        strlen_lem xs rx tx small,
        copy_from-text xs rx old (old' ++ after) tx len,
        at_offset-text xs (copy_from (ended ys ry)) second,
      )
      refl
