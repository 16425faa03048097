-- ===== src/String/Leading.antt =====
-- `no_leading` of lib/string.c takes the pattern off the front of a text as often as it stands there.
use ts_os.Base.{
  ℕ, zero, suc, ◌+◌, ◌^◌, ◌<◌, ◌≡◌, refl, ◌∙◌, sym, ap, true, false, Bool-cases, ◌⊎◌, inl, inr,
  Option, none, some, [], ◌∷◌, ◌++◌, length, arith, ◌==◌, Outcome, done,
}
use mathlib.Core.Path.{subst}
use ts_os.String.{Str, advance, skip_pattern, no_leading}
use ts_os.String.Equal.{IsText, ended, strlen_lem}
use ts_os.String.Search.{begins, First, absent, at_place, strfd-First}

-- `n` copies of a pattern before a text
abbrev pub copies : ℕ → Str → Str → Str
copies zero ps ys = ys
copies (suc n) ps ys = ps ++ copies n ps ys

begins_split : (ps xs : Str) → begins ps xs ≡ true → (ys : Str) × (xs ≡ ps ++ ys)
begins_split [] xs e = (xs, refl)
begins_split (p ∷ ps) [] e = cc
begins_split (p ∷ ps) (x ∷ xs) e =
    let x≡p : x ≡ p = ground arith in
    let (ys, rest) = begins_split ps xs (ground arith) in (ys, rw (x≡p, rest) refl)

advance-ended : (ps ys r : Str) → advance (length ps) (ended (ps ++ ys) r) ≡ ended ys r
advance-ended [] ys r = refl
advance-ended (p ∷ ps) ys r = advance-ended ps ys r

IsText-rest : (ps ys : Str) → IsText (ps ++ ys) → IsText ys
IsText-rest [] ys text = text
IsText-rest (p ∷ ps) ys text = IsText-rest ps ys text.1

length_joined : (ps ys : Str) → length (ps ++ ys) ≡ length ps + length ys
length_joined [] ys = omega arith
length_joined (p ∷ ps) ys = omega (arith, length_joined ps ys)

-- whether the place found is the front, and what that says of the text
front :
    {ps xs : Str} {o : Outcome (Option ℕ)}
    → First ps xs o
    → 0 < length xs
    → (place : Option ℕ) × (o ≡ done place)
      × ((elim place [ none ↦ false | some i ↦ i == 0 ]) ≡ begins ps xs)
front {ps} {xs} (absent all) pos = (none, refl, sym (all 0 pos))
front (at_place zero lt hit before) pos = (some 0, refl, sym hit)
front (at_place (suc n) lt hit before) pos = (
  some (suc n),
  refl,
  (let later : (suc n == 0) ≡ false = ground arith in later ∙ sym (before 0 (omega arith))),
)

-- what is left, and what was taken off
abbrev pub Skipped : Str → Str → Str → Outcome Str → Type 0
Skipped ps xs r o =
    (n : ℕ) × (ys : Str) × (o ≡ done (ended ys r))
    × (xs ≡ copies n ps ys)
    × ((ys ≡ []) ⊎ (begins ps ys ≡ false))

skip_pattern-Skipped :
    (k : ℕ) (xs ps r t : Str)
    → IsText xs
    → IsText ps
    → 0 < length ps
    → length xs < k
    → Skipped ps xs r (skip_pattern k (length ps) (ended xs r) (ended ps t))
unfolding skip_pattern
skip_pattern-Skipped zero xs ps r t tx tp pos fuel = absurd (omega arith)
skip_pattern-Skipped (suc k) [] ps r t tx tp pos fuel = (0, [], refl, refl, inl refl)
skip_pattern-Skipped (suc k) (x ∷ xs) ps r t tx tp pos fuel =
    let ne : (x == 0) ≡ false = ground (arith, tx.0) in
    let (place, found, at_front) = front (strfd-First (x ∷ xs) ps r t tx tp pos) (omega arith) in
    elim (Bool-cases (begins ps (x ∷ xs))) [
      | inr miss ↦ (0, x ∷ xs, rw (ne, found, at_front, miss) refl, refl, inr miss)
      | inl hit ↦
          let (ys, split) = begins_split ps (x ∷ xs) hit in
          let (n, zs, runs, all, stop) =
            skip_pattern-Skipped k ys ps r t (IsText-rest ps ys (subst IsText split tx)) tp pos
              (omega (arith, length_joined ps ys, ap length split)) in
          let moved : advance (length ps) (ended (x ∷ xs) r) ≡ ended ys r =
            ap (λ w. advance (length ps) (ended w r)) split ∙ advance-ended ps ys r in
          (
            suc n,
            zs,
            rw (ne, found, at_front, hit, moved) runs,
            split ∙ ap (λ w. ps ++ w) all,
            stop,
          )
    ]

-- `no_leading` of a text and a pattern that is not empty takes as many copies of the pattern off the
-- front as stand there: what it points to is the rest of the text, which is empty or does not begin
-- with the pattern.
pub no_leading-Skipped :
    (xs ps r t : Str)
    → IsText xs
    → IsText ps
    → 0 < length ps
    → length ps < 2 ^ 32
    → Skipped ps xs r (no_leading (ended xs r) (ended ps t))
unfolding no_leading
no_leading-Skipped xs ps r t tx tp pos small = rw (strlen_lem ps t tp small) (
    skip_pattern-Skipped (length (ended xs r)) xs ps r t tx tp pos
      (omega (arith, length_joined xs (0 ∷ r))))
