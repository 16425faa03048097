-- ===== src/String/Search.antt =====
-- `strfd` of lib/string.c finds the first occurrence of a pattern.
use ts_os.Base.{
  ℕ, zero, suc, ◌+◌, ◌<◌, ◌≡◌, refl, Bool, true, false, Bool-cases, ◌&&◌, inl, inr, Option, none,
  some, [], ◌∷◌, length, arith, ◌==◌, Outcome, done,
}
use ts_os.String.{Str, match_at, strfd, strfd_from}
use ts_os.String.Equal.{IsText, ended}

-- whether the second text begins with the first
abbrev pub begins : Str → Str → Bool
begins [] xs = true
begins (p ∷ ps) [] = false
begins (p ∷ ps) (x ∷ xs) = (x == p) && begins ps xs

-- the text from a place on
abbrev pub drop : ℕ → Str → Str
drop zero xs = xs
drop (suc n) [] = []
drop (suc n) (x ∷ xs) = drop n xs

match_at-begins :
    (xs ps r t : Str)
    → IsText xs
    → IsText ps
    → match_at (ended xs r) (ended ps t) ≡ done (begins ps xs)
unfolding match_at
match_at-begins [] [] r t tx tp = refl
match_at-begins (x ∷ xs) [] r t tx tp = refl
match_at-begins [] (p ∷ ps) r t tx tp =
    let ne : (p == 0) ≡ false = ground (arith, tp.0) in rw ne refl
match_at-begins (x ∷ xs) (p ∷ ps) r t tx tp =
    let np : (p == 0) ≡ false = ground (arith, tp.0) in
    let nx : (x == 0) ≡ false = ground (arith, tx.0) in
    rw (np, nx)
      (elim (Bool-cases (x == p)) [
        | inl e ↦ rw e (match_at-begins xs ps r t tx.1 tp.1)
        | inr d ↦ rw d refl
      ])

-- The first place of the pattern `ps` in the text `xs`, or NULL if there is none.
pub data First (ps xs : Str) : Outcome (Option ℕ) → Type 0 where
  absent : ((i : ℕ) → i < length xs → begins ps (drop i xs) ≡ false) → First ps xs (done none)
  at_place :
      (n : ℕ)
      → n < length xs
      → begins ps (drop n xs) ≡ true
      → ((i : ℕ) → i < n → begins ps (drop i xs) ≡ false)
      → First ps xs (done (some n))

-- the loop, where nothing was found in the `i` bytes before
data FirstFrom (ps xs : Str) (i : ℕ) : Outcome (Option ℕ) → Type 0 where
  absent_from :
      ((k : ℕ) → k < length xs → begins ps (drop k xs) ≡ false) → FirstFrom ps xs i (done none)
  place_from :
      (n : ℕ) {m : ℕ}
      → m ≡ i + n
      → n < length xs
      → begins ps (drop n xs) ≡ true
      → ((k : ℕ) → k < n → begins ps (drop k xs) ≡ false)
      → FirstFrom ps xs i (done (some m))

one_on :
    {ps xs : Str} {x i : ℕ} {r : Outcome (Option ℕ)}
    → begins ps (x ∷ xs) ≡ false
    → FirstFrom ps xs (i + 1) r
    → FirstFrom ps (x ∷ xs) i r
one_on {ps} {xs} {x} miss (absent_from all) = absent_from go
  where
    go : (k : ℕ) → k < length (x ∷ xs) → begins ps (drop k (x ∷ xs)) ≡ false
    go zero lt = miss
    go (suc k) lt = all k (omega arith)
one_on {ps} {xs} {x} {i} miss (place_from n m lt hit before) =
    place_from (suc n) (omega arith) (omega arith) hit go
  where
    go : (k : ℕ) → k < suc n → begins ps (drop k (x ∷ xs)) ≡ false
    go zero lt = miss
    go (suc k) lt = before k (omega arith)

strfd_from-FirstFrom :
    (xs ps r t : Str) (i : ℕ)
    → IsText xs
    → IsText ps
    → FirstFrom ps xs i (strfd_from (ended xs r) (ended ps t) i)
unfolding strfd_from
strfd_from-FirstFrom [] ps r t i tx tp = absent_from λ k lt. absurd (omega arith)
strfd_from-FirstFrom (x ∷ xs) ps r t i tx tp =
    let nx : (x == 0) ≡ false = ground (arith, tx.0) in
    rw (nx, match_at-begins (x ∷ xs) ps r t tx tp)
      (elim (Bool-cases (begins ps (x ∷ xs))) [
        | inl hit ↦
            rw hit (place_from 0 (omega arith) (omega arith) hit λ k lt. absurd (omega arith))
        | inr miss ↦ rw miss (one_on miss (strfd_from-FirstFrom xs ps r t (i + 1) tx.1 tp))
      ])

-- `strfd` of a text and a text as pattern, which is not empty, returns the first place in the text at
-- which the pattern stands, or NULL if it stands nowhere, whatever the bytes behind the two are.
pub strfd-First :
    (xs ps r t : Str)
    → IsText xs
    → IsText ps
    → 0 < length ps
    → First ps xs (strfd (ended xs r) (ended ps t))
unfolding strfd
strfd-First xs [] r t tx tp some_pattern = absurd (omega arith)
strfd-First xs (p ∷ ps) r t tx tp some_pattern =
    let np : (p == 0) ≡ false = ground (arith, tp.0) in
    rw np (from_start (strfd_from-FirstFrom xs (p ∷ ps) r t 0 tx tp))
  where
    from_start : {o : Outcome (Option ℕ)} → FirstFrom (p ∷ ps) xs 0 o → First (p ∷ ps) xs o
    from_start (absent_from all) = absent all
    from_start (place_from n {m} e lt hit before) =
        let e' : n ≡ m = omega arith in
        let found : First (p ∷ ps) xs (done (some n)) = at_place n lt hit before in rw e' at found
