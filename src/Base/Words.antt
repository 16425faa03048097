-- ===== src/Base/Words.antt =====
-- A 16-bit word written into a buffer is read back, and the others stay.
use Prim.Native.Nat.{ℕ, ◌+◌, ◌*◌, ◌/◌, ◌^◌, ◌≤◌, ◌<◌}
use mathlib.Core.Path.{◌≡◌, refl, ◌∙◌, ap}
use mathlib.Core.Logic.{◌≢◌}
use mathlib.Core.Bool.{true}
use mathlib.Core.List.{List}
use mathlib.Core.Option.{some}
use native.Mathlib.Omega.{arith}
use ts_os.Base.Tests.{leb, done, u8}
use ts_os.Base.Lists.{
  length, get_elem?, set, length-set, get_elem?-set_self, get_elem?-set_ne, get_elem?-some,
}
use ts_os.Base.Bytes.{get_u16, set_u16}

-- a word inside the buffer
pub get_u16-done :
    (buf : List ℕ) (i : ℕ) → 2 * i + 2 ≤ length buf → (w : ℕ) × (get_u16 buf i ≡ done w)
unfolding get_u16
get_u16-done buf i fits =
    let (low, l) = get_elem?-some buf (2 * i) (omega arith) in
    let (high, h) = get_elem?-some buf (2 * i + 1) (omega arith) in
    (low + 2 ^ 8 * high, rw (l, h) refl)

-- both bytes of a word
pub put_word : List ℕ → ℕ → ℕ → List ℕ
put_word buf i v = set (set buf (2 * i) (u8 v)) (2 * i + 1) (u8 (v / 2 ^ 8))

pub length-put_word : (buf : List ℕ) (i v : ℕ) → length (put_word buf i v) ≡ length buf
unfolding put_word
length-put_word buf i v =
    length-set (set buf (2 * i) (u8 v)) (2 * i + 1) (u8 (v / 2 ^ 8)) ∙ length-set buf (2 * i) (u8 v)

pub set_u16-put_word :
    (buf : List ℕ) (i v : ℕ) → 2 * i + 2 ≤ length buf → set_u16 buf i v ≡ done (put_word buf i v)
unfolding set_u16 put_word
set_u16-put_word buf i v fits =
    let ok : leb (2 * i + 2) (length buf) ≡ true = ground arith in rw ok refl

pub get_u16-put_word_self :
    (buf : List ℕ) (i v : ℕ)
    → 2 * i + 2 ≤ length buf
    → v < 2 ^ 16
    → get_u16 (put_word buf i v) i ≡ done v
unfolding get_u16 put_word
get_u16-put_word_self buf i v fits small =
    let inner = set buf (2 * i) (u8 v) in
    let low : get_elem? (put_word buf i v) (2 * i) ≡ some (u8 v) =
      get_elem?-set_ne inner (2 * i + 1) (2 * i) (u8 (v / 2 ^ 8)) (λ e. omega arith)
      ∙ get_elem?-set_self buf (2 * i) (u8 v) (omega arith) in
    let high : get_elem? (put_word buf i v) (2 * i + 1) ≡ some (u8 (v / 2 ^ 8)) =
      get_elem?-set_self inner (2 * i + 1) (u8 (v / 2 ^ 8))
        (omega (arith, length-set buf (2 * i) (u8 v))) in
    rw (low, high) (ap done (omega arith))

pub get_u16-put_word_ne :
    (buf : List ℕ) (i j v : ℕ) → i ≢ j → get_u16 (put_word buf i v) j ≡ get_u16 buf j
unfolding get_u16 put_word
get_u16-put_word_ne buf i j v apart =
    let inner = set buf (2 * i) (u8 v) in
    let low : get_elem? (put_word buf i v) (2 * j) ≡ get_elem? buf (2 * j) =
      get_elem?-set_ne inner (2 * i + 1) (2 * j) (u8 (v / 2 ^ 8)) (λ e. apart (omega arith))
      ∙ get_elem?-set_ne buf (2 * i) (2 * j) (u8 v) (λ e. apart (omega arith)) in
    let high : get_elem? (put_word buf i v) (2 * j + 1) ≡ get_elem? buf (2 * j + 1) =
      get_elem?-set_ne inner (2 * i + 1) (2 * j + 1) (u8 (v / 2 ^ 8)) (λ e. apart (omega arith))
      ∙ get_elem?-set_ne buf (2 * i) (2 * j + 1) (u8 v) (λ e. apart (omega arith)) in
    rw (low, high) refl
