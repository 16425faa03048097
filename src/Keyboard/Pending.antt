-- ===== src/Keyboard/Pending.antt =====
-- The states that the handler of drivers/keyboard.c can be in, whatever codes arrive.
use ts_os.Base.{
  ℕ, zero, suc, ◌+◌, ◌≤◌, ◌<◌, ◌≡◌, ◌≢◌, refl, ◌⊎◌, inl, inr, true, false, Bool-cases, Option, none,
  some, List, [], ◌∷◌, get_elem?, get_elem?-some, length, arith, leb, ◌==◌, set, ◌&&◌, Outcome,
  done, fault, ◌>>=◌, All,
}
use mathlib.Core.Logic.{◌↔◌}
use ts_os.Base.Bytes.{take}
use ts_os.Keyboard.{
  Keyboard, at_start, at_second, at_fourth, verdict, put_scan_history, kb_handler, type_codes,
  table_size,
}
use ts_os.Keyboard.Key
use ts_os.Keyboard.Key.{keycode_tbl}

abbrev pub six : (a b c d e f : ℕ) → List ℕ
six a b c d e f = a ∷ b ∷ c ∷ d ∷ e ∷ f ∷ []

abbrev pub at_depth : List ℕ → ℕ → Keyboard
at_depth hist d = record { scancode_history = hist; scancode_depth = d }

-- Nothing is pending; or 0xE0 is; or 0xE0 and the second code of a print screen sequence, with
-- none or one behind them; or 0xE1 with up to four codes behind it. The rest of the history is stale.
pub data IsKeyboard : Keyboard → Type 0 where
  idle : (a b c d e f : ℕ) → IsKeyboard (at_depth (six a b c d e f) 0)
  extended : (b c d e f : ℕ) → IsKeyboard (at_depth (six 0xE0 b c d e f) 1)
  print : (b c d e f : ℕ) → (b ≡ 0x2A) ⊎ (b ≡ 0xB7) → IsKeyboard (at_depth (six 0xE0 b c d e f) 2)
  print_more :
      (b c d e f : ℕ) → (b ≡ 0x2A) ⊎ (b ≡ 0xB7) → IsKeyboard (at_depth (six 0xE0 b c d e f) 3)
  pause : (n b c d e f : ℕ) → n < 5 → IsKeyboard (at_depth (six 0xE1 b c d e f) (suc n))

-- the key of a code that comes behind those pending, and is the last one of its sequence
pub data KeyFor : (pending : List ℕ) (code key : ℕ) → Type 0 where
  key_typed : (code k : ℕ) → get_elem? keycode_tbl code ≡ some k → KeyFor [] code k
  key_none : (code : ℕ) → table_size < code → code ≢ 0xE0 → code ≢ 0xE1 → KeyFor [] code Key.empty
  key_up : (code : ℕ) → code ≡ 0xC8 → KeyFor (0xE0 ∷ []) code Key.up_release
  key_down : (code : ℕ) → code ≡ 0xD0 → KeyFor (0xE0 ∷ []) code Key.down_release
  key_other :
      (code : ℕ)
      → code ≢ 0xC8
      → code ≢ 0xD0
      → code ≢ 0x2A
      → code ≢ 0xB7
      → KeyFor (0xE0 ∷ []) code Key.empty
  key_printscr : (b x code : ℕ) → b ≡ 0x2A → KeyFor (0xE0 ∷ b ∷ x ∷ []) code Key.printscr
  key_printscr_release :
      (b x code : ℕ) → b ≡ 0xB7 → KeyFor (0xE0 ∷ b ∷ x ∷ []) code Key.printscr_release
  key_pause : (v w x y code : ℕ) → KeyFor (0xE1 ∷ v ∷ w ∷ x ∷ y ∷ []) code Key.pause

-- What the handler may do: keep the code behind those that were pending, or pass the key of
-- these codes to the shell, with nothing pending then.
pub data Answer (kb : Keyboard) (code : ℕ) : Outcome (Keyboard × Option ℕ) → Type 0 where
  kept :
      {kb' : Keyboard}
      → IsKeyboard kb'
      → kb'.scancode_depth ≡ suc kb.scancode_depth
      → kb'.scancode_history ≡ set kb.scancode_history kb.scancode_depth code
      → Answer kb code (done (kb', none))
  passed :
      {kb' : Keyboard} (k : ℕ)
      → IsKeyboard kb'
      → kb'.scancode_depth ≡ 0
      → kb'.scancode_history ≡ kb.scancode_history
      → KeyFor (take kb.scancode_depth kb.scancode_history) code k
      → Answer kb code (done (kb', some k))

from_idle :
    (a b c d e f code : ℕ)
    → code ≢ table_size
    → Answer (at_depth (six a b c d e f) 0) code (kb_handler (at_depth (six a b c d e f) 0) code)
unfolding kb_handler put_scan_history verdict at_start
from_idle a b c d e f code ne = elim (Bool-cases (leb code table_size)) [
  | inl inside ↦
      let (k, got) = get_elem?-some keycode_tbl code (ground arith) in
      rw (inside, got) (passed k (idle a b c d e f) refl refl (key_typed code k got))
  | inr outside ↦ rw outside (elim (Bool-cases (code == 0xE0)) [
    | inl ext ↦
        let e0 : code ≡ 0xE0 = ground arith in rw ext (kept (rw e0 (extended b c d e f)) refl refl)
    | inr other ↦ elim (Bool-cases (code == 0xE1)) [
      | inl brk ↦
          let e1 : code ≡ 0xE1 = ground arith in
          rw (other, brk) (kept (rw e1 (pause 0 b c d e f (omega arith))) refl refl)
      | inr none_of ↦
          rw (other, none_of)
            (passed Key.empty (idle a b c d e f) refl refl
              (key_none code (ground arith) (ground arith) (ground arith)))
    ]
  ])
]

from_extended :
    (b c d e f code : ℕ)
    → Answer
        (at_depth (six 0xE0 b c d e f) 1)
        code
        (kb_handler (at_depth (six 0xE0 b c d e f) 1) code)
unfolding kb_handler put_scan_history verdict at_second
from_extended b c d e f code = elim (Bool-cases (code == 0xC8)) [
  | inl up ↦
      rw up (passed Key.up_release (idle 0xE0 b c d e f) refl refl (key_up code (ground arith)))
  | inr not_up ↦ rw not_up (elim (Bool-cases (code == 0xD0)) [
    | inl down ↦
        rw down
          (passed Key.down_release (idle 0xE0 b c d e f) refl refl (key_down code (ground arith)))
    | inr not_down ↦ rw not_down (elim (Bool-cases (code == 0x2A)) [
      | inl make ↦ rw make (kept (print code c d e f (inl (ground arith))) refl refl)
      | inr not_make ↦ rw not_make (elim (Bool-cases (code == 0xB7)) [
        | inl break ↦ rw break (kept (print code c d e f (inr (ground arith))) refl refl)
        | inr neither ↦ rw neither (
            passed Key.empty (idle 0xE0 b c d e f) refl refl
              (key_other code (ground arith) (ground arith) (ground arith) (ground arith)))
      ])
    ])
  ])
]

from_pause :
    (n b c d e f code : ℕ)
    → n < 5
    → Answer
        (at_depth (six 0xE1 b c d e f) (suc n))
        code
        (kb_handler (at_depth (six 0xE1 b c d e f) (suc n)) code)
unfolding kb_handler put_scan_history verdict at_second at_fourth
from_pause zero b c d e f code lt = kept (pause 1 code c d e f (omega arith)) refl refl
from_pause (suc zero) b c d e f code lt = kept (pause 2 b code d e f (omega arith)) refl refl
from_pause (suc (suc zero)) b c d e f code lt = kept (pause 3 b c code e f (omega arith)) refl refl
from_pause (suc (suc (suc zero))) b c d e f code lt =
    kept (pause 4 b c d code f (omega arith)) refl refl
from_pause (suc (suc (suc (suc zero)))) b c d e f code lt =
    passed Key.pause (idle 0xE1 b c d e f) refl refl (key_pause b c d e code)
from_pause (suc (suc (suc (suc (suc n))))) b c d e f code lt = absurd (omega arith)

-- In each of the states that it can reach, and unless code 86 comes with nothing pending,
-- `kb_handler` stays inside its arrays and reaches such a state again: it keeps the code, behind
-- those that were pending, or passes the key of these codes to the shell, has none pending and
-- leaves the history as it is.
pub kb_handler-Answer :
    (kb : Keyboard) (code : ℕ)
    → IsKeyboard kb
    → ¬ ((kb.scancode_depth ≡ 0) × (code ≡ table_size))
    → Answer kb code (kb_handler kb code)
unfolding kb_handler put_scan_history verdict at_fourth
kb_handler-Answer kb code (idle a b c d e f) ne = from_idle a b c d e f code (λ q. ne (refl, q))
kb_handler-Answer kb code (extended b c d e f) ne = from_extended b c d e f code
kb_handler-Answer kb code (print b c d e f m) ne = kept (print_more b code d e f m) refl refl
kb_handler-Answer kb code (print_more b c d e f (inl m)) ne =
    let make : (b == 0x2A) ≡ true = ground arith in
    rw make (passed Key.printscr (idle 0xE0 b c d e f) refl refl (key_printscr b c code m))
kb_handler-Answer kb code (print_more b c d e f (inr m)) ne =
    let not_make : (b == 0x2A) ≡ false = ground arith in
    let break : (b == 0xB7) ≡ true = ground arith in
    rw (not_make, break)
      (passed Key.printscr_release (idle 0xE0 b c d e f) refl refl
        (key_printscr_release b c code m))
kb_handler-Answer kb code (pause n b c d e f lt) ne = from_pause n b c d e f code lt

depth_bound : {kb : Keyboard} → IsKeyboard kb → kb.scancode_depth ≤ 5
depth_bound (idle a b c d e f) = omega arith
depth_bound (extended b c d e f) = omega arith
depth_bound (print b c d e f m) = omega arith
depth_bound (print_more b c d e f m) = omega arith
depth_bound (pause n b c d e f lt) = omega arith

-- what a run of codes does
abbrev pub Ran : Keyboard → List ℕ → Outcome (Keyboard × List ℕ) → Type 0
Ran kb cs r =
    (kb' : Keyboard) × (ks : List ℕ) × (r ≡ done (kb', ks))
    × IsKeyboard kb'
    × (6 ≤ kb.scancode_depth + length cs → 1 ≤ length ks)

-- From each of the states that it can reach, `kb_handler` takes any codes but 86 without leaving its
-- arrays, ends in such a state, and has passed at least one key to the shell once there have been
-- six codes, counting those that were pending.
pub type_codes-Ran :
    (cs : List ℕ) (kb : Keyboard)
    → IsKeyboard kb
    → All (λ c. c ≢ table_size) cs
    → Ran kb cs (type_codes kb cs)
unfolding type_codes
type_codes-Ran [] kb v all = (kb, [], refl, v, λ six. absurd (omega (arith, depth_bound v)))
type_codes-Ran (c ∷ cs) kb v all =
    go (kb_handler-Answer kb c v (λ q. all.0 q.1)) (λ kb1 v1. type_codes-Ran cs kb1 v1 all.1)
  where
    go :
        {r : Outcome (Keyboard × Option ℕ)}
        → Answer kb c r
        → ((kb1 : Keyboard) → IsKeyboard kb1 → Ran kb1 cs (type_codes kb1 cs))
        → Ran kb (c ∷ cs) (
            r >>= λ r.
            type_codes r.0 cs >>= λ t. done (t.0, elim r.1 [ none ↦ t.1 | some k ↦ k ∷ t.1 ]))
    go (kept {kb'} v1 deeper stored) rec =
        let (kb2, ks, runs, v2, many) = rec kb' v1 in
        (kb2, ks, rw runs refl, v2, λ six. many (omega arith))
    go (passed {kb'} k v1 start stale which) rec =
        let (kb2, ks, runs, v2, many) = rec kb' v1 in
        (kb2, k ∷ ks, rw runs refl, v2, λ six. omega arith)

-- Whatever bytes stand in the history and follow the first code or two, a key that is reported by
-- a sequence arrives as one key: 0xE1 and five codes as PAUSE, 0xE0 0x2A and two codes as PRINTSCR,
-- 0xE0 0xB7 and two codes as PRINTSCR_RELEASE; and nothing is pending afterwards.
pub sequences :
    (a b c d e f v w x y z : ℕ)
    → let kb = at_depth (six a b c d e f) 0 in
      (type_codes kb (0xE1 ∷ v ∷ w ∷ x ∷ y ∷ z ∷ [])
        ≡ done (at_depth (six 0xE1 v w x y f) 0, Key.pause ∷ []))
      × (type_codes kb (0xE0 ∷ 0x2A ∷ x ∷ y ∷ [])
          ≡ done (at_depth (six 0xE0 0x2A x d e f) 0, Key.printscr ∷ []))
      × (type_codes kb (0xE0 ∷ 0xB7 ∷ x ∷ y ∷ [])
          ≡ done (at_depth (six 0xE0 0xB7 x d e f) 0, Key.printscr_release ∷ []))
unfolding type_codes kb_handler put_scan_history verdict at_start at_second at_fourth
sequences a b c d e f v w x y z = (refl, refl, refl)

Answer-done :
    {kb : Keyboard} {code : ℕ} {r : Outcome (Keyboard × Option ℕ)} → Answer kb code r → r ≢ fault
Answer-done (kept v deeper stored) e = cc e
Answer-done (passed k v start stale which) e = cc e

overrun :
    (kb : Keyboard) (code : ℕ)
    → IsKeyboard kb
    → kb.scancode_depth ≡ 0
    → code ≡ table_size
    → kb_handler kb code ≡ fault
unfolding kb_handler verdict at_start
overrun kb code (idle a b c d e f) start q = rw q refl
overrun kb code (extended b c d e f) start q = absurd (omega arith)
overrun kb code (print b c d e f m) start q = absurd (omega arith)
overrun kb code (print_more b c d e f m) start q = absurd (omega arith)
overrun kb code (pause n b c d e f lt) start q = absurd (omega arith)

-- In each of the states that it can reach, `kb_handler` leaves its arrays exactly when code 86 comes
-- with nothing pending: the range of its `case` includes the size of `keycode_tbl`.
pub kb_handler-overrun :
    (kb : Keyboard) (code : ℕ)
    → IsKeyboard kb
    → (kb_handler kb code ≡ fault) ↔ ((kb.scancode_depth ≡ 0) × (code ≡ table_size))
kb_handler-overrun kb code v = (
  (λ faults. elim (Bool-cases ((kb.scancode_depth == 0) && (code == table_size))) [
    | inl both ↦ (ground arith, ground arith)
    | inr other ↦
        absurd (Answer-done (kb_handler-Answer kb code v (λ q. ground (arith, q.0, q.1))) faults)
  ]),
  λ q. overrun kb code v q.0 q.1,
)
