-- ===== src/Keyboard/Tests.antt =====
-- Runs of the keyboard handler.
use ts_os.Base.{◌≡◌, refl, arith, [], ◌∷◌, Outcome, done, List, ℕ, fault, ◌>>=◌}
use mathlib.Core.Logic.{◌↔◌}
use ts_os.Keyboard.{
  Keyboard, power_on, kb_handler, put_scan_history, verdict, at_start, at_second, at_fourth,
  type_codes, table_size,
}
use ts_os.Keyboard.Pending.{
  idle, Answer, Ran, kb_handler-Answer, type_codes-Ran, kb_handler-overrun,
}

abbrev keys : Keyboard → List ℕ → Outcome (List ℕ)
keys kb cs = type_codes kb cs >>= λ r. done r.1

keys_run :
    (keys power_on (0x1E ∷ 0x9E ∷ 0xE0 ∷ 0xC8 ∷ 0xE1 ∷ 0x1D ∷ 0x45 ∷ 0xE1 ∷ 0x9D ∷ 0xC5 ∷ [])
      ≡ done (65 ∷ 0 ∷ 151 ∷ 157 ∷ []))
    × (keys power_on (0x57 ∷ []) ≡ done (0 ∷ []))
    × (keys power_on (0x56 ∷ []) ≡ fault)
unfolding type_codes kb_handler put_scan_history verdict at_start at_second at_fourth
keys_run = (refl, refl, refl)

kb_handler-Answer_example : Answer power_on 0xE0 (kb_handler power_on 0xE0)
kb_handler-Answer_example =
    kb_handler-Answer power_on 0xE0 (idle 0 0 0 0 0 0) (λ q. omega (arith, q.1))

type_codes-Ran_example :
    Ran power_on (0xE0 ∷ 0x2A ∷ 0xE0 ∷ []) (type_codes power_on (0xE0 ∷ 0x2A ∷ 0xE0 ∷ []))
type_codes-Ran_example =
    type_codes-Ran (0xE0 ∷ 0x2A ∷ 0xE0 ∷ []) power_on (idle 0 0 0 0 0 0)
      (omega arith, (omega arith, (omega arith, tt)))

kb_handler-overrun_example :
    (kb_handler power_on table_size ≡ fault)
    ↔ ((power_on.scancode_depth ≡ 0) × (table_size ≡ table_size))
kb_handler-overrun_example = kb_handler-overrun power_on table_size (idle 0 0 0 0 0 0)
