-- ===== src/Keyboard.antt =====
-- drivers/keyboard.c and drivers/keyboard.h: the interrupt handler of the keyboard, which collects
-- the scan codes (set 1) of a key. `scancode_history` is a list of six bytes.
pub mod Key
pub mod Pending
mod Tests
use ts_os.Base.{
  ℕ, zero, suc, ◌+◌, ◌*◌, ◌^◌, ◌≤◌, ◌<◌, Bool, true, false, ◌&&◌, ◌||◌, Option, none, some, List,
  [], ◌∷◌, get_elem?, set, length, ◌==◌, leb, ltb, if◌then◌else◌, Outcome, done, halted, fault,
  out_of_fuel, ◌>>=◌, checked,
}
use ts_os.Keyboard.Key
use ts_os.Keyboard.Key.{keycode_tbl}

pub record Keyboard : Type 0 where
  pub scancode_history : List ℕ
  pub scancode_depth : ℕ

-- what the handler does with a code: a call of `shell_get_key_code`, or `_put_scan_history`
pub data Verdict : Type 0 where
  key : ℕ → Verdict
  put : Verdict

-- `sizeof(keycode_tbl) / sizeof(KEY_CODE)`
abbrev pub table_size : ℕ
table_size = 86

-- the `switch` on `scancode_depth`
unfoldable pub at_start : ℕ → Outcome Verdict
at_start scan_code =
    if leb scan_code table_size
    then (checked (get_elem? keycode_tbl scan_code) >>= λ k. done (key k))
    else (if (scan_code == 0xE0) || (scan_code == 0xE1) then done put else done (key Key.empty))

unfoldable pub at_second : (first scan_code : ℕ) → Verdict
at_second first scan_code =
    if first == 0xE1
    then put
    else if scan_code == 0xC8
    then key Key.up_release
    else if scan_code == 0xD0
    then key Key.down_release
    else if (scan_code == 0x2A) || (scan_code == 0xB7)
    then put
    else key Key.empty

unfoldable pub at_fourth : (first second : ℕ) → Verdict
at_fourth first second =
    if (first == 0xE0) && (second == 0x2A)
    then key Key.printscr
    else if (first == 0xE0) && (second == 0xB7)
    then key Key.printscr_release
    else put

-- by the depth and the history
unfoldable pub verdict : (depth : ℕ) → List ℕ → (scan_code : ℕ) → Outcome Verdict
verdict zero hist scan_code = at_start scan_code
verdict (suc zero) hist scan_code =
    checked (get_elem? hist 0) >>= λ first. done (at_second first scan_code)
verdict (suc (suc zero)) hist scan_code = done put
verdict (suc (suc (suc zero))) hist scan_code = checked (get_elem? hist 0) >>= λ first.
    checked (get_elem? hist 1) >>= λ second. done (at_fourth first second)
verdict (suc (suc (suc (suc zero)))) hist scan_code = done put
verdict (suc (suc (suc (suc (suc zero))))) hist scan_code = done (key Key.pause)
verdict (suc (suc (suc (suc (suc (suc d)))))) hist scan_code = done (key Key.empty)

-- `_put_scan_history`
pub put_scan_history : Keyboard → ℕ → Outcome Keyboard
put_scan_history kb scan_code =
    if ltb kb.scancode_depth (length kb.scancode_history)
    then done (record {
      scancode_history = set kb.scancode_history kb.scancode_depth scan_code;
      scancode_depth = kb.scancode_depth + 1;
    })
    else fault

-- `kb_handler` on the code that it reads from the port, with the key that it passes to the shell
pub kb_handler : Keyboard → ℕ → Outcome (Keyboard × Option ℕ)
kb_handler kb scan_code = verdict kb.scancode_depth kb.scancode_history scan_code >>= λ v. elim v [
  | key k ↦ done (record kb { scancode_depth = 0 }, some k)
  | put ↦ put_scan_history kb scan_code >>= λ kb'. done (kb', none)
]

-- before the first interrupt
abbrev pub power_on : Keyboard
power_on = record { scancode_history = 0 ∷ 0 ∷ 0 ∷ 0 ∷ 0 ∷ 0 ∷ []; scancode_depth = 0 }

-- a run of interrupts, with the keys that the shell gets
unfoldable pub type_codes : Keyboard → List ℕ → Outcome (Keyboard × List ℕ)
type_codes kb [] = done (kb, [])
type_codes kb (c ∷ cs) = kb_handler kb c >>= λ r.
    type_codes r.0 cs >>= λ t. done (t.0, elim r.1 [ none ↦ t.1 | some k ↦ k ∷ t.1 ])
