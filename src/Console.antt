-- ===== src/Console.antt =====
-- kernel/console.c and kernel/console.h: the history of the output and the window over it, in the
-- default build, which has 20 columns and 6 rows, one of them the input's and one the status bar's.
-- A position in the history is a count of all characters so far; the buffer keeps the last 100.
pub mod Rows
pub mod Window
pub mod Output
pub mod Input
pub mod Drawing
pub mod Written
pub mod Line
mod Tests
use ts_os.Base.{
  ℕ, zero, suc, ◌+◌, ◌-◌, ◌*◌, ◌/◌, ◌%◌, ◌^◌, Bool, true, false, ◌&&◌, not, Option, none, some,
  List, get_elem?, set, length, ◌==◌, ltb, leb, if◌then◌else◌, u32, sub32, Outcome, done, halted,
  fault, out_of_fuel, ◌>>=◌, checked,
}

-- `CONSOLE_HISTORY_SIZE`
abbrev pub history_capacity : ℕ
history_capacity = 100

-- `console_max_col`, `console_max_row` and `status_bar_lines` after `init_console`
abbrev pub console_max_col : ℕ
console_max_col = 20

abbrev pub console_max_row : ℕ
console_max_row = 6

abbrev pub status_bar_lines : ℕ
status_bar_lines = 1

abbrev pub max_window_size : ℕ
max_window_size = (console_max_row - 1 - status_bar_lines) * console_max_col

abbrev pub newline : ℕ
newline = 10

pub record Console : Type 0 where
  pub history : List ℕ
  pub window : List ℕ
  pub history_cnt : ℕ
  pub window_first_history : ℕ
  pub window_last_history : ℕ
  pub window_size : ℕ

-- `history[i % CONSOLE_HISTORY_SIZE]`
abbrev pub history_at : List ℕ → ℕ → Outcome ℕ
history_at hist i = checked (get_elem? hist (i % history_capacity))

-- the loop of `next_line_start`, with the columns that are left
unfoldable pub next_from : ℕ → List ℕ → (history_cnt offset : ℕ) → Outcome ℕ
next_from zero hist history_cnt offset = done offset
next_from (suc k) hist history_cnt offset =
    if ltb offset history_cnt
    then (history_at hist offset >>= λ c.
        if c == newline then done (offset + 1) else next_from k hist history_cnt (offset + 1))
    else done offset

pub next_line_start : Console → ℕ → Outcome ℕ
next_line_start s line_start = next_from console_max_col s.history s.history_cnt line_start

-- the loop of `prev_line_start`
unfoldable pub prev_from : ℕ → List ℕ → (history_min next_start offset : ℕ) → Outcome ℕ
prev_from zero hist history_min next_start offset = done offset
prev_from (suc k) hist history_min next_start offset =
    if ltb history_min offset
    then (history_at hist (offset - 1) >>= λ c.
        if (c == newline) && not (offset == next_start)
        then done offset
        else prev_from k hist history_min next_start (offset - 1))
    else done offset

pub prev_line_start : Console → ℕ → Outcome ℕ
prev_line_start s next_start =
    let history_min =
      if ltb history_capacity s.history_cnt then s.history_cnt - history_capacity else 0 in
    prev_from console_max_col s.history history_min next_start next_start

-- the growth of a window of `ws` cells by a character
pub calc_window_delta : (ws c : ℕ) → ℕ
calc_window_delta ws c =
    if c == newline
    then (let new_ws = u32 (ws + console_max_col - 1 + 1) in
        sub32 (new_ws - new_ws % console_max_col) ws)
    else 1

-- `window[i] = c`
pub write_window : List ℕ → (i c : ℕ) → Outcome (List ℕ)
write_window win i c = if ltb i (length win) then done (set win i c) else fault

-- the loop that ends a row at a newline; a row has at most 19 cells left
pub end_row : ℕ → List ℕ → (size : ℕ) → Outcome (List ℕ × ℕ)
end_row zero win size =
    if not (size % console_max_col == 0) && ltb size max_window_size
    then out_of_fuel
    else done (win, size)
end_row (suc k) win size =
    if not (size % console_max_col == 0) && ltb size max_window_size
    then (write_window win size 0 >>= λ win. end_row k win (size + 1))
    else done (win, size)

-- the loop of `update_window_buffer` over the history, with what is left of the window: the window,
-- its size and the next position of the history
pub fill_window :
    ℕ → (hist win : List ℕ) → (size history_index history_cnt : ℕ) → Outcome (List ℕ × ℕ × ℕ)
fill_window zero hist win size history_index history_cnt =
    if ltb size max_window_size && ltb history_index history_cnt
    then out_of_fuel
    else done (win, size, history_index)
fill_window (suc k) hist win size history_index history_cnt =
    if ltb size max_window_size && ltb history_index history_cnt
    then (history_at hist history_index >>= λ c. write_window win size c >>= λ win.
        if c == newline
        then (end_row console_max_col win (size + 1) >>= λ r.
            fill_window k hist r.0 r.1 (history_index + 1) history_cnt)
        else fill_window k hist win (size + 1) (history_index + 1) history_cnt)
    else done (win, size, history_index)

-- the loop that clears the rest
pub clear_rest : ℕ → List ℕ → (size : ℕ) → Outcome (List ℕ)
clear_rest zero win size = if ltb size max_window_size then out_of_fuel else done win
clear_rest (suc k) win size =
    if ltb size max_window_size
    then (write_window win size 0 >>= λ win. clear_rest k win (size + 1))
    else done win

pub update_window_buffer : Console → Outcome Console
update_window_buffer s =
    fill_window max_window_size s.history s.window 0 s.window_first_history s.history_cnt >>= λ r.
    clear_rest max_window_size r.0 r.1 >>= λ win.
    done (record s { window = win; window_size = r.1; window_last_history = r.2 })

-- -1 is `none`.
pub move_down_window_start_position : Console → Outcome (Option Console)
move_down_window_start_position s = next_line_start s s.window_first_history >>= λ next_start.
    if leb next_start s.window_first_history
    then done none
    else done (some (record s { window_first_history = next_start }))

pub move_up_window_start_position : Console → Outcome (Option Console)
move_up_window_start_position s = prev_line_start s s.window_first_history >>= λ new_start.
    if leb s.window_first_history new_start
    then done none
    else done (some (record s { window_first_history = new_start }))
