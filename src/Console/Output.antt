-- ===== src/Console/Output.antt =====
-- Writing and drawing in kernel/console.c, on a console that `init_console` has set up.
use ts_os.Base.{
  ℕ, zero, suc, ◌+◌, ◌-◌, ◌/◌, ◌%◌, Bool, true, false, none, some, List, length, get_elem?, set,
  ◌==◌, ltb, leb, if◌then◌else◌, u32, sub32, Outcome, done, fault, ◌>>=◌, checked,
}
use ts_os.Vga.{Screen, vga_write_char}
use ts_os.Console.{
  Console, history_capacity, console_max_col, console_max_row, status_bar_lines, max_window_size,
  newline, calc_window_delta, write_window, update_window_buffer, move_down_window_start_position,
  move_up_window_start_position,
}

-- the console with its input line and the screen
pub record Terminal : Type 0 where
  pub console : Console
  pub input_buf : List ℕ
  pub input_cnt : ℕ
  pub screen : Screen

-- the row behind an input of `inp_ws` characters
unfoldable pub inpws_to_rn : ℕ → ℕ
inpws_to_rn inp_ws = if leb inp_ws console_max_col then 0 else (inp_ws - 1) / console_max_col

-- The result is whether the row is one of the window's: 0 or -1 in the code.
unfoldable pub output_window_one_to_vga : Terminal → (widx c : ℕ) → Outcome (Bool × Terminal)
output_window_one_to_vga t widx c =
    let row = u32 (widx / console_max_col + inpws_to_rn t.input_cnt + 1) in
    let col = widx % console_max_col in
    if leb (console_max_row - status_bar_lines) row
    then done (false, t)
    else (vga_write_char t.screen (if c == newline then 0 else c) col row >>= λ (_, scr).
        done (true, record t { screen = scr }))

-- the loop of `draw_window`, over `k` cells from `widx` on
unfoldable pub draw_from : ℕ → Terminal → (widx : ℕ) → Outcome Terminal
draw_from zero t widx = done t
draw_from (suc k) t widx = checked (get_elem? t.console.window widx) >>= λ c.
    output_window_one_to_vga t widx c >>= λ (drawn, t'). elim drawn [
      | false ↦ done t'
      | true ↦ draw_from k t' (widx + 1)
    ]

unfoldable pub draw_window : Terminal → Outcome Terminal
draw_window t = draw_from max_window_size t 0

unfoldable pub redraw : Terminal → Outcome Terminal
redraw t = update_window_buffer t.console >>= λ c. draw_window (record t { console = c })

unfoldable pub window_move_up : Terminal → Outcome Terminal
window_move_up t = move_up_window_start_position t.console >>= λ moved. elim moved [
  | none ↦ done t
  | some c ↦ redraw (record t { console = c })
]

unfoldable pub window_move_down : Terminal → Outcome Terminal
window_move_down t = move_down_window_start_position t.console >>= λ moved. elim moved [
  | none ↦ done t
  | some c ↦ redraw (record t { console = c })
]

-- the window before a character: one that does not show the end of the history starts there anew
unfoldable pub followed : Console → Console
followed c =
    if c.history_cnt == c.window_last_history
    then c
    else record c { window_size = 0; window_first_history = c.history_cnt }

-- `history[(history_cnt++) % CONSOLE_HISTORY_SIZE] = c`, with the new size and end of the window
unfoldable pub appended : Console → (c : ℕ) → Outcome Console
appended con c =
    if ltb (con.history_cnt % history_capacity) (length con.history)
    then done (record con {
      history = set con.history (con.history_cnt % history_capacity) c;
      history_cnt = u32 (con.history_cnt + 1);
      window_last_history = u32 (con.history_cnt + 1);
      window_size = u32 (con.window_size + calc_window_delta con.window_size c);
    })
    else fault

-- the loop that clears the cells from `i` on up to the last one
unfoldable pub blank_cells : ℕ → List ℕ → (i : ℕ) → Outcome (List ℕ)
blank_cells zero win i = done win
blank_cells (suc k) win i = write_window win i 0 >>= λ win'. blank_cells k win' (i + 1)

-- `window[window_size-1] = c`, behind the cells that a newline leaves blank
unfoldable pub put_char : Console → (old_window_size c : ℕ) → Outcome Console
put_char con old_window_size c =
    blank_cells (con.window_size - 1 - old_window_size) con.window old_window_size >>= λ win.
    write_window win (sub32 con.window_size 1) c >>= λ win'. done (record con { window = win' })

-- a window that is full moves down by a row
unfoldable pub scroll : Terminal → Outcome Terminal
scroll t = move_down_window_start_position t.console >>= λ moved.
    redraw (record t { console = elim moved [ none ↦ t.console | some c ↦ c ] })

unfoldable pub write_console_one : Terminal → (c : ℕ) → Outcome Terminal
write_console_one t c =
    let start = followed t.console in
    appended start c >>= λ con.
    (if ltb max_window_size con.window_size
      then scroll (record t { console = con })
      else (put_char con start.window_size c >>= λ con'. done (record t { console = con' })))
    >>= λ t'.
        if t.console.history_cnt == t.console.window_last_history
        then (output_window_one_to_vga t' (sub32 t'.console.window_size 1) c >>= λ (_, t'').
            done t'')
        else redraw t'

unfoldable pub console_clear : Terminal → Outcome Terminal
console_clear t = redraw (record t {
  console = record t.console {
    window_first_history = t.console.history_cnt;
    window_last_history = t.console.history_cnt;
  };
})
