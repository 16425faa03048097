-- ===== src/Console/Input.antt =====
-- The input line of kernel/console.c.
use ts_os.Base.{
  ℕ, zero, suc, ◌+◌, ◌-◌, ◌/◌, ◌%◌, Bool, not, List, length, get_elem?, set, ◌==◌, ltb, leb,
  if◌then◌else◌, u32, sub32, Outcome, done, fault, ◌>>=◌, checked,
}
use ts_os.Vga.{Screen, vga_write_char}
use ts_os.Console.{console_max_col, newline}
use ts_os.Console.Output.{Terminal, inpws_to_rn, draw_window, write_console_one, console_clear}

-- `INPUT_AREA_MAX_ROW`
abbrev pub input_area_max_row : ℕ
input_area_max_row = 2

unfoldable pub valid_input_cnt : ℕ → Bool
valid_input_cnt new_input_cnt = not (leb input_area_max_row (inpws_to_rn new_input_cnt))

unfoldable pub check_resize_layout : (old_input_cnt new_input_cnt : ℕ) → Bool
check_resize_layout old_input_cnt new_input_cnt =
    not (inpws_to_rn old_input_cnt == inpws_to_rn new_input_cnt)

-- a character of the input line at place `i`
unfoldable pub draw_cell : Screen → (c i : ℕ) → Outcome Screen
draw_cell scr c i =
    vga_write_char scr c (i % console_max_col) (i / console_max_col) >>= λ (_, scr'). done scr'

-- the loop that clears a row, over `k` places from `i` on
unfoldable pub clear_input_row : ℕ → Screen → (i : ℕ) → Outcome Screen
clear_input_row zero scr i = done scr
clear_input_row (suc k) scr i = draw_cell scr 0 i >>= λ scr'. clear_input_row k scr' (i + 1)

-- the loop that draws the line again and clears what was behind it
unfoldable pub draw_input_from :
    ℕ → Screen → (input_buf : List ℕ) → (input_cnt i : ℕ) → Outcome Screen
draw_input_from zero scr input_buf input_cnt i = done scr
draw_input_from (suc k) scr input_buf input_cnt i =
    (if ltb i input_cnt then checked (get_elem? input_buf i) else done 0) >>= λ c.
    draw_cell scr c i >>= λ scr'. draw_input_from k scr' input_buf input_cnt (i + 1)

unfoldable pub draw_input_if_need : Terminal → (old_input_cnt : ℕ) → Outcome Terminal
draw_input_if_need t old_input_cnt =
    if leb old_input_cnt t.input_cnt
    then (clear_input_row console_max_col t.screen (t.input_cnt - t.input_cnt % console_max_col)
        >>= λ scr. checked (get_elem? t.input_buf (sub32 t.input_cnt 1)) >>= λ c.
            draw_cell scr c (sub32 t.input_cnt 1) >>= λ scr'. done (record t { screen = scr' }))
    else (draw_input_from old_input_cnt t.screen t.input_buf t.input_cnt 0 >>= λ scr.
        done (record t { screen = scr }))

unfoldable pub console_clear_input : Terminal → Outcome Terminal
console_clear_input t =
    draw_input_if_need (record t { input_cnt = 0 }) t.input_cnt >>= λ t'. draw_window t'

unfoldable pub console_clear_all : Terminal → Outcome Terminal
console_clear_all t = console_clear_input t >>= λ t'. console_clear t'

-- the loop of `flush_input_buffer`, from `i` on
unfoldable pub flush_from : ℕ → Terminal → (i : ℕ) → Outcome Terminal
flush_from zero t i = done t
flush_from (suc k) t i = checked (get_elem? t.input_buf i) >>= λ c.
    write_console_one t c >>= λ t'. flush_from k t' (i + 1)

unfoldable pub flush_input_buffer : Terminal → Outcome Terminal
flush_input_buffer t = flush_from t.input_cnt t 0 >>= λ t'.
    write_console_one t' newline >>= λ t''. console_clear_input t''

unfoldable pub get_input_char : Terminal → (c : ℕ) → Outcome Terminal
get_input_char t c =
    let old_cnt = t.input_cnt in
    let new_cnt = u32 (t.input_cnt + 1) in
    if not (valid_input_cnt new_cnt)
    then done t
    else (if ltb old_cnt (length t.input_buf)
        then (let t' = record t { input_buf = set t.input_buf old_cnt c; input_cnt = new_cnt } in
            if check_resize_layout old_cnt new_cnt
            then (draw_input_if_need t' old_cnt >>= λ t''. draw_window t'')
            else (draw_cell t'.screen c old_cnt >>= λ scr. done (record t' { screen = scr })))
        else fault)

-- The change is `delta` characters more, or as many less.
unfoldable pub modify_input_cnt : Terminal → (grow : Bool) → (delta : ℕ) → Outcome Terminal
modify_input_cnt t grow delta =
    let old_cnt = t.input_cnt in
    let new_cnt = if grow then u32 (t.input_cnt + delta) else sub32 t.input_cnt delta in
    if not (valid_input_cnt new_cnt)
    then done t
    else (draw_input_if_need (record t { input_cnt = new_cnt }) old_cnt >>= λ t'.
        if check_resize_layout old_cnt new_cnt then draw_window t' else done t')
