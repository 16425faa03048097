-- ===== src/Console/Written.antt =====
-- `write_console_one` of kernel/console.c keeps the console well formed.
use ts_os.Base.{
  ℕ, zero, suc, ◌+◌, ◌-◌, ◌%◌, ◌^◌, ◌≤◌, ◌<◌, ◌≡◌, refl, ◌∙◌, ap, sym, true, Bool-cases, inl, inr,
  List, length, set, length-set, arith, ◌==◌, leb, ltb, if◌then◌else◌, u32, sub32, done, ◌>>=◌,
}
use mathlib.Core.Path.{subst}
use ts_os.Vga.Cells.{screen_bytes}
use ts_os.Console.{
  Console, history_capacity, console_max_col, max_window_size, newline, calc_window_delta,
  write_window, move_down_window_start_position,
}
use ts_os.Console.Rows.{calc_window_delta_lem, next_line_start-RowEnd}
use ts_os.Console.Output.{
  Terminal, followed, appended, blank_cells, put_char, scroll, write_console_one,
}
use ts_os.Console.Drawing.{
  IsConsole, Drawn, Redrawn, output_window_one_to_vga-Drawn, redraw-Redrawn,
}

followed-IsConsole : (c : Console) → IsConsole c → IsConsole (followed c)
unfolding followed
followed-IsConsole c ok = elim (Bool-cases (c.history_cnt == c.window_last_history)) [
  | inl now ↦ rw now ok
  | inr behind ↦ rw behind (record {
    history_size = ok.history_size;
    window_length = ok.window_length;
    first_le = omega arith;
    last_le = ok.last_le;
    fits = omega arith;
  })
]

-- The same history under a window that may show another part of it.
pub record SameHistory (c c' : Console) : Type 0 where
  pub history : c'.history ≡ c.history
  pub history_cnt : c'.history_cnt ≡ c.history_cnt

followed-SameHistory : (c : Console) → SameHistory c (followed c)
unfolding followed
followed-SameHistory c = elim (Bool-cases (c.history_cnt == c.window_last_history)) [
  | inl now ↦ rw now (record { history = refl; history_cnt = refl })
  | inr behind ↦ rw behind (record { history = refl; history_cnt = refl })
]

-- the growth of the window, at most a row
delta_range :
    (ws c : ℕ)
    → ws ≤ max_window_size
    → (1 ≤ calc_window_delta ws c) × (calc_window_delta ws c ≤ console_max_col)
delta_range ws c fits =
    let facts = calc_window_delta_lem ws c (omega arith) in
    elim (Bool-cases (c == newline)) [
      | inl line ↦ let at : c ≡ newline = ground arith in ((facts.0 at).1, (facts.0 at).2)
      | inr other ↦
          let one : calc_window_delta ws c ≡ 1 = facts.1 (λ e. ground arith) in
          (omega arith, omega arith)
    ]

-- a console behind the character `c`, whose window has grown and not been filled yet
pub record Appended (con : Console) (c : ℕ) (con' : Console) : Type 0 where
  pub history : con'.history ≡ set con.history (con.history_cnt % history_capacity) c
  pub history_cnt : con'.history_cnt ≡ con.history_cnt + 1
  pub last : con'.window_last_history ≡ con.history_cnt + 1
  pub window : con'.window ≡ con.window
  pub first : con'.window_first_history ≡ con.window_first_history
  pub larger : con.window_size + 1 ≤ con'.window_size
  pub row : con'.window_size ≤ con.window_size + console_max_col

appended-Appended :
    (con : Console) (c : ℕ)
    → IsConsole con
    → con.history_cnt + 1 < 2 ^ 32
    → (con' : Console) × (appended con c ≡ done con') × Appended con c con'
unfolding appended
appended-Appended con c ok word =
    let cnt : u32 (con.history_cnt + 1) ≡ con.history_cnt + 1 = omega arith in
    let inside : ltb (con.history_cnt % 100) (length con.history) ≡ true =
      ground (arith, ok.history_size) in
    let range = delta_range con.window_size c ok.fits in
    let size : u32 (con.window_size + calc_window_delta con.window_size c)
        ≡ con.window_size + calc_window_delta con.window_size c =
      omega (arith, ok.fits, range.1) in
    (
      record con {
        history = set con.history (con.history_cnt % 100) c;
        history_cnt = u32 (con.history_cnt + 1);
        window_last_history = u32 (con.history_cnt + 1);
        window_size = u32 (con.window_size + calc_window_delta con.window_size c);
      },
      rw inside refl,
      record {
        history = refl;
        history_cnt = cnt;
        last = cnt;
        window = refl;
        first = refl;
        larger = omega (arith, size, range.0);
        row = omega (arith, size, range.1);
      },
    )

blank_cells-done :
    (k : ℕ) (win : List ℕ) (i : ℕ)
    → length win ≡ max_window_size
    → i + k ≤ max_window_size
    → (win' : List ℕ) × (blank_cells k win i ≡ done win') × (length win' ≡ max_window_size)
unfolding blank_cells write_window
blank_cells-done zero win i len le = (win, refl, len)
blank_cells-done (suc k) win i len le =
    let inside : ltb i (length win) ≡ true = ground arith in
    let (win', runs, len') =
      blank_cells-done k (set win i 0) (i + 1) (length-set win i 0 ∙ len) (omega arith) in
    (win', rw (inside, ◌>>=◌) runs, len')

put_char-done :
    (con : Console) (old c : ℕ)
    → length con.window ≡ max_window_size
    → old < con.window_size
    → con.window_size ≤ max_window_size
    → (win : List ℕ) × (put_char con old c ≡ done (record con { window = win }))
      × (length win ≡ max_window_size)
unfolding put_char write_window
put_char-done con old c len lt le =
    let (win, runs, len') =
      blank_cells-done (con.window_size - 1 - old) con.window old len (omega arith) in
    let at : sub32 con.window_size 1 ≡ con.window_size - 1 = omega arith in
    let inside : ltb (con.window_size - 1) (length win) ≡ true = ground arith in
    (
      set win (con.window_size - 1) c,
      rw (runs, ◌>>=◌, at, inside) refl,
      length-set win (con.window_size - 1) c ∙ len',
    )

-- The character is the newest one of the history; the input line is as before.
pub record Written (t : Terminal) (c : ℕ) (t' : Terminal) : Type 0 where
  pub ok : IsConsole t'.console
  pub history :
      t'.console.history ≡ set t.console.history (t.console.history_cnt % history_capacity) c
  pub history_cnt : t'.console.history_cnt ≡ t.console.history_cnt + 1
  pub same_buf : t'.input_buf ≡ t.input_buf
  pub same_cnt : t'.input_cnt ≡ t.input_cnt
  pub screen_size : length t'.screen ≡ screen_bytes

Written-Drawn : (t t1 t2 : Terminal) (c : ℕ) → Written t c t1 → Drawn t1 t2 → Written t c t2
Written-Drawn t t1 t2 c w d = record {
  ok = subst IsConsole (sym d.same_console) w.ok;
  history = ap (λ (x : Console). x.history) d.same_console ∙ w.history;
  history_cnt = ap (λ (x : Console). x.history_cnt) d.same_console ∙ w.history_cnt;
  same_buf = d.same_buf ∙ w.same_buf;
  same_cnt = d.same_cnt ∙ w.same_cnt;
  screen_size = d.screen_size;
}

Written-Redrawn : (t t1 t2 : Terminal) (c : ℕ) → Written t c t1 → Redrawn t1 t2 → Written t c t2
Written-Redrawn t t1 t2 c w d = record {
  ok = d.ok;
  history = d.history ∙ w.history;
  history_cnt = d.history_cnt ∙ w.history_cnt;
  same_buf = d.same_buf ∙ w.same_buf;
  same_cnt = d.same_cnt ∙ w.same_cnt;
  screen_size = d.screen_size;
}

scroll-Redrawn :
    (t : Terminal)
    → length t.console.history ≡ history_capacity
    → length t.console.window ≡ max_window_size
    → t.console.window_first_history ≤ t.console.history_cnt
    → length t.screen ≡ screen_bytes
    → (t' : Terminal) × (scroll t ≡ done t') × Redrawn t t'
unfolding scroll move_down_window_start_position
scroll-Redrawn t hist win le size =
    let (r, row, e) = next_line_start-RowEnd t.console t.console.window_first_history hist le in
    elim (Bool-cases (leb r t.console.window_first_history)) [
      | inl stays ↦
          let (t', runs, d) = redraw-Redrawn t hist win le size in
          (t', rw (row, ◌>>=◌, stays) runs, d)
      | inr moves ↦
          let (t', runs, d) =
            redraw-Redrawn (record t { console = record t.console { window_first_history = r } })
              hist win e.inside size in
          (
            t',
            rw (row, ◌>>=◌, moves) runs,
            record {
              ok = d.ok;
              history = d.history;
              history_cnt = d.history_cnt;
              same_buf = d.same_buf;
              same_cnt = d.same_cnt;
              screen_size = d.screen_size;
            },
          )
    ]

-- the character in the history and, scrolled or not, in the window
stored-Written :
    (t : Terminal) (con : Console) (c : ℕ)
    → IsConsole t.console
    → length t.screen ≡ screen_bytes
    → Appended (followed t.console) c con
    → (t1 : Terminal) × ((if ltb max_window_size con.window_size
          then scroll (record t { console = con })
          else (put_char con (followed t.console).window_size c >>= λ con'.
              done (record t { console = con' })))
        ≡ done t1)
      × Written t c t1
stored-Written t con c ok size a =
    let start = followed-IsConsole t.console ok in
    let same = followed-SameHistory t.console in
    let hist : length con.history ≡ history_capacity =
      ap length a.history
      ∙ length-set (followed t.console).history ((followed t.console).history_cnt % 100) c
      ∙ start.history_size in
    let win : length con.window ≡ max_window_size = ap length a.window ∙ start.window_length in
    let words : con.history ≡ set t.console.history (t.console.history_cnt % 100) c =
      a.history
      ∙ ap (λ (w : List ℕ). set w ((followed t.console).history_cnt % 100) c) same.history
      ∙ ap (λ (n : ℕ). set t.console.history (n % 100) c) same.history_cnt in
    let cnt : con.history_cnt ≡ t.console.history_cnt + 1 =
      omega (arith, a.history_cnt, same.history_cnt) in
    let first : con.window_first_history ≤ con.history_cnt =
      omega (arith, a.first, a.history_cnt, start.first_le) in
    elim (Bool-cases (ltb max_window_size con.window_size)) [
      | inl over ↦
          let (t1, runs, d) = scroll-Redrawn (record t { console = con }) hist win first size in
          (
            t1,
            rw over runs,
            record {
              ok = d.ok;
              history = d.history ∙ words;
              history_cnt = d.history_cnt ∙ cnt;
              same_buf = d.same_buf;
              same_cnt = d.same_cnt;
              screen_size = d.screen_size;
            },
          )
      | inr room ↦
          let fits : con.window_size ≤ 80 = ground arith in
          let (win', runs, len') =
            put_char-done con (followed t.console).window_size c win (omega (arith, a.larger))
              fits in
          (
            record t { console = record con { window = win' } },
            rw (room, runs) refl,
            record {
              ok = record {
                history_size = hist;
                window_length = len';
                first_le = first;
                last_le = omega (arith, a.last, a.history_cnt);
                fits = fits;
              };
              history = words;
              history_cnt = cnt;
              same_buf = refl;
              same_cnt = refl;
              screen_size = size;
            },
          )
    ]

-- On a well-formed console whose count of characters does not wrap, `write_console_one` of any
-- character returns, without leaving a buffer or the screen: the character stands at its place in
-- the history, the count is one higher, the rest of the history and the input line are as before,
-- and the console is well formed.
pub write_console_one-Written :
    (t : Terminal) (c : ℕ)
    → IsConsole t.console
    → t.console.history_cnt + 1 < 2 ^ 32
    → length t.screen ≡ screen_bytes
    → (t' : Terminal) × (write_console_one t c ≡ done t') × Written t c t'
unfolding write_console_one
write_console_one-Written t c ok word size =
    let same = followed-SameHistory t.console in
    let (con, first_runs, a) =
      appended-Appended (followed t.console) c (followed-IsConsole t.console ok)
        (omega (arith, same.history_cnt)) in
    let (t1, second_runs, w) = stored-Written t con c ok size a in
    finish t c con t1 first_runs second_runs w
  where
    finish :
        (t : Terminal) (c : ℕ) (con : Console) (t1 : Terminal)
        → appended (followed t.console) c ≡ done con
        → (if ltb max_window_size con.window_size
            then scroll (record t { console = con })
            else (put_char con (followed t.console).window_size c >>= λ con'.
                done (record t { console = con' })))
          ≡ done t1
        → Written t c t1
        → (t' : Terminal) × (write_console_one t c ≡ done t') × Written t c t'
    finish t c con t1 first_runs second_runs w =
        elim (Bool-cases (t.console.history_cnt == t.console.window_last_history)) [
          | inl now ↦
              let (drawn, t2, third_runs, d) =
                output_window_one_to_vga-Drawn t1 (sub32 t1.console.window_size 1) c
                  w.screen_size in
              (
                t2,
                rw (first_runs, ◌>>=◌, second_runs, ◌>>=◌, now, third_runs) refl,
                Written-Drawn t t1 t2 c w d,
              )
          | inr behind ↦
              let (t2, third_runs, d) =
                redraw-Redrawn t1 w.ok.history_size w.ok.window_length w.ok.first_le
                  w.screen_size in
              (
                t2,
                rw (first_runs, ◌>>=◌, second_runs, ◌>>=◌, behind) third_runs,
                Written-Redrawn t t1 t2 c w d,
              )
        ]
