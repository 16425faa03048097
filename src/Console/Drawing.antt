-- ===== src/Console/Drawing.antt =====
-- What drawing the console of kernel/console.c leaves as it is.
use ts_os.Base.{
  ℕ, zero, suc, ◌+◌, ◌/◌, ◌%◌, ◌≤◌, ◌≡◌, refl, ◌∙◌, ap, true, false, Bool, Bool-cases, inl, inr,
  some, length, get_elem?, get_elem?-some, arith, ◌==◌, leb, if◌then◌else◌, u32, done, ◌>>=◌,
  checked,
}
use mathlib.Core.Path.{subst, sym}
use ts_os.Vga.Cells.{screen_bytes, vga_write_char-done}
use ts_os.Console.{Console, history_capacity, max_window_size, newline}
use ts_os.Console.Window.{Updated, update_window_buffer-Updated}
use ts_os.Console.Output.{
  Terminal, inpws_to_rn, output_window_one_to_vga, draw_from, draw_window, redraw,
}

-- full-sized buffers, and a window inside the history
pub record IsConsole (c : Console) : Type 0 where
  pub history_size : length c.history ≡ history_capacity
  pub window_length : length c.window ≡ max_window_size
  pub first_le : c.window_first_history ≤ c.history_cnt
  pub last_le : c.window_last_history ≤ c.history_cnt
  pub fits : c.window_size ≤ max_window_size

-- only the screen differs
pub record Drawn (t t' : Terminal) : Type 0 where
  pub same_console : t'.console ≡ t.console
  pub same_buf : t'.input_buf ≡ t.input_buf
  pub same_cnt : t'.input_cnt ≡ t.input_cnt
  pub screen_size : length t'.screen ≡ screen_bytes

pub output_window_one_to_vga-Drawn :
    (t : Terminal) (widx c : ℕ)
    → length t.screen ≡ screen_bytes
    → (drawn : Bool) × (t' : Terminal) × (output_window_one_to_vga t widx c ≡ done (drawn, t'))
      × Drawn t t'
unfolding output_window_one_to_vga
output_window_one_to_vga-Drawn t widx c size =
    let row = u32 (widx / 20 + inpws_to_rn t.input_cnt + 1) in
    elim (Bool-cases (leb 5 row)) [
      | inl below ↦ (
        false,
        t,
        rw below refl,
        record { same_console = refl; same_buf = refl; same_cnt = refl; screen_size = size },
      )
      | inr above ↦
          let (shown, scr, runs, size') =
            vga_write_char-done t.screen (if c == newline then 0 else c) (widx % 20) row size in
          (
            true,
            record t { screen = scr },
            rw (above, runs) refl,
            record { same_console = refl; same_buf = refl; same_cnt = refl; screen_size = size' },
          )
    ]

Drawn-after : (t t1 t2 : Terminal) → Drawn t t1 → Drawn t1 t2 → Drawn t t2
Drawn-after t t1 t2 d d2 = record {
  same_console = d2.same_console ∙ d.same_console;
  same_buf = d2.same_buf ∙ d.same_buf;
  same_cnt = d2.same_cnt ∙ d.same_cnt;
  screen_size = d2.screen_size;
}

-- one cell, and then the others if it is in the window's rows
draw_from-suc :
    (k : ℕ) (t : Terminal) (widx c : ℕ) (drawn : Bool) (t1 t2 : Terminal)
    → get_elem? t.console.window widx ≡ some c
    → output_window_one_to_vga t widx c ≡ done (drawn, t1)
    → Drawn t t1
    → draw_from k t1 (widx + 1) ≡ done t2
    → Drawn t1 t2
    → (t' : Terminal) × (draw_from (suc k) t widx ≡ done t') × Drawn t t'
unfolding draw_from
draw_from-suc k t widx c false t1 t2 got runs d rest d2 =
    (t1, rw (draw_from, got, checked, ◌>>=◌, runs) refl, d)
draw_from-suc k t widx c true t1 t2 got runs d rest d2 =
    (t2, rw (draw_from, got, checked, ◌>>=◌, runs) rest, Drawn-after t t1 t2 d d2)

draw_from-Drawn :
    (k : ℕ) (t : Terminal) (widx : ℕ)
    → length t.console.window ≡ max_window_size
    → length t.screen ≡ screen_bytes
    → widx + k ≤ max_window_size
    → (t' : Terminal) × (draw_from k t widx ≡ done t') × Drawn t t'
unfolding draw_from
draw_from-Drawn zero t widx len size le =
    (t, refl, record { same_console = refl; same_buf = refl; same_cnt = refl; screen_size = size })
draw_from-Drawn (suc k) t widx len size le =
    let (c, got) = get_elem?-some t.console.window widx (omega arith) in
    let (drawn, t1, runs, d) = output_window_one_to_vga-Drawn t widx c size in
    let (t2, rest, d2) =
      draw_from-Drawn k t1 (widx + 1) (ap (λ (x : Console). length x.window) d.same_console ∙ len)
        d.screen_size (omega arith) in
    draw_from-suc k t widx c drawn t1 t2 got runs d rest d2

pub draw_window-Drawn :
    (t : Terminal)
    → length t.console.window ≡ max_window_size
    → length t.screen ≡ screen_bytes
    → (t' : Terminal) × (draw_window t ≡ done t') × Drawn t t'
unfolding draw_window
draw_window-Drawn t len size = draw_from-Drawn 80 t 0 len size (omega arith)

-- The history and the input line are as before; the window has been filled and drawn.
pub record Redrawn (t t' : Terminal) : Type 0 where
  pub ok : IsConsole t'.console
  pub history : t'.console.history ≡ t.console.history
  pub history_cnt : t'.console.history_cnt ≡ t.console.history_cnt
  pub same_buf : t'.input_buf ≡ t.input_buf
  pub same_cnt : t'.input_cnt ≡ t.input_cnt
  pub screen_size : length t'.screen ≡ screen_bytes

Updated-IsConsole :
    (c c' : Console)
    → length c.history ≡ history_capacity
    → c.window_first_history ≤ c.history_cnt
    → Updated c c'
    → IsConsole c'
Updated-IsConsole c c' len le u = record {
  history_size = ap length u.same_history ∙ len;
  window_length = u.window_length;
  first_le = omega (arith, u.same_first, u.same_cnt);
  last_le = omega (arith, u.last_to, u.same_cnt);
  fits = u.fits;
}

pub redraw-Redrawn :
    (t : Terminal)
    → length t.console.history ≡ history_capacity
    → length t.console.window ≡ max_window_size
    → t.console.window_first_history ≤ t.console.history_cnt
    → length t.screen ≡ screen_bytes
    → (t' : Terminal) × (redraw t ≡ done t') × Redrawn t t'
unfolding redraw
redraw-Redrawn t hist win le size =
    let (c, runs, u) = update_window_buffer-Updated t.console hist win le in
    let (t', drew, d) = draw_window-Drawn (record t { console = c }) u.window_length size in
    (
      t',
      rw (runs, ◌>>=◌) drew,
      record {
        ok = subst IsConsole (sym d.same_console) (Updated-IsConsole t.console c hist le u);
        history = ap (λ (x : Console). x.history) d.same_console ∙ u.same_history;
        history_cnt = ap (λ (x : Console). x.history_cnt) d.same_console ∙ u.same_cnt;
        same_buf = d.same_buf;
        same_cnt = d.same_cnt;
        screen_size = d.screen_size;
      },
    )
