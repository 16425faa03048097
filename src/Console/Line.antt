-- ===== src/Console/Line.antt =====
-- The input line of kernel/console.c: typing, and what the code reads on an empty line.
use ts_os.Base.{
  ℕ, zero, suc, ◌+◌, ◌-◌, ◌/◌, ◌%◌, ◌≤◌, ◌<◌, ◌≡◌, refl, ◌∙◌, ap, true, false, Bool-cases, ◌⊎◌, inl,
  inr, some, length, get_elem?, get_elem?-some, set, length-set, arith, leb, ltb, u32, sub32, done,
  ◌>>=◌, checked,
}
use ts_os.Vga.{Screen}
use ts_os.Vga.Cells.{screen_bytes, vga_write_char-done}
use ts_os.Console.{Console, max_window_size}
use ts_os.Console.Output.{Terminal, inpws_to_rn, draw_window}
use ts_os.Console.Input.{
  valid_input_cnt, check_resize_layout, draw_cell, clear_input_row, draw_input_if_need,
  get_input_char,
}
use ts_os.Console.Drawing.{Drawn, draw_window-Drawn}
use ts_os.Console.Written.{Written}

-- the line has at most two rows of 20 characters
abbrev pub line_size : ℕ
line_size = 40

pub record IsLine (t : Terminal) : Type 0 where
  pub buf_size : length t.input_buf ≡ 512
  pub short : t.input_cnt ≤ line_size
  pub window_length : length t.console.window ≡ max_window_size
  pub screen_size : length t.screen ≡ screen_bytes

draw_cell-done :
    (scr : Screen) (c i : ℕ)
    → length scr ≡ screen_bytes
    → (scr' : Screen) × (draw_cell scr c i ≡ done scr') × (length scr' ≡ screen_bytes)
unfolding draw_cell
draw_cell-done scr c i size =
    let (shown, scr', runs, size') = vga_write_char-done scr c (i % 20) (i / 20) size in
    (scr', rw (runs, ◌>>=◌) refl, size')

clear_input_row-done :
    (k : ℕ) (scr : Screen) (i : ℕ)
    → length scr ≡ screen_bytes
    → (scr' : Screen) × (clear_input_row k scr i ≡ done scr') × (length scr' ≡ screen_bytes)
unfolding clear_input_row
clear_input_row-done zero scr i size = (scr, refl, size)
clear_input_row-done (suc k) scr i size =
    let (scr1, runs, size1) = draw_cell-done scr 0 i size in
    let (scr2, rest, size2) = clear_input_row-done k scr1 (i + 1) size1 in
    (scr2, rw (clear_input_row, runs, ◌>>=◌) rest, size2)

draw_input_if_need-grown :
    (t : Terminal) (old c : ℕ) (scr1 scr2 : Screen)
    → leb old t.input_cnt ≡ true
    → sub32 t.input_cnt 1 ≡ t.input_cnt - 1
    → clear_input_row 20 t.screen (t.input_cnt - t.input_cnt % 20) ≡ done scr1
    → get_elem? t.input_buf (t.input_cnt - 1) ≡ some c
    → draw_cell scr1 c (t.input_cnt - 1) ≡ done scr2
    → draw_input_if_need t old ≡ done (record t { screen = scr2 })
unfolding draw_input_if_need
draw_input_if_need-grown t old c scr1 scr2 grown last cleared got drew =
    rw (grown, cleared, ◌>>=◌, last, got, checked, ◌>>=◌, drew) refl

-- a line that has grown
draw_input_if_need-Drawn :
    (t : Terminal) (old : ℕ)
    → old ≤ t.input_cnt
    → 0 < t.input_cnt
    → t.input_cnt ≤ length t.input_buf
    → length t.input_buf ≡ 512
    → length t.screen ≡ screen_bytes
    → (t' : Terminal) × (draw_input_if_need t old ≡ done t') × Drawn t t'
draw_input_if_need-Drawn t old le pos in_buf buf size =
    let grown : leb old t.input_cnt ≡ true = ground arith in
    let last : sub32 t.input_cnt 1 ≡ t.input_cnt - 1 = omega arith in
    let (c, got) = get_elem?-some t.input_buf (t.input_cnt - 1) (omega arith) in
    let (scr1, cleared, size1) =
      clear_input_row-done 20 t.screen (t.input_cnt - t.input_cnt % 20) size in
    let (scr2, drew, size2) = draw_cell-done scr1 c (t.input_cnt - 1) size1 in
    (
      record t { screen = scr2 },
      draw_input_if_need-grown t old c scr1 scr2 grown last cleared got drew,
      record { same_console = refl; same_buf = refl; same_cnt = refl; screen_size = size2 },
    )

valid_lem : (n : ℕ) → valid_input_cnt n ≡ leb n line_size
unfolding valid_input_cnt inpws_to_rn
valid_lem n = ground arith

-- A line that is full stays as it is; otherwise the character is its last one.
abbrev pub Typed : Terminal → (c : ℕ) → Terminal → Type 0
Typed t c t' =
    ((t.input_cnt ≡ line_size) × (t' ≡ t))
    ⊎ ((t.input_cnt < line_size)
        × (t'.input_cnt ≡ t.input_cnt + 1)
        × (t'.input_buf ≡ set t.input_buf t.input_cnt c)
        × (t'.console ≡ t.console))

Drawn-Typed :
    (t : Terminal) (c : ℕ) (t' : Terminal)
    → IsLine t
    → t.input_cnt < line_size
    → Drawn (record t { input_buf = set t.input_buf t.input_cnt c; input_cnt = t.input_cnt + 1 }) t'
    → IsLine t' × Typed t c t'
Drawn-Typed t c t' line lt d = (
  record {
    buf_size = ap length d.same_buf ∙ length-set t.input_buf t.input_cnt c ∙ line.buf_size;
    short = omega (arith, d.same_cnt);
    window_length = ap (λ (x : Console). length x.window) d.same_console ∙ line.window_length;
    screen_size = d.screen_size;
  },
  inr (lt, d.same_cnt, d.same_buf, d.same_console),
)

Drawn-twice : (t t1 t2 : Terminal) → Drawn t t1 → Drawn t1 t2 → Drawn t t2
Drawn-twice t t1 t2 d d2 = record {
  same_console = d2.same_console ∙ d.same_console;
  same_buf = d2.same_buf ∙ d.same_buf;
  same_cnt = d2.same_cnt ∙ d.same_cnt;
  screen_size = d2.screen_size;
}

-- the line with the character, before it is drawn
abbrev typed : Terminal → (c : ℕ) → Terminal
typed t c = record t { input_buf = set t.input_buf t.input_cnt c; input_cnt = t.input_cnt + 1 }

module _ (t : Terminal) (c : ℕ) (next : u32 (t.input_cnt + 1) ≡ t.input_cnt + 1)
    (room : leb (t.input_cnt + 1) line_size ≡ true)
    (inside : ltb t.input_cnt (length t.input_buf) ≡ true) where
  get_input_char-row :
      (t2 t3 : Terminal)
      → check_resize_layout t.input_cnt (t.input_cnt + 1) ≡ true
      → draw_input_if_need (typed t c) t.input_cnt ≡ done t2
      → draw_window t2 ≡ done t3
      → get_input_char t c ≡ done t3
  unfolding get_input_char
  get_input_char-row t2 t3 grows drew window =
      rw (next, valid_lem (t.input_cnt + 1), room, inside, grows, drew, ◌>>=◌) window

  get_input_char-cell :
      (scr : Screen)
      → check_resize_layout t.input_cnt (t.input_cnt + 1) ≡ false
      → draw_cell t.screen c t.input_cnt ≡ done scr
      → get_input_char t c ≡ done (record (typed t c) { screen = scr })
  unfolding get_input_char
  get_input_char-cell scr same drew =
      rw (next, valid_lem (t.input_cnt + 1), room, inside, same, drew, ◌>>=◌) refl

-- `get_input_char` on a line of at most 40 characters returns inside all buffers. A full line stays
-- as it is; otherwise the character is added at the end and the console is as before.
pub get_input_char-Typed :
    (t : Terminal) (c : ℕ)
    → IsLine t
    → (t' : Terminal) × (get_input_char t c ≡ done t') × IsLine t' × Typed t c t'
unfolding get_input_char
get_input_char-Typed t c line =
    let next : u32 (t.input_cnt + 1) ≡ t.input_cnt + 1 = omega (arith, line.short) in
    elim (Bool-cases (leb (t.input_cnt + 1) line_size)) [
      | inr full ↦ (
        t,
        rw (next, valid_lem (t.input_cnt + 1), full) refl,
        line,
        inl (ground (arith, line.short), refl),
      )
      | inl room ↦
          let lt : t.input_cnt < line_size = ground arith in
          let inside : ltb t.input_cnt (length t.input_buf) ≡ true =
            ground (arith, line.buf_size) in
          let t1 = typed t c in
          let buf1 : length t1.input_buf ≡ 512 =
            length-set t.input_buf t.input_cnt c ∙ line.buf_size in
          elim (Bool-cases (check_resize_layout t.input_cnt (t.input_cnt + 1))) [
            | inl grows ↦
                let (t2, drew, d) =
                  draw_input_if_need-Drawn t1 t.input_cnt (omega arith) (omega arith) (omega arith)
                    buf1 line.screen_size in
                let (t3, window, d2) =
                  draw_window-Drawn t2
                    (ap (λ (x : Console). length x.window) d.same_console ∙ line.window_length)
                    d.screen_size in
                let (line', result) = Drawn-Typed t c t3 line lt (Drawn-twice t1 t2 t3 d d2) in
                (t3, get_input_char-row t c next room inside t2 t3 grows drew window, line', result)
            | inr same ↦
                let (scr, drew, size) = draw_cell-done t1.screen c t.input_cnt line.screen_size in
                let (line', result) =
                  Drawn-Typed t c (record t1 { screen = scr }) line lt
                    (record {
                      same_console = refl;
                      same_buf = refl;
                      same_cnt = refl;
                      screen_size = size;
                    }) in
                (
                  record t1 { screen = scr },
                  get_input_char-cell t c next room inside scr same drew,
                  line',
                  result,
                )
          ]
    ]
