-- ===== src/Console/Tests.antt =====
-- A console with 31 characters of output.
use ts_os.Base.{ℕ, zero, suc, ◌≡◌, refl, List, [], ◌∷◌, ◌++◌, arith, done}
use ts_os.Base.Bytes.{replicate}
use ts_os.Console.Output.{Terminal, write_console_one}
use ts_os.Console.Input.{get_input_char}
use ts_os.Console.Drawing.{IsConsole}
use ts_os.Console.Written.{Written, write_console_one-Written}
use ts_os.Console.Line.{IsLine, Typed, get_input_char-Typed}
use ts_os.Console.{
  Console, console_max_col, newline, next_from, next_line_start, prev_from, prev_line_start,
}
use ts_os.Console.Rows.{
  RowEnd, RowBegin, history_min, next_line_start-RowEnd, prev_line_start-RowBegin,
}

abbrev times : ℕ → ℕ → List ℕ
times zero c = []
times (suc n) c = c ∷ times n c

-- 30 letters and a newline: rows of 20 and of 11 characters
abbrev shown : Console
shown = record {
  history = times 30 65 ++ (newline ∷ times 69 0);
  window = times 80 0;
  history_cnt = 31;
  window_first_history = 0;
  window_last_history = 31;
  window_size = 40;
}

-- The rows begin at 0, 20 and 31, but from 31 the way back leads to 11, not to 20.
rows_run :
    (next_line_start shown 0 ≡ done 20)
    × (next_line_start shown 20 ≡ done 31)
    × (prev_line_start shown 31 ≡ done 11)
unfolding next_line_start prev_line_start next_from prev_from
rows_run = (refl, refl, refl)

next_line_start-RowEnd_example :
    (r : ℕ) × (next_line_start shown 0 ≡ done r) × RowEnd shown.history 31 console_max_col 0 r
next_line_start-RowEnd_example = next_line_start-RowEnd shown 0 refl (omega arith)

prev_line_start-RowBegin_example :
    (r : ℕ) × (prev_line_start shown 31 ≡ done r)
    × RowBegin shown.history (history_min shown) 31 console_max_col 31 r
prev_line_start-RowBegin_example = prev_line_start-RowBegin shown 31 refl (omega arith)

-- a terminal with no output, and a line of no or of one character
abbrev quiet : Console
quiet = record {
  history = replicate 100 0;
  window = replicate 80 0;
  history_cnt = 0;
  window_first_history = 0;
  window_last_history = 0;
  window_size = 0;
}

abbrev terminal : ℕ → Terminal
terminal n = record {
  console = quiet;
  input_buf = replicate 512 0;
  input_cnt = n;
  screen = replicate 4000 0;
}

quiet-IsConsole : IsConsole quiet
quiet-IsConsole = record {
  history_size = refl;
  window_length = refl;
  first_le = omega arith;
  last_le = omega arith;
  fits = omega arith;
}

write_console_one-Written_example :
    (t' : Terminal) × (write_console_one (terminal 0) 65 ≡ done t') × Written (terminal 0) 65 t'
write_console_one-Written_example =
    write_console_one-Written (terminal 0) 65 quiet-IsConsole (omega arith) refl

get_input_char-Typed_example :
    (t' : Terminal) × (get_input_char (terminal 1) 65 ≡ done t')
    × IsLine t'
    × Typed (terminal 1) 65 t'
get_input_char-Typed_example =
    get_input_char-Typed (terminal 1) 65
      (record { buf_size = refl; short = omega arith; window_length = refl; screen_size = refl })
