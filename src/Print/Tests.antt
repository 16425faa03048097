-- ===== src/Print/Tests.antt =====
-- Printing on an empty terminal.
use ts_os.Base.{All, ◌<◌, ℕ, ◌≡◌, refl, List, [], ◌∷◌, true, arith, done, ◌>>=◌}
use ts_os.Base.Bytes.{replicate}
use ts_os.String.{atoi}
use ts_os.String.Number.{digits, value}
use ts_os.Console.{Console}
use ts_os.Console.Output.{Terminal}
use ts_os.Print.{no_width, sprint_hex, print_num}
use ts_os.Print.Hex.{atoi-sprint_hex, print_num-hex, print_all, is_short}

-- a terminal with no output
abbrev quiet : Console
quiet = record {
  history = replicate 100 0;
  window = replicate 80 0;
  history_cnt = 0;
  window_first_history = 0;
  window_last_history = 0;
  window_size = 0;
}

abbrev empty : Terminal
empty = record {
  console = quiet;
  input_buf = replicate 512 0;
  input_cnt = 0;
  screen = replicate 4000 0;
}

no_width-empty : no_width (0 ∷ []) ≡ done true
unfolding no_width
no_width-empty = refl

atoi-sprint_hex_example :
    (sprint_hex 0xC0FFEE (replicate 33 0) >>= λ buf. atoi buf 16) ≡ done 0xC0FFEE
atoi-sprint_hex_example = atoi-sprint_hex 0xC0FFEE (omega arith)

print_num-hex_example :
    (ds : List ℕ) × (print_num empty (0 ∷ []) 120 0xC0FFEE ≡ print_all empty (48 ∷ 120 ∷ digits ds))
    × All (λ d. d < 16) ds
    × (value 16 0 ds ≡ 0xC0FFEE)
    × (is_short ds ≡ true)
print_num-hex_example =
    let bare : no_width (0 ∷ []) ≡ done true = no_width-empty in
    print_num-hex empty (0 ∷ []) 0xC0FFEE bare (omega arith)
