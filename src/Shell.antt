-- ===== src/Shell.antt =====
-- kernel/shell.c: what a key does, and the commands.
use ts_os.Base.{
  ℕ, Bool, false, ◌&&◌, ltb, ◌||◌, none, some, Option, List, [], ◌∷◌, ◌==◌, leb, if◌then◌else◌,
  bit_or, Outcome, done, fault, ◌>>=◌,
}
use ts_os.Base.Bytes.{bytes_at, replicate}
use ts_os.String.{Str, string_equal}
use ts_os.String.Memory.{strtok}
use ts_os.Task.{Tasks, current_task, set_current, task_need_sched}
use ts_os.Console.Output.{Terminal, window_move_up, window_move_down}
use ts_os.Console.Input.{get_input_char, flush_input_buffer, modify_input_cnt}
use ts_os.Print.{clear, print_char, printl, print_hex, printf}
use ts_os.Serial.{serial_file_transfer}
use ts_os.Keyboard.Key.{
  empty, nine, hyphen, equ, backspace, left_bracket, right_bracket, enter, semicolon, single_quote,
  acute, back_slash, comma, dot, slash, wildcard, space, up_release, down_release, printscr,
  printscr_release, pause,
}

-- "print"
abbrev print_word : Str
print_word = 112 ∷ 114 ∷ 105 ∷ 110 ∷ 116 ∷ 0 ∷ []

-- "load"
abbrev load_word : Str
load_word = 108 ∷ 111 ∷ 97 ∷ 100 ∷ 0 ∷ []

-- "test"
abbrev test_word : Str
test_word = 116 ∷ 101 ∷ 115 ∷ 116 ∷ 0 ∷ []

-- "hello"
abbrev hello_word : Str
hello_word = 104 ∷ 101 ∷ 108 ∷ 108 ∷ 111 ∷ 0 ∷ []

-- "halt"
abbrev halt_word : Str
halt_word = 104 ∷ 97 ∷ 108 ∷ 116 ∷ 0 ∷ []

-- "clear"
abbrev clear_word : Str
clear_word = 99 ∷ 108 ∷ 101 ∷ 97 ∷ 114 ∷ 0 ∷ []

-- "nt"
abbrev nt_word : Str
nt_word = 110 ∷ 116 ∷ 0 ∷ []

-- "sp"
abbrev sp_word : Str
sp_word = 115 ∷ 112 ∷ 0 ∷ []

-- " "
abbrev blank : Str
blank = 32 ∷ 0 ∷ []

-- "execute sp print"
abbrev sp_print_text : Str
sp_print_text =
    101 ∷ 120 ∷ 101 ∷ 99 ∷ 117 ∷ 116 ∷ 101 ∷ 32 ∷ 115 ∷ 112 ∷ 32 ∷ 112 ∷ 114 ∷ 105 ∷ 110 ∷ 116 ∷ 0
    ∷ []

-- "com1 test"
abbrev com1_text : Str
com1_text = 99 ∷ 111 ∷ 109 ∷ 49 ∷ 32 ∷ 116 ∷ 101 ∷ 115 ∷ 116 ∷ 0 ∷ []

-- "hello from kernel"
abbrev hello_text : Str
hello_text =
    104 ∷ 101 ∷ 108 ∷ 108 ∷ 111 ∷ 32 ∷ 102 ∷ 114 ∷ 111 ∷ 109 ∷ 32 ∷ 107 ∷ 101 ∷ 114 ∷ 110 ∷ 101
    ∷ 108 ∷ 0 ∷ []

-- "halt ..."
abbrev halt_text : Str
halt_text = 104 ∷ 97 ∷ 108 ∷ 116 ∷ 32 ∷ 46 ∷ 46 ∷ 46 ∷ 0 ∷ []

-- "switch to next task"
abbrev switch_text : Str
switch_text =
    115 ∷ 119 ∷ 105 ∷ 116 ∷ 99 ∷ 104 ∷ 32 ∷ 116 ∷ 111 ∷ 32 ∷ 110 ∷ 101 ∷ 120 ∷ 116 ∷ 32 ∷ 116 ∷ 97
    ∷ 115 ∷ 107 ∷ 0 ∷ []

-- "printscr detected\n"
abbrev printscr_text : Str
printscr_text =
    112 ∷ 114 ∷ 105 ∷ 110 ∷ 116 ∷ 115 ∷ 99 ∷ 114 ∷ 32 ∷ 100 ∷ 101 ∷ 116 ∷ 101 ∷ 99 ∷ 116 ∷ 101 ∷ 100
    ∷ 10 ∷ 0 ∷ []

-- "printscr_re detected\n"
abbrev printscr_re_text : Str
printscr_re_text =
    112 ∷ 114 ∷ 105 ∷ 110 ∷ 116 ∷ 115 ∷ 99 ∷ 114 ∷ 95 ∷ 114 ∷ 101 ∷ 32 ∷ 100 ∷ 101 ∷ 116 ∷ 101 ∷ 99
    ∷ 116 ∷ 101 ∷ 100 ∷ 10 ∷ 0 ∷ []

-- "pause detected\n"
abbrev pause_text : Str
pause_text =
    112 ∷ 97 ∷ 117 ∷ 115 ∷ 101 ∷ 32 ∷ 100 ∷ 101 ∷ 116 ∷ 101 ∷ 99 ∷ 116 ∷ 101 ∷ 100 ∷ 10 ∷ 0 ∷ []

-- what the shell works on: the terminal, the tasks, memory, and the bytes to come on the
-- serial port
pub record Shell : Type 0 where
  pub terminal : Terminal
  pub tasks : Tasks
  pub memory : Str
  pub port : List ℕ

abbrev on_terminal : Shell → Outcome Terminal → Outcome Shell
on_terminal sh o = o >>= λ t. done (record sh { terminal = t })

-- the loop that prints the bytes received, 32 of them at most
unfoldable pub print_received : Terminal → Str → Outcome Terminal
print_received t [] = done t
print_received t (b ∷ bytes) =
    print_hex t b >>= λ t1. print_char t1 32 >>= λ t2. print_received t2 bytes

-- A NULL is read by `strtok`.
unfoldable pub parse_serial_command : Shell → Option Str → Outcome Shell
parse_serial_command sh none = fault
parse_serial_command sh (some s) = strtok s blank (replicate 256 0) >>= λ (_, buffer).
    string_equal (some print_word) (some buffer) >>= λ is_print.
    if is_print == 1
    then on_terminal sh (printl sh.terminal sp_print_text)
    else (string_equal (some load_word) (some buffer) >>= λ is_load.
        if is_load == 1
        then done sh
        else (string_equal (some test_word) (some buffer) >>= λ is_test.
            if is_test == 1
            then (printl sh.terminal com1_text >>= λ t1.
                serial_file_transfer t1 sh.memory sh.port 0x50000 >>= λ (total, memory', port', t2).
                bytes_at memory' 0x50000 (if ltb total 32 then total else 32) >>= λ bytes.
                print_received t2 bytes >>= λ t3.
                done (record sh { terminal = t3; memory = memory'; port = port' }))
            else done sh))

-- `halt` stops the processor up to the next interrupt.
unfoldable pub parse_command : Shell → Str → Outcome Shell
parse_command sh s = string_equal (some hello_word) (some s) >>= λ is_hello.
    if is_hello == 1
    then on_terminal sh (printl sh.terminal hello_text)
    else (string_equal (some halt_word) (some s) >>= λ is_halt.
        if is_halt == 1
        then on_terminal sh (printl sh.terminal halt_text)
        else (string_equal (some clear_word) (some s) >>= λ is_clear.
            if is_clear == 1
            then on_terminal sh (clear sh.terminal)
            else (string_equal (some nt_word) (some s) >>= λ is_nt.
                if is_nt == 1
                then (printl sh.terminal switch_text >>= λ t. current_task sh.tasks >>= λ task.
                    let due = record task { state = bit_or task.state task_need_sched } in
                    done (record sh { terminal = t; tasks = set_current sh.tasks due }))
                else (strtok s blank (replicate 256 0) >>= λ (p, buffer).
                    string_equal (some sp_word) (some buffer) >>= λ is_sp.
                    if is_sp == 1 then parse_serial_command sh p else done sh))))

abbrev one_of : List ℕ → ℕ → Bool
one_of [] k = false
one_of (x ∷ xs) k = (x == k) || one_of xs k

-- the keys of `shell_get_key_code` that give a character: letters, digits and signs
unfoldable pub is_character : ℕ → Bool
is_character keycode =
    (leb 65 keycode && leb keycode 90)
    || ((leb 48 keycode && leb keycode nine)
        || one_of
            (hyphen ∷ equ ∷ left_bracket ∷ right_bracket ∷ semicolon ∷ single_quote ∷ acute
              ∷ back_slash ∷ comma ∷ dot ∷ slash ∷ wildcard ∷ space ∷ [])
            keycode)

-- a text, for a key that the shell only reports
unfoldable pub reported : ℕ → Option Str
reported keycode =
    if keycode == printscr
    then some printscr_text
    else (if keycode == printscr_release
        then some printscr_re_text
        else (if keycode == pause then some pause_text else none))

-- `__case` stays `UPCASE`, so a letter is a capital.
unfoldable pub shell_get_key_code : Terminal → (keycode : ℕ) → Outcome Terminal
shell_get_key_code t keycode =
    if keycode == empty
    then done t
    else (if keycode == up_release
        then window_move_up t
        else (if keycode == down_release
            then window_move_down t
            else (if is_character keycode
                then get_input_char t keycode
                else (if keycode == enter
                    then flush_input_buffer t
                    else (if keycode == backspace
                        then modify_input_cnt t false 1
                        else printf t (reported keycode) [])))))
