-- ===== src/Print.antt =====
-- lib/print.c, on the terminal of kernel/console.c. Strings are those of lib/string.c. The variable
-- arguments of `printf` are a list; an argument that is not of the kind its format reads is a
-- `fault`.
pub mod Hex
mod Tests
use ts_os.Base.{
  ℕ, zero, suc, ◌+◌, ◌-◌, ◌*◌, ◌/◌, ◌%◌, ◌^◌, Bool, true, false, ◌&&◌, ◌||◌, not, Option, none,
  some, List, [], ◌∷◌, length, get_elem?, ◌==◌, ltb, leb, if◌then◌else◌, u32, sub32, Outcome, done,
  fault, out_of_fuel, ◌>>=◌, checked,
}
use ts_os.Base.Bytes.{take, replicate, put_bytes}
use ts_os.String.{Str, is_num, is_alpha, strlen, atoi, advance}
use ts_os.String.Memory.{itoa}
use ts_os.Console.Output.{Terminal, write_console_one, console_clear}

unfoldable pub clear : Terminal → Outcome Terminal
clear t = console_clear t

unfoldable pub print_char : Terminal → (c : ℕ) → Outcome Terminal
print_char t c = write_console_one t c

-- the loop of `print_chars`, over `n` characters from `i` on
unfoldable pub print_chars_from : ℕ → Terminal → Str → (i : ℕ) → Outcome Terminal
print_chars_from zero t s i = done t
print_chars_from (suc n) t s i =
    checked (get_elem? s i) >>= λ c. print_char t c >>= λ t'. print_chars_from n t' s (i + 1)

unfoldable pub print_chars : Terminal → Str → (n : ℕ) → Outcome Terminal
print_chars t s n = print_chars_from n t s 0

unfoldable pub printstr : Terminal → Str → Outcome Terminal
printstr t [] = fault
printstr t (c ∷ s) = if c == 0 then done t else (print_char t c >>= λ t'. printstr t' s)

unfoldable pub printl : Terminal → Str → Outcome Terminal
printl t s = printstr t s >>= λ t'. print_char t' 10

-- the characters of the high and the low half of a byte
unfoldable pub hb_to_hex : ℕ → ℕ
hb_to_hex b = if leb (b / 16) 9 then b / 16 + 48 else b / 16 - 10 + 65

unfoldable pub lb_to_hex : ℕ → ℕ
lb_to_hex b = if leb (b % 16) 9 then b % 16 + 48 else b % 16 - 10 + 65

-- `_print_byte`
unfoldable pub print_byte_digits : Terminal → (b : ℕ) → Outcome Terminal
print_byte_digits t b = print_char t (hb_to_hex b) >>= λ t'. print_char t' (lb_to_hex b)

unfoldable pub print_byte : Terminal → (x : ℕ) → Outcome Terminal
print_byte t x = print_char t 48 >>= λ t1. print_char t1 120 >>= λ t2. print_byte_digits t2 x

-- the byte at `a + i`, where `a` points to `x`
unfoldable pub byte_of : (x i : ℕ) → ℕ
byte_of x i = x / 2 ^ (8 * i) % 2 ^ 8

-- `b` goes down from `a + n - 1`.
unfoldable pub print_bytes : ℕ → Terminal → (x : ℕ) → Outcome Terminal
print_bytes zero t x = done t
print_bytes (suc i) t x = print_byte_digits t (byte_of x i) >>= λ t'. print_bytes i t' x

unfoldable pub print_hex : Terminal → (x : ℕ) → Outcome Terminal
print_hex t x = print_char t 48 >>= λ t1. print_char t1 120 >>= λ t2. print_bytes 4 t2 x

unfoldable pub sprint_bytes : ℕ → (x : ℕ) → Str → (cnt : ℕ) → Outcome Str
sprint_bytes zero x buf cnt = done buf
sprint_bytes (suc i) x buf cnt =
    put_bytes buf cnt (hb_to_hex (byte_of x i) ∷ lb_to_hex (byte_of x i) ∷ []) >>= λ buf'.
    sprint_bytes i x buf' (cnt + 2)

unfoldable pub sprint_hex : (x : ℕ) → Str → Outcome Str
sprint_hex x buf = sprint_bytes 4 x buf 0

-- the tests of `_print_num` on the format: whether there is nothing to read, and whether all is
-- digits
unfoldable pub no_width : Str → Outcome Bool
no_width [] = fault
no_width (c ∷ fmt) =
    if c == 0
    then done true
    else (if c == 48 then (checked (get_elem? fmt 0) >>= λ d. done (d == 0)) else done false)

unfoldable pub all_digits : Str → Outcome Bool
all_digits [] = fault
all_digits (c ∷ fmt) =
    if c == 0 then done true else (if is_num c then all_digits fmt else done false)

-- -1 in `num_str_len`
abbrev pub no_length : ℕ
no_length = 2 ^ 32 - 1

-- "error print num format"
abbrev pub num_format_error : Str
num_format_error =
    101 ∷ 114 ∷ 114 ∷ 111 ∷ 114 ∷ 32 ∷ 112 ∷ 114 ∷ 105 ∷ 110 ∷ 116 ∷ 32 ∷ 110 ∷ 117 ∷ 109 ∷ 32 ∷ 102
    ∷ 111 ∷ 114 ∷ 109 ∷ 97 ∷ 116 ∷ 0 ∷ []

-- `zero_flag`, `num_str_len` and the terminal at `output_num`
unfoldable pub num_format : Terminal → (fmt : Str) → Outcome (Bool × ℕ × Terminal)
num_format t fmt = no_width fmt >>= λ bare. elim bare [
  | true ↦ done (false, no_length, t)
  | false ↦ all_digits fmt >>= λ ok. elim ok [
    | false ↦ printl t num_format_error >>= λ t'. done (false, no_length, t')
    | true ↦ checked (get_elem? fmt 0) >>= λ c.
        atoi (advance (if c == 48 then 1 else 0) fmt) 10 >>= λ n. done (c == 48, n, t)
  ]
]

-- `while( *(p+1) && *p == '0')`
unfoldable pub skip_zeros : Str → Outcome Str
skip_zeros [] = fault
skip_zeros (c ∷ []) = fault
skip_zeros (c ∷ d ∷ s) = if not (d == 0) && (c == 48) then skip_zeros (d ∷ s) else done (c ∷ d ∷ s)

unfoldable pub print_zeros : ℕ → Terminal → Outcome Terminal
print_zeros zero t = done t
print_zeros (suc n) t = print_char t 48 >>= λ t'. print_zeros n t'

-- the buffer of `_print_num` with the characters of the number, behind "0x" for a hexadecimal one
unfoldable pub convert : Terminal → (num_type num : ℕ) → Outcome (Str × Terminal)
convert t num_type num =
    if num_type == 120
    then (print_char t 48 >>= λ t1.
        print_char t1 120 >>= λ t2. sprint_hex num (replicate 33 0) >>= λ buf. done (buf, t2))
    else (itoa num (replicate 33 0) 33 >>= λ buf. done (buf, t))

-- `len_diff` is signed, as is the step of `p` where the text is longer than `num_str_len`.
unfoldable pub print_padded :
    Terminal → (zero_flag : Bool) → (num_str_len : ℕ) → Str → Outcome Terminal
print_padded t zero_flag num_str_len p = strlen (some p) >>= λ num_len.
    let len_diff = sub32 num_str_len num_len in
    if ltb 0 len_diff && ltb len_diff (2 ^ 31)
    then ((if zero_flag then print_zeros len_diff t else done t) >>= λ t'. printstr t' p)
    else printstr t (advance (sub32 num_len num_str_len) p)

-- `_print_num`
unfoldable pub print_num : Terminal → (fmt : Str) → (num_type num : ℕ) → Outcome Terminal
print_num t fmt num_type num = num_format t fmt >>= λ (zero_flag, num_str_len, t1).
    convert t1 num_type num >>= λ (buf, t2). skip_zeros buf >>= λ p.
    if num_str_len == no_length then printstr t2 p else print_padded t2 zero_flag num_str_len p

-- an argument behind the format: a number, a character among them, or a string
pub data Arg : Type 0 where
  number : (n : ℕ) → Arg
  text : (s : Str) → Arg

-- `while( *p && !is_alpha(*p) ){ ++p ; }`, with the distance and what is left
unfoldable pub to_letter : Str → (n : ℕ) → Outcome (ℕ × Str)
to_letter [] n = fault
to_letter (c ∷ p) n =
    if not (c == 0) && not (is_alpha c) then to_letter p (n + 1) else done (n, c ∷ p)

-- what is behind the format that was read, or NULL, with the arguments that are left
abbrev pub Handled : Type 0
Handled = Option (Str × List Arg) × Terminal

unfoldable pub print_c : Terminal → Str → List Arg → Outcome Handled
print_c t rest [] = fault
print_c t rest (text s ∷ va_list) = fault
print_c t rest (number n ∷ va_list) =
    print_char t (n % 2 ^ 8) >>= λ t'. done (some (rest, va_list), t')

unfoldable pub print_s : Terminal → Str → List Arg → Outcome Handled
print_s t rest [] = fault
print_s t rest (number n ∷ va_list) = fault
print_s t rest (text s ∷ va_list) = printstr t s >>= λ t'. done (some (rest, va_list), t')

-- The `n` characters before the letter are copied to `buf`, which has 32.
unfoldable pub print_d :
    Terminal → (fmt : Str) → (n num_type : ℕ) → Str → List Arg → Outcome Handled
print_d t fmt n num_type rest [] = fault
print_d t fmt n num_type rest (text s ∷ va_list) = fault
print_d t fmt n num_type rest (number num ∷ va_list) =
    put_bytes (replicate 32 0) 0 (take n fmt) >>= λ copied. put_bytes copied n (0 ∷ []) >>= λ buf.
    print_num t buf num_type num >>= λ t'. done (some (rest, va_list), t')

-- `_print_arg_handler`
unfoldable pub print_arg_handler : Terminal → (fmt : Str) → (va_list : List Arg) → Outcome Handled
print_arg_handler t fmt va_list = to_letter fmt 0 >>= λ (n, p). elim p [
  | [] ↦ fault
  | c ∷ rest ↦
      if c == 99
      then print_c t rest va_list
      else (if (c == 120) || (c == 100)
          then print_d t fmt n c rest va_list
          else (if c == 115 then print_s t rest va_list else done (none, t)))
]

-- "printf format error!"
abbrev pub printf_format_error : Str
printf_format_error =
    112 ∷ 114 ∷ 105 ∷ 110 ∷ 116 ∷ 102 ∷ 32 ∷ 102 ∷ 111 ∷ 114 ∷ 109 ∷ 97 ∷ 116 ∷ 32 ∷ 101 ∷ 114 ∷ 114
    ∷ 111 ∷ 114 ∷ 33 ∷ 0 ∷ []

-- The loop takes a character off the format in each round.
unfoldable pub printf_from :
    ℕ → Terminal → (ptr_fmt : Str) → (va_list : List Arg) → Outcome Terminal
printf_from zero t ptr_fmt va_list = out_of_fuel
printf_from (suc k) t [] va_list = fault
printf_from (suc k) t (c ∷ ptr_fmt) va_list = elim (c == 0) [
  | true ↦ done t
  | false ↦ elim (c == 37) [
    | false ↦ print_char t c >>= λ t'. printf_from k t' ptr_fmt va_list
    | true ↦ print_arg_handler t ptr_fmt va_list >>= λ (next, t'). elim next [
      | none ↦ printl t' printf_format_error
      | some (rest, args) ↦ printf_from k t' rest args
    ]
  ]
]

unfoldable pub printf : Terminal → (fmt : Option Str) → (va_list : List Arg) → Outcome Terminal
printf t none va_list = done t
printf t (some fmt) va_list = printf_from (length fmt) t fmt va_list
