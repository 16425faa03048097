-- ===== src/String/Memory.antt =====
-- The functions of lib/string.c on blocks of bytes and on parts of strings.
use ts_os.Base.{
  ℕ, zero, suc, ◌+◌, ◌-◌, ◌/◌, ◌%◌, ◌^◌, Bool, true, false, Option, none, some, [], ◌∷◌, length,
  set, get_elem?, ◌==◌, ltb, leb, if◌then◌else◌, Outcome, done, fault, out_of_fuel, ◌>>=◌, checked,
}
use ts_os.Base.Bytes.{put_bytes}
use ts_os.String.{Str, strlen, copy_from, strfd, no_leading, advance}

-- `str_equal_range` from `i` on, over `n` places
unfoldable pub equal_range_from : ℕ → (s1 s2 : Str) → ℕ → Outcome ℕ
equal_range_from zero s1 s2 i = done 1
equal_range_from (suc n) s1 s2 i = checked (get_elem? s1 i) >>= λ a.
    checked (get_elem? s2 i) >>= λ b. if a == b then equal_range_from n s1 s2 (i + 1) else done 0

unfoldable pub str_equal_range : (s1 s2 : Str) → (start end : ℕ) → Outcome ℕ
str_equal_range s1 s2 start end = equal_range_from (end + 1 - start) s1 s2 start

unfoldable pub memset : Str → (value size : ℕ) → Outcome Str
memset buf value zero = done buf
memset [] value (suc n) = fault
memset (c ∷ buf) value (suc n) = memset buf value n >>= λ r. done (value ∷ r)

unfoldable pub memcpy : (src dst : Str) → ℕ → Outcome Str
memcpy src dst zero = done dst
memcpy [] dst (suc n) = fault
memcpy (c ∷ src) [] (suc n) = fault
memcpy (c ∷ src) (d ∷ dst) (suc n) = memcpy src dst n >>= λ r. done (c ∷ r)

unfoldable pub strncpy : (src dst : Option Str) → ℕ → Outcome (Option Str)
strncpy (some src) (some dst) n = memcpy src dst n >>= λ r. done (some r)
strncpy none dst n = done dst
strncpy (some src) none n = done none

-- the second loop of `str_pad`, and the zero byte behind it
unfoldable pub pad_from : ℕ → Str → ℕ → Outcome Str
pad_from n [] value = fault
pad_from zero (c ∷ s) value = done (0 ∷ s)
pad_from (suc n) (c ∷ s) value = pad_from n s value >>= λ r. done (value ∷ r)

-- The first loop walks to the zero byte; the bytes still missing up to `size` are padded.
unfoldable pub str_pad : Str → (value size : ℕ) → Outcome Str
str_pad [] value size = fault
str_pad (c ∷ s) value size =
    if c == 0
    then pad_from size (c ∷ s) value
    else (str_pad s value (size - 1) >>= λ r. done (c ∷ r))

-- `while(s!=next) *buffer++=*s++; *buffer=0;`
unfoldable pub copy_token : ℕ → (s buffer : Str) → Outcome Str
copy_token n s [] = fault
copy_token zero s (b ∷ buffer) = done (0 ∷ buffer)
copy_token (suc n) [] (b ∷ buffer) = fault
copy_token (suc n) (c ∷ s) (b ∷ buffer) = copy_token n s buffer >>= λ r. done (c ∷ r)

-- the next position, if there is one, and the buffer with the token
unfoldable pub strtok : (s del buffer : Str) → Outcome (Option Str × Str)
strtok s del buffer = no_leading s del >>= λ s'. strfd s' del >>= λ place. elim place [
  | none ↦ copy_from s' buffer >>= λ r. done (none, r)
  | some i ↦ copy_token i s' buffer >>= λ r. strlen (some del) >>= λ l.
      no_leading (advance (i + l) s') del >>= λ next. elim next [
        | [] ↦ fault
        | c ∷ rest ↦ if c == 0 then done (none, r) else done (some (c ∷ rest), r)
      ]
]

-- the characters of `itoa`, the last one first: `a%10+'0'`, where the remainder of a negative number
-- is not positive
unfoldable pub digits_from : ℕ → (negative : Bool) → (magnitude : ℕ) → Outcome Str
digits_from zero negative a = out_of_fuel
digits_from (suc k) negative a =
    let c = if negative then 48 - a % 10 else a % 10 + 48 in
    elim (a / 10 == 0) [
      | true ↦ done (c ∷ [])
      | false ↦ digits_from k negative (a / 10) >>= λ r. done (c ∷ r)
    ]

-- the loop that turns the digits round, with `i` and `j` as in the code
unfoldable pub swap_ends : ℕ → Str → (i j : ℕ) → Outcome Str
swap_ends zero buf i j = out_of_fuel
swap_ends (suc k) buf i j = elim (ltb j i) [
  | true ↦ checked (get_elem? buf j) >>= λ c.
      checked (get_elem? buf i) >>= λ d. swap_ends k (set (set buf j d) i c) (i - 1) (j + 1)
  | false ↦ done buf
]

-- `itoa` of an `int`, given as its 32 bits: ten digits at most
unfoldable pub itoa : ℕ → Str → (buf_size : ℕ) → Outcome Str
itoa a buf buf_size =
    let negative = leb (2 ^ 31) a in
    memset buf 0 buf_size >>= λ zeros.
    digits_from 10 negative (if negative then 2 ^ 32 - a else a) >>= λ digits.
    put_bytes zeros 0 digits >>= λ written. swap_ends (length digits) written (length digits - 1) 0
