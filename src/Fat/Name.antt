-- ===== src/Fat/Name.antt =====
-- Names and paths in fs/fat16.c.
use ts_os.Base.{
  ℕ, zero, suc, ◌+◌, ◌-◌, ◌&&◌, not, Option, none, some, [], ◌∷◌, length, get_elem?, set, ◌==◌, ltb,
  if◌then◌else◌, Outcome, done, fault, ◌>>=◌, checked,
}
use ts_os.Base.Bytes.{drop, bytes_at, put_bytes}
use ts_os.String.{Str, upper_case, strlen}
use ts_os.String.Memory.{memcpy, str_pad, str_equal_range}

unfoldable pub fat16_pad : (buf s : Str) → Outcome Str
fat16_pad buf s = memcpy s buf 9 >>= λ copied. str_pad copied 32 8 >>= λ padded.
    if ltb 8 (length padded) then done (set padded 8 32) else fault

unfoldable pub upper_first : ℕ → Str → Outcome Str
upper_first zero buf = done buf
upper_first (suc n) [] = fault
upper_first (suc n) (c ∷ buf) = upper_first n buf >>= λ r. done (upper_case c ∷ r)

unfoldable pub fat16_filename_fmt : (buf s : Str) → Outcome Str
fat16_filename_fmt buf s = fat16_pad buf s >>= λ padded. upper_first 9 padded

-- the entry at `at` of a block against a formatted name
unfoldable pub fat_filename_match : (block : Str) → (at : ℕ) → (name : Str) → Outcome ℕ
fat_filename_match block at name = str_equal_range (drop at block) name 0 7

-- the loop of `get_basedir`: the last slash with a byte behind it, from `i` on
unfoldable pub last_slash : Str → ℕ → Option ℕ → Outcome (Option ℕ)
last_slash [] i d = fault
last_slash (c ∷ s) i d =
    if c == 0
    then done d
    else (checked (get_elem? s 0) >>= λ next.
        last_slash s (i + 1) (if (c == 47) && not (next == 0) then some i else d))

-- With no such slash the code goes on with the difference of `path` and NULL.
unfoldable pub get_basedir : (path buf : Str) → Outcome (ℕ × Str)
get_basedir path buf = last_slash path 0 none >>= λ place. elim place [
  | none ↦ fault
  | some d ↦ bytes_at path 0 (d + 1) >>= λ dir. put_bytes buf 0 dir >>= λ copied.
      if ltb (d + 1) (length copied) then done (d, set copied (d + 1) 0) else fault
]

-- the two loops of `get_filename`, over the number of bytes up to `p` and its own
unfoldable pub skip_slashes : ℕ → Str → Outcome ℕ
skip_slashes zero path = done 0
skip_slashes (suc p) path =
    checked (get_elem? path p) >>= λ c. if c == 47 then skip_slashes p path else done (suc p)

unfoldable pub skip_name : ℕ → Str → Outcome ℕ
skip_name zero path = done 0
skip_name (suc p) path =
    checked (get_elem? path p) >>= λ c. if c == 47 then done (suc p) else skip_name p path

-- the offset of the last segment and the buffer with it, or NULL
unfoldable pub get_filename : Option Str → (buf : Str) → Outcome (Option ℕ × Str)
get_filename none buf = done (none, buf)
get_filename (some path) buf = strlen (some path) >>= λ l. skip_slashes l path >>= λ q.
    if q == 0
    then done (none, buf)
    else (skip_name q path >>= λ p. bytes_at path p (q - p) >>= λ name.
        put_bytes buf 0 name >>= λ copied.
        if ltb (q - p) (length copied) then done (some p, set copied (q - p) 0) else fault)
