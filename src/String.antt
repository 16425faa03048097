-- ===== src/String.antt =====
-- lib/string.c: strings that end in a zero byte. A pointer into a string is the list of the bytes
-- from there to the end of the object that it points into; reading or writing past that end is a
-- `fault`. Sources and destinations are different objects. NULL is `none`.
pub mod Equal
pub mod Search
pub mod Leading
pub mod Number
pub mod Memory
mod Tests
use ts_os.Base.{
  ℕ, zero, suc, ◌+◌, ◌-◌, ◌*◌, ◌%◌, ◌^◌, Bool, true, false, ◌&&◌, ◌||◌, not, Option, none, some,
  List, [], ◌∷◌, length, ◌==◌, ltb, leb, if◌then◌else◌, u8, u32, Outcome, done, halted, fault,
  out_of_fuel, ◌>>=◌,
}

abbrev pub Str : Type 0
Str = List ℕ

unfoldable pub upper_case : ℕ → ℕ
upper_case c = if leb 97 c && leb c 122 then c - 97 + 65 else c

unfoldable pub is_num : ℕ → Bool
is_num c = leb 48 c && leb c 57

unfoldable pub is_alpha : ℕ → Bool
is_alpha c = (leb 65 c && leb c 90) || (leb 97 c && leb c 122)

-- the loops, from a pointer on
pub strlen_from : Str → ℕ → Outcome ℕ
strlen_from [] cnt = fault
strlen_from (c ∷ s) cnt = if c == 0 then done cnt else strlen_from s (u32 (cnt + 1))

pub strlen : Option Str → Outcome ℕ
strlen none = done 0
strlen (some s) = strlen_from s 0

pub equal_from : Str → Str → Outcome ℕ
equal_from [] t = fault
equal_from (a ∷ s) [] = fault
equal_from (a ∷ s) (b ∷ t) =
    if (a == 0) || (b == 0)
    then done (if a == b then 1 else 0)
    else (if a == b then equal_from s t else done 0)

pub string_equal : Option Str → Option Str → Outcome ℕ
string_equal none none = done 1
string_equal none (some t) = done 0
string_equal (some s) none = done 0
string_equal (some s) (some t) = equal_from s t

-- `while(*dst++=*src++);`, with what `dst` holds afterwards
pub copy_from : (src dst : Str) → Outcome Str
copy_from [] dst = fault
copy_from (c ∷ s) [] = fault
copy_from (c ∷ s) (d ∷ t) = if c == 0 then done (0 ∷ t) else (copy_from s t >>= λ r. done (c ∷ r))

pub strcpy : (src dst : Option Str) → Outcome (Option Str)
strcpy (some s) (some t) = copy_from s t >>= λ r. done (some r)
strcpy none dst = done dst
strcpy (some s) none = done none

-- a write that begins `n` bytes behind a pointer
pub at_offset : ℕ → (Str → Outcome Str) → Str → Outcome Str
at_offset zero write buf = write buf
at_offset (suc n) write [] = fault
at_offset (suc n) write (c ∷ buf) = at_offset n write buf >>= λ r. done (c ∷ r)

pub strcat : (s1 s2 buf : Option Str) → Outcome (Option Str)
strcat (some s1) (some s2) (some buf) = strlen (some s1) >>= λ l1.
    copy_from s1 buf >>= λ b. at_offset l1 (copy_from s2) b >>= λ r. done (some r)
strcat none s2 buf = done buf
strcat (some s1) none buf = done buf
strcat (some s1) (some s2) none = done none

-- the inner loop of `strfd`: whether the pattern stands at `s`
pub match_at : (s pat : Str) → Outcome Bool
match_at s [] = fault
match_at [] (p ∷ pat) = if p == 0 then done true else fault
match_at (c ∷ s) (p ∷ pat) =
    if p == 0 then done true else (if (c == 0) || not (c == p) then done false else match_at s pat)

pub strfd_from : (s pat : Str) → ℕ → Outcome (Option ℕ)
strfd_from [] pat i = fault
strfd_from (c ∷ s) pat i =
    if c == 0
    then done none
    else (match_at (c ∷ s) pat >>= λ found.
        if found then done (some i) else strfd_from s pat (i + 1))

-- The result is the offset of the place found, and `none` is NULL.
pub strfd : (s pat : Str) → Outcome (Option ℕ)
strfd s [] = fault
strfd s (p ∷ pat) = if p == 0 then done none else strfd_from s (p ∷ pat) 0

-- the value that `atoi` adds for a character, which is signed
pub atoi_digit : ℕ → ℕ
atoi_digit c =
    if leb c 57 && leb 48 c
    then c - 48
    else u32 ((if ltb c 128 then c else c + (2 ^ 32 - 256)) + 2 ^ 32 - 65 + 10)

pub atoi_from : Str → (base sum : ℕ) → Outcome ℕ
atoi_from [] base sum = fault
atoi_from (c ∷ s) base sum =
    if c == 0 then done sum else atoi_from s base (u32 (u32 (sum * base) + atoi_digit c))

pub atoi : Str → (base : ℕ) → Outcome ℕ
atoi s base = atoi_from s base 0

-- `s + n`
abbrev pub advance : ℕ → Str → Str
advance zero s = s
advance (suc n) [] = []
advance (suc n) (c ∷ s) = advance n s

-- the loop of `no_leading`, for a pattern of length `l`
pub skip_pattern : ℕ → (l : ℕ) → (s pat : Str) → Outcome Str
skip_pattern zero l s pat = out_of_fuel
skip_pattern (suc k) l [] pat = fault
skip_pattern (suc k) l (c ∷ s) pat =
    if c == 0
    then done (c ∷ s)
    else (strfd (c ∷ s) pat >>= λ place.
        if elim place [ none ↦ false | some i ↦ i == 0 ]
        then skip_pattern k l (advance l (c ∷ s)) pat
        else done (c ∷ s))

-- Each round takes at least a byte off `s`.
pub no_leading : (s pat : Str) → Outcome Str
no_leading s pat = strlen (some pat) >>= λ l. skip_pattern (length s) l s pat
