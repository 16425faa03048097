-- ===== src/Print/Hex.antt =====
-- Hexadecimal numbers in lib/print.c: what is printed, and how it reads back.
use ts_os.Base.{
  ℕ, ◌+◌, ◌-◌, ◌/◌, ◌%◌, ◌^◌, ◌<◌, ◌≡◌, refl, ◌∙◌, ap, Bool, true, false, Bool-cases, inl, inr,
  List, [], ◌∷◌, All, arith, not, ◌==◌, leb, if◌then◌else◌, Outcome, done, halted, fault,
  out_of_fuel, ◌>>=◌,
}
use ts_os.Base.Bytes.{replicate, put_bytes}
use ts_os.String.{Str, atoi}
use ts_os.String.Equal.{IsText, ended}
use ts_os.String.Number.{digit, digits, value, digit_lem, atoi-digits}
use ts_os.Console.Output.{Terminal}
use ts_os.Print.{
  print_char, printstr, hb_to_hex, lb_to_hex, byte_of, sprint_bytes, sprint_hex, skip_zeros,
  no_width, num_format, convert, print_num,
}

-- the characters one after the other
abbrev pub print_all : Terminal → Str → Outcome Terminal
print_all t [] = done t
print_all t (c ∷ s) = print_char t c >>= λ t'. print_all t' s

module _ {ℓ κ} {A : Type ℓ} {B : Type κ} where
  bind_cong : (m : Outcome A) {f g : A → Outcome B} → ((a : A) → f a ≡ g a) → (m >>= f) ≡ (m >>= g)
  bind_cong (done a) p = p a
  bind_cong halted p = refl
  bind_cong fault p = refl
  bind_cong out_of_fuel p = refl

  bind-bind {μ} :
      {C : Type μ} (m : Outcome C) (f : C → Outcome A) (g : A → Outcome B) (h : C → Outcome B)
      → ((c : C) → (f c >>= g) ≡ h c)
      → ((m >>= f) >>= g) ≡ (m >>= h)
  bind-bind (done c) f g h p = p c
  bind-bind halted f g h p = refl
  bind-bind fault f g h p = refl
  bind-bind out_of_fuel f g h p = refl

-- the two digits of the byte `i` of `x`, and the eight digits of `x`
abbrev pub byte_digits : (x i : ℕ) → List ℕ → List ℕ
byte_digits x i ds = byte_of x i / 16 ∷ byte_of x i % 16 ∷ ds

abbrev later_digits : ℕ → List ℕ
later_digits x = byte_of x 3 % 16 ∷ byte_digits x 2 (byte_digits x 1 (byte_digits x 0 []))

abbrev pub hex_digits : ℕ → List ℕ
hex_digits x = byte_of x 3 / 16 ∷ later_digits x

-- the character that the code computes for a digit
hex_char : (d : ℕ) → (if leb d 9 then d + 48 else d - 10 + 65) ≡ digit d
hex_char d = ground arith

hb_to_hex-digit : (b : ℕ) → hb_to_hex b ≡ digit (b / 16)
unfolding hb_to_hex
hb_to_hex-digit b = hex_char (b / 16)

lb_to_hex-digit : (b : ℕ) → lb_to_hex b ≡ digit (b % 16)
unfolding lb_to_hex
lb_to_hex-digit b = hex_char (b % 16)

byte_of-below : (x i : ℕ) → byte_of x i < 256
unfolding byte_of
byte_of-below x i = omega arith

-- a number below 16 in each of the eight places
hex_digits-All : (x : ℕ) → All (λ d. d < 16) (hex_digits x)
unfolding byte_of
hex_digits-All x = (
  omega arith,
  (
    omega arith,
    (omega arith, (omega arith, (omega arith, (omega arith, (omega arith, (omega arith, tt)))))),
  ),
)

below_36 : (ds : List ℕ) → All (λ d. d < 16) ds → All (λ d. d < 36) ds
below_36 [] ok = tt
below_36 (d ∷ ds) ok = (omega (arith, ok.0), below_36 ds ok.1)

hex_digits-value : (x : ℕ) → x < 2 ^ 32 → value 16 0 (hex_digits x) ≡ x
unfolding byte_of
hex_digits-value x small = omega arith

sprint_hex-digits :
    (x : ℕ) → sprint_hex x (replicate 33 0) ≡ done (ended (digits (hex_digits x)) (replicate 24 0))
unfolding sprint_hex sprint_bytes put_bytes
sprint_hex-digits x =
    rw
      (
        hb_to_hex-digit (byte_of x 3),
        lb_to_hex-digit (byte_of x 3),
        hb_to_hex-digit (byte_of x 2),
        lb_to_hex-digit (byte_of x 2),
        hb_to_hex-digit (byte_of x 1),
        lb_to_hex-digit (byte_of x 1),
        hb_to_hex-digit (byte_of x 0),
        lb_to_hex-digit (byte_of x 0),
      )
      refl

-- `sprint_hex` of a 32-bit number into the cleared buffer of 33 bytes that its caller has returns,
-- and `atoi` in base 16 of that buffer returns the number.
pub atoi-sprint_hex :
    (x : ℕ) → x < 2 ^ 32 → (sprint_hex x (replicate 33 0) >>= λ buf. atoi buf 16) ≡ done x
atoi-sprint_hex x small =
    let val = hex_digits-value x small in
    let fits : value 16 0 (hex_digits x) < 2 ^ 32 = omega (arith, val) in
    rw (sprint_hex-digits x) (
      atoi-digits 16 (hex_digits x) (replicate 24 0) (omega arith)
        (below_36 (hex_digits x) (hex_digits-All x)) fits
      ∙ ap done val)

-- digits without the zeros in front, but for the last digit, and whether none can be left away
abbrev pub stripped : List ℕ → List ℕ
stripped [] = []
stripped (d ∷ []) = d ∷ []
stripped (d ∷ e ∷ ds) = if d == 0 then stripped (e ∷ ds) else d ∷ e ∷ ds

abbrev pub is_short : List ℕ → Bool
is_short [] = false
is_short (d ∷ []) = true
is_short (d ∷ e ∷ ds) = not (d == 0)

stripped_lem :
    (d : ℕ) (ds rest : List ℕ)
    → All (λ c. c < 16) (d ∷ ds)
    → (skip_zeros (ended (digits (d ∷ ds)) rest) ≡ done (ended (digits (stripped (d ∷ ds))) rest))
      × (value 16 0 (stripped (d ∷ ds)) ≡ value 16 0 (d ∷ ds))
      × (is_short (stripped (d ∷ ds)) ≡ true)
      × All (λ c. c < 16) (stripped (d ∷ ds))
unfolding skip_zeros
stripped_lem d [] rest ok = (refl, refl, refl, ok)
stripped_lem d (e ∷ ds) rest ok =
    let ne : (digit e == 0) ≡ false = ground (arith, (digit_lem e (omega (arith, ok.1.0))).0) in
    elim (Bool-cases (d == 0)) [
      | inl z ↦
          let d_zero : d ≡ 0 = ground arith in
          let more = stripped_lem e ds rest ok.1 in rw (ne, d_zero) more
      | inr z ↦
          let nz : (digit d == 48) ≡ false = ground arith in
          rw (ne, nz, z) (refl, refl, ap not z, ok)
    ]

digits-IsText : (ds : List ℕ) → All (λ d. d < 16) ds → IsText (digits ds)
digits-IsText [] ok = tt
digits-IsText (d ∷ ds) ok = ((digit_lem d (omega (arith, ok.0))).0, digits-IsText ds ok.1)

printstr-print_all :
    (t : Terminal) (s rest : Str) → IsText s → printstr t (ended s rest) ≡ print_all t s
unfolding printstr
printstr-print_all t [] rest text = refl
printstr-print_all t (c ∷ s) rest text =
    let ne : (c == 0) ≡ false = ground (arith, text.0) in
    rw ne (bind_cong (print_char t c) (λ t'. printstr-print_all t' s rest text.1))

-- Without a width, `_print_num` of a 32-bit number in hexadecimal prints "0x" and then digits below
-- 16 that stand for the number, with no zero in front unless it is the only digit.
pub print_num-hex :
    (t : Terminal) (fmt : Str) (x : ℕ)
    → no_width fmt ≡ done true
    → x < 2 ^ 32
    → (ds : List ℕ) × (print_num t fmt 120 x ≡ print_all t (48 ∷ 120 ∷ digits ds))
      × All (λ d. d < 16) ds
      × (value 16 0 ds ≡ x)
      × (is_short ds ≡ true)
unfolding print_num num_format convert
print_num-hex t fmt x bare small =
    let (skips, same, short, ok) =
      stripped_lem (byte_of x 3 / 16) (later_digits x) (replicate 24 0) (hex_digits-All x) in
    (
      stripped (hex_digits x),
      rw bare (
          bind-bind (print_char t 48) _ _ _ (λ t1. bind-bind (print_char t1 120) _ _ _ (λ t2.
            rw (sprint_hex-digits x, skips)
              (printstr-print_all t2 (digits (stripped (hex_digits x))) (replicate 24 0)
                (digits-IsText (stripped (hex_digits x)) ok))))),
      ok,
      same ∙ hex_digits-value x small,
      short,
    )
