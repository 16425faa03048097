-- ===== src/Descriptor/Gates.antt =====
-- What the processor reads from the descriptors is what the code put in.
use ts_os.Base.{
  ℕ, zero, suc, ◌+◌, ◌*◌, ◌/◌, ◌%◌, ◌^◌, ◌≤◌, ◌<◌, ◌≡◌, ◌≢◌, refl, ◌∙◌, sym, true, false,
  Bool-cases, inl, inr, bit_and, bit_or, some, List, get_elem?, get_elem?-set_self,
  get_elem?-set_ne, set, length, length-set, arith, ltb, ◌==◌, ==_iff, if◌then◌else◌, done,
}
use ts_os.Base.Bits.{check_below, check_below_sound}
use ts_os.Descriptor.{
  IdtDesc, trap_gate, init_trap_gate, init_irqs, init_idt, GdtEntry, gdt_set_gate,
}

-- the address that an interrupt jumps to
abbrev pub offset : IdtDesc → ℕ
offset d = d.offset_1 + 2 ^ 16 * d.offset_2

abbrev pub base : GdtEntry → ℕ
base e = e.base_low + 2 ^ 16 * e.base_middle + 2 ^ 24 * e.base_high

abbrev pub limit : GdtEntry → ℕ
limit e = e.limit_low + 2 ^ 16 * (e.granularity % 16)

nibbles :
    check_below 16 (λ x. check_below 256 (λ g. bit_or x (bit_and g 0xF0) == x + g / 16 * 16)) ≡ true
unfolding check_below
nibbles = refl

nibble : (x g : ℕ) → x < 16 → g < 256 → bit_or x (bit_and g 0xF0) ≡ x + g / 16 * 16
nibble x g hx hg = (==_iff _ _).0 (
    check_below_sound 256 _ g
      (check_below_sound 16
        (λ x. check_below 256 (λ g. bit_or x (bit_and g 0xF0) == x + g / 16 * 16)) x nibbles hx)
      hg)

-- A segment descriptor written by `gdt_set_gate` holds the base, the low 20 bits of the limit, the
-- access byte and the upper half of the flags, and nothing else, for a base of 32 bits and flags of
-- a byte.
pub gdt_set_gate-fields :
    (b l access gran : ℕ)
    → b < 2 ^ 32
    → gran < 256
    → let e = gdt_set_gate b l access gran in
      (base e ≡ b)
      × (limit e ≡ l % 2 ^ 20)
      × (e.access ≡ access)
      × (e.granularity / 16 ≡ gran / 16)
      × (e.granularity < 256)
unfolding gdt_set_gate
gdt_set_gate-fields b l access gran hb hg =
    let n : bit_or (l / 2 ^ 16 % 2 ^ 4) (bit_and gran 0xF0) ≡ l / 2 ^ 16 % 2 ^ 4 + gran / 16 * 16 =
      nibble (l / 2 ^ 16 % 2 ^ 4) gran (omega arith) hg in
    (omega arith, rw n (omega arith), refl, rw n (omega arith), rw n (omega arith))

init_irqs-gates :
    (isr : ℕ → ℕ) (k n : ℕ) (idt : List IdtDesc)
    → n + k ≤ length idt
    → (idt' : List IdtDesc) × (init_irqs isr k n idt ≡ done idt')
      × (length idt' ≡ length idt)
      × ((i : ℕ) → i < n → get_elem? idt' i ≡ get_elem? idt i)
      × ((i : ℕ) → n ≤ i → i < n + k → get_elem? idt' i ≡ some (trap_gate (isr i) 0x08 0x8F))
unfolding init_irqs init_trap_gate
init_irqs-gates isr zero n idt inside =
    (idt, refl, refl, (λ i lt. refl), λ i le lt. absurd (omega arith))
init_irqs-gates isr (suc k) n idt inside =
    let gate = trap_gate (isr n) 0x08 0x8F in
    let same = length-set idt n gate in
    let (idt', runs, len, low, high) =
      init_irqs-gates isr k (n + 1) (set idt n gate) (omega arith) in
    let fits : ltb n (length idt) ≡ true = ground arith in
    (
      idt',
      rw fits runs,
      len ∙ same,
      (λ i lt. low i (omega arith) ∙ get_elem?-set_ne idt n i gate (omega arith)),
      λ i le lt. elim (Bool-cases (n == i)) [
        | inl here ↦
            let e : n ≡ i = ground arith in
            rw (← e) (low n (omega arith) ∙ get_elem?-set_self idt n gate (omega arith))
        | inr later ↦ high i (ground arith) (omega arith)
      ],
    )

-- what `init_idt` should leave at vector `i`
pub record IsGate (d : IdtDesc) (handler i : ℕ) : Type 0 where
  pub jumps : offset d ≡ handler
  pub kernel_code : d.selector ≡ 0x08
  pub reserved : d.zero ≡ 0
  pub privilege : d.type_attr ≡ (if i == 63 then 0xEF else 0x8F)

trap_gate-IsGate :
    (handler i : ℕ) → handler < 2 ^ 32 → i ≢ 63 → IsGate (trap_gate handler 0x08 0x8F) handler i
trap_gate-IsGate handler i word ne = record {
  jumps = omega arith;
  kernel_code = refl;
  reserved = refl;
  privilege = let e : (i == 63) ≡ false = ground arith in rw e refl;
}

-- `init_idt` on a table of 64 entries fills it: vector `i` jumps to `isr i` in the kernel's code
-- segment, for interrupt handlers at 32-bit addresses, by a gate that only vector 63 of the system
-- calls lets user code use; and the limit is that of 64 entries of 8 bytes.
pub init_idt-IsGate :
    (isr : ℕ → ℕ) (idt : List IdtDesc)
    → ((i : ℕ) → isr i < 2 ^ 32)
    → length idt ≡ 64
    → (idt' : List IdtDesc) × (init_idt isr idt ≡ done (idt', 511))
      × (length idt' ≡ 64)
      × ((i : ℕ) → i < 64 → (d : IdtDesc) × (get_elem? idt' i ≡ some d) × IsGate d (isr i) i)
unfolding init_idt
init_idt-IsGate isr idt words len =
    let (idt1, runs, len1, low, high) = init_irqs-gates isr 64 0 idt (omega arith) in
    let got : get_elem? idt1 63 ≡ some (trap_gate (isr 63) 0x08 0x8F) =
      high 63 (omega arith) (omega arith) in
    let last : IdtDesc = record (trap_gate (isr 63) 0x08 0x8F) { type_attr = 0xEF } in
    (
      set idt1 63 last,
      rw (runs, got) refl,
      length-set idt1 63 last ∙ len1 ∙ len,
      λ i lt. elim (Bool-cases (i == 63)) [
        | inl top ↦
            let e : i ≡ 63 = ground arith in
            rw e (
              last,
              get_elem?-set_self idt1 63 last (omega arith),
              record {
                jumps = omega (arith, words 63);
                kernel_code = refl;
                reserved = refl;
                privilege = refl;
              },
            )
        | inr below ↦
            let ne : i ≢ 63 = ground arith in
            (
              trap_gate (isr i) 0x08 0x8F,
              get_elem?-set_ne idt1 63 i last (λ e. ne (sym e))
                  ∙ high i (omega arith) (omega arith),
              trap_gate-IsGate (isr i) i (words i) ne,
            )
      ],
    )
