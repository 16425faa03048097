-- ===== src/Descriptor/Tests.antt =====
-- Descriptors of a made-up kernel.
use ts_os.Base.{
  ℕ, zero, suc, ◌+◌, ◌*◌, ◌/◌, ◌%◌, ◌^◌, ◌<◌, ◌≡◌, refl, some, List, [], ◌∷◌, get_elem?, length,
  arith, done,
}
use ts_os.Descriptor.{IdtDesc, trap_gate, init_idt, gdt_set_gate}
use ts_os.Descriptor.Gates.{base, limit, IsGate, gdt_set_gate-fields, init_idt-IsGate}

gdt_set_gate-fields_example :
    let e = gdt_set_gate 0xC0123456 0xC01234BE 0xE9 0x00 in
    (base e ≡ 0xC0123456)
    × (limit e ≡ 0xC01234BE % 2 ^ 20)
    × (e.access ≡ 0xE9)
    × (e.granularity / 16 ≡ 0)
    × (e.granularity < 256)
gdt_set_gate-fields_example =
    gdt_set_gate-fields 0xC0123456 0xC01234BE 0xE9 0x00 (omega arith) (omega arith)

abbrev blank : ℕ → List IdtDesc
blank zero = []
blank (suc n) = trap_gate 0 0 0 ∷ blank n

abbrev isr : ℕ → ℕ
isr i = (0xC0100000 + 16 * i) % 2 ^ 32

init_idt-IsGate_example :
    (idt' : List IdtDesc) × (init_idt isr (blank 64) ≡ done (idt', 511))
    × (length idt' ≡ 64)
    × ((i : ℕ) → i < 64 → (d : IdtDesc) × (get_elem? idt' i ≡ some d) × IsGate d (isr i) i)
init_idt-IsGate_example = init_idt-IsGate isr (blank 64) (λ i. omega arith) refl
