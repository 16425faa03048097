-- ===== src/Descriptor.antt =====
-- The descriptors of kernel/isr.c (interrupt table) and kernel/task.c (task state segment).
-- The entry points `isr0` to `isr63` of boot/kernel_entry.asm are symbols of the linker: a parameter.
pub mod Gates
mod Tests
use ts_os.Base.{
  ℕ, zero, suc, ◌+◌, ◌-◌, ◌*◌, ◌/◌, ◌%◌, ◌^◌, bit_and, bit_or, List, [], ◌∷◌, get_elem?, set,
  length, ltb, if◌then◌else◌, u8, u16, u32, Outcome, done, halted, fault, out_of_fuel, ◌>>=◌,
  checked,
}

-- `IRQ_MAX`
abbrev pub irq_max : ℕ
irq_max = 63

-- `struct IDTDesc`
pub record IdtDesc : Type 0 where
  pub offset_1 : ℕ
  pub selector : ℕ
  pub zero : ℕ
  pub type_attr : ℕ
  pub offset_2 : ℕ

-- `& 0xFFFF` is the remainder by 2 ^ 16, and `>> 16` the quotient.
abbrev pub trap_gate : (handler_offset selector flag : ℕ) → IdtDesc
trap_gate handler_offset selector flag = record {
  offset_1 = handler_offset % 2 ^ 16;
  offset_2 = handler_offset / 2 ^ 16 % 2 ^ 16;
  selector = selector;
  zero = 0;
  type_attr = flag;
}

pub init_trap_gate : List IdtDesc → (irq handler_offset selector flag : ℕ) → Outcome (List IdtDesc)
init_trap_gate idt irq handler_offset selector flag =
    if ltb irq (length idt)
    then done (set idt irq (trap_gate handler_offset selector flag))
    else fault

-- the lines `INIT_IRQ(n)` for the `k` numbers from `n` on
pub init_irqs : (isr : ℕ → ℕ) → ℕ → ℕ → List IdtDesc → Outcome (List IdtDesc)
init_irqs isr zero n idt = done idt
init_irqs isr (suc k) n idt = init_trap_gate idt n (isr n) 0x08 0x8F >>= init_irqs isr k (n + 1)

-- `init_idt` up to the loading of the table, which is `lidt`: the table and its limit
pub init_idt : (isr : ℕ → ℕ) → List IdtDesc → Outcome (List IdtDesc × ℕ)
init_idt isr idt = init_irqs isr (irq_max + 1) 0 idt >>= λ idt.
    checked (get_elem? idt 63) >>= λ desc.
    done (set idt 63 (record desc { type_attr = 0xEF }), u16 (8 * (irq_max + 1) - 1))

-- `struct gdt_entry_struct`
pub record GdtEntry : Type 0 where
  pub limit_low : ℕ
  pub base_low : ℕ
  pub base_middle : ℕ
  pub access : ℕ
  pub granularity : ℕ
  pub base_high : ℕ

pub gdt_set_gate : (base limit access gran : ℕ) → GdtEntry
gdt_set_gate base limit access gran = record {
  base_low = base % 2 ^ 16;
  base_middle = base / 2 ^ 16 % 2 ^ 8;
  base_high = base / 2 ^ 24 % 2 ^ 8;
  limit_low = limit % 2 ^ 16;
  granularity = bit_or (limit / 2 ^ 16 % 2 ^ 4) (bit_and gran 0xF0);
  access = access;
}
