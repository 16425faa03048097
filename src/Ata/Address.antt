-- ===== src/Ata/Address.antt =====
-- The sector address and count in the registers of drivers/ata.c.
use ts_os.Base.{ℕ, ◌^◌, ◌<◌, ◌≡◌, arith}
use ts_os.Ata.{command_registers, selected, requested}

-- The drive selects the sector that the command names, for an address of 28 bits, and transfers as
-- many as it asks for, from one to 256.
pub selected-command_registers :
    (lba n : ℕ) → lba < 2 ^ 28 → selected (command_registers lba n) ≡ lba
unfolding selected command_registers
selected-command_registers lba n h = omega arith

pub requested-command_registers :
    (lba n : ℕ) → 0 < n → n < 257 → requested (command_registers lba n) ≡ n
unfolding requested command_registers
requested-command_registers lba n pos h = ground arith
