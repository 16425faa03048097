-- ===== src/Ata.antt =====
-- drivers/ata.c: transfers of sectors. The drive is the list of its 512-byte sectors. The status
-- ports and the waiting for them are left out; a drive that has no sector at an address reports an
-- error, at which `ata_poll_bsy` stops for good.
pub mod Address
pub mod Identify
pub mod Transfer
use ts_os.Base.{
  ℕ, zero, suc, ◌+◌, ◌*◌, ◌/◌, ◌%◌, ◌^◌, List, [], ◌++◌, length, get_elem?, set, none, some, true,
  false, ltb, leb, ◌==◌, if◌then◌else◌, u8, Outcome, done, halted, fault, ◌>>=◌,
}
use ts_os.Base.Bytes.{take, drop}

abbrev pub Sector : Type 0
Sector = List ℕ

abbrev pub Media : Type 0
Media = List Sector

-- what a command writes to the ports of the drive
pub record Registers : Type 0 where
  pub hddevsel : ℕ
  pub seccount : ℕ
  pub lba0 : ℕ
  pub lba1 : ℕ
  pub lba2 : ℕ

-- `0xE0 | 0 << 4 | (lba >> 24 & 0x0F)`: the operands have no bit in common.
unfoldable pub command_registers : (lba_start sec_num : ℕ) → Registers
command_registers lba sec_num = record {
  hddevsel = 224 + (lba / 2 ^ 24) % 16;
  seccount = u8 sec_num;
  lba0 = u8 lba;
  lba1 = u8 (lba / 2 ^ 8);
  lba2 = u8 (lba / 2 ^ 16);
}

-- the sector that a drive in LBA mode selects by its registers, and how many it transfers
unfoldable pub selected : Registers → ℕ
selected r = r.lba0 + 2 ^ 8 * r.lba1 + 2 ^ 16 * r.lba2 + 2 ^ 24 * (r.hddevsel % 16)

unfoldable pub requested : Registers → ℕ
requested r = if r.seccount == 0 then 256 else r.seccount

pub record Command : Type 0 where
  pub lba_start : ℕ
  pub sec_num : ℕ
  pub buf_size : ℕ

-- the loops of `ata_read_buffer` and `ata_write_buffer` over the sectors of a command
unfoldable pub read_sectors : ℕ → Media → ℕ → Outcome (List ℕ)
read_sectors zero media at = done []
read_sectors (suc n) media at = elim (get_elem? media at) [
  | none ↦ halted
  | some sector ↦ read_sectors n media (at + 1) >>= λ rest. done (sector ++ rest)
]

unfoldable pub write_sectors : ℕ → Media → ℕ → List ℕ → Outcome Media
write_sectors zero media at buf = done media
write_sectors (suc n) media at buf = elim (ltb at (length media)) [
  | false ↦ halted
  | true ↦ elim (leb 512 (length buf)) [
    | false ↦ fault
    | true ↦ write_sectors n (set media at (take 512 buf)) (at + 1) (drop 512 buf)
  ]
]

-- The bytes returned are those at the front of the buffer; the ones behind stay as they were.
unfoldable pub ata_read_sector : Media → Command → Outcome (ℕ × List ℕ)
ata_read_sector media cmd =
    let sec_num =
      if ltb (cmd.buf_size / 512) cmd.sec_num then cmd.buf_size / 512 else cmd.sec_num in
    if sec_num == 0
    then done (0, [])
    else (read_sectors (requested (command_registers cmd.lba_start sec_num)) media
          (selected (command_registers cmd.lba_start sec_num))
        >>= λ bytes. done (sec_num, bytes))

unfoldable pub ata_write_sector : Media → Command → List ℕ → Outcome (ℕ × Media)
ata_write_sector media cmd buf =
    write_sectors (requested (command_registers cmd.lba_start cmd.sec_num)) media
      (selected (command_registers cmd.lba_start cmd.sec_num)) buf
    >>= λ media'. done (cmd.sec_num, media')
