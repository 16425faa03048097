-- ===== src/Ata/Identify.antt =====
-- What drivers/ata.c takes from the words with which a drive identifies itself.
use ts_os.Base.{
  ℕ, ◌+◌, ◌*◌, ◌/◌, ◌%◌, ◌^◌, List, ◌||◌, bit_and, ◌==◌, if◌then◌else◌, u32, Outcome, done, halted,
  ◌>>=◌,
}
use ts_os.Base.Bytes.{get_u16}

-- the fields that the code fills
pub record IdeDevice : Type 0 where
  pub is_ata : ℕ
  pub dma_support : ℕ
  pub lba_support : ℕ
  pub lba48_support : ℕ
  pub cylinders : ℕ
  pub heads : ℕ
  pub sectors : ℕ
  pub major : ℕ
  pub lba_num : ℕ

-- `(words[1] << 16 + words[0])`, whose shift is by `16 + words[0]`; the processor takes the count of
-- a shift modulo 32.
unfoldable pub lba_num_word : (high low : ℕ) → ℕ
lba_num_word high low = u32 (high * 2 ^ ((16 + low) % 32))

-- The buffer holds words; a failed check is a panic.
unfoldable pub parse_identify_command : IdeDevice → List ℕ → Outcome IdeDevice
parse_identify_command device buf = get_u16 buf 0 >>= λ info.
    if info / 2 ^ 15 == 0
    then (get_u16 buf 80 >>= λ major.
        if (major == 0) || (major == 0xFFFF)
        then halted
        else (if bit_and major 0x70 == 0x70
            then (get_u16 buf 49 >>= λ capabilities.
                if (capabilities / 2 ^ 9) % 2 == 0
                then halted
                else (get_u16 buf 1 >>= λ cylinders. get_u16 buf 3 >>= λ heads.
                    get_u16 buf 6 >>= λ sectors. get_u16 buf 83 >>= λ sets.
                    get_u16 buf 61 >>= λ high. get_u16 buf 60 >>= λ low. done (record device {
                      is_ata = 1;
                      major = major;
                      dma_support = (capabilities / 2 ^ 8) % 2;
                      lba_support = (capabilities / 2 ^ 9) % 2;
                      cylinders = cylinders;
                      heads = heads;
                      sectors = sectors;
                      lba48_support = (sets / 2 ^ 10) % 2;
                      lba_num = lba_num_word high low;
                    })))
            else halted))
    else halted
