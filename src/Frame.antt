-- ===== src/Frame.antt =====
-- kernel/frame.c: the physical frame allocator, a bitmap with one bit for each 4 KiB frame.
-- `bitmap[MAX_FRAME_NUM]` is a list of bytes; an index outside of it is a `fault`.
pub mod Bitmap
pub mod Alloc
pub mod Reuse
pub mod Unaligned
mod Tests
use ts_os.Base.{
  ℕ, zero, suc, ◌+◌, ◌-◌, ◌*◌, ◌/◌, ◌%◌, ◌^◌, Bool, not, List, ◌==◌, ltb, if◌then◌else◌, u32,
  Outcome, done, halted, fault, out_of_fuel, ◌>>=◌, checked, length, get_elem?, set,
}
use ts_os.Base.Bits.{test_bit, set_bit, clear_bit}
use ts_os.Common.{first_clr_bit}

abbrev pub frame_size : ℕ
frame_size = 4096

-- `MAX_MEM_SIZE / FRAME_SIZE`, which the source takes for the number of bytes, not of bits
abbrev pub max_frame_num : ℕ
max_frame_num = 0x8000000 / frame_size

abbrev pub Bitmap : Type 0
Bitmap = List ℕ

-- `FRAME_NB`
abbrev pub frame_nb : ℕ → ℕ
frame_nb addr = addr / frame_size

-- the byte behind `FRAME_BBASE`
abbrev pub byte_of : Bitmap → ℕ → Outcome ℕ
byte_of bm addr = checked (get_elem? bm (frame_nb addr / 8))

-- `FRAME_BGET`
pub frame_bget : Bitmap → ℕ → Outcome Bool
frame_bget bm addr = do b ← byte_of bm addr; done (test_bit b (frame_nb addr % 8))

-- `FRAME_BSET`
pub frame_bset : Bitmap → ℕ → Outcome Bitmap
frame_bset bm addr = do
  b ← byte_of bm addr
  done (set bm (frame_nb addr / 8) (set_bit b (frame_nb addr % 8)))

-- `FRAME_BCLR`
pub frame_bclr : Bitmap → ℕ → Outcome Bitmap
frame_bclr bm addr = do
  b ← byte_of bm addr
  done (set bm (frame_nb addr / 8) (clear_bit b (frame_nb addr % 8)))

-- 1 is busy, 0 is idle.
pub frame_status : Bitmap → ℕ → Outcome ℕ
unfolding frame_bget
frame_status bm addr = do busy ← frame_bget bm addr; done (if busy then 1 else 0)

-- The `while` of `get_idle_frame_addr`. It goes on by a byte in each round, and an index past the
-- bitmap is a fault, so one round more than the bitmap has bytes is enough.
idle_from : ℕ → Bitmap → (frame_idx frame_addr max_addr : ℕ) → Outcome ℕ
idle_from zero bm frame_idx frame_addr max_addr = out_of_fuel
idle_from (suc k) bm frame_idx frame_addr max_addr =
    if ltb frame_addr max_addr
    then (do
      b ← checked (get_elem? bm (frame_idx / 8))
      let rest = idle_from k bm (u32 (frame_idx + 8)) (u32 (frame_addr + 8 * frame_size)) max_addr
      let addr = u32 (frame_addr + u32 (first_clr_bit b * frame_size))
      if not (b == 0xFF)
          then (if ltb max_addr (u32 (addr + frame_size)) then done 0 else done addr)
          else rest)
    else halted

-- the next frame boundary at or above `addr`
abbrev pub align_up : ℕ → ℕ
align_up addr = if addr % frame_size == 0 then addr else u32 (addr - addr % frame_size + frame_size)

pub get_idle_frame_addr : Bitmap → (min_addr max_addr : ℕ) → Outcome ℕ
unfolding idle_from
get_idle_frame_addr bm min_addr max_addr =
    let frame_idx = frame_nb (align_up min_addr) in
    idle_from (length bm + 1) bm frame_idx (u32 (frame_idx * frame_size)) max_addr

-- The frame is returned by its address, and 0 stands for failure.
pub alloc_frame : Bitmap → (min_addr max_addr : ℕ) → Outcome (Bitmap × ℕ)
unfolding get_idle_frame_addr frame_bset
alloc_frame bm min_addr max_addr = do
  base ← get_idle_frame_addr bm min_addr max_addr
  if base == 0 then done (bm, 0) else (do bm' ← frame_bset bm base; done (bm', base))

pub clear_frame : Bitmap → ℕ → Outcome Bitmap
unfolding frame_bclr
clear_frame bm addr = frame_bclr bm addr
