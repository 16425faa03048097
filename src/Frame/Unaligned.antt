-- ===== src/Frame/Unaligned.antt =====
-- `get_idle_frame_addr` of kernel/frame.c from a minimum that is not on a byte boundary of the
-- bitmap. The scan adds the bit number found in the byte to the minimum, not to the byte's first
-- frame. The kernel's own callers pass 16 MiB, which is on a boundary.
use ts_os.Base.{
  ℕ, suc, ◌+◌, ◌-◌, ◌*◌, ◌/◌, ◌%◌, ◌≤◌, ◌<◌, ◌≡◌, ◌≢◌, refl, true, false, inl, inr, arith, ◌==◌,
  ltb, done, length, u32, get_elem?-some,
}
use ts_os.Base.Bits.{test_bit}
use ts_os.Common.{first_clr_bit}
use ts_os.Common.Scan.{first_clr_bit-FirstNot}
use ts_os.Frame.{Bitmap, frame_nb, frame_size, align_up, idle_from, get_idle_frame_addr}
use ts_os.Frame.Bitmap.{IsBitmap, busy, byte-lt}

first_clr_bit-zero : (b : ℕ) → b < 256 → test_bit b 0 ≡ false → (first_clr_bit b ≡ 0) × (b ≢ 255)
unfolding test_bit
first_clr_bit-zero b h clear = (
  elim (first_clr_bit-FirstNot b h) [
    | inl (lt, _, before) ↦ ground (arith, before 0)
    | inr (_, all) ↦ ground (arith, all 0)
  ],
  λ e. cc (rw e at clear),
)

-- From frame `m` as the minimum, in a byte of the bitmap whose first frame is idle, the search
-- returns frame `m` itself whatever its own bit says, if it lies below the maximum.
pub unaligned_returns_busy :
    {bm : Bitmap} (m max_addr : ℕ)
    → IsBitmap bm
    → m < 8 * length bm
    → m * frame_size + frame_size ≤ max_addr
    → busy bm (m - m % 8) ≡ false
    → get_idle_frame_addr bm (m * frame_size) max_addr ≡ done (m * frame_size)
unfolding get_idle_frame_addr idle_from
unaligned_returns_busy {bm} m max v inside fits first_idle =
    let (b, got) = get_elem?-some bm (m / 8) (omega arith) in
    let e1 : (m - m % 8) / 8 ≡ m / 8 = omega arith in
    let e2 : (m - m % 8) % 8 ≡ 0 = omega arith in
    let clear : test_bit b 0 ≡ false = rw (e1, e2, got) at first_idle in
    let (zero_bit, not_full) = first_clr_bit-zero b (byte-lt v (m / 8) b got) clear in
    let aligned : align_up (m * frame_size) ≡ m * frame_size = ground arith in
    let nb : frame_nb (m * frame_size) ≡ m = omega arith in
    let word : u32 (m * frame_size) ≡ m * frame_size = omega (arith, v.small) in
    let below : ltb (m * frame_size) max ≡ true = ground arith in
    let free : (b == 0xFF) ≡ false = ground arith in
    let word' : u32 (m * frame_size + u32 (0 * frame_size)) ≡ m * frame_size =
      omega (arith, v.small) in
    let room : ltb max (u32 (m * frame_size + frame_size)) ≡ false = ground (arith, v.small) in
    let go : length bm + 1 ≡ suc (length bm) = omega arith in
    rw (aligned, nb, word, go, below, got, free, zero_bit, word', room) refl
