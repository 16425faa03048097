-- ===== src/Frame/Tests.antt =====
-- A small bitmap, runs of the allocator on it, and the theorems at it.
use ts_os.Base.{ℕ, ◌*◌, ◌≡◌, ◌≢◌, refl, true, [], ◌∷◌, arith, done, halted, fault}
use ts_os.Base.Bits.{set_bit, test_bit}
use ts_os.Common.{first_clr_bit}
use ts_os.Common.Scan.{FirstNot, first_clr_bit-FirstNot}
use ts_os.Frame.{Bitmap, get_idle_frame_addr, alloc_frame, clear_frame}
use ts_os.Frame.Bitmap.{IsBitmap, busy}
use ts_os.Frame.Alloc.{Allocated, alloc_frame-Allocated}
use ts_os.Frame.Reuse.{IsRange, no_more, another, alloc_alloc-ne, clear-alloc}
use ts_os.Frame.Unaligned.{unaligned_returns_busy}

-- 32 frames, of which 0 to 9 and 12 are busy
abbrev bm : Bitmap
bm = 0xFF ∷ 0x13 ∷ 0xFF ∷ 0x00 ∷ []

alloc_runs :
    (alloc_frame bm 0x8000 0x20000 ≡ done (0xFF ∷ 0x17 ∷ 0xFF ∷ 0x00 ∷ [], 10 * 4096))
    × (alloc_frame bm 0x10000 0x20000 ≡ done (0xFF ∷ 0x13 ∷ 0xFF ∷ 0x01 ∷ [], 24 * 4096))
    × (alloc_frame bm 0x8000 0xA800 ≡ done (bm, 0))
    × (alloc_frame bm 0x10000 0x18000 ≡ halted)
    × (alloc_frame (0xFF ∷ []) 0x8000 0x20000 ≡ fault)
unfolding alloc_frame set_bit first_clr_bit
alloc_runs = (refl, refl, refl, refl, refl)

bm-IsBitmap : IsBitmap bm
bm-IsBitmap = omega arith

first_clr_bit-FirstNot_example : FirstNot true 0x13 (first_clr_bit 0x13)
first_clr_bit-FirstNot_example = first_clr_bit-FirstNot 0x13 (omega arith)

alloc_frame-Allocated_example : Allocated bm 8 0x20000 (alloc_frame bm 0x8000 0x20000)
alloc_frame-Allocated_example =
    alloc_frame-Allocated 0x8000 0x20000 bm-IsBitmap (omega arith) refl (omega arith) (omega arith)

abbrev taken_ten : Bitmap
taken_ten = 0xFF ∷ 0x17 ∷ 0xFF ∷ 0x00 ∷ []

abbrev taken_eleven : Bitmap
taken_eleven = 0xFF ∷ 0x1F ∷ 0xFF ∷ 0x00 ∷ []

first-IsRange : IsRange bm 0x8000 0x20000
first-IsRange = omega arith

second-IsRange : IsRange taken_ten 0x8000 0x20000
second-IsRange = omega arith

first_call : alloc_frame bm 0x8000 0x20000 ≡ done (taken_ten, 10 * 4096)
unfolding alloc_frame set_bit first_clr_bit
first_call = refl

second_call : alloc_frame taken_ten 0x8000 0x20000 ≡ done (taken_eleven, 11 * 4096)
unfolding alloc_frame set_bit first_clr_bit
second_call = refl

third-IsRange : IsRange taken_eleven 0x8000 0x20000
third-IsRange = omega arith

third_call :
    alloc_frame taken_eleven 0x8000 0x20000 ≡ done (0xFF ∷ 0x3F ∷ 0xFF ∷ 0x00 ∷ [], 13 * 4096)
unfolding alloc_frame set_bit first_clr_bit
third_call = refl

alloc_alloc-ne_example : 10 * 4096 ≢ 13 * 4096
alloc_alloc-ne_example =
    alloc_alloc-ne bm-IsBitmap first-IsRange first_call (omega arith)
      (another second-IsRange second_call no_more) third-IsRange third_call (omega arith)

clear-alloc_example :
    (bm' : Bitmap) × (clear_frame taken_ten (10 * 4096) ≡ done bm')
    × IsBitmap bm'
    × ((n : ℕ) → busy bm' n ≡ busy bm n)
clear-alloc_example = clear-alloc bm-IsBitmap first-IsRange first_call (omega arith)

-- frame 12 is busy, and the search from it returns it
unaligned_returns_busy_example :
    get_idle_frame_addr (0xFF ∷ 0x10 ∷ []) (12 * 4096) 0x10000 ≡ done (12 * 4096)
unfolding test_bit
unaligned_returns_busy_example =
    unaligned_returns_busy 12 0x10000 (omega arith) (omega arith) (omega arith) refl
