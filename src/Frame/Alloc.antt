-- ===== src/Frame/Alloc.antt =====
-- `alloc_frame` of kernel/frame.c is a first-fit search.
use ts_os.Base.{
  ℕ, zero, suc, ◌+◌, ◌*◌, ◌/◌, ◌%◌, ◌^◌, ◌-◌, ◌≤◌, ◌<◌, ◌≡◌, ◌≢◌, refl, true, false, Bool-cases,
  inl, inr, arith, ◌==◌, if◌then◌else◌, ltb, u32, done, halted, Outcome, length, get_elem?, ◌>>=◌,
  get_elem?-some, some,
}
use mathlib.Core.Path.{subst}
use ts_os.Base.Bits.{test_bit, check_below, check_below_sound}
use ts_os.Common.{first_clr_bit}
use ts_os.Common.Scan.{first_clr_bit-FirstNot, first_clr_bit-ne}
use ts_os.Frame.{
  Bitmap, frame_nb, frame_size, idle_from, align_up, get_idle_frame_addr, alloc_frame, frame_bset,
}
use ts_os.Frame.Bitmap.{IsBitmap, busy, Updated, byte-lt, frame_bset-Updated}

-- every frame from `lo` below `hi` is busy
abbrev pub AllBusy : Bitmap → ℕ → ℕ → Type 0
AllBusy bm lo hi = (n : ℕ) → lo ≤ n → n < hi → busy bm n ≡ true

-- `n` is the first idle frame from `lo` on
pub record FirstIdle (bm : Bitmap) (lo n : ℕ) : Type 0 where
  pub from : lo ≤ n
  pub idle : busy bm n ≡ false
  pub first : AllBusy bm lo n

-- What the search from frame `lo` returns: the first idle frame if all of it lies below `max`, 0 if
-- the first idle frame does not, and an endless loop if there is none in a byte that begins below
-- `max`.
pub data Found (bm : Bitmap) (lo max : ℕ) : Outcome ℕ → Type 0 where
  fits :
      (n : ℕ)
      → FirstIdle bm lo n
      → n * frame_size + frame_size ≤ max
      → Found bm lo max (done (n * frame_size))
  cut : (n : ℕ) → FirstIdle bm lo n → max < n * frame_size + frame_size → Found bm lo max (done 0)
  none_idle : (hi : ℕ) → max ≤ hi * frame_size → AllBusy bm lo hi → Found bm lo max halted

-- frames already known to be busy can be put in front
FirstIdle-extend :
    {bm : Bitmap} {lo mid n : ℕ}
    → lo ≤ mid
    → AllBusy bm lo mid
    → FirstIdle bm mid n
    → FirstIdle bm lo n
FirstIdle-extend {bm} {lo} {mid} {n} h busy_to f = record {
  from = omega (arith, f.from);
  idle = f.idle;
  first = λ m a b. elim (Bool-cases (ltb m mid)) [
    | inl lt ↦ busy_to m a (ground arith)
    | inr ge ↦ f.first m (ground arith) b
  ];
}

Found-extend :
    {bm : Bitmap} {lo mid max : ℕ} {r : Outcome ℕ}
    → lo ≤ mid
    → AllBusy bm lo mid
    → Found bm mid max r
    → Found bm lo max r
Found-extend h b (fits n f k) = fits n (FirstIdle-extend h b f) k
Found-extend h b (cut n f k) = cut n (FirstIdle-extend h b f) k
Found-extend {mid} h b (none_idle hi k all) = none_idle hi k λ m p q.
    elim (Bool-cases (ltb m mid)) [
      | inl lt ↦ b m p (ground arith)
      | inr ge ↦ all m (ground arith) q
    ]

full_byte : check_below 8 (λ j. test_bit 255 j) ≡ true
unfolding check_below test_bit
full_byte = refl

module _ {bm : Bitmap} (v : IsBitmap bm) (max : ℕ)
    (covered : max ≤ 8 * frame_size * length bm) where
  module _ (q b : ℕ) (got : get_elem? bm q ≡ some b) where
    bits_of_byte : (n : ℕ) → 8 * q ≤ n → n < 8 * q + 8 → busy bm n ≡ test_bit b (n - 8 * q)
    bits_of_byte n lo hi =
        let e : n / 8 ≡ q = omega arith in
        let e' : n % 8 ≡ n - 8 * q = omega arith in rw (e, e', got)

    byte_full : b ≡ 255 → AllBusy bm (8 * q) (8 * q + 8)
    byte_full e n lo hi =
        rw (bits_of_byte n lo hi, e)
          (check_below_sound 8 (λ j. test_bit 255 j) (n - 8 * q) full_byte (omega arith))

    byte_first : b ≢ 255 → FirstIdle bm (8 * q) (8 * q + first_clr_bit b) × (first_clr_bit b < 8)
    byte_first ne = elim (first_clr_bit-FirstNot b (byte-lt v q b got)) [
      | inl (lt, clear, before) ↦ (
        record {
          from = omega arith;
          idle =
              let e : 8 * q + first_clr_bit b - 8 * q ≡ first_clr_bit b = omega arith in
              rw (bits_of_byte (8 * q + first_clr_bit b) (omega arith) (omega arith), e) clear;
          first =
              λ n lo hi. rw (bits_of_byte n lo (omega arith)) (before (n - 8 * q) (omega arith));
        },
        lt,
      )
      | inr (e, all) ↦ absurd (first_clr_bit-ne b (byte-lt v q b got) ne e)
    ]

  -- the frame found, against the upper limit
  place :
      {lo : ℕ} (n : ℕ)
      → FirstIdle bm lo n
      → n < 8 * length bm
      → Found bm lo max
          (if ltb max (u32 (n * frame_size + frame_size)) then done 0 else done (n * frame_size))
  place n f lt = elim (Bool-cases (ltb max (u32 (n * frame_size + frame_size)))) [
    | inl over ↦ rw over (cut n f (ground (arith, v.small)))
    | inr inside ↦ rw inside (fits n f (ground (arith, v.small)))
  ]

  -- the loop, from byte `q` on
  idle_from-Found :
      (k q : ℕ)
      → 0 < k
      → length bm < k + q
      → Found bm (8 * q) max (idle_from k bm (8 * q) (8 * q * frame_size) max)
  unfolding idle_from
  idle_from-Found zero q pos fuel = absurd (omega arith)
  idle_from-Found (suc k) q pos fuel = elim (Bool-cases (ltb (8 * q * frame_size) max)) [
    | inr past ↦ rw past (none_idle (8 * q) (ground arith) (λ n lo hi. absurd (omega arith)))
    | inl below ↦
        let inside : q < length bm = ground arith in
        let (b, got) = get_elem?-some bm q inside in
        let e : 8 * q / 8 ≡ q = omega arith in
        rw (below, e, got)
          (elim (Bool-cases (b == 0xFF)) [
            | inl full ↦ rw full (
                let next : 8 * (q + 1) ≡ u32 (8 * q + 8) = omega (arith, v.small) in
                let next' : 8 * (q + 1) * frame_size ≡ u32 (8 * q * frame_size + 8 * frame_size) =
                  omega (arith, v.small) in
                rw (← next, ← next')
                  (Found-extend (omega arith)
                    (λ n lo hi. byte_full q b got (ground arith) n lo (omega arith))
                    (idle_from-Found k (q + 1) (omega arith) (omega arith))))
            | inr free ↦ rw free (
                let (first, lt) = byte_first q b got (ground arith) in
                let here : (8 * q + first_clr_bit b) * frame_size
                    ≡ u32 (8 * q * frame_size + u32 (first_clr_bit b * frame_size)) =
                  omega (arith, v.small) in
                rw (← here) (place (8 * q + first_clr_bit b) first (omega (arith, v.small))))
          ])
  ]

  -- The search from a minimum on a byte boundary of the bitmap, such as the callers' 16 MiB.
  pub get_idle_frame_addr-Found :
      (min : ℕ)
      → min % (8 * frame_size) ≡ 0
      → min < 2 ^ 32
      → Found bm (frame_nb min) max (get_idle_frame_addr bm min max)
  unfolding get_idle_frame_addr
  get_idle_frame_addr-Found min aligned small =
      let q = min / (8 * frame_size) in
      let aligned' : align_up min ≡ min = ground arith in
      let e : frame_nb min ≡ 8 * q = omega arith in
      let e' : u32 (8 * q * frame_size) ≡ 8 * q * frame_size = omega arith in
      rw (aligned', e, e') (idle_from-Found (length bm + 1) q (omega arith) (omega arith))

-- The outcomes of `alloc_frame` on frames from `lo` on: the first idle frame is marked busy and its
-- address returned, or nothing changes and the result is 0, or the kernel stops.
pub data Allocated (bm : Bitmap) (lo max : ℕ) : Outcome (Bitmap × ℕ) → Type 0 where
  taken :
      (n : ℕ) {bm' : Bitmap}
      → FirstIdle bm lo n
      → n * frame_size + frame_size ≤ max
      → Updated bm n true bm'
      → Allocated bm lo max (done (bm', n * frame_size))
  refused :
      (n : ℕ)
      → FirstIdle bm lo n
      → max < n * frame_size + frame_size
      → Allocated bm lo max (done (bm, 0))
  stopped : (hi : ℕ) → max ≤ hi * frame_size → AllBusy bm lo hi → Allocated bm lo max halted

abbrev mark : Bitmap → ℕ → Outcome (Bitmap × ℕ)
mark bm base = if base == 0 then done (bm, 0) else (do bm' ← frame_bset bm base; done (bm', base))

Found-Allocated :
    {bm : Bitmap} {lo max : ℕ} {r : Outcome ℕ}
    → IsBitmap bm
    → max ≤ 8 * frame_size * length bm
    → 0 < lo
    → Found bm lo max r
    → Allocated bm lo max (r >>= mark bm)
Found-Allocated {bm} {max} v covered pos (fits n f k) =
    let (bm', e, up) = frame_bset-Updated v (n * frame_size) (omega arith) in
    let nb : frame_nb (n * frame_size) ≡ n = omega arith in
    let ne : (n * frame_size == 0) ≡ false = ground (arith, f.from) in
    rw (ne, e) (taken n f k (rw nb at up))
Found-Allocated v covered pos (cut n f k) = refused n f k
Found-Allocated v covered pos (none_idle hi k all) = stopped hi k all

-- If the minimum is positive, a multiple of 32 KiB and a 32-bit address, and the bitmap covers the
-- range, `alloc_frame` stays inside the bitmap: it marks the first idle frame from the minimum on and
-- returns its address, or returns 0 and changes nothing if that frame ends past the maximum, or stops
-- for good if all frames up to the maximum are busy.
pub alloc_frame-Allocated :
    {bm : Bitmap} (min_addr max_addr : ℕ)
    → IsBitmap bm
    → 0 < min_addr
    → min_addr % (8 * frame_size) ≡ 0
    → min_addr < 2 ^ 32
    → max_addr ≤ 8 * frame_size * length bm
    → Allocated bm (frame_nb min_addr) max_addr (alloc_frame bm min_addr max_addr)
unfolding alloc_frame
alloc_frame-Allocated min max v pos aligned small covered =
    Found-Allocated v covered (omega arith)
      (get_idle_frame_addr-Found v max covered min aligned small)

-- what a successful allocation has done
pub Allocated-done :
    {bm bm' : Bitmap} {lo max a : ℕ} {r : Outcome (Bitmap × ℕ)}
    → Allocated bm lo max r
    → r ≡ done (bm', a)
    → a ≢ 0
    → (n : ℕ) × (a ≡ n * frame_size)
      × FirstIdle bm lo n
      × Updated bm n true bm'
      × (n * frame_size + frame_size ≤ max)
Allocated-done (taken n f k up) e ne = (n, cc e, f, subst (Updated _ n true) (cc e) up, k)
Allocated-done (refused n f k) e ne = absurd (ne (cc e))
Allocated-done (stopped hi k all) e ne = cc e
