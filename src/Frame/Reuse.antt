-- ===== src/Frame/Reuse.antt =====
-- Sequences of calls of kernel/frame.c: frames are not handed out twice, and are given back.
use ts_os.Base.{
  ℕ, ◌*◌, ◌%◌, ◌^◌, ◌≤◌, ◌<◌, ◌≡◌, ◌≢◌, ◌∙◌, sym, true, false, Bool-cases, inl, inr, arith, ◌==◌,
  done, length, Outcome,
}
use mathlib.Core.Path.{subst}
use ts_os.Frame.{Bitmap, frame_nb, frame_size, alloc_frame, clear_frame}
use ts_os.Frame.Bitmap.{IsBitmap, busy, Updated, frame_bclr-Updated}
use ts_os.Frame.Alloc.{Allocated, taken, refused, stopped, Allocated-done, alloc_frame-Allocated}

-- a range that `alloc_frame` may be asked for
pub record IsRange (bm : Bitmap) (min_addr max_addr : ℕ) : Type 0 where
  pub positive : 0 < min_addr
  pub aligned : min_addr % (8 * frame_size) ≡ 0
  pub word : min_addr < 2 ^ 32
  pub covered : max_addr ≤ 8 * frame_size * length bm

Allocated-keeps :
    {bm bm' : Bitmap} {lo max a : ℕ} {r : Outcome (Bitmap × ℕ)}
    → IsBitmap bm
    → Allocated bm lo max r
    → r ≡ done (bm', a)
    → IsBitmap bm' × ((n : ℕ) → busy bm n ≡ true → busy bm' n ≡ true)
Allocated-keeps {bm} {bm'} v (taken m {bm' = bm1} f k up) e =
    let same : bm1 ≡ bm' = cc e in
    let up' : Updated bm m true bm' = subst (Updated bm m true) same up in
    (
      up'.valid,
      λ n was. elim (Bool-cases (n == m)) [
        | inl here ↦ let n≡m : n ≡ m = ground arith in rw n≡m up'.here
        | inr there ↦ let n≢m : n ≢ m = ground arith in up'.elsewhere n n≢m ∙ was
      ],
    )
Allocated-keeps {bm} {bm'} v (refused m f k) e =
    let same : bm ≡ bm' = cc e in (subst IsBitmap same v, λ n was. rw (← same) was)
Allocated-keeps v (stopped hi k all) e = cc e

-- a run of calls of `alloc_frame` from one bitmap to another, each over a range that it may be asked
-- for, whether it succeeds or returns 0
pub data Allocs (last : Bitmap) : Bitmap → Type 0 where
  no_more : Allocs last last
  another :
      {bm bm' : Bitmap} {min_addr max_addr a : ℕ}
      → IsRange bm min_addr max_addr
      → alloc_frame bm min_addr max_addr ≡ done (bm', a)
      → Allocs last bm'
      → Allocs last bm

Allocs-keeps :
    {last bm : Bitmap}
    → IsBitmap bm
    → Allocs last bm
    → IsBitmap last × ((n : ℕ) → busy bm n ≡ true → busy last n ≡ true)
Allocs-keeps v no_more = (v, λ n was. was)
Allocs-keeps v (another {min_addr} {max_addr} range got more) =
    let (v', kept) =
      Allocated-keeps v
        (alloc_frame-Allocated min_addr max_addr v range.positive range.aligned range.word
          range.covered)
        got in
    let (v'', kept') = Allocs-keeps v' more in (v'', λ n was. kept' n (kept n was))

module _ {bm bm' : Bitmap} {min_addr max_addr a : ℕ} (v : IsBitmap bm)
    (range : IsRange bm min_addr max_addr) (got : alloc_frame bm min_addr max_addr ≡ done (bm', a))
    (ne : a ≢ 0) where
  allocated : Allocated bm (frame_nb min_addr) max_addr (alloc_frame bm min_addr max_addr)
  allocated =
      alloc_frame-Allocated min_addr max_addr v range.positive range.aligned range.word
        range.covered

  -- A successful allocation marks the frame of the returned address, idle before, and no other.
  pub alloc_frame-marks : (busy bm (frame_nb a) ≡ false) × Updated bm (frame_nb a) true bm'
  alloc_frame-marks =
      let (n, e, f, up, k) = Allocated-done allocated got ne in
      let nb : n ≡ frame_nb a = omega arith in (rw nb at (f.idle), rw nb at up)

  inside : frame_nb a < 8 * length bm'
  inside =
      let (n, e, f, up, k) = Allocated-done allocated got ne in
      omega (arith, up.same_length, range.covered)

  -- A successful allocation and a later one, with any calls of `alloc_frame` and no `clear_frame`
  -- between them, all over ranges that start at a multiple of 32 KiB and that the bitmap covers,
  -- return different addresses.
  pub alloc_alloc-ne :
      {later bm'' : Bitmap} {min' max' b : ℕ}
      → Allocs later bm'
      → IsRange later min' max'
      → alloc_frame later min' max' ≡ done (bm'', b)
      → b ≢ 0
      → a ≢ b
  alloc_alloc-ne {later} {min'} {max'} {b} run range' got' ne' e =
      let (_, up) = alloc_frame-marks in
      let (valid, kept) = Allocs-keeps up.valid run in
      let (n, e', f, _, _) =
        Allocated-done
          (alloc_frame-Allocated min' max' valid range'.positive range'.aligned range'.word
            range'.covered)
          got' ne' in
      let nb : n ≡ frame_nb a = omega arith in
      let idle : busy later (frame_nb a) ≡ false = rw nb at (f.idle) in
      cc (kept (frame_nb a) up.here, idle)

  -- After a successful allocation over a range that starts at a multiple of 32 KiB and that the
  -- bitmap covers, `clear_frame` of the address succeeds and restores the status of every frame.
  pub clear-alloc :
      (bm'' : Bitmap) × (clear_frame bm' a ≡ done bm'')
      × IsBitmap bm''
      × ((n : ℕ) → busy bm'' n ≡ busy bm n)
  unfolding clear_frame
  clear-alloc =
      let (idle, up) = alloc_frame-marks in
      let (bm'', e, back) = frame_bclr-Updated up.valid a inside in
      (
        bm'',
        e,
        back.valid,
        λ n. elim (Bool-cases (n == frame_nb a)) [
          | inl here ↦ let n≡a : n ≡ frame_nb a = ground arith in rw n≡a (back.here ∙ sym idle)
          | inr there ↦
              let n≢a : n ≢ frame_nb a = ground arith in back.elsewhere n n≢a ∙ up.elsewhere n n≢a
        ],
      )
