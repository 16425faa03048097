-- ===== src/Frame/Bitmap.antt =====
-- The bitmap of kernel/frame.c as a map from frame numbers to busy or idle, and its updates.
use ts_os.Base.{
  ℕ, ◌*◌, ◌/◌, ◌%◌, ◌≤◌, ◌<◌, ◌≡◌, ◌≢◌, refl, Bool, true, false, Bool-cases, inl, inr, Option, none,
  some, arith, ◌==◌, if◌then◌else◌, done, length, get_elem?, set, All, All-get_elem?, All-set,
  length-set, get_elem?-set_self, get_elem?-set_ne, get_elem?-some, get_elem?-lt,
}
use ts_os.Base.Bits.{
  test_bit, set_bit, clear_bit, set_bit-lt, clear_bit-lt, test_bit-set_bit, test_bit-clear_bit,
}
use ts_os.Frame.{Bitmap, max_frame_num, frame_nb, frame_bset, frame_bclr, frame_status}

-- the abstract view: whether frame `n` is busy (as is every frame past the bitmap)
abbrev pub bit_or_busy : Option ℕ → ℕ → Bool
bit_or_busy none k = true
bit_or_busy (some b) k = test_bit b k

abbrev pub busy : Bitmap → ℕ → Bool
busy bm n = bit_or_busy (get_elem? bm (n / 8)) (n % 8)

-- Bytes are below 256, and the array is no longer than the source's.
pub record IsBitmap (bm : Bitmap) : Type 0 where
  pub small : length bm ≤ max_frame_num
  pub bytes : All (λ b. b < 256) bm

-- `addr` lies in a frame that has a bit
abbrev pub Covered : Bitmap → ℕ → Type 0
Covered bm addr = frame_nb addr < 8 * length bm

-- `bm'` differs from `bm` at frame `n` alone, where it has `v`
pub record Updated (bm : Bitmap) (n : ℕ) (v : Bool) (bm' : Bitmap) : Type 0 where
  pub valid : IsBitmap bm'
  pub same_length : length bm' ≡ length bm
  pub here : busy bm' n ≡ v
  pub elsewhere : (m : ℕ) → m ≢ n → busy bm' m ≡ busy bm m

module _ {bm : Bitmap} (v : IsBitmap bm) where
  pub byte-lt : (i b : ℕ) → get_elem? bm i ≡ some b → b < 256
  byte-lt i b e = All-get_elem? (λ b. b < 256) bm i b v.bytes e

  -- the update of one byte that writes `w` to bit `n % 8` and keeps the others
  byte-Updated :
      (n b b' : ℕ) (w : Bool)
      → get_elem? bm (n / 8) ≡ some b
      → b' < 256
      → ((j : ℕ) → j < 8 → test_bit b' j ≡ (if n % 8 == j then w else test_bit b j))
      → Updated bm n w (set bm (n / 8) b')
  byte-Updated n b b' w got small bits = record {
    valid = record {
      small = omega (arith, v.small, length-set bm (n / 8) b');
      bytes = All-set (λ b. b < 256) bm (n / 8) b' v.bytes small;
    };
    same_length = length-set bm (n / 8) b';
    here = rw (get_elem?-set_self bm (n / 8) b' inside) (ground (arith, bits (n % 8)));
    elsewhere = other;
  }
    where
      inside : n / 8 < length bm
      inside = get_elem?-lt bm (n / 8) b got

      other : (m : ℕ) → m ≢ n → busy (set bm (n / 8) b') m ≡ busy bm m
      other m ne = elim (Bool-cases (n / 8 == m / 8)) [
        | inl e ↦
            let e' : n / 8 ≡ m / 8 = ground arith in
            let far : n % 8 ≢ m % 8 = omega arith in
            rw (← e', get_elem?-set_self bm (n / 8) b' inside, got) (ground (arith, bits (m % 8)))
        | inr ne' ↦
            let ne'' : n / 8 ≢ m / 8 = ground arith in
            rw (get_elem?-set_ne bm (n / 8) (m / 8) b' ne'') refl
      ]

  pub frame_bset-Updated :
      (addr : ℕ)
      → Covered bm addr
      → (bm' : Bitmap) × (frame_bset bm addr ≡ done bm') × Updated bm (frame_nb addr) true bm'
  unfolding frame_bset
  frame_bset-Updated addr h =
      let (b, got) = get_elem?-some bm (frame_nb addr / 8) (omega arith) in
      let lt : b < 256 = byte-lt (frame_nb addr / 8) b got in
      (
        set bm (frame_nb addr / 8) (set_bit b (frame_nb addr % 8)),
        rw got,
        byte-Updated (frame_nb addr) b (set_bit b (frame_nb addr % 8)) true got
            (set_bit-lt b (frame_nb addr % 8) lt (omega arith))
            (λ j hj. ground (arith, test_bit-set_bit b (frame_nb addr % 8) j)),
      )

  pub frame_bclr-Updated :
      (addr : ℕ)
      → Covered bm addr
      → (bm' : Bitmap) × (frame_bclr bm addr ≡ done bm') × Updated bm (frame_nb addr) false bm'
  unfolding frame_bclr
  frame_bclr-Updated addr h =
      let (b, got) = get_elem?-some bm (frame_nb addr / 8) (omega arith) in
      let lt : b < 256 = byte-lt (frame_nb addr / 8) b got in
      (
        set bm (frame_nb addr / 8) (clear_bit b (frame_nb addr % 8)),
        rw got,
        byte-Updated (frame_nb addr) b (clear_bit b (frame_nb addr % 8)) false got
            (clear_bit-lt b (frame_nb addr % 8) lt (omega arith))
            (λ j hj. ground (arith, test_bit-clear_bit b (frame_nb addr % 8) j)),
      )

  pub frame_status-busy :
      (addr : ℕ)
      → Covered bm addr
      → frame_status bm addr ≡ done (if busy bm (frame_nb addr) then 1 else 0)
  unfolding frame_status
  frame_status-busy addr h =
      let (b, got) = get_elem?-some bm (frame_nb addr / 8) (omega arith) in rw got refl
