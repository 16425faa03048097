-- ===== src/Console/Window.antt =====
-- `update_window_buffer` of kernel/console.c stays inside its buffers and fills the window.
use ts_os.Base.{
  ℕ, zero, suc, ◌+◌, ◌%◌, ◌≤◌, ◌<◌, ◌≡◌, refl, ◌∙◌, ◌⊎◌, inl, inr, true, false, Bool-cases, ◌&&◌,
  not, some, List, get_elem?, get_elem?-some, get_elem?-set_self, get_elem?-set_ne, length,
  length-set, set, arith, ◌==◌, ltb, done,
}
use ts_os.Console.{
  Console, history_capacity, console_max_col, max_window_size, newline, write_window, end_row,
  fill_window, clear_rest, update_window_buffer,
}

write-ok : (win : List ℕ) (i c : ℕ) → i < length win → write_window win i c ≡ done (set win i c)
unfolding write_window
write-ok win i c lt = let e : ltb i (length win) ≡ true = ground arith in rw e refl

end_row_lem :
    (k : ℕ) (win : List ℕ) (size : ℕ)
    → length win ≡ max_window_size
    → size ≤ max_window_size
    → (size % console_max_col ≡ 0) ⊎ (console_max_col ≤ k + size % console_max_col)
    → (win' : List ℕ) × (size' : ℕ) × (end_row k win size ≡ done (win', size'))
      × (length win' ≡ max_window_size)
      × (size ≤ size')
      × (size' ≤ max_window_size)
unfolding end_row
end_row_lem zero win size len le fuel =
    let full : (not (size % console_max_col == 0) && ltb size max_window_size) ≡ false =
      ground arith in
    (win, size, rw full refl, len, omega arith, le)
end_row_lem (suc k) win size len le fuel =
    elim (Bool-cases (not (size % console_max_col == 0) && ltb size max_window_size)) [
      | inr full ↦ (win, size, rw full refl, len, omega arith, le)
      | inl more ↦
          let (win', size', runs, len', grows, le') =
            end_row_lem k (set win size 0) (size + 1) (length-set win size 0 ∙ len) (ground arith)
              (ground arith) in
          (win', size', rw (more, write-ok win size 0 (ground arith)) runs, len', omega arith, le')
    ]

fill_window_lem :
    (k : ℕ) (hist win : List ℕ) (size index cnt : ℕ)
    → length hist ≡ history_capacity
    → length win ≡ max_window_size
    → size ≤ max_window_size
    → index ≤ cnt
    → max_window_size ≤ k + size
    → (win' : List ℕ) × (size' : ℕ) × (index' : ℕ) × (fill_window k hist win size index cnt
        ≡ done (win', size', index'))
      × (length win' ≡ max_window_size)
      × (size' ≤ max_window_size)
      × (index ≤ index')
      × (index' ≤ cnt)
      × ((index' ≡ cnt) ⊎ (size' ≡ max_window_size))
unfolding fill_window
fill_window_lem zero hist win size index cnt hlen len le ile fuel =
    let full : (ltb size max_window_size && ltb index cnt) ≡ false = ground arith in
    (win, size, index, rw full refl, len, le, omega arith, ile, inr (omega arith))
fill_window_lem (suc k) hist win size index cnt hlen len le ile fuel =
    elim (Bool-cases (ltb size max_window_size && ltb index cnt)) [
      | inr full ↦ (win, size, index, rw full refl, len, le, omega arith, ile, ground arith)
      | inl more ↦
          let (c, got) = get_elem?-some hist (index % history_capacity) (omega arith) in
          let wrote = write-ok win size c (ground arith) in
          let len1 = length-set win size c ∙ len in
          elim (Bool-cases (c == newline)) [
            | inl line ↦
                let (win1, size1, ended, len2, grows, le1) =
                  end_row_lem console_max_col (set win size c) (size + 1) len1 (ground arith)
                    (inr (omega arith)) in
                let (win', size', index', runs, len', le', from, to, stop) =
                  fill_window_lem k hist win1 size1 (index + 1) cnt hlen len2 le1 (ground arith)
                    (omega arith) in
                (
                  win',
                  size',
                  index',
                  rw (more, got, wrote, line, ended) runs,
                  len',
                  le',
                  omega arith,
                  to,
                  stop,
                )
            | inr other ↦
                let (win', size', index', runs, len', le', from, to, stop) =
                  fill_window_lem k hist (set win size c) (size + 1) (index + 1) cnt hlen len1
                    (ground arith) (ground arith) (omega arith) in
                (
                  win',
                  size',
                  index',
                  rw (more, got, wrote, other) runs,
                  len',
                  le',
                  omega arith,
                  to,
                  stop,
                )
          ]
    ]

-- clearing keeps what stands before, and leaves zeros
clear_rest_lem :
    (k : ℕ) (win : List ℕ) (size : ℕ)
    → length win ≡ max_window_size
    → max_window_size ≤ k + size
    → (win' : List ℕ) × (clear_rest k win size ≡ done win')
      × (length win' ≡ max_window_size)
      × ((i : ℕ) → i < size → get_elem? win' i ≡ get_elem? win i)
      × ((i : ℕ) → size ≤ i → i < max_window_size → get_elem? win' i ≡ some 0)
unfolding clear_rest
clear_rest_lem zero win size len fuel =
    let full : ltb size max_window_size ≡ false = ground arith in
    (win, rw full refl, len, (λ i lt. refl), λ i a b. absurd (omega arith))
clear_rest_lem (suc k) win size len fuel = elim (Bool-cases (ltb size max_window_size)) [
  | inr full ↦ (win, rw full refl, len, (λ i lt. refl), λ i a b. absurd (ground arith))
  | inl more ↦
      let lt_size : size < max_window_size = ground arith in
      let (win', runs, len', low, high) =
        clear_rest_lem k (set win size 0) (size + 1) (length-set win size 0 ∙ len) (omega arith) in
      (
        win',
        rw (more, write-ok win size 0 (omega arith)) runs,
        len',
        (λ i lt. low i (omega arith) ∙ get_elem?-set_ne win size i 0 (omega arith)),
        λ i a b. elim (Bool-cases (size == i)) [
          | inl here ↦
              let e : size ≡ i = ground arith in
              rw (← e) (low size (omega arith) ∙ get_elem?-set_self win size 0 (omega arith))
          | inr later ↦ high i (ground arith) b
        ],
      )
]

-- what `update_window_buffer` does to a console
pub record Updated (s s' : Console) : Type 0 where
  pub same_history : s'.history ≡ s.history
  pub same_cnt : s'.history_cnt ≡ s.history_cnt
  pub same_first : s'.window_first_history ≡ s.window_first_history
  pub window_length : length s'.window ≡ max_window_size
  pub fits : s'.window_size ≤ max_window_size
  pub last_from : s.window_first_history ≤ s'.window_last_history
  pub last_to : s'.window_last_history ≤ s.history_cnt
  pub stops : (s'.window_last_history ≡ s.history_cnt) ⊎ (s'.window_size ≡ max_window_size)
  pub cleared : (i : ℕ) → s'.window_size ≤ i → i < max_window_size → get_elem? s'.window i ≡ some 0

pub update_window_buffer-Updated :
    (s : Console)
    → length s.history ≡ history_capacity
    → length s.window ≡ max_window_size
    → s.window_first_history ≤ s.history_cnt
    → (s' : Console) × (update_window_buffer s ≡ done s') × Updated s s'
unfolding update_window_buffer
update_window_buffer-Updated s hlen wlen le =
    let (win1, size, index, filled, len1, fits, from, to, stop) =
      fill_window_lem max_window_size s.history s.window 0 s.window_first_history s.history_cnt hlen
        wlen (omega arith) le (omega arith) in
    let (win2, done_clear, len2, low, high) =
      clear_rest_lem max_window_size win1 size len1 (omega arith) in
    (
      record s { window = win2; window_size = size; window_last_history = index },
      rw (filled, done_clear) refl,
      record {
        same_history = refl;
        same_cnt = refl;
        same_first = refl;
        window_length = len2;
        fits = fits;
        last_from = from;
        last_to = to;
        stops = stop;
        cleared = high;
      },
    )
