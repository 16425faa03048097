-- ===== src/Console/Rows.antt =====
-- The row boundaries of kernel/console.c.
use ts_os.Base.{
  ℕ, zero, suc, ◌+◌, ◌-◌, ◌%◌, ◌^◌, ◌≤◌, ◌<◌, ◌≡◌, ◌≢◌, refl, ◌⊎◌, inl, inr, Bool-cases, ◌&&◌, not,
  some, List, get_elem?, get_elem?-some, length, arith, ◌==◌, ltb, if◌then◌else◌, done,
}
use ts_os.Console.{
  Console, history_capacity, console_max_col, newline, next_from, next_line_start, prev_from,
  prev_line_start, calc_window_delta,
}

-- a newline stands at position `i` of the history
abbrev pub NewlineAt : List ℕ → ℕ → Type 0
NewlineAt hist i = get_elem? hist (i % history_capacity) ≡ some newline

-- `r` is the end of the row of at most `k` characters that begins at `start`
pub record RowEnd (hist : List ℕ) (history_cnt k start r : ℕ) : Type 0 where
  pub from : start ≤ r
  pub short : r ≤ start + k
  pub inside : r ≤ history_cnt
  pub one_line : (i : ℕ) → start ≤ i → i + 1 < r → ¬ NewlineAt hist i
  pub stops : (r ≡ history_cnt) ⊎ ((r ≡ start + k) ⊎ ((start < r) × NewlineAt hist (r - 1)))

-- `r` is the begin of a row of at most `k` characters that ends at `off`; a newline at its very
-- end belongs to it
pub record RowBegin (hist : List ℕ) (history_min next k off r : ℕ) : Type 0 where
  pub to : r ≤ off
  pub short : off ≤ r + k
  pub kept : history_min ≤ r
  pub one_line : (i : ℕ) → r ≤ i → i < off → i + 1 ≢ next → ¬ NewlineAt hist i
  pub stops : (r ≡ history_min) ⊎ ((r + k ≡ off) ⊎ ((r ≢ next) × NewlineAt hist (r - 1)))

next_from-RowEnd :
    (k : ℕ) (hist : List ℕ) (cnt start : ℕ)
    → length hist ≡ history_capacity
    → start ≤ cnt
    → (r : ℕ) × (next_from k hist cnt start ≡ done r) × RowEnd hist cnt k start r
unfolding next_from
next_from-RowEnd zero hist cnt start len le = (
  start,
  refl,
  record {
    from = omega arith;
    short = omega arith;
    inside = le;
    one_line = λ i a b. absurd (omega arith);
    stops = inr (inl (omega arith));
  },
)
next_from-RowEnd (suc k) hist cnt start len le = elim (Bool-cases (ltb start cnt)) [
  | inr at_end ↦ (
    start,
    rw at_end refl,
    record {
      from = omega arith;
      short = omega arith;
      inside = le;
      one_line = λ i a b. absurd (omega arith);
      stops = inl (ground arith);
    },
  )
  | inl more ↦
      let (c, got) = get_elem?-some hist (start % history_capacity) (omega arith) in
      elim (Bool-cases (c == newline)) [
        | inl line ↦
            let c≡ : c ≡ newline = ground arith in
            let back : start + 1 - 1 ≡ start = omega arith in
            (
              start + 1,
              rw (more, got, line) refl,
              record {
                from = omega arith;
                short = omega arith;
                inside = ground arith;
                one_line = λ i a b. absurd (omega arith);
                stops = inr (inr (omega arith, rw (back, got, c≡) refl));
              },
            )
        | inr other ↦
            let (r, runs, row) = next_from-RowEnd k hist cnt (start + 1) len (ground arith) in
            (
              r,
              rw (more, got, other) runs,
              record {
                from = omega (arith, row.from);
                short = omega (arith, row.short);
                inside = row.inside;
                one_line = λ i a b. elim (Bool-cases (start == i)) [
                  | inl here ↦ λ nl.
                      let e : start ≡ i = ground arith in
                      let nl' : NewlineAt hist start = rw (← e) at nl in
                      let c≡ : c ≡ newline = cc (nl', got) in ground arith
                  | inr later ↦ row.one_line i (ground arith) b
                ];
                stops = elim row.stops [
                  | inl e ↦ inl e
                  | inr (inl e) ↦ inr (inl (omega arith))
                  | inr (inr e) ↦ inr (inr (omega (arith, e.0), e.1))
                ];
              },
            )
      ]
]

-- On a full-sized buffer, `next_line_start` from a position not past the end returns the end of the
-- row there: all characters before its last are no newline, and it stops at the end of the history,
-- after 20 characters or behind a newline.
pub next_line_start-RowEnd :
    (s : Console) (start : ℕ)
    → length s.history ≡ history_capacity
    → start ≤ s.history_cnt
    → (r : ℕ) × (next_line_start s start ≡ done r)
      × RowEnd s.history s.history_cnt console_max_col start r
unfolding next_line_start
next_line_start-RowEnd s start len le =
    next_from-RowEnd console_max_col s.history s.history_cnt start len le

prev_from-RowBegin :
    (k : ℕ) (hist : List ℕ) (min next off : ℕ)
    → length hist ≡ history_capacity
    → min ≤ off
    → (r : ℕ) × (prev_from k hist min next off ≡ done r) × RowBegin hist min next k off r
unfolding prev_from
prev_from-RowBegin zero hist min next off len le = (
  off,
  refl,
  record {
    to = omega arith;
    short = omega arith;
    kept = le;
    one_line = λ i a b d. absurd (omega arith);
    stops = inr (inl (omega arith));
  },
)
prev_from-RowBegin (suc k) hist min next off len le = elim (Bool-cases (ltb min off)) [
  | inr at_end ↦ (
    off,
    rw at_end refl,
    record {
      to = omega arith;
      short = omega arith;
      kept = le;
      one_line = λ i a b d. absurd (omega arith);
      stops = inl (ground arith);
    },
  )
  | inl more ↦
      let (c, got) = get_elem?-some hist ((off - 1) % history_capacity) (omega arith) in
      elim (Bool-cases ((c == newline) && not (off == next))) [
        | inl line ↦
            let c≡ : c ≡ newline = ground arith in
            let away : off ≢ next = ground arith in
            (
              off,
              rw (more, got, line) refl,
              record {
                to = omega arith;
                short = omega arith;
                kept = le;
                one_line = λ i a b d. absurd (omega arith);
                stops = inr (inr (away, rw (got, c≡) refl));
              },
            )
        | inr other ↦
            let (r, runs, row) = prev_from-RowBegin k hist min next (off - 1) len (ground arith) in
            (
              r,
              rw (more, got, other) runs,
              record {
                to = omega (arith, row.to);
                short = ground (arith, row.short);
                kept = row.kept;
                one_line = λ i a b d. elim (Bool-cases (i + 1 == off)) [
                  | inl here ↦ λ nl.
                      let e : i ≡ off - 1 = ground arith in
                      let nl' : NewlineAt hist (off - 1) = rw e at nl in
                      let c≡ : c ≡ newline = cc (nl', got) in ground arith
                  | inr later ↦ row.one_line i a (ground arith) d
                ];
                stops = elim row.stops [
                  | inl e ↦ inl e
                  | inr (inl e) ↦ inr (inl (ground arith))
                  | inr (inr e) ↦ inr (inr e)
                ];
              },
            )
      ]
]

-- the oldest position that the buffer still holds
abbrev pub history_min : Console → ℕ
history_min s = if ltb history_capacity s.history_cnt then s.history_cnt - history_capacity else 0

-- On a full-sized buffer, `prev_line_start` from a position that the buffer still holds returns a
-- begin at most 20 characters before it, such that no newline stands between but right before that
-- position, and stops at the oldest position held, after 20 characters or behind a newline.
pub prev_line_start-RowBegin :
    (s : Console) (next : ℕ)
    → length s.history ≡ history_capacity
    → history_min s ≤ next
    → (r : ℕ) × (prev_line_start s next ≡ done r)
      × RowBegin s.history (history_min s) next console_max_col next r
unfolding prev_line_start
prev_line_start-RowBegin s next len le =
    prev_from-RowBegin console_max_col s.history (history_min s) next next len le

-- A newline takes a window of any size to the next multiple of 20 behind it, every other character
-- takes one cell.
pub calc_window_delta_lem :
    (ws c : ℕ)
    → ws + console_max_col < 2 ^ 32
    → (c ≡ newline
        → ((ws + calc_window_delta ws c) % console_max_col ≡ 0)
          × (1 ≤ calc_window_delta ws c)
          × (calc_window_delta ws c ≤ console_max_col))
      × (c ≢ newline → calc_window_delta ws c ≡ 1)
unfolding calc_window_delta
calc_window_delta_lem ws c small = elim (Bool-cases (c == newline)) [
  | inl line ↦
      rw line ((λ e. (omega arith, omega arith, omega arith)), λ ne. absurd (ne (ground arith)))
  | inr other ↦ rw other ((λ e. ground arith), λ ne. refl)
]
