-- ===== src/Task/Next.antt =====
-- The loops of kernel/task.c over the task table.
use ts_os.Base.{
  ℕ, zero, suc, ◌+◌, ◌≤◌, ◌<◌, ◌≡◌, ◌≢◌, inl, inr, Bool-cases, Option, none, some, List, get_elem?,
  get_elem?-some, length, arith, ◌==◌, Outcome, done, halted,
}
use ts_os.Task.{Task, Tasks, max_task_num, slot, next_live, free_slot, get_next_tid}

-- whether the slot at `j` holds a task, or none
abbrev pub IsLive : List Task → ℕ → Type 0
IsLive arr j = (t : Task) × (get_elem? arr j ≡ some t) × (t.state ≢ 0)

abbrev pub IsFree : List Task → ℕ → Type 0
IsFree arr j = (t : Task) × (get_elem? arr j ≡ some t) × (t.state ≡ 0)

-- The next task is the one in the first slot behind `tid`, in rounds `i` to `i + k - 1`, that holds
-- one.
pub data Nearest (arr : List Task) (tid i k : ℕ) : Outcome (Option ℕ) → Type 0 where
  nobody : ((j : ℕ) → i ≤ j → j < i + k → IsFree arr (slot tid j)) → Nearest arr tid i k (done none)
  somebody :
      (j : ℕ)
      → i ≤ j
      → j < i + k
      → ((m : ℕ) → i ≤ m → m < j → IsFree arr (slot tid m))
      → IsLive arr (slot tid j)
      → Nearest arr tid i k (done (some (slot tid j)))

longer :
    {arr : List Task} {tid i k : ℕ} {r : Outcome (Option ℕ)}
    → IsFree arr (slot tid i)
    → Nearest arr tid (i + 1) k r
    → Nearest arr tid i (suc k) r
longer {arr} {tid} {i} free (nobody all) = nobody λ j le lt. elim (Bool-cases (i == j)) [
  | inl here ↦ let e : i ≡ j = ground arith in rw e at free
  | inr later ↦ all j (ground arith) (omega arith)
]
longer {arr} {tid} {i} free (somebody j le lt before live) =
    somebody j (omega arith) (omega arith)
      (λ m le' lt'. elim (Bool-cases (i == m)) [
        | inl here ↦ let e : i ≡ m = ground arith in rw e at free
        | inr later ↦ before m (ground arith) lt'
      ])
      live

-- The loop of `schedule`, on a table of 32 slots, returns the first slot in its order that holds a
-- task, or NULL if none of them does.
pub next_live-Nearest :
    (arr : List Task) (tid k i : ℕ)
    → length arr ≡ max_task_num
    → Nearest arr tid i k (next_live k arr tid i)
unfolding next_live
next_live-Nearest arr tid zero i len = nobody λ j le lt. absurd (omega arith)
next_live-Nearest arr tid (suc k) i len =
    let (t, got) = get_elem?-some arr (slot tid i) (omega arith) in
    rw got (elim (Bool-cases (t.state == 0)) [
      | inl free ↦ rw free (longer (t, got, ground arith) (next_live-Nearest arr tid k (i + 1) len))
      | inr taken ↦ rw taken (
          somebody i (omega arith) (omega arith) (λ m le lt. absurd (omega arith))
            (t, got, ground arith))
    ])

-- What `get_next_tid` returns: the first slot that holds no task, or it stops for good when there
-- is none.
pub data FirstFree (arr : List Task) (i k : ℕ) : Outcome ℕ → Type 0 where
  table_full : ((j : ℕ) → i ≤ j → j < i + k → IsLive arr j) → FirstFree arr i k halted
  free_at :
      (j : ℕ)
      → i ≤ j
      → j < i + k
      → ((m : ℕ) → i ≤ m → m < j → IsLive arr m)
      → IsFree arr j
      → FirstFree arr i k (done j)

behind_live :
    {arr : List Task} {i k : ℕ} {r : Outcome ℕ}
    → IsLive arr i
    → FirstFree arr (i + 1) k r
    → FirstFree arr i (suc k) r
behind_live {arr} {i} live (table_full all) = table_full λ j le lt. elim (Bool-cases (i == j)) [
  | inl here ↦ let e : i ≡ j = ground arith in rw e at live
  | inr later ↦ all j (ground arith) (omega arith)
]
behind_live {arr} {i} live (free_at j le lt before free) =
    free_at j (omega arith) (omega arith)
      (λ m le' lt'. elim (Bool-cases (i == m)) [
        | inl here ↦ let e : i ≡ m = ground arith in rw e at live
        | inr later ↦ before m (ground arith) lt'
      ])
      free

free_slot-FirstFree :
    (arr : List Task) (k i : ℕ)
    → length arr ≡ max_task_num
    → i + k ≤ max_task_num
    → FirstFree arr i k (free_slot k arr i)
unfolding free_slot
free_slot-FirstFree arr zero i len inside = table_full λ j le lt. absurd (omega arith)
free_slot-FirstFree arr (suc k) i len inside =
    let (t, got) = get_elem?-some arr i (omega arith) in
    rw got (elim (Bool-cases (t.state == 0)) [
      | inl free ↦ rw free (
          free_at i (omega arith) (omega arith) (λ m le lt. absurd (omega arith))
            (t, got, ground arith))
      | inr taken ↦ rw taken (
          behind_live (t, got, λ z. ground arith)
            (free_slot-FirstFree arr k (i + 1) len (omega arith)))
    ])

-- On a table of 32 slots, `get_next_tid` returns the first slot that holds no task, and stops for
-- good exactly if all 32 are taken.
pub get_next_tid-FirstFree :
    (s : Tasks)
    → length s.task_arr ≡ max_task_num
    → FirstFree s.task_arr 0 max_task_num (get_next_tid s)
unfolding get_next_tid
get_next_tid-FirstFree s len = free_slot-FirstFree s.task_arr max_task_num 0 len (omega arith)
