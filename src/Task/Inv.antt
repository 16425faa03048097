-- ===== src/Task/Inv.antt =====
-- The invariant of the task table of kernel/task.c.
use ts_os.Base.{
  ℕ, ◌<◌, ◌≡◌, ◌≢◌, ◌∙◌, sym, ap, ◌⊎◌, inl, inr, Bool-cases, some, List, get_elem?,
  get_elem?-set_self, get_elem?-set_ne, length, length-set, set, arith, ◌==◌,
}
use ts_os.Task.{Task, Tasks, max_task_num}
use ts_os.Task.Next.{IsLive}

-- the values that `state` takes: unallocated, present, and present with a switch due
abbrev pub IsState : ℕ → Type 0
IsState n = (n ≡ 0) ⊎ (n ≡ 1) ⊎ (n ≡ 3)

-- A table of 32 slots, in which every task knows its slot. The running task's own may have ended.
pub record IsTable (s : Tasks) : Type 0 where
  pub size : length s.task_arr ≡ max_task_num
  pub inside : s.current < max_task_num
  pub tids : (i : ℕ) (t : Task) → get_elem? s.task_arr i ≡ some t → t.state ≢ 0 → t.tid ≡ i
  pub states : (i : ℕ) (t : Task) → get_elem? s.task_arr i ≡ some t → IsState t.state
  pub own : (t : Task) → get_elem? s.task_arr s.current ≡ some t → t.tid ≡ s.current

-- a record in the table after a write is the one written or one from before
pub after-set :
    (arr : List Task) {c i : ℕ} (t' : Task) {u : Task}
    → c < length arr
    → get_elem? (set arr c t') i ≡ some u
    → ((i ≡ c) × (t' ≡ u)) ⊎ (get_elem? arr i ≡ some u)
after-set arr {c} {i} t' {u} inside e = elim (Bool-cases (c == i)) [
  | inl here ↦
      let c≡i : c ≡ i = ground arith in
      let e' : get_elem? (set arr c t') c ≡ some u = rw (← c≡i) at e in
      inl (sym c≡i, cc (e', get_elem?-set_self arr c t' inside))
  | inr other ↦ inr (sym (get_elem?-set_ne arr c i t' (ground arith)) ∙ e)
]

-- the table after a write to the running task's record
pub IsTable-set :
    (s s' : Tasks) {t : Task} (t' : Task)
    → IsTable s
    → get_elem? s.task_arr s.current ≡ some t
    → s'.task_arr ≡ set s.task_arr s.current t'
    → s'.current < max_task_num
    → t'.tid ≡ t.tid
    → IsState t'.state
    → IsLive s'.task_arr s'.current
    → IsTable s'
IsTable-set s s' {t} t' v at_t arr inside tid state live = record {
  size = ap length arr ∙ length-set s.task_arr s.current t' ∙ v.size;
  inside = inside;
  tids = tids';
  states = λ i u e. elim (after i u e) [
    | inl here ↦ rw (ap Task.state here.1) at state
    | inr old ↦ v.states i u old
  ];
  own = λ u e.
      let (w, got, ne) = live in
      tids' s'.current u e
        (λ dead. ne (let same : w ≡ u = cc (got, e) in ap Task.state same ∙ dead));
}
  where
    after :
        (i : ℕ) (u : Task)
        → get_elem? s'.task_arr i ≡ some u
        → ((i ≡ s.current) × (t' ≡ u)) ⊎ (get_elem? s.task_arr i ≡ some u)
    after i u e =
        after-set s.task_arr t' (omega (arith, v.size, v.inside))
          (sym (ap (λ z. get_elem? z i) arr) ∙ e)

    tids' : (i : ℕ) (u : Task) → get_elem? s'.task_arr i ≡ some u → u.state ≢ 0 → u.tid ≡ i
    tids' i u e ne = elim (after i u e) [
      | inl here ↦ sym (ap Task.tid here.1) ∙ tid ∙ v.own t at_t ∙ sym here.0
      | inr old ↦ v.tids i u old ne
    ]
