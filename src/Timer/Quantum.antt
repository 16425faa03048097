-- ===== src/Timer/Quantum.antt =====
-- Timer interrupts and the scheduler: the running task's quantum, and that every task gets to run.
use ts_os.Base.{
  ℕ, ◌+◌, ◌-◌, ◌≤◌, ◌≡◌, ◌≢◌, refl, ◌∙◌, sym, ap, ◌⊎◌, inl, inr, false, Bool-cases, get_elem?,
  get_elem?-set_self, get_elem?-set_ne, arith, ◌==◌, sub32, Outcome, done, some,
}
use ts_os.Task.{Task, Tasks, set_current, schedule}
use ts_os.Task.Next.{IsLive}
use ts_os.Task.Inv.{IsTable, IsTable-set, after-set}
use ts_os.Task.Schedule.{
  cond_schedule-due, cond_schedule-none_due, Scheduled, Decided, chosen, nobody_left,
  schedule-Decided,
}
use ts_os.Timer.{Machine, count_tick, use_quantum, timer_handler, timer_interrupt}
use ts_os.Timer.Clock.{count_tick-tasks}

-- Between two interrupts no switch is due and every task has one to ten ticks left.
pub record IsRested (s : Tasks) : Type 0 where
  pub table : IsTable s
  pub runs : IsLive s.task_arr s.current
  pub quantum :
      (i : ℕ) (t : Task)
      → get_elem? s.task_arr i ≡ some t
      → t.state ≢ 0
      → (t.state ≡ 1) × (1 ≤ t.ttl) × (t.ttl ≤ 10)

abbrev pub IsCounted : Machine → Machine → Type 0
IsCounted m m' = (m'.secs ≡ (count_tick m).secs) × (m'.freq_counter ≡ (count_tick m).freq_counter)

-- What one interrupt does: the running task goes on with a tick less, or its last tick is used and
-- `schedule` has run.
pub data Ticked (s s' : Tasks) : Type 0 where
  goes_on :
      {t t' : Task}
      → get_elem? s.task_arr s.current ≡ some t
      → s'.current ≡ s.current
      → get_elem? s'.task_arr s.current ≡ some t'
      → t'.ttl + 1 ≡ t.ttl
      → ((i : ℕ) → i ≢ s.current → get_elem? s'.task_arr i ≡ get_elem? s.task_arr i)
      → Ticked s s'
  gives_up :
      {t : Task} {u : Tasks}
      → get_elem? s.task_arr s.current ≡ some t
      → t.ttl ≡ 1
      → u.current ≡ s.current
      → ((i : ℕ) → i ≢ s.current → get_elem? u.task_arr i ≡ get_elem? s.task_arr i)
      → Scheduled u s'
      → Ticked s s'

module _ (s : Tasks) (v : IsRested s) (t : Task) (at_t : get_elem? s.task_arr s.current ≡ some t)
    (t' : Task) (same : t'.tid ≡ t.tid) where
  abbrev mid : Tasks
  mid = set_current s t'

  at_t' : get_elem? mid.task_arr s.current ≡ some t'
  at_t' = get_elem?-set_self s.task_arr s.current t' (omega (arith, v.table.size, v.table.inside))

  others : (i : ℕ) → i ≢ s.current → get_elem? mid.task_arr i ≡ get_elem? s.task_arr i
  others i d = get_elem?-set_ne s.task_arr s.current i t' (λ e. d (sym e))

  from :
      {i : ℕ} {u : Task}
      → get_elem? mid.task_arr i ≡ some u
      → ((i ≡ s.current) × (t' ≡ u)) ⊎ (get_elem? s.task_arr i ≡ some u)
  from e = after-set s.task_arr t' (omega (arith, v.table.size, v.table.inside)) e

  -- a tick less, but not the last
  on : t'.state ≡ 1 → 1 ≤ t'.ttl → t'.ttl ≤ 10 → IsRested mid
  on one least most =
      let alive : IsLive mid.task_arr s.current = (t', at_t', omega arith) in
      record {
        table = IsTable-set s mid t' v.table at_t refl v.table.inside same (inr (inl one)) alive;
        runs = alive;
        quantum = λ i u e ne. elim (from e) [
          | inl here ↦
              let all : (t'.state ≡ 1) × (1 ≤ t'.ttl) × (t'.ttl ≤ 10) = (one, least, most) in
              rw here.1 at all
          | inr old ↦ v.quantum i u old ne
        ];
      }

  -- the last one
  over : t'.state ≡ 3 → (s' : Tasks) × (schedule mid ≡ done s') × Scheduled mid s' × IsRested s'
  over three =
      let alive : IsLive mid.task_arr s.current = (t', at_t', omega arith) in
      let table =
        IsTable-set s mid t' v.table at_t refl v.table.inside same (inr (inr three)) alive in
      go (schedule-Decided mid table)
    where
      rested : {s' : Tasks} → Scheduled mid s' → IsRested s'
      rested sch = record {
        table = sch.table;
        runs = sch.runs;
        quantum = λ i u e ne. elim (Bool-cases (i == s.current)) [
          | inl here ↦
              let i≡c : i ≡ s.current = ground arith in
              let (w, got, lt, regs) = sch.left t' at_t' in
              let w≡u : w ≡ u = cc (got, rw i≡c at e) in
              let (one, ten) = lt.runnable (omega arith) in
              ground (arith, ap Task.state w≡u, ap Task.ttl w≡u)
          | inr away ↦
              let d : i ≢ s.current = ground arith in
              v.quantum i u (sym (others i d) ∙ sym (sch.others i d) ∙ e) ne
        ];
      }

      go :
          {r : Outcome Tasks}
          → Decided mid r
          → (s' : Tasks) × (r ≡ done s') × Scheduled mid s' × IsRested s'
      go (chosen {s'} sch) = (s', refl, sch, rested sch)
      go (nobody_left all) =
          let (w, got, dead) = all s.current v.table.inside in
          let same : w ≡ t' = cc (got, at_t') in absurd (omega (arith, ap Task.state same))

-- `timer_handler` at a record that was read
handler-runs :
    (m : Machine) {t : Task}
    → get_elem? m.tasks.task_arr m.tasks.current ≡ some t
    → timer_handler m ≡ done (record (count_tick m) { tasks = set_current m.tasks (use_quantum t) })
unfolding timer_handler
handler-runs m at_t = rw (count_tick-tasks m, at_t) refl

on_state : (t : Task) → 2 ≤ t.ttl → t.ttl ≤ 10 → use_quantum t ≡ record t { ttl = t.ttl - 1 }
unfolding use_quantum
on_state t two ten =
    let left : sub32 t.ttl 1 ≡ t.ttl - 1 = omega arith in
    let more : (t.ttl - 1 == 0) ≡ false = ground arith in rw (left, more) refl

over_state : (t : Task) → t.ttl ≡ 1 → t.state ≡ 1 → use_quantum t ≡ record t { ttl = 0; state = 3 }
unfolding use_quantum
over_state t last one = rw (last, one) refl

-- On a machine where no switch is due and every task has one to ten ticks left, a timer interrupt
-- returns and leaves such a machine: the running task goes on with a tick less, or, on its last
-- tick, `schedule` has picked the next task.
pub timer_interrupt-Ticked :
    (m : Machine)
    → IsRested m.tasks
    → (m' : Machine) × (timer_interrupt m ≡ done m')
      × Ticked m.tasks m'.tasks
      × IsRested m'.tasks
      × IsCounted m m'
unfolding timer_interrupt
timer_interrupt-Ticked m v =
    let s = m.tasks in
    let (t, at_t, live) = v.runs in
    let (one, least, most) = v.quantum s.current t at_t live in
    elim (Bool-cases (t.ttl == 1)) [
      | inl last ↦
          let e : t.ttl ≡ 1 = ground arith in
          let t' : Task = record t { ttl = 0; state = 3 } in
          let (s', runs, sch, rest) = over s v t at_t t' refl refl in
          (
            record (count_tick m) { tasks = s' },
            rw
                (
                  handler-runs m at_t,
                  over_state t e one,
                  cond_schedule-due (set_current s t') (at_t' s v t at_t t' refl) refl,
                  runs,
                )
                refl,
            gives_up at_t e refl (others s v t at_t t' refl) sch,
            rest,
            (refl, refl),
          )
      | inr more ↦
          let two : 2 ≤ t.ttl = ground arith in
          let t' : Task = record t { ttl = t.ttl - 1 } in
          (
            record (count_tick m) { tasks = set_current s t' },
            rw
                (
                  handler-runs m at_t,
                  on_state t two most,
                  cond_schedule-none_due (set_current s t') (at_t' s v t at_t t' refl) one,
                )
                refl,
            goes_on at_t refl (at_t' s v t at_t t' refl) (omega arith) (others s v t at_t t' refl),
            on s v t at_t t' refl one (omega arith) (omega arith),
            (refl, refl),
          )
    ]
