-- ===== src/Timer/Fair.antt =====
-- Runs of timer interrupts: no task starves, and the clock keeps time.
use ts_os.Base.{
  ℕ, zero, suc, ◌+◌, ◌-◌, ◌*◌, ◌≤◌, ◌<◌, ◌≡◌, ◌≢◌, refl, ◌∙◌, sym, ap, inl, inr, Bool-cases,
  get_elem?, get_elem?-lt, arith, leb, ◌==◌, some, done,
}
use ts_os.Task.{Task, Tasks, max_task_num, slot}
use ts_os.Task.Next.{IsLive}
use ts_os.Task.Schedule.{Scheduled, round_of}
use ts_os.Timer.{Machine, timer_interrupt, interrupts}
use ts_os.Timer.Quantum.{IsRested, Ticked, goes_on, gives_up, timer_interrupt-Ticked}

slot-slot :
    (c i j : ℕ) → i ≤ j → j ≤ max_task_num → c < max_task_num → slot (slot c i) (j - i) ≡ slot c j
slot-slot c i j le last inside = ground arith

ahead : (c d j : ℕ) → c < max_task_num → slot c d ≡ j → j ≢ c → 1 ≤ d
ahead c zero j hc at ne = absurd (ne (omega arith))
ahead c (suc d) j hc at ne = omega arith

-- the round of `schedule` is not behind a slot that holds a task
not_behind :
    {u s' : Tasks} {d j : ℕ}
    → Scheduled u s'
    → IsLive u.task_arr j
    → slot u.current d ≡ j
    → 1 ≤ d
    → (r : ℕ) × (1 ≤ r) × (r ≤ d) × (s'.current ≡ slot u.current r)
not_behind {u} {s'} {d} sch (t, at_t, live) at one = elim (Bool-cases (leb sch.round d)) [
  | inl near ↦ (sch.round, sch.first, ground arith, sch.at_slot)
  | inr far ↦
      let (w, at_w, dead) = sch.skipped d one (ground arith) in
      let w≡t : w ≡ t = cc (rw at at at_w, at_t) in absurd (live (sym (ap Task.state w≡t) ∙ dead))
]

-- `j` gets the processor within `n` interrupts
abbrev Reached : ℕ → Machine → ℕ → Type 0
Reached n m j =
    (k : ℕ) × (k ≤ n)
    × (m' : Machine) × (interrupts k m ≡ done m')
    × (m'.tasks.current ≡ j)
    × IsRested m'.tasks

later :
    (m : Machine) {m1 : Machine} {j n : ℕ}
    → timer_interrupt m ≡ done m1
    → Reached n m1 j
    → Reached (suc n) m j
unfolding interrupts
later m runs (k, le, m', more, at_j, v) = (suc k, omega arith, m', rw runs more, at_j, v)

here : (m : Machine) {j : ℕ} (n : ℕ) → IsRested m.tasks → m.tasks.current ≡ j → Reached n m j
unfolding interrupts
here m n v e = (0, omega arith, m, refl, e, v)

IsLive-elsewhere :
    (s s' : Tasks) {j : ℕ}
    → ((i : ℕ) → i ≢ s.current → get_elem? s'.task_arr i ≡ get_elem? s.task_arr i)
    → j ≢ s.current
    → IsLive s.task_arr j
    → IsLive s'.task_arr j
IsLive-elsewhere s s' {j} others ne (t, at_t, live) = (t, others j ne ∙ at_t, live)

-- slot `j`, which is `d` places behind the running task, is reached before long
abbrev Reaches : ℕ → ℕ → Type 0
Reaches n j =
    (m : Machine) (d : ℕ) (t : Task)
    → IsRested m.tasks
    → IsLive m.tasks.task_arr j
    → d < max_task_num
    → slot m.tasks.current d ≡ j
    → get_elem? m.tasks.task_arr m.tasks.current ≡ some t
    → t.ttl + 10 * d ≤ n
    → Reached n m j

after_tick :
    {n j : ℕ} (m : Machine) (d : ℕ) (t : Task) (m1 : Machine)
    → Reaches n j
    → IsRested m.tasks
    → IsLive m.tasks.task_arr j
    → d < max_task_num
    → slot m.tasks.current d ≡ j
    → get_elem? m.tasks.task_arr m.tasks.current ≡ some t
    → t.ttl + 10 * d ≤ suc n
    → j ≢ m.tasks.current
    → IsRested m1.tasks
    → Ticked m.tasks m1.tasks
    → Reached n m1 j
after_tick {j} m d t m1 rec v live hd at at_t bound ne v1
      (goes_on {t = w} {t'} at_w same at_t' less others) =
    let w≡t : w ≡ t = cc (at_w, at_t) in
    rec m1 d t' v1 (IsLive-elsewhere m.tasks m1.tasks others ne live) hd (rw same at)
      (rw same at_t') (omega (arith, ap Task.ttl w≡t))
after_tick {j} m d t m1 rec v live hd at at_t bound ne v1
      (gives_up {t = w} {u} at_w last same others sch) =
    let w≡t : w ≡ t = cc (at_w, at_t) in
    let live_u = IsLive-elsewhere m.tasks u others ne live in
    let ne_u : j ≢ u.current = λ e. ne (e ∙ same) in
    let (x, at_x, alive) = v1.runs in
    let (one, least, most) = v1.quantum m1.tasks.current x at_x alive in
    let at_u : slot u.current d ≡ j = rw same at in
    let hc : u.current < max_task_num = rw same v.table.inside in
    let (r, first, near, at_slot) = not_behind sch live_u at_u (ahead u.current d j hc at_u ne_u) in
    rec m1 (d - r) x v1 (IsLive-elsewhere u m1.tasks sch.others ne_u live_u) (omega arith)
      (rw at_slot (slot-slot u.current r d near (omega arith) hc ∙ at_u)) at_x
      (omega (arith, ap Task.ttl w≡t))

reach : (n j : ℕ) → Reaches n j
reach zero j m d t v live hd at at_t bound =
    let (u, at_u, alive) = v.runs in
    let u≡t : u ≡ t = cc (at_u, at_t) in
    let (one, least, most) = v.quantum m.tasks.current u at_u alive in
    absurd (omega (arith, ap Task.ttl u≡t))
reach (suc n) j m d t v live hd at at_t bound = elim (Bool-cases (j == m.tasks.current)) [
  | inl now ↦ here m (suc n) v (ground arith)
  | inr away ↦
      let ne : j ≢ m.tasks.current = ground arith in
      let (m1, runs, ticked, v1, counted) = timer_interrupt-Ticked m v in
      later m runs (after_tick m d t m1 (reach n j) v live hd at at_t bound ne v1 ticked)
]

-- Starvation cannot happen: on a machine where no switch is due and every task has one to ten ticks
-- left, any task in the table is the running one after at most 320 timer interrupts, all of which
-- return.
pub no_starvation :
    (m : Machine) (j : ℕ)
    → IsRested m.tasks
    → IsLive m.tasks.task_arr j
    → (k : ℕ) × (k ≤ 320)
      × (m' : Machine) × (interrupts k m ≡ done m')
      × (m'.tasks.current ≡ j)
      × IsRested m'.tasks
no_starvation m j v (t, at_t, live) =
    let (u, at_u, alive) = v.runs in
    let (one, least, most) = v.quantum m.tasks.current u at_u alive in
    let hj : j < max_task_num =
      omega (arith, get_elem?-lt m.tasks.task_arr j t at_t, v.table.size) in
    let (d, first, last, at) = round_of m.tasks.current j v.table.inside hj in
    elim (Bool-cases (d == max_task_num)) [
      | inl all_round ↦
          let e : m.tasks.current ≡ j =
            let d≡ : d ≡ max_task_num = ground arith in
            let at' : slot m.tasks.current max_task_num ≡ j = rw d≡ at at in
            omega (arith, v.table.inside) in
          here m 320 v e
      | inr short ↦ reach 320 j m d u v (t, at_t, live) (ground arith) at at_u (ground arith)
    ]
