-- ===== src/Task/Schedule.antt =====
-- `schedule` of kernel/task.c: whom it picks, and what it saves and restores.
use ts_os.Base.{
  ℕ, ◌+◌, ◌-◌, ◌≤◌, ◌<◌, ◌≡◌, ◌≢◌, refl, ◌∙◌, sym, ap, inl, inr, true, false, Bool-cases, Option,
  some, get_elem?, get_elem?-some, get_elem?-set_self, get_elem?-set_ne, length, set, set-set,
  set-get_elem?, arith, ◌==◌, leb, Outcome, done, fault, ◌>>=◌, bit_and,
}
use ts_os.Task.{
  Task, Tasks, max_task_num, slot, next_live, not_need_sched, rested, set_current,
  asm_context_switch, context_switch, schedule, cond_schedule,
}
use ts_os.Task.Next.{IsLive, IsFree, Nearest, nobody, somebody, next_live-Nearest}
use ts_os.Task.Inv.{IsState, IsTable, IsTable-set}

-- what becomes of the record of the task that gives up the processor
pub record Left (t t' : Task) : Type 0 where
  pub ended : t.state ≡ 0 → t'.state ≡ 0
  pub runnable : t.state ≢ 0 → (t'.state ≡ 1) × (t'.ttl ≡ 10)
  pub same_tid : t'.tid ≡ t.tid

pub record Scheduled (s s' : Tasks) : Type 0 where
  pub round : ℕ
  pub first : 1 ≤ round
  pub last : round ≤ max_task_num
  pub at_slot : s'.current ≡ slot s.current round
  pub skipped : (m : ℕ) → 1 ≤ m → m < round → IsFree s.task_arr (slot s.current m)
  pub runs : IsLive s'.task_arr s'.current
  pub table : IsTable s'
  pub others : (i : ℕ) → i ≢ s.current → get_elem? s'.task_arr i ≡ get_elem? s.task_arr i
  pub left :
      (t : Task)
      → get_elem? s.task_arr s.current ≡ some t
      → (t' : Task) × (get_elem? s'.task_arr s.current ≡ some t')
        × Left t t'
        × (s'.current ≢ s.current → (t'.esp ≡ s.esp) × (t'.phy_dir ≡ s.cr3))
  pub resumed :
      (t : Task)
      → get_elem? s.task_arr s'.current ≡ some t
      → s'.current ≢ s.current
      → (s'.esp ≡ t.esp) × (s'.cr3 ≡ t.phy_dir) × (s'.tss_esp0 ≡ t.esp0) × (s'.tss_ss0 ≡ 0x10)
  pub stays : s'.current ≡ s.current → (s'.esp ≡ s.esp) × (s'.cr3 ≡ s.cr3)

abbrev switched : Tasks → ℕ → (old new : Task) → Tasks
switched s i old new = record {
  task_arr = set s.task_arr s.current (record old { esp = s.esp; phy_dir = s.cr3 });
  current = i;
  tss_esp0 = new.esp0;
  tss_ss0 = 0x10;
  esp = new.esp;
  cr3 = new.phy_dir;
}

context_switch-ne :
    (s : Tasks) {i : ℕ} {old new : Task}
    → get_elem? s.task_arr s.current ≡ some old
    → get_elem? s.task_arr i ≡ some new
    → s.current ≢ i
    → context_switch (some i) s ≡ done (switched s i old new)
unfolding context_switch asm_context_switch
context_switch-ne s {i} {old} {new} at_old at_new ne =
    let differs : (s.current == i) ≡ false = ground arith in
    rw
      (
        differs,
        at_new,
        at_old,
        get_elem?-set_ne s.task_arr s.current i (record old { esp = s.esp; phy_dir = s.cr3 }) ne,
        at_new,
      )
      refl

context_switch_self : (s : Tasks) → context_switch (some s.current) s ≡ done s
unfolding context_switch
context_switch_self s = let same : (s.current == s.current) ≡ true = ground arith in rw same refl

rested_state : (n : ℕ) → IsState n → n ≢ 0 → bit_and n not_need_sched ≡ 1
rested_state n (inl e) ne = absurd (ne e)
rested_state n (inr (inl e)) ne = rw e refl
rested_state n (inr (inr e)) ne = rw e refl

slot-inside : (tid i : ℕ) → slot tid i < max_task_num
slot-inside tid i = omega arith

-- `schedule` from the record `t0` that it leaves in the running task's slot
module _ (s : Tasks) (v : IsTable s) {t : Task} (at_t : get_elem? s.task_arr s.current ≡ some t)
    (t0 : Task) (lt : Left t t0) (st : IsState t0.state) (j : ℕ) (one : 1 ≤ j)
    (last : j ≤ max_task_num)
    (skip : (m : ℕ) → 1 ≤ m → m < j → IsFree s.task_arr (slot s.current m))
    (live : IsLive s.task_arr (slot s.current j)) where
  abbrev mid : Tasks
  mid = set_current s t0

  abbrev GoalOf : Outcome Tasks → Type 0
  GoalOf r = (s' : Tasks) × (r ≡ done s') × Scheduled s s'

  in_arr : s.current < length s.task_arr
  in_arr = omega (arith, v.size, v.inside)

  at_t0 : get_elem? mid.task_arr s.current ≡ some t0
  at_t0 = get_elem?-set_self s.task_arr s.current t0 in_arr

  picked_self : s.current ≡ slot s.current j → GoalOf (context_switch (some (slot s.current j)) mid)
  picked_self same =
      let (u, at_u, ne) = live in
      let t≡u : t ≡ u = cc (rw (← same) at at_u, at_t) in
      let alive : IsLive mid.task_arr s.current =
        (t0, at_t0, λ z. ground (arith, lt.runnable λ y. ne (sym (ap Task.state t≡u) ∙ y))) in
      (
        mid,
        rw (← same) (context_switch_self mid),
        record {
          round = j;
          first = one;
          last = last;
          at_slot = same;
          skipped = skip;
          runs = alive;
          table = IsTable-set s mid t0 v at_t refl v.inside lt.same_tid st alive;
          others = λ i d. get_elem?-set_ne s.task_arr s.current i t0 (λ e. d (sym e));
          left = λ w at_w.
              let t≡w : t ≡ w = cc (at_w, at_t) in (t0, at_t0, rw t≡w at lt, λ d. absurd (d refl));
          resumed = λ w at_w d. absurd (d refl);
          stays = λ e. (refl, refl);
        },
      )

  picked_other :
      s.current ≢ slot s.current j → GoalOf (context_switch (some (slot s.current j)) mid)
  picked_other other =
      let (u, at_u, ne) = live in
      let n : ℕ = slot s.current j in
      let t1 : Task = record t0 { esp = s.esp; phy_dir = s.cr3 } in
      let after : Tasks = switched mid n t0 u in
      let arr : after.task_arr ≡ set s.task_arr s.current t1 = set-set s.task_arr s.current t0 t1 in
      let others : (i : ℕ) → i ≢ s.current → get_elem? after.task_arr i ≡ get_elem? s.task_arr i =
        λ i d. rw arr (get_elem?-set_ne s.task_arr s.current i t1 (λ e. d (sym e))) in
      let alive : IsLive after.task_arr n = (u, others n (λ e. other (sym e)) ∙ at_u, ne) in
      let lt1 : Left t t1 = record {
        ended = lt.ended;
        runnable = lt.runnable;
        same_tid = lt.same_tid;
      } in
      (
        after,
        context_switch-ne mid at_t0 (get_elem?-set_ne s.task_arr s.current n t0 other ∙ at_u) other,
        record {
          round = j;
          first = one;
          last = last;
          at_slot = refl;
          skipped = skip;
          runs = alive;
          table = IsTable-set s after t1 v at_t arr (slot-inside s.current j) lt.same_tid st alive;
          others = others;
          left = λ w at_w.
              let t≡w : t ≡ w = cc (at_w, at_t) in
              (
                t1,
                rw arr (get_elem?-set_self s.task_arr s.current t1 in_arr),
                rw t≡w at lt1,
                λ d. (refl, refl),
              );
          resumed = λ w at_w d.
              let u≡w : u ≡ w = cc (at_w, at_u) in
              (ap Task.esp u≡w, ap Task.phy_dir u≡w, ap Task.esp0 u≡w, refl);
          stays = λ e. absurd (other (sym e));
        },
      )

  picked : GoalOf (context_switch (some (slot s.current j)) mid)
  picked = elim (Bool-cases (s.current == slot s.current j)) [
    | inl self ↦ picked_self (ground arith)
    | inr other ↦ picked_other (ground arith)
  ]

-- the round in which `schedule` comes to slot `i`
pub round_of :
    (c i : ℕ)
    → c < max_task_num
    → i < max_task_num
    → (j : ℕ) × (1 ≤ j) × (j ≤ max_task_num) × (slot c j ≡ i)
round_of c i hc hi = elim (Bool-cases (leb i c)) [
  | inl before ↦ (i + 32 - c, ground arith, ground arith, ground arith)
  | inr behind ↦ (i - c, ground arith, ground arith, ground arith)
]

-- What `schedule` may do: switch to a task, or read through NULL when there is none.
pub data Decided (s : Tasks) : Outcome Tasks → Type 0 where
  chosen : {s' : Tasks} → Scheduled s s' → Decided s (done s')
  nobody_left : ((i : ℕ) → i < max_task_num → IsFree s.task_arr i) → Decided s fault

module _ (s : Tasks) (v : IsTable s) {t : Task}
    (at_t : get_elem? s.task_arr s.current ≡ some t) where
  everyone :
      ((j : ℕ) → 1 ≤ j → j < 1 + max_task_num → IsFree s.task_arr (slot s.current j))
      → (i : ℕ) → i < max_task_num
      → IsFree s.task_arr i
  everyone all i hi =
      let (j, one, last, at) = round_of s.current i v.inside hi in
      rw at at (all j one (omega arith))

  decide :
      (t0 : Task)
      → Left t t0
      → IsState t0.state
      → {r : Outcome (Option ℕ)} → Nearest s.task_arr s.current 1 max_task_num r
      → Decided s (r >>= λ next. context_switch next (set_current s t0))
  unfolding context_switch
  decide t0 lt st (nobody all) = nobody_left (everyone all)
  decide t0 lt st (somebody j one last skip live) =
      let (s', runs, sch) = picked s v at_t t0 lt st j one (omega arith) skip live in
      rw runs (chosen sch)

-- On a well-formed task table, `schedule` switches to the first task behind the current one in the
-- order of the slots, which may be the current one itself, saving the stack pointer and page
-- directory of the task it leaves and loading those of the one it enters; it reads through NULL
-- exactly if no slot holds a task.
pub schedule-Decided : (s : Tasks) → IsTable s → Decided s (schedule s)
unfolding schedule
schedule-Decided s v =
    let (t, at_t) = get_elem?-some s.task_arr s.current (omega (arith, v.size, v.inside)) in
    let near = next_live-Nearest s.task_arr s.current max_task_num 1 v.size in
    let loop : next_live max_task_num s.task_arr t.tid 1
        ≡ next_live max_task_num s.task_arr s.current 1 =
      ap (λ d. next_live max_task_num s.task_arr d 1) (v.own t at_t) in
    rw (at_t, loop)
      (elim (Bool-cases (t.state == 0)) [
        | inl dead ↦
            let same : Left t t = record {
              ended = λ e. e;
              runnable = λ ne. absurd (ne (ground arith));
              same_tid = refl;
            } in
            let unchanged = set-get_elem? s.task_arr s.current t at_t in
            rw dead (rw unchanged at (decide s v at_t t same (v.states s.current t at_t) near))
        | inr runs ↦
            let one : (rested t).state ≡ 1 =
              rested_state t.state (v.states s.current t at_t) (ground arith) in
            let rest : Left t (rested t) = record {
              ended = λ e. ground arith;
              runnable = λ ne. (one, refl);
              same_tid = refl;
            } in
            rw runs (decide s v at_t (rested t) rest (inr (inl one)) near)
      ])

-- `cond_schedule` goes by the flag that a switch is due
pub cond_schedule-due :
    (s : Tasks) {t : Task}
    → get_elem? s.task_arr s.current ≡ some t
    → t.state ≡ 3
    → cond_schedule s ≡ schedule s
unfolding cond_schedule
cond_schedule-due s at_t three = rw (at_t, three) refl

pub cond_schedule-none_due :
    (s : Tasks) {t : Task}
    → get_elem? s.task_arr s.current ≡ some t
    → t.state ≡ 1
    → cond_schedule s ≡ done s
unfolding cond_schedule
cond_schedule-none_due s at_t one = rw (at_t, one) refl
