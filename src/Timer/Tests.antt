-- ===== src/Timer/Tests.antt =====
-- Runs of timer interrupts on a machine of three tasks.
use ts_os.Base.{
  ℕ, zero, suc, ap, ◌⊎◌, ◌*◌, ◌+◌, ◌≤◌, ◌<◌, ◌≡◌, refl, sym, inl, inr, some, List, [], ◌∷◌,
  get_elem?, arith, done,
}
use ts_os.Task.{Task, Tasks}
use ts_os.Task.Inv.{IsTable}
use ts_os.Timer.{Machine, timer_frequency, interrupts, timer_interrupt}
use ts_os.Timer.Quantum.{IsRested, IsCounted, Ticked, timer_interrupt-Ticked}
use ts_os.Timer.Clock.{ticks}
use ts_os.Timer.Fair.{no_starvation}
use ts_os.Timer.Time.{interrupts-ticks}

abbrev task : (tid state ttl : ℕ) → Task
task tid state ttl = record {
  esp = 4096 * (tid + 1);
  phy_dir = 1048576 * (tid + 1);
  esp0 = 8192;
  ptid = 0;
  tid = tid;
  state = state;
  ttl = ttl;
}

abbrev unused : ℕ → List Task
unused zero = []
unused (suc n) = task 0 0 0 ∷ unused n

-- tasks 0, 1 and 3, of which the second runs
abbrev three : Tasks
three = record {
  task_arr = task 0 1 10 ∷ task 1 1 2 ∷ task 0 0 0 ∷ task 3 1 10 ∷ unused 28;
  current = 1;
  tss_esp0 = 8192;
  tss_ss0 = 16;
  esp = 5000;
  cr3 = 2097152;
}

abbrev machine : Machine
machine = record { secs = 7; freq_counter = 24; tasks = three }

unused_free : (n i : ℕ) (t : Task) → get_elem? (unused n) i ≡ some t → t.state ≡ 0
unused_free zero i t e = cc
unused_free (suc n) zero t e = sym (ap Task.state e')
  where
    e' : task 0 0 0 ≡ t
    e' = cc e
unused_free (suc n) (suc i) t e = unused_free n i t e

known :
    (i : ℕ) (t : Task)
    → get_elem? three.task_arr i ≡ some t
    → (t.state ≡ 0) ⊎ ((t.tid ≡ i) × (t.state ≡ 1) × (1 ≤ t.ttl) × (t.ttl ≤ 10))
known zero t e =
    let e' : task 0 1 10 ≡ t = cc in rw (← e') (inr (refl, refl, omega arith, omega arith))
known (suc zero) t e =
    let e' : task 1 1 2 ≡ t = cc in rw (← e') (inr (refl, refl, omega arith, omega arith))
known (suc (suc zero)) t e = let e' : task 0 0 0 ≡ t = cc in rw (← e') (inl refl)
known (suc (suc (suc zero))) t e =
    let e' : task 3 1 10 ≡ t = cc in rw (← e') (inr (refl, refl, omega arith, omega arith))
known (suc (suc (suc (suc i)))) t e = inl (unused_free 28 i t e)

three-IsTable : IsTable three
three-IsTable = record {
  size = refl;
  inside = omega arith;
  tids = λ i t e ne. elim (known i t e) [ inl dead ↦ absurd (ne dead) | inr live ↦ live.0 ];
  states = λ i t e. elim (known i t e) [ inl dead ↦ inl dead | inr live ↦ inr (inl live.1) ];
  own = λ t e. let e' : task 1 1 2 ≡ t = cc in sym (ap Task.tid e');
}

three-IsRested : IsRested three
three-IsRested = record {
  table = three-IsTable;
  runs = (task 1 1 2, refl, omega arith);
  quantum = λ i t e ne. elim (known i t e) [
    | inl dead ↦ absurd (ne dead)
    | inr live ↦ (live.1, live.2, live.3)
  ];
}

timer_interrupt-Ticked_example :
    (m' : Machine) × (timer_interrupt machine ≡ done m')
    × Ticked three m'.tasks
    × IsRested m'.tasks
    × IsCounted machine m'
timer_interrupt-Ticked_example = timer_interrupt-Ticked machine three-IsRested

no_starvation_example :
    (k : ℕ) × (k ≤ 320)
    × (m' : Machine) × (interrupts k machine ≡ done m')
    × (m'.tasks.current ≡ 0)
    × IsRested m'.tasks
no_starvation_example = no_starvation machine 0 three-IsRested (task 0 1 10, refl, omega arith)

interrupts-ticks_example :
    (m' : Machine) × (interrupts 60 machine ≡ done m')
    × (ticks m' ≡ ticks machine + 60)
    × (m'.freq_counter < timer_frequency)
    × IsRested m'.tasks
interrupts-ticks_example = interrupts-ticks 60 machine three-IsRested (omega arith) (omega arith)
