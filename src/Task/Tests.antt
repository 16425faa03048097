-- ===== src/Task/Tests.antt =====
-- The scheduler on a table of 32 slots.
use ts_os.Base.{
  ℕ, zero, suc, ◌+◌, ◌*◌, ◌≡◌, refl, sym, ap, ◌⊎◌, inl, inr, some, List, [], ◌∷◌, get_elem?, arith,
}
use ts_os.Task.{Task, Tasks, max_task_num, next_live, get_next_tid, schedule}
use ts_os.Task.Next.{Nearest, FirstFree, next_live-Nearest, get_next_tid-FirstFree}
use ts_os.Task.Inv.{IsTable}
use ts_os.Task.Schedule.{Decided, schedule-Decided}

abbrev task : (tid state : ℕ) → Task
task tid state = record {
  esp = 4096 * (tid + 1);
  phy_dir = 1048576 * (tid + 1);
  esp0 = 8192;
  ptid = 0;
  tid = tid;
  state = state;
  ttl = 10;
}

abbrev unused : ℕ → List Task
unused zero = []
unused (suc n) = task 0 0 ∷ unused n

-- tasks 0 and 2, of which the second is due to give up the processor
abbrev two : Tasks
two = record {
  task_arr = task 0 1 ∷ task 0 0 ∷ task 2 3 ∷ unused 29;
  current = 2;
  tss_esp0 = 8192;
  tss_ss0 = 16;
  esp = 5000;
  cr3 = 2097152;
}

unused_free : (n i : ℕ) (t : Task) → get_elem? (unused n) i ≡ some t → t.state ≡ 0
unused_free zero i t e = cc
unused_free (suc n) zero t e = let e' : task 0 0 ≡ t = cc in sym (ap Task.state e')
unused_free (suc n) (suc i) t e = unused_free n i t e

known :
    (i : ℕ) (t : Task)
    → get_elem? two.task_arr i ≡ some t
    → (t.state ≡ 0) ⊎ ((t.tid ≡ i) × ((t.state ≡ 1) ⊎ (t.state ≡ 3)))
known zero t e = let e' : task 0 1 ≡ t = cc in rw (← e') (inr (refl, inl refl))
known (suc zero) t e = let e' : task 0 0 ≡ t = cc in rw (← e') (inl refl)
known (suc (suc zero)) t e = let e' : task 2 3 ≡ t = cc in rw (← e') (inr (refl, inr refl))
known (suc (suc (suc i))) t e = inl (unused_free 29 i t e)

two-IsTable : IsTable two
two-IsTable = record {
  size = refl;
  inside = omega arith;
  tids = λ i t e ne. elim (known i t e) [ inl dead ↦ absurd (ne dead) | inr live ↦ live.0 ];
  states = λ i t e. elim (known i t e) [ inl dead ↦ inl dead | inr live ↦ inr live.1 ];
  own = λ t e. let e' : task 2 3 ≡ t = cc in sym (ap Task.tid e');
}

next_live-Nearest_example : Nearest two.task_arr 2 1 32 (next_live 32 two.task_arr 2 1)
next_live-Nearest_example = next_live-Nearest two.task_arr 2 32 1 refl

get_next_tid-FirstFree_example : FirstFree two.task_arr 0 max_task_num (get_next_tid two)
get_next_tid-FirstFree_example = get_next_tid-FirstFree two refl

schedule-Decided_example : Decided two (schedule two)
schedule-Decided_example = schedule-Decided two two-IsTable
