-- ===== src/Task.antt =====
-- kernel/task.c, kernel/task.h and asm/process.asm: the task table and its round-robin scheduler.
-- `current` always points into the table, so it is an index here. The stack pointer is the one at
-- which `__context_switch` saves the running task.
pub mod Next
pub mod Inv
pub mod Schedule
pub mod Load
pub mod Linked
mod Tests
mod LoadTests
use ts_os.Base.{
  ℕ, zero, suc, ◌+◌, ◌-◌, ◌%◌, ◌^◌, bit_and, Bool, true, false, not, Option, none, some, List, [],
  ◌∷◌, get_elem?, set, ◌==◌, if◌then◌else◌, u32, Outcome, done, halted, fault, out_of_fuel, ◌>>=◌,
  checked,
}

-- `MAX_TASK_NUM`
abbrev pub max_task_num : ℕ
max_task_num = 32

abbrev pub task_present : ℕ
task_present = 1

abbrev pub task_need_sched : ℕ
task_need_sched = 2

pub record Task : Type 0 where
  pub esp : ℕ
  pub phy_dir : ℕ
  pub esp0 : ℕ
  pub ptid : ℕ
  pub tid : ℕ
  pub state : ℕ
  pub ttl : ℕ

-- `task_arr`, `current`, the two fields of `tss_entry` that the code sets, and two registers
pub record Tasks : Type 0 where
  pub task_arr : List Task
  pub current : ℕ
  pub tss_esp0 : ℕ
  pub tss_ss0 : ℕ
  pub esp : ℕ
  pub cr3 : ℕ

-- `*current`
abbrev pub current_task : Tasks → Outcome Task
current_task s = checked (get_elem? s.task_arr s.current)

abbrev pub set_current : Tasks → Task → Tasks
set_current s t = record s { task_arr = set s.task_arr s.current t }

-- the slot that `schedule` looks at in round `i`
abbrev pub slot : (tid i : ℕ) → ℕ
slot tid i = u32 (tid + i) % max_task_num

-- The loop of `schedule` from round `i` on, with the rounds that are left; `none` is NULL.
unfoldable pub next_live : ℕ → List Task → (tid i : ℕ) → Outcome (Option ℕ)
next_live zero arr tid i = done none
next_live (suc k) arr tid i = checked (get_elem? arr (slot tid i)) >>= λ t.
    if t.state == 0 then next_live k arr tid (i + 1) else done (some (slot tid i))

-- the loop of `get_next_tid`, whose `ASSERT` fails when every slot is taken
unfoldable pub free_slot : ℕ → List Task → ℕ → Outcome ℕ
free_slot zero arr i = halted
free_slot (suc k) arr i =
    checked (get_elem? arr i) >>= λ t. if t.state == 0 then done i else free_slot k arr (i + 1)

pub get_next_tid : Tasks → Outcome ℕ
get_next_tid s = free_slot max_task_num s.task_arr 0

-- `__context_switch` of asm/process.asm
pub asm_context_switch : ℕ → Tasks → Outcome Tasks
asm_context_switch new s = current_task s >>= λ old.
    let saved = set_current s (record old { esp = s.esp; phy_dir = s.cr3 }) in
    checked (get_elem? saved.task_arr new) >>= λ t.
    done (record saved { current = new; esp = t.esp; cr3 = t.phy_dir })

pub context_switch : Option ℕ → Tasks → Outcome Tasks
context_switch none s = fault
context_switch (some new) s =
    if s.current == new
    then done s
    else checked (get_elem? s.task_arr new) >>= λ t.
        asm_context_switch new (record s { tss_esp0 = t.esp0; tss_ss0 = 0x10 })

-- `~(TASK_NEED_SCHED)`
abbrev pub not_need_sched : ℕ
not_need_sched = 0xFFFFFFFD

-- what `schedule` leaves in a task that gives up the processor
abbrev pub rested : Task → Task
rested t = record t { state = bit_and t.state not_need_sched; ttl = 10 }

pub schedule : Tasks → Outcome Tasks
schedule s = current_task s >>= λ t. next_live max_task_num s.task_arr t.tid 1 >>= λ next.
    if t.state == 0 then context_switch next s else context_switch next (set_current s (rested t))

pub cond_schedule : Tasks → Outcome Tasks
cond_schedule s =
    current_task s >>= λ t. if bit_and t.state task_need_sched == 0 then done s else schedule s

pub terminate_process : Tasks → Outcome Tasks
terminate_process s = current_task s >>= λ t. schedule (set_current s (record t { state = 0 }))
