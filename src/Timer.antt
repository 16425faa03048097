-- ===== src/Timer.antt =====
-- drivers/timer.c, and the timer's way through `irq_handler_entry` of kernel/isr.c.
pub mod Clock
pub mod Quantum
pub mod Time
pub mod Fair
mod Tests
use ts_os.Base.{
  ℕ, zero, suc, ◌+◌, ◌-◌, ◌*◌, ◌/◌, ◌%◌, ◌^◌, bit_or, Bool, true, false, leb, ◌==◌, if◌then◌else◌,
  u8, u32, sub32, Outcome, done, halted, fault, out_of_fuel, ◌>>=◌,
}
use ts_os.Task.{Task, Tasks, current_task, set_current, task_need_sched, cond_schedule}

-- `TIMER_FREQUENCY`
abbrev pub timer_frequency : ℕ
timer_frequency = 25

pub record Machine : Type 0 where
  pub secs : ℕ
  pub freq_counter : ℕ
  pub tasks : Tasks

-- the two counters of `timer_handler`
pub count_tick : Machine → Machine
count_tick m =
    let n = u32 (m.freq_counter + 1) in
    if leb timer_frequency n
    then record m { secs = u32 (m.secs + 1); freq_counter = 0 }
    else record m { freq_counter = n }

-- its work on the running task
pub use_quantum : Task → Task
use_quantum t =
    let ttl = sub32 t.ttl 1 in
    if ttl == 0
    then record t { ttl = ttl; state = bit_or t.state task_need_sched }
    else record t { ttl = ttl }

pub timer_handler : Machine → Outcome Machine
timer_handler m =
    let m' = count_tick m in
    current_task m'.tasks >>= λ t. done (record m' { tasks = set_current m'.tasks (use_quantum t) })

-- `irq_handler_entry` for interrupt 32; the acknowledgement to the PIC is left out
pub timer_interrupt : Machine → Outcome Machine
timer_interrupt m =
    timer_handler m >>= λ m'. cond_schedule m'.tasks >>= λ s. done (record m' { tasks = s })

unfoldable pub interrupts : ℕ → Machine → Outcome Machine
interrupts zero m = done m
interrupts (suc k) m = timer_interrupt m >>= interrupts k

-- the bytes that `init_timer` sends to port 0x40, the low one first
abbrev pub divisor : ℕ
divisor = 1193180 / timer_frequency

abbrev pub init_timer_bytes : ℕ × ℕ
init_timer_bytes = (u8 (divisor % 256), u8 (divisor / 256 % 256))
