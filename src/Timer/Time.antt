-- ===== src/Timer/Time.antt =====
-- The seconds of drivers/timer.c over a run of interrupts.
use ts_os.Base.{ℕ, zero, suc, ◌+◌, ◌^◌, ◌<◌, ◌≡◌, refl, arith, done}
use ts_os.Timer.{Machine, timer_frequency, interrupts}
use ts_os.Timer.Clock.{ticks, count_tick-ticks}
use ts_os.Timer.Quantum.{IsRested, timer_interrupt-Ticked}

-- The clock keeps time: on a machine where no switch is due, every task has one to ten ticks left
-- and the counter of ticks is below 25, any number `k` of timer interrupts returns, and seconds and
-- counter together have advanced by `k` ticks of a 25th of a second, with the counter below 25
-- again. It needs that the seconds cannot wrap.
pub interrupts-ticks :
    (k : ℕ) (m : Machine)
    → IsRested m.tasks
    → m.freq_counter < timer_frequency
    → m.secs + k < 2 ^ 32
    → (m' : Machine) × (interrupts k m ≡ done m')
      × (ticks m' ≡ ticks m + k)
      × (m'.freq_counter < timer_frequency)
      × IsRested m'.tasks
unfolding interrupts
interrupts-ticks zero m v below small = (m, refl, omega arith, below, v)
interrupts-ticks (suc k) m v below small =
    let (m1, runs, ticked, v1, counted) = timer_interrupt-Ticked m v in
    let (one, below1) = count_tick-ticks m below (omega arith) in
    let (m2, more, all, below2, v2) =
      interrupts-ticks k m1 v1 (omega (arith, counted.1)) (omega (arith, counted.0, counted.1)) in
    (m2, rw runs more, omega (arith, counted.0, counted.1), below2, v2)
