-- ===== src/Timer/Clock.antt =====
-- The clock of drivers/timer.c counts the interrupts.
use ts_os.Base.{ℕ, ◌+◌, ◌*◌, ◌^◌, ◌<◌, ◌≡◌, refl, Bool-cases, inl, inr, arith, leb, u32}
use ts_os.Timer.{Machine, timer_frequency, count_tick}

-- the ticks since the start
abbrev pub ticks : Machine → ℕ
ticks m = m.secs * timer_frequency + m.freq_counter

pub count_tick-ticks :
    (m : Machine)
    → m.freq_counter < timer_frequency
    → m.secs + 1 < 2 ^ 32
    → (ticks (count_tick m) ≡ ticks m + 1) × ((count_tick m).freq_counter < timer_frequency)
unfolding count_tick
count_tick-ticks m below small = ground arith

pub count_tick-tasks : (m : Machine) → (count_tick m).tasks ≡ m.tasks
unfolding count_tick
count_tick-tasks m = elim (Bool-cases (leb timer_frequency (u32 (m.freq_counter + 1)))) [
  | inl full ↦ rw full refl
  | inr short ↦ rw short refl
]
