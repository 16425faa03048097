-- ===== src/Task/LoadTests.antt =====
-- Two page directories in an empty memory.
use ts_os.Base.{ℕ, ◌*◌, ◌^◌, ◌≤◌, ◌<◌, ◌≡◌, ◌≢◌, refl, ◌==◌, if◌then◌else◌, arith, done}
use ts_os.Base.Bytes.{replicate}
use ts_os.Paging.{Space, kernel_v_start}
use ts_os.Paging.Entries.{translate}
use ts_os.Task.Load.{link_kernel}
use ts_os.Task.Linked.{link_kernel-translate}

-- each entry of the directory at 0x100000 has the table at 0x101000
abbrev two_directories : Space
two_directories = record {
  memory = λ a. if a == 0x100000 then replicate 1024 0x10100B else replicate 1024 0;
  temp = replicate 1024 0;
  bitmap = replicate 4096 0;
}

link_kernel-translate_example :
    (s' : Space) × (link_kernel two_directories 0x102000 0x100000 ≡ done s')
    × ((va : ℕ)
        → kernel_v_start ≤ va
        → va < 1022 * 2 ^ 22
        → translate s' 0x102000 va ≡ translate s' 0x100000 va)
    × ((a : ℕ) → a ≢ 0x102000 → s'.memory a ≡ two_directories.memory a)
link_kernel-translate_example =
    link_kernel-translate two_directories 0x102000 0x100000 (λ e. omega arith) refl refl
