-- ===== src/Paging/Tests.antt =====
-- Runs of kernel/mem.c in a memory of zeros, with an empty window.
use ts_os.Base.{ℕ, ◌+◌, ◌<◌, ◌≡◌, refl, [], done}
use ts_os.Base.Bytes.{replicate}
use ts_os.Paging.{Space, kernel_v_start, user_p_start, page_base, get_temp_va}
use ts_os.Paging.Boot.{pg_dir0_addr, mib, init_pg_dir0_vmap}
use ts_os.Paging.Entries.{translate}
use ts_os.Paging.Window.{Points, get_temp_va-Points}
use ts_os.Paging.Translate.{init_pg_dir0_vmap-translate}

abbrev blank : Space
blank = record { memory = λ a. []; temp = replicate 1024 0; bitmap = [] }

init_pg_dir0_vmap-translate_example :
    (s' : Space) × (init_pg_dir0_vmap blank ≡ done s')
    × ((pa : ℕ)
        → pa < user_p_start
        → translate s' pg_dir0_addr (pa + kernel_v_start) ≡ done (page_base pa))
    × ((pa : ℕ) → pa < mib → translate s' pg_dir0_addr pa ≡ done (page_base pa))
init_pg_dir0_vmap-translate_example = init_pg_dir0_vmap-translate blank

get_temp_va-Points_example : Points blank 0x1000000 (get_temp_va blank 0x1000000)
get_temp_va-Points_example = get_temp_va-Points blank 0x1000000 refl refl
