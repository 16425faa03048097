-- ===== src/Paging/Translate.antt =====
-- What the first page directory of kernel/mem.c maps.
use ts_os.Base.{
  ℕ, ◌+◌, ◌*◌, ◌/◌, ◌%◌, ◌^◌, ◌<◌, ◌≡◌, refl, ◌∙◌, ap, sym, arith, get_elem?, done, ◌>>=◌,
}
use ts_os.Paging.{Space, kernel_v_start, user_p_start, page_base, page_dir_index, page_table_index}
use ts_os.Paging.Boot.{pg_dir0_addr, mib, init_pg_dir0_vmap}
use ts_os.Paging.Entries.{translate, translate-some}
use ts_os.Paging.Early.{Maps}
use ts_os.Paging.Start.{IsRange, map_below-Window}
use ts_os.Paging.Init.{dir0, dir0-IsDir0, init_pg_dir0-dir0}

-- an address in a page that is mapped
Maps-translate :
    (s : Space) (offset pa : ℕ)
    → offset % 2 ^ 22 ≡ 0
    → Maps s (page_base pa + offset) (page_base pa)
    → translate s pg_dir0_addr (pa + offset) ≡ done (page_base pa)
unfolding page_dir_index page_table_index page_base
Maps-translate s offset pa whole (d, got, there, e, word, present, base) =
    let x = pa / 4096 * 4096 in
    let same_table : (pa + offset) / 2 ^ 22 ≡ (x + offset) / 2 ^ 22 = omega arith in
    let same_entry : (pa + offset) / 2 ^ 12 % 1024 ≡ (x + offset) / 2 ^ 12 % 1024 = omega arith in
    translate-some s pg_dir0_addr (pa + offset) d e
      (ap (get_elem? (s.memory pg_dir0_addr)) same_table ∙ got) there
      (ap (get_elem? (s.memory (page_base d))) same_entry ∙ word) present
    ∙ ap done base

page_base-lt :
    (pa limit : ℕ)
    → limit % 4096 ≡ 0
    → pa < limit
    → (page_base pa < limit) × (page_base pa % 4096 ≡ 0)
unfolding page_base
page_base-lt pa limit pages lt = (omega arith, omega arith)

identity-IsRange : IsRange 0 mib
identity-IsRange = record { whole = refl; pages = refl; small = omega arith; low = omega arith }

kernel-IsRange : IsRange kernel_v_start user_p_start
kernel-IsRange = record { whole = refl; pages = refl; small = omega arith; low = omega arith }

-- Whatever the memory holds, `init_pg_dir0_vmap` returns, and in the directory that it builds the
-- processor finds for each address of the first 16 MiB at 0xC0000000 plus this address its page, and
-- for each of the first MiB at the address itself.
pub init_pg_dir0_vmap-translate :
    (s : Space)
    → (s' : Space) × (init_pg_dir0_vmap s ≡ done s')
      × ((pa : ℕ)
          → pa < user_p_start
          → translate s' pg_dir0_addr (pa + kernel_v_start) ≡ done (page_base pa))
      × ((pa : ℕ) → pa < mib → translate s' pg_dir0_addr pa ≡ done (page_base pa))
unfolding init_pg_dir0_vmap
init_pg_dir0_vmap-translate s =
    let (s2, low_runs, low) =
      map_below-Window 257 (dir0 s) 0 mib 0 identity-IsRange (dir0-IsDir0 s) refl (omega arith)
        (omega arith) (λ x lt al. absurd (omega arith)) in
    let (s3, high_runs, high) =
      map_below-Window 4097 s2 kernel_v_start user_p_start 0 kernel-IsRange low.ok refl
        (omega arith) (omega arith) (λ x lt al. absurd (omega arith)) in
    (
      s3,
      rw (init_pg_dir0-dir0 s, ◌>>=◌, low_runs, ◌>>=◌) high_runs,
      (λ pa lt.
          let facts = page_base-lt pa user_p_start refl lt in
          Maps-translate s3 kernel_v_start pa refl (high.maps (page_base pa) facts.0 facts.1)),
      (λ pa lt.
          let facts = page_base-lt pa mib refl lt in
          let plus : page_base pa + 0 ≡ page_base pa = omega arith in
          let here : pa + 0 ≡ pa = omega arith in
          ap (translate s3 pg_dir0_addr) (sym here)
          ∙ Maps-translate s3 0 pa refl (
              high.keeps (page_base pa + 0) (page_base pa) (omega (arith, facts.0))
                (low.maps (page_base pa) facts.0 facts.1))),
    )
