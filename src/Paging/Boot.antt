-- ===== src/Paging/Boot.antt =====
-- The first page directory, which kernel/mem.c builds before paging is on (the build with
-- `EARLY_INIT`): pointers are physical addresses. The screen and the console, which it starts next,
-- are left out.
use ts_os.Base.{
  ℕ, zero, suc, ◌+◌, ◌*◌, true, false, ◌==◌, ltb, if◌then◌else◌, u32, Outcome, done, out_of_fuel,
  ◌>>=◌,
}
use ts_os.Base.Bytes.{replicate}
use ts_os.Paging.{
  Space, page_p, page_flg_kernel, page_size, kernel_v_start, user_p_start, with_flags,
  page_dir_index, page_table_index, put_frame, write_frame, pg_dir_no_entry, pt_phy_from_dir,
  pg_dir_add,
}

abbrev pub pg_dir0_addr : ℕ
pg_dir0_addr = 0x100000

abbrev pub mib : ℕ
mib = 0x100000

-- the frame that a table of the first directory has
unfoldable pub dir0_pt_phy : ℕ → ℕ
dir0_pt_phy dir_idx = pg_dir0_addr + page_size + 4096 * dir_idx

abbrev pub zero_page : Space → ℕ → Space
zero_page s pa = put_frame s pa (replicate 1024 0)

-- the variant of `create_page_table` for this build
unfoldable pub create_page_table0 : Space → (dir rev_tb va flag : ℕ) → Outcome (ℕ × Space)
create_page_table0 s dir rev_tb va flag = pg_dir_no_entry s dir va >>= λ missing.
    if missing
    then (let pt_phy = dir0_pt_phy (page_dir_index va) in
        write_frame (zero_page s pt_phy) dir (page_dir_index va) (with_flags pt_phy flag) >>= λ s2.
        write_frame s2 rev_tb (page_dir_index va) (with_flags pt_phy page_p) >>= λ s3.
        done (pt_phy, s3))
    else done (0, s)

-- The three pages are zeroed, and the tables of tables and of the window entered.
unfoldable pub init_pg_dir0 : Space → Outcome Space
init_pg_dir0 s =
    let rev_tb_phy = dir0_pt_phy 1023 in
    let sys_tb_phy = dir0_pt_phy 1022 in
    let s1 = zero_page (zero_page (zero_page s pg_dir0_addr) rev_tb_phy) sys_tb_phy in
    pg_dir_add s1 pg_dir0_addr rev_tb_phy 1023 rev_tb_phy page_flg_kernel >>= λ (_, s2).
    pg_dir_add s2 pg_dir0_addr rev_tb_phy 1022 sys_tb_phy page_flg_kernel >>= λ (_, s3).
    write_frame s3 sys_tb_phy 1023 (with_flags pg_dir0_addr page_flg_kernel)

-- The entry is at the index of the physical address; its flag is `PAGE_P`.
unfoldable pub set_pg_dir0_vmap : Space → (va pa flag : ℕ) → Outcome Space
set_pg_dir0_vmap s va pa flag = pt_phy_from_dir s pg_dir0_addr 1023 >>= λ rev_tb.
    create_page_table0 s pg_dir0_addr rev_tb va page_flg_kernel >>= λ (pt, s1).
    (if pt == 0 then pt_phy_from_dir s1 pg_dir0_addr (page_dir_index va) else done pt) >>= λ pt'.
    write_frame s1 pt' (page_table_index pa) (with_flags pa page_p)

-- the loops of `init_pg_dir0_vmap`: the pages below `limit`, at their address plus `offset`
unfoldable pub map_below : ℕ → Space → (offset limit physical_address : ℕ) → Outcome Space
map_below zero s offset limit physical_address = out_of_fuel
map_below (suc k) s offset limit physical_address = elim (ltb physical_address limit) [
  | false ↦ done s
  | true ↦
      set_pg_dir0_vmap s (u32 (physical_address + offset)) physical_address page_flg_kernel
      >>= λ s1. map_below k s1 offset limit (u32 (physical_address + page_size))
]

-- 256 pages at their own addresses, and 4096 for the kernel
unfoldable pub init_pg_dir0_vmap : Space → Outcome Space
init_pg_dir0_vmap s = init_pg_dir0 s >>= λ s1.
    map_below 257 s1 0 mib 0 >>= λ s2. map_below 4097 s2 kernel_v_start user_p_start 0
