-- ===== src/Paging/Region.antt =====
-- Page tables and regions in kernel/mem.c, after the kernel runs in its own address space.
use ts_os.Base.{
  ℕ, zero, suc, ◌+◌, ◌-◌, ◌/◌, true, false, ◌||◌, not, ◌==◌, ltb, leb, if◌then◌else◌, u32, Outcome,
  done, halted, out_of_fuel, ◌>>=◌,
}
use ts_os.Frame.{alloc_frame}
use ts_os.Paging.{
  Space, page_p, page_flg_kernel, page_flg_usr, page_size, kernel_v_start, user_p_start,
  max_mem_size, entry_set, page_base, with_flags, page_dir_index, page_table_index, read_frame,
  write_frame, frame_of, memzero, pg_dir_no_entry, pt_phy_from_dir, lookup_temp_va, create_temp_va,
  delete_temp_va, get_temp_va, lookup_pt_temp_va, get_pt_va,
}

-- the frame of a new table, its place in the window, and the entries for it; `rev_tb` is a pointer
unfoldable pub create_page_table : Space → (dir rev_tb va flag : ℕ) → Outcome (ℕ × Space)
create_page_table s dir rev_tb va flag = pg_dir_no_entry s dir va >>= λ missing.
    if not missing
    then done (0, s)
    else (alloc_frame s.bitmap user_p_start max_mem_size >>= λ (bitmap, pt_phy).
        let (pt_base, s1) = create_temp_va (record s { bitmap = bitmap }) pt_phy in
        if (pt_phy == 0) || (pt_base == 0)
        then done (0, s1)
        else (memzero s1 pt_base >>= λ s2.
            write_frame s2 dir (page_dir_index va) (with_flags pt_phy flag) >>= λ s3.
            if rev_tb == 0
            then done (pt_base, s3)
            else (frame_of s3 rev_tb >>= λ rev.
                write_frame s3 rev (page_dir_index va) (with_flags pt_phy page_p) >>= λ s4.
                done (pt_base, s4))))

unfoldable pub get_page_table : Space → (dir rev_tb va flag : ℕ) → Outcome (ℕ × Space)
get_page_table s dir rev_tb va flag = create_page_table s dir rev_tb va flag >>= λ (pt, s1).
    if not (pt == 0)
    then done (pt, s1)
    else (pt_phy_from_dir s1 dir (page_dir_index va) >>= λ pt_phy.
        if not (lookup_temp_va s1 pt_phy == 0)
        then done (lookup_temp_va s1 pt_phy, s1)
        else (let (pt', s2) = create_temp_va s1 pt_phy in
            if pt' == 0 then halted else done (pt', s2)))

-- the frame behind a virtual address of a directory
unfoldable pub get_phy_from_dir : Space → (dir va : ℕ) → Outcome (ℕ × Space)
get_phy_from_dir s dir va = pt_phy_from_dir s dir (page_dir_index va) >>= λ phy_tb.
    let (tb, s1) = get_temp_va s phy_tb in
    frame_of s1 tb >>= λ pa.
    read_frame s1 pa (page_table_index va) >>= λ entry. done (page_base entry, delete_temp_va s1 tb)

-- A page that was not found is zeroed before it is found out.
unfoldable pub alloc_page : Space → (start_phy end_phy : ℕ) → Outcome (ℕ × ℕ × Space)
alloc_page s start_phy end_phy = alloc_frame s.bitmap start_phy end_phy >>= λ (bitmap, phy).
    let (ptr, s1) = create_temp_va (record s { bitmap = bitmap }) phy in
    memzero s1 ptr >>= λ s2. if (phy == 0) || (ptr == 0) then halted else done (ptr, phy, s2)

-- an entry that is not set gets a new page
unfoldable pub map_entry : Space → (pt_now va flag : ℕ) → Outcome Space
map_entry s pt_now va flag = frame_of s pt_now >>= λ pt.
    read_frame s pt (page_table_index va) >>= λ entry.
    if entry_set entry
    then done s
    else (alloc_page s user_p_start max_mem_size >>= λ (page, frame_phy, s1).
        frame_of s1 pt_now >>= λ pt'.
        write_frame s1 pt' (page_table_index va) (with_flags frame_phy flag) >>= λ s2.
        done (delete_temp_va s2 page))

-- the table for the next page, from the one of the page before, and the pointer `new_pt`
unfoldable pub next_table : Space → (dir rev_tb va dir_flg pt_now : ℕ) → Outcome (ℕ × ℕ × Space)
next_table s dir rev_tb va dir_flg pt_now =
    create_page_table s dir rev_tb va dir_flg >>= λ (new_pt, s1).
    if not (new_pt == 0)
    then done (new_pt, new_pt, if pt_now == 0 then s1 else delete_temp_va s1 pt_now)
    else (if pt_now == 0
        then (get_pt_va s1 dir (page_dir_index va) >>= λ (pt, s2). done (pt, new_pt, s2))
        else done (pt_now, new_pt, s1))

-- the loop over the pages up to `va_end`, with the last `new_pt`
unfoldable pub map_pages :
    ℕ → Space → (dir rev_tb va va_end flag dir_flg pt_now new_pt : ℕ) → Outcome (ℕ × Space)
map_pages zero s dir rev_tb va va_end flag dir_flg pt_now new_pt = out_of_fuel
map_pages (suc k) s dir rev_tb va va_end flag dir_flg pt_now new_pt = elim (leb va va_end) [
  | false ↦ done (new_pt, s)
  | true ↦
      let dir_flg' = if ltb va kernel_v_start then page_flg_usr else dir_flg in
      next_table s dir rev_tb va dir_flg' pt_now >>= λ (pt, new_pt', s1).
      map_entry s1 pt va flag >>= λ s2.
      map_pages k s2 dir rev_tb (u32 (va + page_size)) va_end flag dir_flg' pt new_pt'
]

-- The loop has a round for each page and one more, if the last one is not the last of all.
unfoldable pub request_region_vmap : Space → (dir va_start size flag : ℕ) → Outcome Space
request_region_vmap s dir va_start size flag =
    let va_end = page_base (u32 (va_start + size)) in
    let start = page_base va_start in
    lookup_pt_temp_va s dir 1023 >>= λ known.
    (if known == 0 then get_pt_va s dir 1023 else done (known, s)) >>= λ (rev_tb, s1).
    map_pages (suc (suc ((va_end - start) / page_size))) s1 dir rev_tb start va_end flag
      page_flg_kernel 0 0
    >>= λ (new_pt, s2).
        let s3 = if new_pt == 0 then s2 else delete_temp_va s2 new_pt in
        done (if known == 0 then delete_temp_va s3 rev_tb else s3)
