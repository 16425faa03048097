-- ===== src/Task/Load.antt =====
-- Loading a task in kernel/task.c: its address space, its kernel stack and its place in the task
-- table. An image is the list of the bytes from its address `base` on. The memory is that of
-- kernel/mem.c.
use ts_os.Base.{
  ℕ, zero, suc, ◌+◌, ◌-◌, ◌/◌, ◌%◌, ◌^◌, true, false, ◌||◌, not, List, [], ◌∷◌, ◌++◌, length,
  get_elem?, set, ◌==◌, ltb, leb, if◌then◌else◌, u32, sub32, Outcome, done, halted, fault,
  out_of_fuel, ◌>>=◌, checked,
}
use ts_os.Base.Bytes.{take, drop, replicate, u32_at}
use ts_os.Task.{Task, Tasks, current_task, get_next_tid, asm_context_switch, task_present}
use ts_os.Paging.{
  Space, page_flg_kernel, page_flg_usr, page_size, kernel_v_start, user_p_start, max_mem_size,
  page_base, with_flags, page_dir_index, ix_to_va, read_frame, put_frame, write_frame, frame_of,
  create_temp_va, delete_temp_va, get_temp_va, pg_dir_add,
}
use ts_os.Paging.Region.{get_phy_from_dir, alloc_page, request_region_vmap}
use ts_os.Paging.Boot.{pg_dir0_addr}

abbrev pub kstack_frame : ℕ
kstack_frame = ix_to_va 1021 1023

abbrev pub ustack_frame : ℕ
ustack_frame = kernel_v_start - page_size

pub record TsExHeader : Type 0 where
  pub magic : ℕ
  pub lma_text : ℕ
  pub vma_text : ℕ
  pub text_size : ℕ
  pub lma_data : ℕ
  pub vma_data : ℕ
  pub data_size : ℕ

-- the header at the beginning of an image
unfoldable pub header_of : List ℕ → Outcome TsExHeader
header_of img = u32_at img 0 >>= λ magic. u32_at img 4 >>= λ lma_text. u32_at img 8 >>= λ vma_text.
    u32_at img 12 >>= λ text_size. u32_at img 16 >>= λ lma_data. u32_at img 20 >>= λ vma_data.
    u32_at img 24 >>= λ data_size. done (record {
      magic = magic;
      lma_text = lma_text;
      vma_text = vma_text;
      text_size = text_size;
      lma_data = lma_data;
      vma_data = vma_data;
      data_size = data_size;
    })

unfoldable pub next_task_pos : List ℕ → (header_addr : ℕ) → Outcome ℕ
next_task_pos img header_addr =
    header_of img >>= λ header. done (u32 (header_addr + header.lma_data + header.data_size))

-- `n` words from a byte offset on
unfoldable pub words_at : ℕ → List ℕ → (at : ℕ) → Outcome (List ℕ)
words_at zero img at = done []
words_at (suc n) img at =
    u32_at img at >>= λ word. words_at n img (at + 4) >>= λ words. done (word ∷ words)

-- `words` over those of a frame from `i` on
unfoldable pub write_words : Space → (pa i : ℕ) → List ℕ → Outcome Space
write_words s pa i words =
    let frame = s.memory pa in
    if leb (i + length words) (length frame)
    then done (put_frame s pa (take i frame ++ (words ++ drop (i + length words) frame)))
    else fault

-- a round of the loops that copy a section: a page of the image to the page at `vma`
unfoldable pub copy_page : Space → List ℕ → (base dir vma_img vma : ℕ) → Outcome Space
copy_page s img base dir vma_img vma = get_phy_from_dir s dir vma >>= λ (page_phy, s1).
    let (page, s2) = create_temp_va s1 page_phy in
    words_at 1024 img (sub32 vma_img base) >>= λ words.
    frame_of s2 page >>= λ pa. write_words s2 pa 0 words >>= λ s3. done (delete_temp_va s3 page)

unfoldable pub copy_section :
    ℕ → Space → List ℕ → (base dir vma_img img_end vma : ℕ) → Outcome Space
copy_section zero s img base dir vma_img img_end vma = out_of_fuel
copy_section (suc k) s img base dir vma_img img_end vma = elim (ltb vma_img img_end) [
  | false ↦ done s
  | true ↦ copy_page s img base dir vma_img vma >>= λ s'.
      copy_section k s' img base dir (u32 (vma_img + page_size)) img_end (u32 (vma + page_size))
]

-- a section of `size` bytes at `lma` in the image, with a round for each page of it and one more
unfoldable pub load_section :
    Space → List ℕ → (base dir lma vma_region vma size : ℕ) → Outcome Space
load_section s img base dir lma vma_region vma size =
    let img_base = u32 (base + lma) in
    request_region_vmap s dir vma_region size page_flg_usr >>= λ s1.
    copy_section (2 + size / page_size) s1 img base dir img_base (u32 (img_base + size)) vma

-- The pointer to the directory is deleted even if it was there before.
unfoldable pub create_task_address_space : Space → List ℕ → (phy_dir base : ℕ) → Outcome Space
create_task_address_space s img phy_dir base = header_of img >>= λ header.
    if not (header.magic == 0xABCD1234) || not (header.vma_data % page_size == 0)
    then halted
    else (let (dir_va, s1) = get_temp_va s phy_dir in
        frame_of s1 dir_va >>= λ dir.
        load_section s1 img base dir header.lma_text header.vma_text (page_base header.vma_text)
          header.text_size
        >>= λ s2.
            load_section s2 img base dir header.lma_data header.vma_data header.vma_data
              header.data_size
            >>= λ s3. request_region_vmap s3 dir ustack_frame page_size page_flg_usr >>= λ s4.
                done (delete_temp_va s4 dir_va))

-- the word of a frame at which `KSTACK_TO_TASK` finds the task, of seven words
abbrev pub task_at : ℕ
task_at = 1017

unfoldable pub read_task : Space → (pa : ℕ) → Outcome Task
read_task s pa = read_frame s pa task_at >>= λ esp. read_frame s pa (task_at + 1) >>= λ phy_dir.
    read_frame s pa (task_at + 2) >>= λ esp0. read_frame s pa (task_at + 3) >>= λ ptid.
    read_frame s pa (task_at + 4) >>= λ tid. read_frame s pa (task_at + 5) >>= λ state.
    read_frame s pa (task_at + 6) >>= λ ttl. done (record {
      esp = esp;
      phy_dir = phy_dir;
      esp0 = esp0;
      ptid = ptid;
      tid = tid;
      state = state;
      ttl = ttl;
    })

-- `task_arr[tid] = *task`, with the task
unfoldable pub enter_task : Space → Tasks → (pa : ℕ) → Outcome (Task × Tasks)
enter_task s ts pa = read_task s pa >>= λ task. checked (get_elem? ts.task_arr task.tid) >>= λ _.
    done (task, record ts { task_arr = set ts.task_arr task.tid task })

-- The result is the pointer to the stack. The field `esp` is not written.
unfoldable pub alloc_kstack_and_task : Space → Tasks → (new_cr3 : ℕ) → Outcome (ℕ × Space × Tasks)
alloc_kstack_and_task s ts new_cr3 =
    let (new_pg_dir, s1) = create_temp_va s new_cr3 in
    frame_of s1 new_pg_dir >>= λ dir.
    request_region_vmap s1 dir kstack_frame page_size page_flg_kernel >>= λ s2.
    get_phy_from_dir s2 dir kstack_frame >>= λ (stack_phy, s3).
    let (stack, s4) = create_temp_va s3 stack_phy in
    frame_of s4 stack >>= λ pa. current_task ts >>= λ current. get_next_tid ts >>= λ tid.
    write_words s4 pa (task_at + 1)
      (new_cr3 ∷ (kstack_frame + page_size - 28 - 4) ∷ current.tid ∷ tid ∷ task_present ∷ 10 ∷ [])
    >>= λ s5. enter_task s5 ts pa >>= λ (_, ts'). done (stack, delete_temp_va s5 new_pg_dir, ts')

-- the loop that links the kernel's part of the parent's directory, over `n` entries from `i` on
unfoldable pub link_from : ℕ → Space → (dir parent_dir i : ℕ) → Outcome Space
link_from zero s dir parent_dir i = done s
link_from (suc n) s dir parent_dir i = read_frame s parent_dir i >>= λ entry.
    write_frame s dir i entry >>= λ s'. link_from n s' dir parent_dir (i + 1)

-- from `PAGE_DIR_INDEX(KERNEL_V_START)` to 1021
unfoldable pub link_kernel : Space → (dir parent_dir : ℕ) → Outcome Space
link_kernel s dir parent_dir =
    link_from (1022 - page_dir_index kernel_v_start) s dir parent_dir
      (page_dir_index kernel_v_start)

-- the three pages of a new address space: the pointers to them, and the frame of the directory
unfoldable pub new_directory : Space → (parent_dir : ℕ) → Outcome (List ℕ × ℕ × Space)
new_directory s parent_dir =
    alloc_page s user_p_start max_mem_size >>= λ (new_pg_dir, new_pg_dir_phy, s1).
    alloc_page s1 user_p_start max_mem_size >>= λ (rev_tb, rev_tb_phy, s2).
    alloc_page s2 user_p_start max_mem_size >>= λ (sys_pg, sys_pg_phy, s3).
    frame_of s3 new_pg_dir >>= λ dir. frame_of s3 rev_tb >>= λ rev. frame_of s3 sys_pg >>= λ sys.
    pg_dir_add s3 dir rev 1023 rev_tb_phy page_flg_kernel >>= λ (_, s4).
    write_frame s4 sys 1023 (with_flags new_pg_dir_phy page_flg_kernel) >>= λ s5.
    pg_dir_add s5 dir rev 1022 sys_pg_phy page_flg_kernel >>= λ (_, s6).
    link_kernel s6 dir parent_dir >>= λ s7.
    done (new_pg_dir ∷ rev_tb ∷ sys_pg ∷ [], new_pg_dir_phy, s7)

-- The cleared registers of `struct ContextRegister` with `eip`, and the rest of a `struct TrapFrame`.
unfoldable pub trap_frame : (ret_syscall : ℕ) → List ℕ
trap_frame ret_syscall =
    replicate 9 0
    ++ (ret_syscall
        ∷ 0x23
        ∷ 0x23
        ∷ 0x23
        ∷ 0x23
        ∷ 0
        ∷ 0x1b
        ∷ 2 ^ 9
        ∷ (ustack_frame + page_size - 4)
        ∷ 0x23
        ∷ [])

unfoldable pub delete_all : Space → List ℕ → Space
delete_all s [] = s
delete_all s (va ∷ vas) = delete_all (delete_temp_va s va) vas

-- The result is the slot of the task. `ret_syscall` is the address of `__ret_syscall`.
unfoldable pub load_task :
    (ret_syscall : ℕ)
    → Space
    → Tasks
    → List ℕ
    → (parent_dir task_hd_addr : ℕ) → Outcome (ℕ × Space × Tasks)
load_task ret_syscall s ts img parent_dir task_hd_addr =
    new_directory s parent_dir >>= λ (pages, new_pg_dir_phy, s1).
    alloc_kstack_and_task s1 ts new_pg_dir_phy >>= λ (kernel_stack, s2, ts2).
    frame_of s2 kernel_stack >>= λ stack. read_task s2 stack >>= λ task.
    create_task_address_space s2 img task.phy_dir task_hd_addr >>= λ s3.
    write_words s3 stack task_at ((kstack_frame + page_size - 28 - 76) ∷ []) >>= λ s4.
    write_words s4 stack (task_at - 19) (trap_frame ret_syscall) >>= λ s5.
    enter_task s5 ts2 stack >>= λ (loaded, ts3).
    done (loaded.tid, delete_all s5 (pages ++ (kernel_stack ∷ [])), ts3)

unfoldable pub spawn_ram :
    (ret_syscall : ℕ) → Space → Tasks → List ℕ → (base : ℕ) → Outcome (Space × Tasks)
spawn_ram ret_syscall s ts img base =
    load_task ret_syscall s ts img pg_dir0_addr base >>= λ (new, s', ts').
    asm_context_switch new ts' >>= λ ts''. done (s', ts'')
