-- ===== src/Paging.antt =====
-- kernel/mem.c: page directories and tables, and the window of temporary mappings. Memory is a store
-- of frames of 1024 words by their physical addresses. Table 1022 of the running address space maps
-- the window: `temp`. A pointer into the window is its virtual address, with 0 for NULL, and is read
-- through `temp`; a page directory is given by the address of its frame. The processor's cache of
-- mappings is left out.
pub mod Address
pub mod Window
pub mod Region
pub mod Boot
pub mod Entries
pub mod Early
pub mod NewTable
pub mod Kernel
pub mod Start
pub mod Init
pub mod Translate
mod Tests
use ts_os.Base.{
  ℕ, zero, suc, ◌+◌, ◌*◌, ◌/◌, ◌%◌, ◌^◌, Bool, true, false, ◌&&◌, not, Option, none, some, List, [],
  ◌∷◌, length, get_elem?, set, ◌==◌, ltb, if◌then◌else◌, bit_or, u32, Outcome, done, halted, fault,
  ◌>>=◌, checked,
}
use ts_os.Base.Bytes.{replicate}
use ts_os.Frame.{Bitmap, alloc_frame}

abbrev pub page_p : ℕ
page_p = 0x1

-- `PAGE_P | PAGE_RW | PAGE_WT`, and with `PAGE_USER`
abbrev pub page_flg_kernel : ℕ
page_flg_kernel = 0xB

abbrev pub page_flg_usr : ℕ
page_flg_usr = 0xF

abbrev pub page_size : ℕ
page_size = 4096

abbrev pub kernel_v_start : ℕ
kernel_v_start = 0xC0000000

abbrev pub user_p_start : ℕ
user_p_start = 0x1000000

abbrev pub max_mem_size : ℕ
max_mem_size = 0x8000000

-- `PAGE_ENTRY_SET`, and `entry & 0xFFFFF000`
unfoldable pub entry_set : ℕ → Bool
entry_set entry = entry % 2 == 1

unfoldable pub page_base : ℕ → ℕ
page_base entry = entry / page_size * page_size

-- `pa | flag` for flags of 12 bits
unfoldable pub with_flags : (pa flag : ℕ) → ℕ
with_flags pa flag = page_base pa + bit_or (pa % page_size) flag

unfoldable pub page_dir_index : ℕ → ℕ
page_dir_index addr = addr / 2 ^ 22

unfoldable pub page_table_index : ℕ → ℕ
page_table_index addr = (addr / 2 ^ 12) % 1024

unfoldable pub page_offset : ℕ → ℕ
page_offset addr = addr % page_size

unfoldable pub ix_to_va : (di ti : ℕ) → ℕ
ix_to_va di ti = u32 (di * 2 ^ 22 + ti * 2 ^ 12)

abbrev pub Memory : Type 0
Memory = ℕ → List ℕ

pub record Space : Type 0 where
  pub memory : Memory
  pub temp : List ℕ
  pub bitmap : Bitmap

-- a word of the frame at `pa`
unfoldable pub read_frame : Space → (pa i : ℕ) → Outcome ℕ
read_frame s pa i = checked (get_elem? (s.memory pa) i)

unfoldable pub put_frame : Space → (pa : ℕ) → List ℕ → Space
put_frame s pa words = record s { memory = λ a. if a == pa then words else s.memory a }

unfoldable pub write_frame : Space → (pa i v : ℕ) → Outcome Space
write_frame s pa i v =
    if ltb i (length (s.memory pa)) then done (put_frame s pa (set (s.memory pa) i v)) else fault

-- the frame behind a pointer into the window
unfoldable pub frame_of : Space → (va : ℕ) → Outcome ℕ
frame_of s va =
    if page_dir_index va == 1022
    then (checked (get_elem? s.temp (page_table_index va)) >>= λ entry.
        if entry_set entry then done (page_base entry) else fault)
    else fault

-- `memzero(p, FRAME_SIZE)`
unfoldable pub memzero : Space → (va : ℕ) → Outcome Space
memzero s va = frame_of s va >>= λ pa. done (put_frame s pa (replicate 1024 0))

unfoldable pub pg_dir_no_entry : Space → (dir va : ℕ) → Outcome Bool
pg_dir_no_entry s dir va =
    read_frame s dir (page_dir_index va) >>= λ entry. done (not (entry_set entry))

unfoldable pub pt_phy_from_dir : Space → (dir dir_index : ℕ) → Outcome ℕ
pt_phy_from_dir s dir dir_index = read_frame s dir dir_index >>= λ entry.
    if entry_set entry then done (page_base entry) else halted

-- the loops over the window's table, from `i` on: the slot of a frame, and a free slot
unfoldable pub lookup_from : List ℕ → (i pa : ℕ) → ℕ
lookup_from [] i pa = 0
lookup_from (entry ∷ table) i pa =
    if entry_set entry && (page_base entry == pa)
    then ix_to_va 1022 i
    else lookup_from table (i + 1) pa

unfoldable pub lookup_temp_va : Space → (pa : ℕ) → ℕ
lookup_temp_va s pa = lookup_from s.temp 0 pa

unfoldable pub free_slot_from : List ℕ → (i : ℕ) → Option ℕ
free_slot_from [] i = none
free_slot_from (entry ∷ table) i =
    if not (entry_set entry) then some i else free_slot_from table (i + 1)

unfoldable pub create_temp_va : Space → (pa : ℕ) → ℕ × Space
create_temp_va s pa = elim (free_slot_from s.temp 0) [
  | none ↦ (0, s)
  | some i ↦ (ix_to_va 1022 i, record s { temp = set s.temp i (with_flags pa page_flg_kernel) })
]

unfoldable pub delete_temp_va : Space → (va : ℕ) → Space
delete_temp_va s va = record s { temp = set s.temp (page_table_index va) 0 }

unfoldable pub get_temp_va : Space → (pa : ℕ) → ℕ × Space
get_temp_va s pa =
    if lookup_temp_va s pa == 0 then create_temp_va s pa else (lookup_temp_va s pa, s)

-- A frame zero fails the ASSERT.
unfoldable pub lookup_pt_temp_va : Space → (dir di : ℕ) → Outcome ℕ
lookup_pt_temp_va s dir di =
    pt_phy_from_dir s dir di >>= λ phy. if phy == 0 then halted else done (lookup_temp_va s phy)

unfoldable pub get_pt_va : Space → (dir di : ℕ) → Outcome (ℕ × Space)
get_pt_va s dir di =
    pt_phy_from_dir s dir di >>= λ phy. if phy == 0 then halted else done (get_temp_va s phy)

-- both the entry and the one of the table of tables
unfoldable pub pg_dir_add : Space → (dir rev_tb di pt_phy flag : ℕ) → Outcome (ℕ × Space)
pg_dir_add s dir rev_tb di pt_phy flag = read_frame s dir di >>= λ entry.
    if entry_set entry
    then done (0, s)
    else (write_frame s dir di (with_flags (page_base pt_phy) flag) >>= λ s1.
        write_frame s1 rev_tb di (with_flags (page_base pt_phy) page_p) >>= λ s2. done (1, s2))
