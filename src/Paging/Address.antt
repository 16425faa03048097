-- ===== src/Paging/Address.antt =====
-- The parts of a virtual address in kernel/mem.h.
use ts_os.Base.{ℕ, ◌+◌, ◌^◌, ◌<◌, ◌≡◌, arith}
use ts_os.Paging.{page_dir_index, page_table_index, page_offset, ix_to_va}

-- An address of 32 bits is that of its page, by the indices of its table and its entry, plus its
-- offset; the indices are below 1024 and the offset below 4096.
pub ix_to_va-parts :
    (va : ℕ)
    → va < 2 ^ 32
    → (ix_to_va (page_dir_index va) (page_table_index va) + page_offset va ≡ va)
      × (page_dir_index va < 1024)
      × (page_table_index va < 1024)
      × (page_offset va < 4096)
unfolding ix_to_va page_dir_index page_table_index page_offset
ix_to_va-parts va small = omega arith

pub page_dir_index-ix_to_va :
    (di ti : ℕ) → di < 1024 → ti < 1024 → page_dir_index (ix_to_va di ti) ≡ di
unfolding ix_to_va page_dir_index
page_dir_index-ix_to_va di ti hd ht = omega arith

pub page_table_index-ix_to_va :
    (di ti : ℕ) → di < 1024 → ti < 1024 → page_table_index (ix_to_va di ti) ≡ ti
unfolding ix_to_va page_table_index
page_table_index-ix_to_va di ti hd ht = omega arith
