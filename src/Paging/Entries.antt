-- ===== src/Paging/Entries.antt =====
-- Entries of page tables in kernel/mem.c, and words of frames that are written and read.
use ts_os.Base.{
  ℕ, ◌%◌, ◌<◌, ◌≡◌, ◌≢◌, refl, true, false, some, List, length, get_elem?, set, bit_or, arith, ◌==◌,
  ltb, if◌then◌else◌, Outcome, done, fault, ◌>>=◌, checked,
}
use ts_os.Paging.{
  Space, page_p, page_flg_kernel, entry_set, page_base, with_flags, page_dir_index,
  page_table_index, put_frame, write_frame, read_frame, pt_phy_from_dir,
}

-- a page's address with flags that hold `PAGE_P`
pub with_flags-kernel :
    (pa : ℕ)
    → pa % 4096 ≡ 0
    → (entry_set (with_flags pa page_flg_kernel) ≡ true)
      × (page_base (with_flags pa page_flg_kernel) ≡ pa)
unfolding with_flags page_base entry_set
with_flags-kernel pa aligned =
    let none : bit_or (pa % 4096) 11 ≡ 11 = rw aligned refl in rw none (ground arith, omega arith)

pub with_flags-p :
    (pa : ℕ)
    → pa % 4096 ≡ 0
    → (entry_set (with_flags pa page_p) ≡ true) × (page_base (with_flags pa page_p) ≡ pa)
unfolding with_flags page_base entry_set
with_flags-p pa aligned =
    let none : bit_or (pa % 4096) 1 ≡ 1 = rw aligned refl in rw none (ground arith, omega arith)

pub put_frame_self :
    (s : Space) (pa : ℕ) (words : List ℕ) → (put_frame s pa words).memory pa ≡ words
unfolding put_frame
put_frame_self s pa words = let e : (pa == pa) ≡ true = ground arith in rw e refl

pub put_frame-other :
    (s : Space) (pa a : ℕ) (words : List ℕ) → a ≢ pa → (put_frame s pa words).memory a ≡ s.memory a
unfolding put_frame
put_frame-other s pa a words ne = let e : (a == pa) ≡ false = ground arith in rw e refl

pub write_frame-put_frame :
    (s : Space) (pa i v : ℕ)
    → i < length (s.memory pa)
    → write_frame s pa i v ≡ done (put_frame s pa (set (s.memory pa) i v))
unfolding write_frame
write_frame-put_frame s pa i v inside =
    let ok : ltb i (length (s.memory pa)) ≡ true = ground arith in rw ok refl

-- the page that the processor finds for a virtual address: the code reads the same tables in
-- `get_phy_address` and `get_phy_from_dir`
unfoldable pub translate : Space → (dir va : ℕ) → Outcome ℕ
translate s dir va = pt_phy_from_dir s dir (page_dir_index va) >>= λ pt.
    read_frame s pt (page_table_index va) >>= λ entry.
    if entry_set entry then done (page_base entry) else fault

pub pt_phy_from_dir-some :
    (s : Space) (dir di e : ℕ)
    → get_elem? (s.memory dir) di ≡ some e
    → entry_set e ≡ true
    → pt_phy_from_dir s dir di ≡ done (page_base e)
unfolding pt_phy_from_dir read_frame
pt_phy_from_dir-some s dir di e got present = rw (got, checked, ◌>>=◌, present) refl

pub translate-some :
    (s : Space) (dir va d e : ℕ)
    → get_elem? (s.memory dir) (page_dir_index va) ≡ some d
    → entry_set d ≡ true
    → get_elem? (s.memory (page_base d)) (page_table_index va) ≡ some e
    → entry_set e ≡ true
    → translate s dir va ≡ done (page_base e)
unfolding translate read_frame
translate-some s dir va d e got present got' present' =
    rw
      (
        pt_phy_from_dir-some s dir (page_dir_index va) d got present,
        ◌>>=◌,
        got',
        checked,
        ◌>>=◌,
        present',
      )
      refl
