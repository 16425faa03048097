-- ===== src/Paging/Init.antt =====
-- The first page directory of kernel/mem.c before pages are mapped in it, and with its pages.
use ts_os.Base.{
  ℕ, zero, suc, ◌%◌, ◌<◌, ◌≡◌, ◌≢◌, refl, ◌∙◌, ap, sym, inl, false, List, some, length, get_elem?,
  get_elem?-set_self, get_elem?-set_ne, length-set, set, arith, done, ◌>>=◌, checked,
}
use ts_os.Base.Bytes.{replicate}
use ts_os.Paging.{
  Space, page_p, page_flg_kernel, entry_set, page_base, with_flags, put_frame, write_frame,
  read_frame, pg_dir_add,
}
use ts_os.Paging.Boot.{pg_dir0_addr, dir0_pt_phy, zero_page, init_pg_dir0}
use ts_os.Paging.Entries.{with_flags-kernel, write_frame-put_frame, put_frame_self, put_frame-other}
use ts_os.Paging.Early.{IsDir0, dir0_pt_phy-ne, dir0_pt_phy-dir, dir0_pt_phy-aligned}

get_elem?-zeros : (n i : ℕ) → i < n → get_elem? {A = ℕ} (replicate n 0) i ≡ some 0
get_elem?-zeros zero i lt = absurd (omega arith)
get_elem?-zeros (suc n) zero lt = refl
get_elem?-zeros (suc n) (suc i) lt = get_elem?-zeros n i (omega arith)

length-zeros : (n : ℕ) → length {A = ℕ} (replicate n 0) ≡ n
length-zeros zero = refl
length-zeros (suc n) = ap suc (length-zeros n)

-- an entry that was not set
abbrev added : Space → (dir rev_tb di pt_phy flag : ℕ) → Space
added s dir rev_tb di pt_phy flag =
    let s1 = put_frame s dir (set (s.memory dir) di (with_flags (page_base pt_phy) flag)) in
    put_frame s1 rev_tb (set (s1.memory rev_tb) di (with_flags (page_base pt_phy) page_p))

pg_dir_add-added :
    (s : Space) (dir rev_tb di pt_phy flag e : ℕ)
    → rev_tb ≢ dir
    → get_elem? (s.memory dir) di ≡ some e
    → entry_set e ≡ false
    → di < length (s.memory dir)
    → di < length (s.memory rev_tb)
    → pg_dir_add s dir rev_tb di pt_phy flag ≡ done (1, added s dir rev_tb di pt_phy flag)
unfolding pg_dir_add read_frame
pg_dir_add-added s dir rev_tb di pt_phy flag e apart got missing in_dir in_rev =
    let v = with_flags (page_base pt_phy) flag in
    let s1 = put_frame s dir (set (s.memory dir) di v) in
    let same : s1.memory rev_tb ≡ s.memory rev_tb =
      put_frame-other s dir rev_tb (set (s.memory dir) di v) apart in
    let first = write_frame-put_frame s dir di v in_dir in
    let second =
      write_frame-put_frame s1 rev_tb di (with_flags (page_base pt_phy) page_p)
        (omega (arith, in_rev, ap length same)) in
    rw (got, checked, ◌>>=◌, missing, first, ◌>>=◌, second) refl

added_dir :
    (s : Space) (dir rev_tb di pt_phy flag : ℕ)
    → rev_tb ≢ dir
    → (added s dir rev_tb di pt_phy flag).memory dir
      ≡ set (s.memory dir) di (with_flags (page_base pt_phy) flag)
added_dir s dir rev_tb di pt_phy flag apart =
    let v = with_flags (page_base pt_phy) flag in
    let s1 = put_frame s dir (set (s.memory dir) di v) in
    put_frame-other s1 rev_tb dir (set (s1.memory rev_tb) di (with_flags (page_base pt_phy) page_p))
      (λ e. apart (sym e))
    ∙ put_frame_self s dir (set (s.memory dir) di v)

length-added_rev :
    (s : Space) (dir rev_tb di pt_phy flag : ℕ)
    → rev_tb ≢ dir
    → length ((added s dir rev_tb di pt_phy flag).memory rev_tb) ≡ length (s.memory rev_tb)
length-added_rev s dir rev_tb di pt_phy flag apart =
    let v = with_flags (page_base pt_phy) flag in
    let s1 = put_frame s dir (set (s.memory dir) di v) in
    ap length
      (put_frame_self s1 rev_tb (set (s1.memory rev_tb) di (with_flags (page_base pt_phy) page_p)))
    ∙ length-set (s1.memory rev_tb) di (with_flags (page_base pt_phy) page_p)
    ∙ ap length (put_frame-other s dir rev_tb (set (s.memory dir) di v) apart)

added_other :
    (s : Space) (dir rev_tb di pt_phy flag a : ℕ)
    → a ≢ dir
    → a ≢ rev_tb
    → (added s dir rev_tb di pt_phy flag).memory a ≡ s.memory a
added_other s dir rev_tb di pt_phy flag a ne ne' =
    let v = with_flags (page_base pt_phy) flag in
    let s1 = put_frame s dir (set (s.memory dir) di v) in
    put_frame-other s1 rev_tb a (set (s1.memory rev_tb) di (with_flags (page_base pt_phy) page_p))
      ne'
    ∙ put_frame-other s dir a (set (s.memory dir) di v) ne

entry_set-zero : entry_set 0 ≡ false
unfolding entry_set
entry_set-zero = refl

page_base-aligned : (pa : ℕ) → pa % 4096 ≡ 0 → page_base pa ≡ pa
unfolding page_base
page_base-aligned pa aligned = omega arith

module _ (s : Space) where
  abbrev rev : ℕ
  rev = dir0_pt_phy 1023

  abbrev sys : ℕ
  sys = dir0_pt_phy 1022

  abbrev cleared : Space
  cleared = zero_page (zero_page (zero_page s pg_dir0_addr) rev) sys

  abbrev with_rev : Space
  with_rev = added cleared pg_dir0_addr rev 1023 rev page_flg_kernel

  abbrev with_sys : Space
  with_sys = added with_rev pg_dir0_addr rev 1022 sys page_flg_kernel

  abbrev pub dir0 : Space
  dir0 =
      put_frame with_sys sys
        (set (with_sys.memory sys) 1023 (with_flags pg_dir0_addr page_flg_kernel))

  rev-sys : rev ≢ sys
  rev-sys = dir0_pt_phy-ne 1023 1022 (λ e. omega arith)

  rev-dir : rev ≢ pg_dir0_addr
  rev-dir = dir0_pt_phy-dir 1023

  sys-dir : sys ≢ pg_dir0_addr
  sys-dir = dir0_pt_phy-dir 1022

  cleared_dir : cleared.memory pg_dir0_addr ≡ replicate 1024 0
  cleared_dir =
      put_frame-other (zero_page (zero_page s pg_dir0_addr) rev) sys pg_dir0_addr (replicate 1024 0)
        (λ e. sys-dir (sym e))
      ∙ put_frame-other (zero_page s pg_dir0_addr) rev pg_dir0_addr (replicate 1024 0)
          (λ e. rev-dir (sym e))
      ∙ put_frame_self s pg_dir0_addr (replicate 1024 0)

  cleared_rev : cleared.memory rev ≡ replicate 1024 0
  cleared_rev =
      put_frame-other (zero_page (zero_page s pg_dir0_addr) rev) sys rev (replicate 1024 0) rev-sys
      ∙ put_frame_self (zero_page s pg_dir0_addr) rev (replicate 1024 0)

  dir_words :
      dir0.memory pg_dir0_addr
      ≡ set
          (set (replicate 1024 0) 1023 (with_flags (page_base rev) page_flg_kernel))
          1022
          (with_flags (page_base sys) page_flg_kernel)
  dir_words =
      put_frame-other with_sys sys pg_dir0_addr
        (set (with_sys.memory sys) 1023 (with_flags pg_dir0_addr page_flg_kernel))
        (λ e. sys-dir (sym e))
      ∙ added_dir with_rev pg_dir0_addr rev 1022 sys page_flg_kernel rev-dir
      ∙ ap (λ (w : List ℕ). set w 1022 (with_flags (page_base sys) page_flg_kernel))
          (added_dir cleared pg_dir0_addr rev 1023 rev page_flg_kernel rev-dir
            ∙ ap (λ (w : List ℕ). set w 1023 (with_flags (page_base rev) page_flg_kernel))
                cleared_dir)

  tables_entry : (with_flags (page_base rev) page_flg_kernel) ≡ with_flags rev page_flg_kernel
  tables_entry =
      ap (λ (a : ℕ). with_flags a page_flg_kernel)
        (page_base-aligned rev (dir0_pt_phy-aligned 1023))

  pub dir0-IsDir0 : IsDir0 dir0
  dir0-IsDir0 =
      let v = with_flags (page_base rev) page_flg_kernel in
      let w = with_flags (page_base sys) page_flg_kernel in
      let zeros : List ℕ = replicate 1024 0 in
      let facts = with_flags-kernel rev (dir0_pt_phy-aligned 1023) in
      record {
        dir_size =
            ap length dir_words
            ∙ length-set (set zeros 1023 v) 1022 w
            ∙ length-set zeros 1023 v
            ∙ length-zeros 1024;
        tables = (
          v,
          ap (λ (l : List ℕ). get_elem? l 1023) dir_words
              ∙ get_elem?-set_ne (set zeros 1023 v) 1022 1023 w (λ e. omega arith)
              ∙ get_elem?-set_self zeros 1023 v (omega (arith, length-zeros 1024)),
          ap entry_set tables_entry ∙ facts.0,
          ap page_base tables_entry ∙ facts.1,
          ap length (
                put_frame-other with_sys sys rev
                  (set (with_sys.memory sys) 1023 (with_flags pg_dir0_addr page_flg_kernel))
                  rev-sys)
              ∙ length-added_rev with_rev pg_dir0_addr rev 1022 sys page_flg_kernel rev-dir
              ∙ length-added_rev cleared pg_dir0_addr rev 1023 rev page_flg_kernel rev-dir
              ∙ ap length cleared_rev
              ∙ length-zeros 1024,
        );
        each = λ di lt. inl (
          0,
          ap (λ (l : List ℕ). get_elem? l di) dir_words
              ∙ get_elem?-set_ne (set zeros 1023 v) 1022 di w (λ e. omega arith)
              ∙ get_elem?-set_ne zeros 1023 di v (λ e. omega arith)
              ∙ get_elem?-zeros 1024 di (omega arith),
          entry_set-zero,
        );
      }

  first_runs : pg_dir_add cleared pg_dir0_addr rev 1023 rev page_flg_kernel ≡ done (1, with_rev)
  first_runs =
      pg_dir_add-added cleared pg_dir0_addr rev 1023 rev page_flg_kernel 0 rev-dir
        (ap (λ (l : List ℕ). get_elem? l 1023) cleared_dir
          ∙ get_elem?-zeros 1024 1023 (omega arith))
        entry_set-zero (omega (arith, ap length cleared_dir, length-zeros 1024))
        (omega (arith, ap length cleared_rev, length-zeros 1024))

  second_runs : pg_dir_add with_rev pg_dir0_addr rev 1022 sys page_flg_kernel ≡ done (1, with_sys)
  second_runs =
      let v = with_flags (page_base rev) page_flg_kernel in
      let zeros : List ℕ = replicate 1024 0 in
      let words : with_rev.memory pg_dir0_addr ≡ set zeros 1023 v =
        added_dir cleared pg_dir0_addr rev 1023 rev page_flg_kernel rev-dir
        ∙ ap (λ (w : List ℕ). set w 1023 v) cleared_dir in
      pg_dir_add-added with_rev pg_dir0_addr rev 1022 sys page_flg_kernel 0 rev-dir
        (ap (λ (l : List ℕ). get_elem? l 1022) words
          ∙ get_elem?-set_ne zeros 1023 1022 v (λ e. omega arith)
          ∙ get_elem?-zeros 1024 1022 (omega arith))
        entry_set-zero (omega (arith, ap length words, length-set zeros 1023 v, length-zeros 1024))
        (omega (
          arith,
          length-added_rev cleared pg_dir0_addr rev 1023 rev page_flg_kernel rev-dir,
          ap length cleared_rev,
          length-zeros 1024,
        ))

  third_runs : write_frame with_sys sys 1023 (with_flags pg_dir0_addr page_flg_kernel) ≡ done dir0
  third_runs = write_frame-put_frame with_sys sys 1023 (with_flags pg_dir0_addr page_flg_kernel) (
      omega (
        arith,
        ap length (
            added_other with_rev pg_dir0_addr rev 1022 sys page_flg_kernel sys sys-dir
              (λ e. rev-sys (sym e))),
        ap length (
            added_other cleared pg_dir0_addr rev 1023 rev page_flg_kernel sys sys-dir
              (λ e. rev-sys (sym e))),
        ap length
            (put_frame_self (zero_page (zero_page s pg_dir0_addr) rev) sys (replicate 1024 0)),
        length-zeros 1024,
      ))

  pub init_pg_dir0-dir0 : init_pg_dir0 s ≡ done dir0
  unfolding init_pg_dir0
  init_pg_dir0-dir0 = rw (first_runs, ◌>>=◌, second_runs, ◌>>=◌, third_runs) refl
