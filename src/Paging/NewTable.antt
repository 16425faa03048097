-- ===== src/Paging/NewTable.antt =====
-- A page table that kernel/mem.c makes in its first directory.
use ts_os.Base.{
  ℕ, ◌<◌, ◌≡◌, ◌≢◌, refl, ◌∙◌, ap, sym, inl, inr, true, false, some, List, length, get_elem?,
  get_elem?-set_self, get_elem?-set_ne, length-set, set, arith, ◌==◌, Bool-cases, done, ◌>>=◌,
  checked,
}
use mathlib.Core.Path.{subst}
use ts_os.Base.Bytes.{replicate}
use ts_os.Paging.{
  Space, page_p, page_flg_kernel, entry_set, page_base, with_flags, page_dir_index,
  page_table_index, put_frame, read_frame, pg_dir_no_entry,
}
use ts_os.Paging.Boot.{pg_dir0_addr, dir0_pt_phy, zero_page, create_page_table0}
use ts_os.Paging.Entries.{with_flags-kernel, put_frame_self, put_frame-other, write_frame-put_frame}
use ts_os.Paging.Early.{
  Maps, Missing, Present, IsDir0, dir0_pt_phy-ne, dir0_pt_phy-dir, dir0_pt_phy-aligned,
  base_of_entry,
}

length-zeros : length {A = ℕ} (replicate 1024 0) ≡ 1024
length-zeros = refl

-- a table that is missing, made
module _ (s : Space) (di : ℕ) (below : di < 1022) (mi : Missing s di) (ok : IsDir0 s) where
  abbrev table : ℕ
  table = dir0_pt_phy di

  abbrev rev : ℕ
  rev = dir0_pt_phy 1023

  abbrev entry : ℕ
  entry = with_flags table page_flg_kernel

  abbrev back : ℕ
  back = with_flags table page_p

  abbrev zeroed : Space
  zeroed = zero_page s table

  abbrev listed : Space
  listed = put_frame zeroed pg_dir0_addr (set (zeroed.memory pg_dir0_addr) di entry)

  abbrev pub created : Space
  created = put_frame listed rev (set (listed.memory rev) di back)

  dir_apart : pg_dir0_addr ≢ table
  dir_apart e = dir0_pt_phy-dir di (sym e)

  rev_apart : rev ≢ table
  rev_apart = dir0_pt_phy-ne 1023 di (λ e. omega arith)

  created_dir : created.memory pg_dir0_addr ≡ set (s.memory pg_dir0_addr) di entry
  created_dir =
      put_frame-other listed rev pg_dir0_addr (set (listed.memory rev) di back)
        (λ e. dir0_pt_phy-dir 1023 (sym e))
      ∙ put_frame_self zeroed pg_dir0_addr (set (zeroed.memory pg_dir0_addr) di entry)
      ∙ ap (λ (w : List ℕ). set w di entry)
          (put_frame-other s table pg_dir0_addr (replicate 1024 0) dir_apart)

  created_other :
      (dj : ℕ) → dj ≢ 1023 → created.memory (dir0_pt_phy dj) ≡ zeroed.memory (dir0_pt_phy dj)
  created_other dj ne =
      put_frame-other listed rev (dir0_pt_phy dj) (set (listed.memory rev) di back)
        (dir0_pt_phy-ne dj 1023 ne)
      ∙ put_frame-other zeroed pg_dir0_addr (dir0_pt_phy dj)
          (set (zeroed.memory pg_dir0_addr) di entry) (dir0_pt_phy-dir dj)

  created_table : created.memory table ≡ replicate 1024 0
  created_table = created_other di (λ e. omega arith) ∙ put_frame_self s table (replicate 1024 0)

  pub created_kept :
      (dj : ℕ) → dj ≢ 1023 → dj ≢ di → created.memory (dir0_pt_phy dj) ≡ s.memory (dir0_pt_phy dj)
  created_kept dj ne ne' =
      created_other dj ne
      ∙ put_frame-other s table (dir0_pt_phy dj) (replicate 1024 0) (dir0_pt_phy-ne dj di ne')

  created_rev : length (created.memory rev) ≡ 1024
  created_rev =
      let (d, got, there, base, len) = ok.tables in
      ap length (put_frame_self listed rev (set (listed.memory rev) di back))
      ∙ length-set (listed.memory rev) di back
      ∙ ap length (
          put_frame-other zeroed pg_dir0_addr rev (set (zeroed.memory pg_dir0_addr) di entry)
            (dir0_pt_phy-dir 1023))
      ∙ ap length (put_frame-other s table rev (replicate 1024 0) rev_apart)
      ∙ len

  pub entry_at :
      (dj : ℕ)
      → dj ≢ di
      → get_elem? (created.memory pg_dir0_addr) dj ≡ get_elem? (s.memory pg_dir0_addr) dj
  entry_at dj ne =
      ap (λ (w : List ℕ). get_elem? w dj) created_dir
      ∙ get_elem?-set_ne (s.memory pg_dir0_addr) di dj entry (λ e. ne (sym e))

  pub created-Present : Present created di
  created-Present =
      let facts = with_flags-kernel table (dir0_pt_phy-aligned di) in
      (
        entry,
        ap (λ (w : List ℕ). get_elem? w di) created_dir
            ∙ get_elem?-set_self (s.memory pg_dir0_addr) di entry (omega (arith, ok.dir_size)),
        facts.0,
        facts.1,
        ap length created_table ∙ length-zeros,
      )

  pub created-IsDir0 : IsDir0 created
  created-IsDir0 = record {
    dir_size = ap length created_dir ∙ length-set (s.memory pg_dir0_addr) di entry ∙ ok.dir_size;
    tables =
        let (d, got, there, base, len) = ok.tables in
        (d, entry_at 1023 (λ e. omega arith) ∙ got, there, base, created_rev);
    each = λ dj lt. elim (Bool-cases (dj == di)) [
      | inl same ↦
          let e : dj ≡ di = ground arith in inr (subst (Present created) (sym e) created-Present)
      | inr other ↦
          let ne : dj ≢ di = (λ e. ground arith) in
          elim (ok.each dj lt) [
            | inl (d, got, missing) ↦ inl (d, entry_at dj ne ∙ got, missing)
            | inr (d, got, there, base, len) ↦ inr (
              d,
              entry_at dj ne ∙ got,
              there,
              base,
              ap length (created_kept dj (λ e. omega arith) ne) ∙ len,
            )
          ]
    ];
  }

  pub created-keeps : (va pa : ℕ) → page_dir_index va < 1022 → Maps s va pa → Maps created va pa
  created-keeps va pa low (d, got, there, e, word, present, base) =
      let dj = page_dir_index va in
      let (m, got', missing) = mi in
      let far : dj ≢ di = (λ q.
        let same : some d ≡ some m = sym got ∙ ap (get_elem? (s.memory pg_dir0_addr)) q ∙ got' in
        let d≡m : d ≡ m = cc in
        let clash : true ≡ false = sym there ∙ ap entry_set d≡m ∙ missing in cc) in
      let base_d : page_base d ≡ dir0_pt_phy dj = base_of_entry s dj ok low d got there in
      (
        d,
        entry_at dj far ∙ got,
        there,
        e,
        ap (λ (a : ℕ). get_elem? (created.memory a) (page_table_index va)) base_d
            ∙ ap (λ (w : List ℕ). get_elem? w (page_table_index va))
                (created_kept dj (λ q. omega arith) far)
            ∙ ap (λ (a : ℕ). get_elem? (s.memory a) (page_table_index va)) (sym base_d)
            ∙ word,
        present,
        base,
      )

  pub create_page_table0-created :
      (va : ℕ)
      → page_dir_index va ≡ di
      → create_page_table0 s pg_dir0_addr rev va page_flg_kernel ≡ done (table, created)
  unfolding create_page_table0 pg_dir_no_entry read_frame
  create_page_table0-created va at_di =
      let (m, got, missing) = mi in
      let (d, there, present, base, len) = ok.tables in
      let size : length (zeroed.memory pg_dir0_addr) ≡ 1024 =
        ap length (put_frame-other s table pg_dir0_addr (replicate 1024 0) dir_apart)
        ∙ ok.dir_size in
      let rev_size : length (listed.memory rev) ≡ 1024 =
        ap length (
          put_frame-other zeroed pg_dir0_addr rev (set (zeroed.memory pg_dir0_addr) di entry)
            (dir0_pt_phy-dir 1023))
        ∙ ap length (put_frame-other s table rev (replicate 1024 0) rev_apart)
        ∙ len in
      let first = write_frame-put_frame zeroed pg_dir0_addr di entry (omega (arith, size)) in
      let second = write_frame-put_frame listed rev di back (omega (arith, rev_size)) in
      rw (at_di, got, checked, ◌>>=◌, missing, first, second) refl
