-- ===== src/Paging/Kernel.antt =====
-- The pages that kernel/mem.c maps before paging is on.
use ts_os.Base.{
  ℕ, ◌%◌, ◌<◌, ◌≡◌, refl, ◌∙◌, ap, sym, inl, inr, false, arith, ◌==◌, done, ◌>>=◌, checked,
}
use mathlib.Core.Path.{subst}
use ts_os.Paging.{
  Space, page_p, with_flags, page_dir_index, page_table_index, put_frame, write_frame, read_frame,
  pg_dir_no_entry, pt_phy_from_dir,
}
use ts_os.Base.{set}
use ts_os.Paging.Boot.{pg_dir0_addr, dir0_pt_phy, create_page_table0, set_pg_dir0_vmap}
use ts_os.Paging.Entries.{with_flags-p, write_frame-put_frame, pt_phy_from_dir-some}
use ts_os.Paging.Early.{Maps, Missing, Present, IsDir0, put, put-IsDir0, put-Maps, put-keeps}
use ts_os.Paging.NewTable.{
  created, created-IsDir0, created-Present, created-keeps, create_page_table0-created,
}

-- the same page, by the indices of its table and its entry
abbrev pub SamePage : (va va' : ℕ) → Type 0
SamePage va va' =
    (page_dir_index va' ≡ page_dir_index va) × (page_table_index va' ≡ page_table_index va)

-- the directory with one page more
pub record Mapped (s : Space) (va pa : ℕ) (s' : Space) : Type 0 where
  pub ok : IsDir0 s'
  pub maps : Maps s' va pa
  pub keeps :
      (va' pa' : ℕ)
      → page_dir_index va' < 1022
      → ¬ SamePage va va'
      → Maps s va' pa'
      → Maps s' va' pa'

not_null : (di : ℕ) → (dir0_pt_phy di == 0) ≡ false
unfolding dir0_pt_phy
not_null di = ground arith

module _ (s : Space) (va pa : ℕ) (ok : IsDir0 s) (low : page_dir_index va < 1022)
    (aligned : pa % 4096 ≡ 0) (same : page_table_index pa ≡ page_table_index va) where
  abbrev di : ℕ
  di = page_dir_index va

  tables_at : pt_phy_from_dir s pg_dir0_addr 1023 ≡ done (dir0_pt_phy 1023)
  tables_at =
      let (d, got, present, base, len) = ok.tables in
      pt_phy_from_dir-some s pg_dir0_addr 1023 d got present ∙ ap done base

  index_below : page_table_index pa < 1024
  unfolding page_table_index
  index_below = omega arith

  -- the entry is written into a table that is there
  table_Mapped :
      (s1 : Space) (p : Present s1 di) (ok1 : IsDir0 s1)
      → ((va' pa' : ℕ) → page_dir_index va' < 1022 → Maps s va' pa' → Maps s1 va' pa')
      → Mapped s va pa (put s1 di (page_table_index pa) (with_flags pa page_p) low p ok1)
  table_Mapped s1 p ok1 before =
      let facts = with_flags-p pa aligned in
      let v = with_flags pa page_p in
      let ti = page_table_index pa in
      record {
        ok = put-IsDir0 s1 di ti v low p ok1;
        maps =
            subst (Maps (put s1 di ti v low p ok1) va) facts.1
              (put-Maps s1 di ti v low p ok1 va refl (sym same) index_below facts.0);
        keeps = λ va' pa' low' other maps'.
            put-keeps s1 di ti v low p ok1 va' pa' low' (λ d t. other (d, t ∙ same))
              (before va' pa' low' maps');
      }

  written :
      (s1 : Space) (p : Present s1 di)
      → write_frame s1 (dir0_pt_phy di) (page_table_index pa) (with_flags pa page_p)
        ≡ done (
            put_frame s1
              (dir0_pt_phy di)
              (set (s1.memory (dir0_pt_phy di)) (page_table_index pa) (with_flags pa page_p)))
  written s1 (d, got, present, base, len) =
      write_frame-put_frame s1 (dir0_pt_phy di) (page_table_index pa) (with_flags pa page_p)
        (omega (arith, index_below, len))

  present_runs :
      (flag : ℕ) (p : Present s di)
      → set_pg_dir0_vmap s va pa flag
        ≡ done (put s di (page_table_index pa) (with_flags pa page_p) low p ok)
  unfolding set_pg_dir0_vmap create_page_table0 pg_dir_no_entry read_frame
  present_runs flag p =
      let (d, got, present, base, len) = p in
      let there = pt_phy_from_dir-some s pg_dir0_addr di d got present ∙ ap done base in
      rw (tables_at, ◌>>=◌, got, checked, ◌>>=◌, present, there, written s p) refl

  mapped_in_new :
      (flag : ℕ) (m : Missing s di)
      → set_pg_dir0_vmap s va pa flag
        ≡ done (
            put
              (created s di low m ok)
              di
              (page_table_index pa)
              (with_flags pa page_p)
              low
              (created-Present s di low m ok)
              (created-IsDir0 s di low m ok))
  unfolding set_pg_dir0_vmap
  mapped_in_new flag m =
      let some_frame : (dir0_pt_phy di == 0) ≡ false = not_null di in
      rw
        (
          tables_at,
          ◌>>=◌,
          create_page_table0-created s di low m ok va refl,
          ◌>>=◌,
          some_frame,
          written (created s di low m ok) (created-Present s di low m ok),
        )
        refl

  pub set_pg_dir0_vmap-Mapped :
      (flag : ℕ) → (s' : Space) × (set_pg_dir0_vmap s va pa flag ≡ done s') × Mapped s va pa s'
  set_pg_dir0_vmap-Mapped flag = elim (ok.each di low) [
    | inr p ↦ (
      put s di (page_table_index pa) (with_flags pa page_p) low p ok,
      present_runs flag p,
      table_Mapped s p ok (λ va' pa' low' maps'. maps'),
    )
    | inl m ↦ (
      put (created s di low m ok) di (page_table_index pa) (with_flags pa page_p) low
          (created-Present s di low m ok) (created-IsDir0 s di low m ok),
      mapped_in_new flag m,
      table_Mapped (created s di low m ok) (created-Present s di low m ok)
          (created-IsDir0 s di low m ok) (created-keeps s di low m ok),
    )
  ]
