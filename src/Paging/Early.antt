-- ===== src/Paging/Early.antt =====
-- One page mapped in the first directory of kernel/mem.c.
use ts_os.Base.{
  ℕ, ◌%◌, ◌<◌, ◌≡◌, ◌≢◌, refl, ◌∙◌, ap, sym, ◌⊎◌, inl, inr, true, false, some, List, length,
  get_elem?, get_elem?-set_self, get_elem?-set_ne, length-set, set, arith, ◌==◌, Bool-cases,
}
use mathlib.Core.Path.{subst}
use ts_os.Paging.{Space, entry_set, page_base, page_dir_index, page_table_index, put_frame}
use ts_os.Paging.Boot.{pg_dir0_addr, dir0_pt_phy}
use ts_os.Paging.Entries.{put_frame_self, put_frame-other}

-- a virtual address whose page is at `pa`
abbrev pub Maps : Space → (va pa : ℕ) → Type 0
Maps s va pa =
    (d : ℕ) × (get_elem? (s.memory pg_dir0_addr) (page_dir_index va) ≡ some d)
    × (entry_set d ≡ true)
    × (e : ℕ) × (get_elem? (s.memory (page_base d)) (page_table_index va) ≡ some e)
    × (entry_set e ≡ true)
    × (page_base e ≡ pa)

-- a directory's entry for no table, and for the table in the frame that is kept for it
abbrev pub Missing : Space → ℕ → Type 0
Missing s di = (d : ℕ) × (get_elem? (s.memory pg_dir0_addr) di ≡ some d) × (entry_set d ≡ false)

abbrev pub Present : Space → ℕ → Type 0
Present s di =
    (d : ℕ) × (get_elem? (s.memory pg_dir0_addr) di ≡ some d)
    × (entry_set d ≡ true)
    × (page_base d ≡ dir0_pt_phy di)
    × (length (s.memory (dir0_pt_phy di)) ≡ 1024)

-- The first directory: its own table of tables at 1023, and below 1022 tables in their frames or
-- none.
pub record IsDir0 (s : Space) : Type 0 where
  pub dir_size : length (s.memory pg_dir0_addr) ≡ 1024
  pub tables : Present s 1023
  pub each : (di : ℕ) → di < 1022 → Missing s di ⊎ Present s di

pub dir0_pt_phy-ne : (di dj : ℕ) → di ≢ dj → dir0_pt_phy di ≢ dir0_pt_phy dj
unfolding dir0_pt_phy
dir0_pt_phy-ne di dj ne e = ne (omega arith)

pub dir0_pt_phy-dir : (di : ℕ) → dir0_pt_phy di ≢ pg_dir0_addr
unfolding dir0_pt_phy
dir0_pt_phy-dir di e = omega arith

pub dir0_pt_phy-aligned : (di : ℕ) → dir0_pt_phy di % 4096 ≡ 0
unfolding dir0_pt_phy
dir0_pt_phy-aligned di = omega arith

-- an entry that is set is that of the frame kept for it
pub base_of_entry :
    (s : Space) (dj : ℕ)
    → IsDir0 s
    → dj < 1022
    → (d : ℕ) → get_elem? (s.memory pg_dir0_addr) dj ≡ some d
    → entry_set d ≡ true
    → page_base d ≡ dir0_pt_phy dj
base_of_entry s dj ok low d got there = elim (ok.each dj low) [
  | inl (d', got', missing) ↦
      let same : some d ≡ some d' = sym got ∙ got' in
      let d≡d' : d ≡ d' = cc in
      let clash : true ≡ false = sym there ∙ ap entry_set d≡d' ∙ missing in cc
  | inr (d', got', there', base', len') ↦
      let same : d' ≡ d = cc in subst (λ (x : ℕ). page_base x ≡ dir0_pt_phy dj) same base'
]

-- a word of a table that is present
module _ (s : Space) (di ti v : ℕ) (below : di < 1022) (p : Present s di) (ok : IsDir0 s) where
  abbrev pub pt : ℕ
  pt = dir0_pt_phy di

  abbrev pub put : Space
  put = put_frame s pt (set (s.memory pt) ti v)

  same_dir : put.memory pg_dir0_addr ≡ s.memory pg_dir0_addr
  same_dir =
      put_frame-other s pt pg_dir0_addr (set (s.memory pt) ti v) (λ e. dir0_pt_phy-dir di (sym e))

  size :
      (dj : ℕ)
      → length (s.memory (dir0_pt_phy dj)) ≡ 1024
      → length (put.memory (dir0_pt_phy dj)) ≡ 1024
  size dj len = elim (Bool-cases (dj == di)) [
    | inl same ↦
        let e : dj ≡ di = ground arith in
        rw e (
          ap length (put_frame_self s pt (set (s.memory pt) ti v))
          ∙ length-set (s.memory pt) ti v
          ∙ ap (λ (d : ℕ). length (s.memory (dir0_pt_phy d))) (sym e)
          ∙ len)
    | inr other ↦
        ap length (
          put_frame-other s pt (dir0_pt_phy dj) (set (s.memory pt) ti v)
            (dir0_pt_phy-ne dj di (λ e. ground arith)))
        ∙ len
  ]

  Present-put : (dj : ℕ) → Present s dj → Present put dj
  Present-put dj (d, got, present, base, len) =
      (d, ap (λ (w : List ℕ). get_elem? w dj) same_dir ∙ got, present, base, size dj len)

  pub put-IsDir0 : IsDir0 put
  put-IsDir0 = record {
    dir_size = ap length same_dir ∙ ok.dir_size;
    tables = Present-put 1023 ok.tables;
    each = λ dj lt. elim (ok.each dj lt) [
      | inl (d, got, missing) ↦ inl (d, ap (λ (w : List ℕ). get_elem? w dj) same_dir ∙ got, missing)
      | inr there ↦ inr (Present-put dj there)
    ];
  }

  pub put-Maps :
      (va : ℕ)
      → page_dir_index va ≡ di
      → page_table_index va ≡ ti
      → ti < 1024
      → entry_set v ≡ true
      → Maps put va (page_base v)
  put-Maps va at_di at_ti lt present =
      let (d, got, there, base, len) = p in
      (
        d,
        ap (λ (w : List ℕ). get_elem? w (page_dir_index va)) same_dir
            ∙ ap (get_elem? (s.memory pg_dir0_addr)) at_di
            ∙ got,
        there,
        v,
        ap (λ (a : ℕ). get_elem? (put.memory a) (page_table_index va)) base
            ∙ ap (λ (w : List ℕ). get_elem? w (page_table_index va))
                (put_frame_self s pt (set (s.memory pt) ti v))
            ∙ ap (get_elem? (set (s.memory pt) ti v)) at_ti
            ∙ get_elem?-set_self (s.memory pt) ti v (omega arith),
        present,
        refl,
      )

  pub put-keeps :
      (va pa : ℕ)
      → page_dir_index va < 1022
      → (page_dir_index va ≡ di → page_table_index va ≢ ti)
      → Maps s va pa
      → Maps put va pa
  put-keeps va pa low apart (d, got, there, e, word, present, base) =
      let dj = page_dir_index va in
      let base_d : page_base d ≡ dir0_pt_phy dj = base_of_entry s dj ok low d got there in
      let words = set (s.memory pt) ti v in
      let kept : get_elem? (put.memory (dir0_pt_phy dj)) (page_table_index va)
          ≡ get_elem? (s.memory (dir0_pt_phy dj)) (page_table_index va) =
        elim (Bool-cases (dj == di)) [
          | inl near ↦
              let at_di : dj ≡ di = ground arith in
              rw at_di (
                ap (λ (w : List ℕ). get_elem? w (page_table_index va)) (put_frame_self s pt words)
                ∙ get_elem?-set_ne (s.memory pt) ti (page_table_index va) v
                    (λ t. apart at_di (sym t)))
          | inr far ↦
              ap (λ (w : List ℕ). get_elem? w (page_table_index va))
                (put_frame-other s pt (dir0_pt_phy dj) words
                  (dir0_pt_phy-ne dj di (λ q. ground arith)))
        ] in
      (
        d,
        ap (λ (w : List ℕ). get_elem? w dj) same_dir ∙ got,
        there,
        e,
        ap (λ (a : ℕ). get_elem? (put.memory a) (page_table_index va)) base_d
            ∙ kept
            ∙ ap (λ (a : ℕ). get_elem? (s.memory a) (page_table_index va)) (sym base_d)
            ∙ word,
        present,
        base,
      )
