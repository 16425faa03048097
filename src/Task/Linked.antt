-- ===== src/Task/Linked.antt =====
-- The part of a new page directory that `load_task` of kernel/task.c links to its parent.
use ts_os.Base.{
  ℕ, zero, suc, ◌+◌, ◌*◌, ◌^◌, ◌≤◌, ◌<◌, ◌≡◌, ◌≢◌, inl, inr, refl, sym, ◌∙◌, ap, length, get_elem?,
  set, length-set, get_elem?-set_self, get_elem?-set_ne, get_elem?-some, arith, done, ◌>>=◌,
  checked, Bool-cases, ◌==◌,
}
use ts_os.Paging.{Space, kernel_v_start, page_dir_index, read_frame, put_frame, pt_phy_from_dir}
use ts_os.Paging.Entries.{put_frame_self, put_frame-other, write_frame-put_frame, translate}
use ts_os.Task.Load.{link_from, link_kernel}

-- `n` entries from `i` on are the parent's, and nothing else has changed
pub record Linked (s : Space) (dir parent i n : ℕ) (s' : Space) : Type 0 where
  pub frames : (a : ℕ) → a ≢ dir → s'.memory a ≡ s.memory a
  pub size : length (s'.memory dir) ≡ length (s.memory dir)
  pub before : (j : ℕ) → j < i → get_elem? (s'.memory dir) j ≡ get_elem? (s.memory dir) j
  pub linked :
      (j : ℕ) → i ≤ j → j < i + n → get_elem? (s'.memory dir) j ≡ get_elem? (s.memory parent) j
  pub after : (j : ℕ) → i + n ≤ j → get_elem? (s'.memory dir) j ≡ get_elem? (s.memory dir) j

module _ (dir parent : ℕ) (apart : parent ≢ dir) where
  link_from-Linked :
      (n : ℕ) (s : Space) (i : ℕ)
      → i + n ≤ length (s.memory dir)
      → i + n ≤ length (s.memory parent)
      → (s' : Space) × (link_from n s dir parent i ≡ done s') × Linked s dir parent i n s'
  unfolding link_from read_frame
  link_from-Linked zero s i fits known = (
    s,
    refl,
    record {
      frames = λ a ne. refl;
      size = refl;
      before = λ j lt. refl;
      linked = λ j le lt. absurd (omega arith);
      after = λ j le. refl;
    },
  )
  link_from-Linked (suc n) s i fits known =
      let (entry, got) = get_elem?-some (s.memory parent) i (omega arith) in
      let words = set (s.memory dir) i entry in
      let s1 = put_frame s dir words in
      let own : s1.memory dir ≡ words = put_frame_self s dir words in
      let same : s1.memory parent ≡ s.memory parent = put_frame-other s dir parent words apart in
      let size1 : length (s1.memory dir) ≡ length (s.memory dir) =
        ap length own ∙ length-set (s.memory dir) i entry in
      let size2 : length (s1.memory parent) ≡ length (s.memory parent) = ap length same in
      let (s', runs, rest) = link_from-Linked n s1 (i + 1) (omega arith) (omega arith) in
      (
        s',
        rw (got, checked, ◌>>=◌, write_frame-put_frame s dir i entry (omega arith)) runs,
        record {
          frames = λ a ne. rest.frames a ne ∙ put_frame-other s dir a words ne;
          size = rest.size ∙ size1;
          before = λ j lt.
              rest.before j (omega arith)
              ∙ ap (λ ws. get_elem? ws j) own
              ∙ get_elem?-set_ne (s.memory dir) i j entry (λ e. omega arith);
          linked = λ j le lt. elim (Bool-cases (j == i)) [
            | inl e ↦
                let e' : j ≡ i = ground arith in
                rest.before j (omega arith)
                ∙ ap (λ ws. get_elem? ws j) own
                ∙ rw (e', get_elem?-set_self (s.memory dir) i entry (omega arith)) (sym got)
            | inr ne ↦
                let above : i + 1 ≤ j = ground arith in
                rest.linked j above (omega arith) ∙ ap (λ ws. get_elem? ws j) same
          ];
          after = λ j le.
              rest.after j (omega arith)
              ∙ ap (λ ws. get_elem? ws j) own
              ∙ get_elem?-set_ne (s.memory dir) i j entry (λ e. omega arith);
        },
      )

translate-same :
    (s : Space) (dir parent va : ℕ)
    → get_elem? (s.memory dir) (page_dir_index va) ≡ get_elem? (s.memory parent) (page_dir_index va)
    → translate s dir va ≡ translate s parent va
unfolding translate pt_phy_from_dir read_frame
translate-same s dir parent va e = rw e refl

-- For two directories of 1024 entries, the loop of `load_task` that links the kernel's part of the
-- parent's directory returns, changes no other frame, and leaves a directory that translates each
-- address from 0xC0000000 up to the table of the window as the parent does, the kernel stack
-- included.
pub link_kernel-translate :
    (s : Space) (dir parent : ℕ)
    → parent ≢ dir
    → length (s.memory dir) ≡ 1024
    → length (s.memory parent) ≡ 1024
    → (s' : Space) × (link_kernel s dir parent ≡ done s')
      × ((va : ℕ)
          → kernel_v_start ≤ va
          → va < 1022 * 2 ^ 22
          → translate s' dir va ≡ translate s' parent va)
      × ((a : ℕ) → a ≢ dir → s'.memory a ≡ s.memory a)
unfolding link_kernel page_dir_index
link_kernel-translate s dir parent apart size_dir size_parent =
    let (s', runs, rest) =
      link_from-Linked dir parent apart 254 s 768 (omega arith) (omega arith) in
    (
      s',
      runs,
      (λ va low high.
          let same : s'.memory parent ≡ s.memory parent = rest.frames parent apart in
          translate-same s' dir parent va (
            rest.linked (page_dir_index va) (omega arith) (omega arith)
            ∙ ap (λ ws. get_elem? ws (page_dir_index va)) (sym same))),
      rest.frames,
    )
