-- ===== src/Paging/Window.antt =====
-- The window of temporary mappings in kernel/mem.c.
use ts_os.Base.{
  ℕ, zero, suc, ◌+◌, ◌%◌, ◌<◌, ◌≡◌, ◌≢◌, refl, ◌∙◌, ap, sym, ◌⊎◌, inl, inr, true, false, ◌&&◌,
  Option, none, some, List, [], ◌∷◌, length, get_elem?, get_elem?-set_self, get_elem?-lt,
  Option-cases, get_elem?-set_ne, set, arith, ◌==◌, Bool-cases, if◌then◌else◌, done, fault, ◌>>=◌,
  checked,
}
use mathlib.Core.Path.{subst}
use ts_os.Paging.{
  Space, page_flg_kernel, entry_set, page_base, with_flags, page_dir_index, page_table_index,
  ix_to_va, frame_of, lookup_from, lookup_temp_va, free_slot_from, create_temp_va, get_temp_va,
}
use ts_os.Paging.Address.{page_dir_index-ix_to_va, page_table_index-ix_to_va}
use ts_os.Paging.Entries.{with_flags-kernel}

-- What the search for a frame gives: the address of a slot that maps it, or zero if no slot does.
data Found (table : List ℕ) (i pa : ℕ) : ℕ → Type 0 where
  slot :
      (j e : ℕ)
      → get_elem? table j ≡ some e
      → entry_set e ≡ true
      → page_base e ≡ pa
      → Found table i pa (ix_to_va 1022 (i + j))
  nowhere : Found table i pa 0

lookup_from-Found : (table : List ℕ) (i pa : ℕ) → Found table i pa (lookup_from table i pa)
unfolding lookup_from
lookup_from-Found [] i pa = nowhere
lookup_from-Found (e ∷ table) i pa = elim (Bool-cases (entry_set e && (page_base e == pa))) [
  | inl here ↦
      let at : i + 0 ≡ i = omega arith in
      rw here (
        subst (λ (k : ℕ). Found (e ∷ table) i pa (ix_to_va 1022 k)) at
          (slot 0 e refl (ground arith) (ground arith)))
  | inr other ↦ rw other (later e table i pa (lookup_from-Found table (i + 1) pa))
]
  where
    later :
        (e : ℕ) (table : List ℕ) (i pa : ℕ) {va : ℕ}
        → Found table (i + 1) pa va
        → Found (e ∷ table) i pa va
    later e table i pa (slot j f got present base) =
        let at : i + suc j ≡ (i + 1) + j = omega arith in
        subst (λ (k : ℕ). Found (e ∷ table) i pa (ix_to_va 1022 k)) at
          (slot (suc j) f got present base)
    later e table i pa nowhere = nowhere

-- the first slot that is not set, from `i` on, or none
data FirstFree (table : List ℕ) (i : ℕ) : Option ℕ → Type 0 where
  free :
      (j e : ℕ)
      → get_elem? table j ≡ some e
      → entry_set e ≡ false
      → FirstFree table i (some (i + j))
  full : ((j e : ℕ) → get_elem? table j ≡ some e → entry_set e ≡ true) → FirstFree table i none

free_slot_from-FirstFree : (table : List ℕ) (i : ℕ) → FirstFree table i (free_slot_from table i)
unfolding free_slot_from
free_slot_from-FirstFree [] i = full (λ j e got. cc)
free_slot_from-FirstFree (e ∷ table) i = elim (Bool-cases (entry_set e)) [
  | inr here ↦
      let at : i + 0 ≡ i = omega arith in
      rw here (subst (λ (k : ℕ). FirstFree (e ∷ table) i (some k)) at (free 0 e refl here))
  | inl taken ↦ rw taken (later e table i taken (free_slot_from-FirstFree table (i + 1)))
]
  where
    later :
        (e : ℕ) (table : List ℕ) (i : ℕ) {o : Option ℕ}
        → entry_set e ≡ true
        → FirstFree table (i + 1) o
        → FirstFree (e ∷ table) i o
    later e table i taken (free j f got missing) =
        let at : i + suc j ≡ (i + 1) + j = omega arith in
        subst (λ (k : ℕ). FirstFree (e ∷ table) i (some k)) at (free (suc j) f got missing)
    later e table i taken (full all) = full (every e table taken all)
      where
        every :
            (e : ℕ) (table : List ℕ)
            → entry_set e ≡ true
            → ((j f : ℕ) → get_elem? table j ≡ some f → entry_set f ≡ true)
            → (j f : ℕ) → get_elem? (e ∷ table) j ≡ some f
            → entry_set f ≡ true
        every e table taken all zero f got =
            let same : e ≡ f = cc in ap entry_set (sym same) ∙ taken
        every e table taken all (suc j) f got = all j f got

-- a pointer into the window that can be read
pub record IsPointer (s : Space) (va pa : ℕ) : Type 0 where
  pub inside : page_dir_index va ≡ 1022
  pub entry : ℕ
  pub got : get_elem? s.temp (page_table_index va) ≡ some entry
  pub present : entry_set entry ≡ true
  pub base : page_base entry ≡ pa

frame_of-IsPointer : (s : Space) (va pa : ℕ) → frame_of s va ≡ done pa → IsPointer s va pa
unfolding frame_of
frame_of-IsPointer s va pa e = elim (Bool-cases (page_dir_index va == 1022)) [
  | inr out ↦ let clash : fault ≡ done pa = rw out at e in absurd (cc)
  | inl within ↦
      let e1 : (checked (get_elem? s.temp (page_table_index va)) >>= λ entry.
      if entry_set entry then done (page_base entry) else fault)
          ≡ done pa =
        rw within at e in
      elim (Option-cases (get_elem? s.temp (page_table_index va))) [
        | inl off ↦ let clash : fault ≡ done pa = rw (off, checked, ◌>>=◌) at e1 in absurd (cc)
        | inr (entry, got) ↦
            let e2 : (if entry_set entry then done (page_base entry) else fault) ≡ done pa =
              rw (got, checked, ◌>>=◌) at e1 in
            elim (Bool-cases (entry_set entry)) [
              | inr missing ↦ let clash : fault ≡ done pa = rw missing at e2 in absurd (cc)
              | inl present ↦
                  let same : done (page_base entry) ≡ done pa = rw present at e2 in
                  record {
                    inside = ground arith;
                    entry = entry;
                    got = got;
                    present = present;
                    base = cc;
                  }
            ]
      ]
]

IsPointer-frame_of : (s : Space) (va pa : ℕ) → IsPointer s va pa → frame_of s va ≡ done pa
unfolding frame_of
IsPointer-frame_of s va pa p =
    let within : (page_dir_index va == 1022) ≡ true = ground (arith, p.inside) in
    rw (within, p.got, checked, ◌>>=◌, p.present) (ap done p.base)

IsPointer-slot :
    (s : Space) (j e pa : ℕ)
    → j < 1024
    → get_elem? s.temp j ≡ some e
    → entry_set e ≡ true
    → page_base e ≡ pa
    → IsPointer s (ix_to_va 1022 j) pa
IsPointer-slot s j e pa lt got present base = record {
  inside = page_dir_index-ix_to_va 1022 j (omega arith) lt;
  entry = e;
  got = ap (get_elem? s.temp) (page_table_index-ix_to_va 1022 j (omega arith) lt) ∙ got;
  present = present;
  base = base;
}

-- What `get_temp_va` gives: a pointer that reads the frame, with every pointer of before still
-- reading its own, or NULL, on a window with no free slot.
abbrev pub Points : Space → (pa : ℕ) → ℕ × Space → Type 0
Points s pa (va, s') =
    ((frame_of s' va ≡ done pa)
      × ((va' pa' : ℕ) → frame_of s va' ≡ done pa' → frame_of s' va' ≡ done pa'))
    ⊎ ((va ≡ 0) × (s' ≡ s) × ((j e : ℕ) → get_elem? s.temp j ≡ some e → entry_set e ≡ true))

create_temp_va-Points :
    (s : Space) (pa : ℕ) → length s.temp ≡ 1024 → pa % 4096 ≡ 0 → Points s pa (create_temp_va s pa)
unfolding create_temp_va
create_temp_va-Points s pa len aligned = by_slot (free_slot_from-FirstFree s.temp 0)
  where
    by_slot :
        {o : Option ℕ}
        → FirstFree s.temp 0 o
        → Points s pa (elim o [
          | none ↦ (0, s)
          | some i ↦
              (ix_to_va 1022 i, record s { temp = set s.temp i (with_flags pa page_flg_kernel) })
        ])
    by_slot (full all) = inr (refl, refl, all)
    by_slot (free j e got missing) =
        let facts = with_flags-kernel pa aligned in
        let lt : j < 1024 = omega (arith, get_elem?-lt s.temp j e got) in
        let zeroth : 0 + j ≡ j = omega arith in
        let s' : Space = record s { temp = set s.temp j (with_flags pa page_flg_kernel) } in
        rw zeroth (
          inl (
            IsPointer-frame_of s' (ix_to_va 1022 j) pa (
                IsPointer-slot s' j (with_flags pa page_flg_kernel) pa lt
                  (get_elem?-set_self s.temp j (with_flags pa page_flg_kernel) (omega arith))
                  facts.0 facts.1),
            (λ va' pa' reads.
                let p = frame_of-IsPointer s va' pa' reads in
                let ne : j ≢ page_table_index va' = (λ q.
                  let same : some e ≡ some p.entry = sym got ∙ ap (get_elem? s.temp) q ∙ p.got in
                  let e≡ : e ≡ p.entry = cc in
                  let clash : true ≡ false = sym p.present ∙ ap entry_set (sym e≡) ∙ missing in
                  cc) in
                IsPointer-frame_of s' va' pa' (record {
                  inside = p.inside;
                  entry = p.entry;
                  got =
                      get_elem?-set_ne s.temp j (page_table_index va')
                        (with_flags pa page_flg_kernel) ne
                      ∙ p.got;
                  present = p.present;
                  base = p.base;
                })),
          ))

ix_to_va-window : (j : ℕ) → j < 1024 → (ix_to_va 1022 j == 0) ≡ false
unfolding ix_to_va
ix_to_va-window j lt = ground arith

-- `get_temp_va` of a page, on a window of 1024 slots, returns a pointer that reads this page, and
-- every pointer into the window that could be read before still reads its own page; or it returns
-- NULL and changes nothing, and then every slot is taken.
pub get_temp_va-Points :
    (s : Space) (pa : ℕ) → length s.temp ≡ 1024 → pa % 4096 ≡ 0 → Points s pa (get_temp_va s pa)
unfolding get_temp_va lookup_temp_va
get_temp_va-Points s pa len aligned = by_entry (lookup_from-Found s.temp 0 pa)
  where
    by_entry :
        {va : ℕ}
        → Found s.temp 0 pa va
        → Points s pa (if va == 0 then create_temp_va s pa else (va, s))
    by_entry nowhere = create_temp_va-Points s pa len aligned
    by_entry (slot j e got present base) =
        let lt : j < 1024 = omega (arith, get_elem?-lt s.temp j e got) in
        let zeroth : 0 + j ≡ j = omega arith in
        rw (zeroth, ix_to_va-window j lt)
          (inl (
            IsPointer-frame_of s (ix_to_va 1022 j) pa (IsPointer-slot s j e pa lt got present base),
            (λ va' pa' reads. reads),
          ))
