-- ===== src/Paging/Start.antt =====
-- The address space in which kernel/mem.c turns paging on.
use ts_os.Base.{
  ℕ, zero, suc, ◌+◌, ◌*◌, ◌%◌, ◌^◌, ◌≤◌, ◌<◌, ◌≡◌, refl, ◌∙◌, sym, inl, inr, true, arith, ◌==◌, ltb,
  u32, Bool-cases, done, ◌>>=◌,
}
use mathlib.Core.Path.{subst}
use ts_os.Paging.{Space, page_flg_kernel, page_dir_index, page_table_index}
use ts_os.Paging.Boot.{set_pg_dir0_vmap, map_below}
use ts_os.Paging.Early.{Maps, IsDir0}
use ts_os.Paging.Kernel.{SamePage, Mapped, set_pg_dir0_vmap-Mapped}

-- the pages below `limit` at their addresses plus `offset`, and the ones below `offset` as before
pub record Window (s : Space) (offset limit : ℕ) (s' : Space) : Type 0 where
  pub ok : IsDir0 s'
  pub maps : (x : ℕ) → x < limit → x % 4096 ≡ 0 → Maps s' (x + offset) x
  pub keeps : (va pa : ℕ) → va < offset → Maps s va pa → Maps s' va pa

-- a range of pages, which are mapped where it lies in the tables below number 1022
pub record IsRange (offset limit : ℕ) : Type 0 where
  pub whole : offset % 2 ^ 22 ≡ 0
  pub pages : limit % 4096 ≡ 0
  pub small : limit ≤ 2 ^ 24
  pub low : offset + limit ≤ 1022 * 2 ^ 22

in_low :
    (offset limit a : ℕ) → IsRange offset limit → a < limit → page_dir_index (a + offset) < 1022
unfolding page_dir_index
in_low offset limit a range lt = omega (arith, range.low)

same_index :
    (offset a : ℕ) → offset % 2 ^ 22 ≡ 0 → page_table_index a ≡ page_table_index (a + offset)
unfolding page_table_index
same_index offset a whole = omega arith

below_low : (va offset limit : ℕ) → IsRange offset limit → va < offset → page_dir_index va < 1022
unfolding page_dir_index
below_low va offset limit range lt = omega (arith, range.low)

apart : (va offset a : ℕ) → offset % 2 ^ 22 ≡ 0 → va < offset → ¬ SamePage (a + offset) va
unfolding page_dir_index page_table_index
apart va offset a whole below (d, t) = omega arith

pages_apart :
    (offset a x : ℕ)
    → offset % 2 ^ 22 ≡ 0
    → a % 4096 ≡ 0
    → x % 4096 ≡ 0
    → x < a
    → ¬ SamePage (a + offset) (x + offset)
unfolding page_dir_index page_table_index
pages_apart offset a x whole al xl lt (d, t) = omega arith

grown :
    (s s1 : Space) (offset limit a : ℕ)
    → IsRange offset limit
    → a % 4096 ≡ 0
    → a < limit
    → Mapped s (a + offset) a s1
    → ((x : ℕ) → x < a → x % 4096 ≡ 0 → Maps s (x + offset) x)
    → (x : ℕ) → x < a + 4096
    → x % 4096 ≡ 0
    → Maps s1 (x + offset) x
grown s s1 offset limit a range aligned lt one before x below al = elim (Bool-cases (x == a)) [
  | inl same ↦
      let e : x ≡ a = ground arith in subst (λ (y : ℕ). Maps s1 (y + offset) y) (sym e) one.maps
  | inr other ↦
      let smaller : x < a = ground arith in
      one.keeps (x + offset) x (in_low offset limit x range (omega arith))
        (pages_apart offset a x range.whole aligned al smaller) (before x smaller al)
]

map_below-suc :
    (k : ℕ) (s s1 : Space) (offset limit a : ℕ)
    → IsRange offset limit
    → a < limit
    → set_pg_dir0_vmap s (a + offset) a page_flg_kernel ≡ done s1
    → map_below (suc k) s offset limit a ≡ map_below k s1 offset limit (a + 4096)
unfolding map_below
map_below-suc k s s1 offset limit a range lt runs =
    let go : ltb a limit ≡ true = ground arith in
    let va : u32 (a + offset) ≡ a + offset = omega (arith, range.low) in
    let next : u32 (a + 4096) ≡ a + 4096 = omega (arith, range.small) in
    rw (map_below, go, va, runs, ◌>>=◌, next) refl

pub map_below-Window :
    (k : ℕ) (s : Space) (offset limit a : ℕ)
    → IsRange offset limit
    → IsDir0 s
    → a % 4096 ≡ 0
    → a ≤ limit
    → limit < a + 4096 * k
    → ((x : ℕ) → x < a → x % 4096 ≡ 0 → Maps s (x + offset) x)
    → (s' : Space) × (map_below k s offset limit a ≡ done s') × Window s offset limit s'
unfolding map_below
map_below-Window zero s offset limit a range ok aligned le fuel before = absurd (omega arith)
map_below-Window (suc k) s offset limit a range ok aligned le fuel before =
    elim (Bool-cases (ltb a limit)) [
      | inr stop ↦
          let at_end : a ≡ limit = ground arith in
          (
            s,
            rw (map_below, stop) refl,
            record {
              ok = ok;
              maps = λ x lt al. before x (omega arith) al;
              keeps = λ va pa lt m. m;
            },
          )
      | inl go ↦
          let lt : a < limit = ground arith in
          let (s1, runs, one) =
            set_pg_dir0_vmap-Mapped s (a + offset) a ok (in_low offset limit a range lt) aligned
              (same_index offset a range.whole) page_flg_kernel in
          let (s2, rest, window) =
            map_below-Window k s1 offset limit (a + 4096) range one.ok (omega arith)
              (omega (arith, range.pages)) (omega arith)
              (grown s s1 offset limit a range aligned lt one before) in
          (
            s2,
            map_below-suc k s s1 offset limit a range lt runs ∙ rest,
            record {
              ok = window.ok;
              maps = window.maps;
              keeps = λ va' pa' below m. window.keeps va' pa' below (
                  one.keeps va' pa' (below_low va' offset limit range below)
                    (apart va' offset a range.whole below) m);
            },
          )
    ]
