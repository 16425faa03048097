-- ===== src/Vga.antt =====
-- kernel/vga.c: the text screen of 25 rows of 80 cells, with two bytes for each cell. The bytes from
-- VGA_BASE on are a list.
pub mod Cells
use ts_os.Base.{
  ℕ, zero, suc, ◌+◌, ◌*◌, Bool, true, false, ◌||◌, List, length, get_elem?, set, leb, ltb,
  if◌then◌else◌, Outcome, done, fault, ◌>>=◌, checked,
}

abbrev pub vga_max_col : ℕ
vga_max_col = 80

abbrev pub vga_max_row : ℕ
vga_max_row = 25

abbrev pub Screen : Type 0
Screen = List ℕ

-- the offset of a cell from VGA_BASE
unfoldable pub vga_addr : (x y : ℕ) → ℕ
vga_addr x y = (y * vga_max_col + x) * 2

-- The result is whether the cell is on the screen: 0 or -1 in the code.
unfoldable pub vga_write_char : Screen → (c x y : ℕ) → Outcome (Bool × Screen)
vga_write_char scr c x y =
    if leb vga_max_col x || leb vga_max_row y
    then done (false, scr)
    else (if ltb (vga_addr x y) (length scr) then done (true, set scr (vga_addr x y) c) else fault)

-- the loop of `vga_print_row`, from column `x` on
unfoldable pub print_row_from : ℕ → Screen → (y : ℕ) → (row : List ℕ) → (x : ℕ) → Outcome Screen
print_row_from zero scr y row x = done scr
print_row_from (suc k) scr y row x = checked (get_elem? row x) >>= λ c.
    vga_write_char scr c x y >>= λ (_, scr'). print_row_from k scr' y row (x + 1)

unfoldable pub vga_print_row : Screen → (y : ℕ) → (row : List ℕ) → (row_size : ℕ) → Outcome Screen
vga_print_row scr y row row_size = print_row_from row_size scr y row 0

-- the loops of `vga_clear_all`
unfoldable pub clear_cells : ℕ → Screen → (x y : ℕ) → Outcome Screen
clear_cells zero scr x y = done scr
clear_cells (suc k) scr x y = vga_write_char scr 0 x y >>= λ (_, scr'). clear_cells k scr' (x + 1) y

unfoldable pub clear_rows : ℕ → Screen → (y : ℕ) → Outcome Screen
clear_rows zero scr y = done scr
clear_rows (suc k) scr y = clear_cells vga_max_col scr 0 y >>= λ scr'. clear_rows k scr' (y + 1)

unfoldable pub vga_clear_all : Screen → Outcome Screen
vga_clear_all scr = clear_rows vga_max_row scr 0
