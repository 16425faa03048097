-- ===== src/Vga/Cells.antt =====
-- The cells of the screen of kernel/vga.c.
use ts_os.Base.{
  ℕ, ◌+◌, ◌*◌, ◌≡◌, refl, Bool, true, false, ◌||◌, Bool-cases, inl, inr, length, set, length-set,
  ◌∙◌, arith, leb, ltb, done,
}
use ts_os.Vga.{Screen, vga_addr, vga_write_char}

abbrev pub screen_bytes : ℕ
screen_bytes = 4000

-- A character can be written anywhere: off the screen it changes nothing, and the screen keeps its
-- size.
pub vga_write_char-done :
    (scr : Screen) (c x y : ℕ)
    → length scr ≡ screen_bytes
    → (shown : Bool) × (scr' : Screen) × (vga_write_char scr c x y ≡ done (shown, scr'))
      × (length scr' ≡ screen_bytes)
unfolding vga_write_char vga_addr
vga_write_char-done scr c x y size = elim (Bool-cases (leb 80 x || leb 25 y)) [
  | inl off ↦ (false, scr, rw off refl, size)
  | inr on ↦
      let inside : ltb ((y * 80 + x) * 2) (length scr) ≡ true = ground arith in
      (
        true,
        set scr ((y * 80 + x) * 2) c,
        rw (on, inside) refl,
        length-set scr ((y * 80 + x) * 2) c ∙ size,
      )
]
