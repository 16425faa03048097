-- ===== src/Malloc/Tiles/Shape.antt =====
-- No two free blocks of a tiling are neighbours, and the first block is free.
use ts_os.Base.{◌≡◌, refl, Bool, true, false, not, [], ◌∷◌}
use ts_os.Malloc.Tiles.{Blocks, rejoin}

-- no block of `bs` is free behind a free one, nor the first if `g` is true
abbrev pub Alternate : Bool → Blocks → Type 0
Alternate g [] = Unit {0}
Alternate g ((true, _) ∷ bs) = Alternate false bs
Alternate g ((false, _) ∷ bs) = (g ≡ false) × Alternate true bs

-- whether the last of the blocks `rb`, which stands first, is free
abbrev pub ends_free : Blocks → Bool
ends_free [] = false
ends_free ((u, _) ∷ rb) = not u

abbrev pub AlternateBack : Blocks → Type 0
AlternateBack [] = Unit {0}
AlternateBack ((true, _) ∷ rb) = AlternateBack rb
AlternateBack ((false, _) ∷ rb) = (ends_free rb ≡ false) × AlternateBack rb

pub split-Alternate :
    (rb bs : Blocks)
    → Alternate false (rejoin rb bs)
    → AlternateBack rb × Alternate (ends_free rb) bs
split-Alternate [] bs h = (tt, h)
split-Alternate ((true, s) ∷ rb) bs h = let r = split-Alternate rb ((true, s) ∷ bs) h in (r.0, r.1)
split-Alternate ((false, s) ∷ rb) bs h =
    let r = split-Alternate rb ((false, s) ∷ bs) h in ((r.1.0, r.0), r.1.1)

pub rejoin-Alternate :
    (rb bs : Blocks)
    → AlternateBack rb
    → Alternate (ends_free rb) bs
    → Alternate false (rejoin rb bs)
rejoin-Alternate [] bs b h = h
rejoin-Alternate ((true, s) ∷ rb) bs b h = rejoin-Alternate rb ((true, s) ∷ bs) b h
rejoin-Alternate ((false, s) ∷ rb) bs b h = rejoin-Alternate rb ((false, s) ∷ bs) b.1 (b.0, h)

-- whether there is a first block and it is free
abbrev pub starts_free : Blocks → Bool
starts_free [] = false
starts_free ((u, _) ∷ bs) = not u

-- the same of blocks that stand last first, with `d` for none
abbrev pub starts_back : Blocks → Bool → Bool
starts_back [] d = d
starts_back ((u, _) ∷ rb) d = starts_back rb (not u)

pub starts_free-rejoin :
    (rb bs : Blocks) → starts_free (rejoin rb bs) ≡ starts_back rb (starts_free bs)
starts_free-rejoin [] bs = refl
starts_free-rejoin ((u, s) ∷ rb) bs = starts_free-rejoin rb ((u, s) ∷ bs)

pub Alternate-weaken :
    (bs : Blocks) → Alternate true bs → Alternate false bs × (starts_free bs ≡ false)
Alternate-weaken [] h = (tt, refl)
Alternate-weaken ((true, s) ∷ bs) h = (h, refl)
Alternate-weaken ((false, s) ∷ bs) h = cc (h.0)
