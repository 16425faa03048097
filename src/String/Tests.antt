-- ===== src/String/Tests.antt =====
-- The string functions on small texts.
use ts_os.Base.{ℕ, ◌≡◌, some, [], ◌∷◌, arith, done, List}
use ts_os.String.{no_leading, strlen, string_equal, strfd}
use ts_os.String.Equal.{IsText, ended, strlen_lem, string_equal_iff}
use ts_os.String.Search.{First, strfd-First}
use ts_os.String.Leading.{Skipped, no_leading-Skipped}

-- "TsOS" and "OS"
abbrev name : List ℕ
name = 84 ∷ 115 ∷ 79 ∷ 83 ∷ []

abbrev os : List ℕ
os = 79 ∷ 83 ∷ []

name-IsText : IsText name
name-IsText = (omega arith, (omega arith, (omega arith, (omega arith, tt))))

os-IsText : IsText os
os-IsText = (omega arith, (omega arith, tt))

strlen_lem_example : strlen (some (ended name (7 ∷ []))) ≡ done 4
strlen_lem_example = strlen_lem name (7 ∷ []) name-IsText (omega arith)

string_equal_iff_example :
    (n : ℕ) × (string_equal (some (ended name (7 ∷ []))) (some (ended os [])) ≡ done n)
    × (n ≡ 1 → name ≡ os)
    × (name ≡ os → n ≡ 1)
string_equal_iff_example = string_equal_iff name os (7 ∷ []) [] name-IsText os-IsText

strfd-First_example : First os name (strfd (ended name []) (ended os []))
strfd-First_example = strfd-First name os [] [] name-IsText os-IsText (omega arith)

no_leading-Skipped_example :
    Skipped os
      (79 ∷ 83 ∷ 79 ∷ 83 ∷ 84 ∷ [])
      []
      (no_leading (79 ∷ 83 ∷ 79 ∷ 83 ∷ 84 ∷ 0 ∷ []) (ended os []))
no_leading-Skipped_example =
    no_leading-Skipped (79 ∷ 83 ∷ 79 ∷ 83 ∷ 84 ∷ []) os [] []
      (omega arith, (omega arith, (omega arith, (omega arith, (omega arith, tt))))) os-IsText
      (omega arith) (omega arith)
