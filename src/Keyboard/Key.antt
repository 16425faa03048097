-- ===== src/Keyboard/Key.antt =====
-- Key codes of drivers/keyboard.h, and the table from scan codes to them of drivers/keyboard.c.
use ts_os.Base.{ℕ, List, [], ◌∷◌}

-- The values of `KEY_CODE` that the table and the handler use; those of letters are their codes in
-- ASCII.
abbrev pub empty : ℕ
empty = 0

abbrev pub one : ℕ
one = 49

abbrev pub two : ℕ
two = 50

abbrev pub three : ℕ
three = 51

abbrev pub four : ℕ
four = 52

abbrev pub five : ℕ
five = 53

abbrev pub six : ℕ
six = 54

abbrev pub seven : ℕ
seven = 55

abbrev pub eight : ℕ
eight = 56

abbrev pub nine : ℕ
nine = 57

abbrev pub zero : ℕ
zero = 48

abbrev pub hyphen : ℕ
hyphen = 45

abbrev pub equ : ℕ
equ = 61

abbrev pub backspace : ℕ
backspace = 144

abbrev pub tab : ℕ
tab = 145

abbrev pub left_bracket : ℕ
left_bracket = 91

abbrev pub right_bracket : ℕ
right_bracket = 93

abbrev pub enter : ℕ
enter = 147

abbrev pub ctrl : ℕ
ctrl = 149

abbrev pub semicolon : ℕ
semicolon = 59

abbrev pub single_quote : ℕ
single_quote = 39

abbrev pub acute : ℕ
acute = 96

abbrev pub shift : ℕ
shift = 148

abbrev pub back_slash : ℕ
back_slash = 92

abbrev pub comma : ℕ
comma = 44

abbrev pub dot : ℕ
dot = 46

abbrev pub slash : ℕ
slash = 47

abbrev pub wildcard : ℕ
wildcard = 42

abbrev pub alt : ℕ
alt = 150

abbrev pub space : ℕ
space = 32

abbrev pub caps : ℕ
caps = 146

abbrev pub f1 : ℕ
f1 = 128

abbrev pub f2 : ℕ
f2 = 129

abbrev pub f3 : ℕ
f3 = 130

abbrev pub f4 : ℕ
f4 = 131

abbrev pub f5 : ℕ
f5 = 132

abbrev pub f6 : ℕ
f6 = 133

abbrev pub f7 : ℕ
f7 = 134

abbrev pub f8 : ℕ
f8 = 135

abbrev pub f9 : ℕ
f9 = 136

abbrev pub f10 : ℕ
f10 = 137

abbrev pub numlock : ℕ
numlock = 140

abbrev pub scroll : ℕ
scroll = 141

abbrev pub add : ℕ
add = 43

abbrev pub f11 : ℕ
f11 = 138

abbrev pub f12 : ℕ
f12 = 139

abbrev pub up_release : ℕ
up_release = 151

abbrev pub down_release : ℕ
down_release = 153

abbrev pub printscr : ℕ
printscr = 155

abbrev pub printscr_release : ℕ
printscr_release = 156

abbrev pub pause : ℕ
pause = 157

-- `keycode_tbl`, by scan code
abbrev pub keycode_tbl : List ℕ
keycode_tbl =
    empty ∷ empty ∷ one ∷ two ∷ three ∷ four ∷ five ∷ six ∷ seven ∷ eight ∷ nine ∷ zero ∷ hyphen
    ∷ equ ∷ backspace ∷ tab ∷ 81 ∷ 87 ∷ 69 ∷ 82 ∷ 84 ∷ 89 ∷ 85 ∷ 73 ∷ 79 ∷ 80 ∷ left_bracket
    ∷ right_bracket ∷ enter ∷ ctrl ∷ 65 ∷ 83 ∷ 68 ∷ 70 ∷ 71 ∷ 72 ∷ 74 ∷ 75 ∷ 76 ∷ semicolon
    ∷ single_quote ∷ acute ∷ shift ∷ back_slash ∷ 90 ∷ 88 ∷ 67 ∷ 86 ∷ 66 ∷ 78 ∷ 77 ∷ comma ∷ dot
    ∷ slash ∷ shift ∷ wildcard ∷ alt ∷ space ∷ caps ∷ f1 ∷ f2 ∷ f3 ∷ f4 ∷ f5 ∷ f6 ∷ f7 ∷ f8 ∷ f9
    ∷ f10 ∷ numlock ∷ scroll ∷ seven ∷ eight ∷ nine ∷ hyphen ∷ four ∷ five ∷ six ∷ add ∷ one ∷ two
    ∷ three ∷ zero ∷ dot ∷ f11 ∷ f12 ∷ []
