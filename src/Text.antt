-- ===== src/Text.antt =====
-- Text as a list of characters, for what the program reads and writes a character at a time.
use Prim.Native.String.{String}
use Prim.Native.Char.{Char, code}
use text.Mathlib.TextEquality.{Char-path}
use fode_hpc_wflop.Base.{ℕ, Bool, true, List, [], ◌∷◌, ◌==◌, ==_iff, ◌≡◌, sym}

abbrev pub Text : Type 0
Text = List Char

-- The characters of a literal.
abbrev pub chars : String → Text
chars String.[] = []
chars (String.◌∷◌ c s) = c ∷ chars s

-- `ch == 'x'`, where the second argument is the code of x
abbrev pub is : Char → ℕ → Bool
is c n = code c == n

abbrev pub string_of : Text → String
string_of [] = ""
string_of (ch ∷ text) = String.◌∷◌ ch (string_of text)

pub same_char : (c d : Char) → is c (code d) ≡ true → d ≡ c
same_char c d h = Char-path d c (sym ((==_iff (code c) (code d)).0 h))
