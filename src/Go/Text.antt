-- ===== src/Go/Text.antt =====
-- strings: the library's functions that the program applies to its texts.
use Prim.Native.Char.{code}
use shaker.Prelude.{
  ℕ, ◌+◌, Bool, true, false, ◌&&◌, ◌||◌, String, List, [], ◌∷◌, leb, if◌then◌else◌, ◌==◌ as nat_eq,
}
use text.Mathlib.Text.{◌==◌ as str_eq}

infix 50 ◌==◌
abbrev pub ◌==◌ : String → String → Bool
s == t = str_eq s t

-- The code points of a text.
abbrev pub codes : String → List ℕ
codes String.[] = []
codes (String.◌∷◌ c s) = code c ∷ codes s

-- unicode.ToLower on ASCII. The program compares lowered texts with ASCII words in which no letter
-- is the lower case of a code point outside ASCII (those are i and k only).
unfoldable pub lower : ℕ → ℕ
lower c = if leb b'A' c && leb c b'Z' then c + 32 else c

abbrev pub codes_eq : List ℕ → List ℕ → Bool
codes_eq [] [] = true
codes_eq (c ∷ cs) (d ∷ ds) = nat_eq c d && codes_eq cs ds
codes_eq _ _ = false

abbrev pub lower_codes : List ℕ → List ℕ
unfolding lower
lower_codes [] = []
lower_codes (c ∷ cs) = lower c ∷ lower_codes cs

-- strings.ToLower(s) == word
abbrev pub lower_eq : String → String → Bool
unfolding lower
lower_eq s word = codes_eq (lower_codes (codes s)) (codes word)

-- The loops of the program that look for a text in a slice.
unfoldable pub contains : List String → String → Bool
contains [] s = false
contains (t ∷ ts) s = t == s || contains ts s
