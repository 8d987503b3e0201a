-- ===== src/Common/Text.antt =====
-- Tests on texts: the truthiness of an optional string, and membership.
use Prim.Native.Char.{Char, code}
use Prim.Native.String
use ventura_api.Common.{
  ℕ, ◌+◌, Bool, true, false, not, ◌&&◌, ◌||◌, ◌==◌, leb, map, if◌then◌else◌, Option, none, some,
  String, List, [], ◌∷◌, str_eq,
}

infixl 65 ◌<>◌
abbrev pub ◌<>◌ : String → String → String
a <> b = String.◌++◌ a b

-- `!s` is false: the text is there and is not empty
abbrev pub truthy : Option String → Bool
truthy none = false
truthy (some s) = not (str_eq s "")

-- `a === b`, where `undefined` and `null` equal no text
abbrev pub is_text : Option String → String → Bool
is_text none s = false
is_text (some t) s = str_eq t s

abbrev pub has_text : String → List String → Bool
has_text s [] = false
has_text s (t ∷ ts) = str_eq t s || has_text s ts

-- the code points of a text
abbrev pub codes : String → List ℕ
codes String.[] = []
codes (String.◌∷◌ c s) = code c ∷ codes s

-- `toLowerCase` of a code point, in ASCII
abbrev pub lower : ℕ → ℕ
lower c = if leb b'A' c && leb c b'Z' then c + 32 else c

-- the white space of ASCII
abbrev pub is_space : ℕ → Bool
is_space c = c == 32 || (leb 9 c && leb c 13)

unfoldable pub trim_start : List ℕ → List ℕ
trim_start [] = []
trim_start (c ∷ cs) = let rest = trim_start cs in if is_space c then rest else c ∷ cs

-- a code point before a text whose end is trimmed
abbrev pub keep_before : ℕ → List ℕ → List ℕ
keep_before c [] = if is_space c then [] else c ∷ []
keep_before c (d ∷ ds) = c ∷ d ∷ ds

-- drops the white space at the end
unfoldable pub trim_end : List ℕ → List ℕ
trim_end [] = []
trim_end (c ∷ cs) = keep_before c (trim_end cs)

unfoldable pub trim_text_start : String → String
trim_text_start String.[] = String.[]
trim_text_start (String.◌∷◌ c s) =
    let rest = trim_text_start s in if is_space (code c) then rest else String.◌∷◌ c s

-- a character before a text whose end is trimmed
abbrev pub keep_char_before : Char → String → String
keep_char_before c String.[] = if is_space (code c) then String.[] else String.◌∷◌ c String.[]
keep_char_before c (String.◌∷◌ d s) = String.◌∷◌ c (String.◌∷◌ d s)

unfoldable pub trim_text_end : String → String
trim_text_end String.[] = String.[]
trim_text_end (String.◌∷◌ c s) = keep_char_before c (trim_text_end s)

-- `s.trim()`
unfoldable pub trimmed : String → String
unfolding trim_text_start trim_text_end
trimmed s = trim_text_end (trim_text_start s)

-- `s.trim().toLowerCase()` of an address, as code points
unfoldable pub canonical : String → List ℕ
unfolding trim_start trim_end
canonical s = map lower (trim_end (trim_start (codes s)))

-- `text.trim().toLowerCase()`, of code points
unfoldable pub tidy : List ℕ → List ℕ
unfolding trim_start trim_end
tidy cs = map lower (trim_end (trim_start cs))

abbrev pub same_codes : List ℕ → List ℕ → Bool
same_codes [] [] = true
same_codes (c ∷ cs) (d ∷ ds) = c == d && same_codes cs ds
same_codes _ _ = false

-- a character before the first segment
abbrev pub into_first : ℕ → List (List ℕ) → List (List ℕ)
into_first c [] = (c ∷ []) ∷ []
into_first c (segment ∷ segments) = (c ∷ segment) ∷ segments

-- `text.split(separator)`, of one character
unfoldable pub split : ℕ → List ℕ → List (List ℕ)
split separator [] = [] ∷ []
split separator (c ∷ cs) =
    let segments = split separator cs in
    if c == separator then [] ∷ segments else into_first c segments
