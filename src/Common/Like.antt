-- ===== src/Common/Like.antt =====
-- `escapeLike`, which four repositories define alike, and the ILIKE patterns of SQL that it feeds:
-- `%` stands for any text, `_` for any one character, and a backslash takes away the meaning of the
-- next character. Texts are lists of code points, compared without regard to case (in ASCII).
use ventura_api.Common.{
  ℕ, ◌≡◌, refl, sym, ap, ◌∙◌, Bool, true, false, ◌&&◌, ◌||◌, List, [], ◌∷◌, ◌++◌, map, ◌==◌,
  if◌then◌else◌, arith, Option, none, some, String,
}
use mathlib.Core.List.{append-nil}
use ventura_api.Common.Text.{lower, same_codes, codes, trim_start, trim_end}

abbrev pub percent : ℕ
percent = 37

abbrev pub underscore : ℕ
underscore = 95

abbrev pub backslash : ℕ
backslash = 92

-- `[\\%_]`
abbrev pub is_wild : ℕ → Bool
is_wild c = c == backslash || (c == percent || c == underscore)

-- `value.replace(/[\\%_]/g, (ch) => `\\${ch}`)`
unfoldable pub escape_like : List ℕ → List ℕ
escape_like [] = []
escape_like (c ∷ cs) =
    let rest = escape_like cs in if is_wild c then backslash ∷ c ∷ rest else c ∷ rest

pub data Token : Type 0 where
  any one : Token
  char : ℕ → Token

abbrev pub token : ℕ → Token
token c = if c == percent then any else (if c == underscore then one else char c)

-- the tokens of a pattern; `true` after a backslash
unfoldable pub tokens : Bool → List ℕ → List Token
tokens escaped [] = []
tokens true (c ∷ cs) = char c ∷ tokens false cs
tokens false (c ∷ cs) = elim (c == backslash) [
  | true ↦ tokens true cs
  | false ↦ token c ∷ tokens false cs
]

-- some suffix fits
unfoldable pub some_suffix : (List ℕ → Bool) → List ℕ → Bool
some_suffix f [] = f []
some_suffix f (c ∷ cs) = f (c ∷ cs) || some_suffix f cs

unfoldable pub fits : List Token → List ℕ → Bool
fits [] [] = true
fits [] (c ∷ cs) = false
fits (any ∷ p) cs = some_suffix (fits p) cs
fits (one ∷ p) [] = false
fits (one ∷ p) (c ∷ cs) = fits p cs
fits (char d ∷ p) [] = false
fits (char d ∷ p) (c ∷ cs) = lower d == lower c && fits p cs

-- `text ILIKE pattern`
unfoldable pub ilike : List ℕ → List ℕ → Bool
unfolding tokens fits
ilike pattern text = fits (tokens false pattern) text

-- `%${escapeLike(term)}%`
unfoldable pub around : List ℕ → List ℕ
unfolding escape_like
around term = percent ∷ escape_like term ++ percent ∷ []

-- `q?.trim()`, where an absent or an empty text means that nothing is searched for
unfoldable pub search_term : Option String → Option (List ℕ)
unfolding trim_start trim_end
search_term none = none
search_term (some q) = elim (trim_end (trim_start (codes q))) [ [] ↦ none | c ∷ cs ↦ some (c ∷ cs) ]

-- `{ column: { $ilike: like } }`, which a null column never meets
abbrev pub column_like : List ℕ → Option String → Bool
column_like pattern none = false
column_like pattern (some text) = ilike pattern (codes text)

abbrev any_column_like : List ℕ → List (Option String) → Bool
any_column_like pattern [] = false
any_column_like pattern (c ∷ columns) = column_like pattern c || any_column_like pattern columns

-- the `$or` over the columns that is added to a query if a term is searched for
unfoldable pub searched : Option String → List (Option String) → Bool
searched q columns = elim (search_term q) [
  | none ↦ true
  | some term ↦ any_column_like (around term) columns
]

-- the text begins with the term, up to case
abbrev pub starts : List ℕ → List ℕ → Bool
starts [] text = true
starts (d ∷ term) [] = false
starts (d ∷ term) (c ∷ text) = lower d == lower c && starts term text

-- the term stands somewhere in the text, up to case
abbrev pub contains : List ℕ → List ℕ → Bool
contains term [] = starts term []
contains term (c ∷ text) = starts term (c ∷ text) || contains term text

-- Escaped characters are read back as themselves, whatever follows.
tokens-escape_like :
    (term rest : List ℕ)
    → tokens false (escape_like term ++ rest) ≡ map char term ++ tokens false rest
unfolding tokens escape_like
tokens-escape_like [] rest = refl
tokens-escape_like (c ∷ cs) rest = ground (arith, tokens-escape_like cs rest)

fits-map-char :
    (term text : List ℕ) → fits (map char term) text ≡ same_codes (map lower term) (map lower text)
unfolding fits
fits-map-char [] [] = refl
fits-map-char [] (c ∷ cs) = refl
fits-map-char (d ∷ term) [] = refl
fits-map-char (d ∷ term) (c ∷ text) = ap (λ b. lower d == lower c && b) (fits-map-char term text)

-- An escaped term matches literally: `text ILIKE escapeLike(term)` holds exactly of the texts that
-- equal the term up to case.
pub ilike-escape_like :
    (term text : List ℕ)
    → ilike (escape_like term) text ≡ same_codes (map lower term) (map lower text)
unfolding ilike
ilike-escape_like term text =
    ap (λ p. fits (tokens false p) text) (sym (append-nil (escape_like term)))
    ∙ ap (λ p. fits p text) (tokens-escape_like term [])
    ∙ ap (λ p. fits p text) (append-nil (map char term))
    ∙ fits-map-char term text

ends_anywhere : (text : List ℕ) → some_suffix (fits []) text ≡ true
unfolding some_suffix fits
ends_anywhere [] = refl
ends_anywhere (c ∷ text) = ends_anywhere text

fits-starts : (term text : List ℕ) → fits (map char term ++ any ∷ []) text ≡ starts term text
unfolding fits
fits-starts [] text = ends_anywhere text
fits-starts (d ∷ term) [] = refl
fits-starts (d ∷ term) (c ∷ text) = ap (λ b. lower d == lower c && b) (fits-starts term text)

some_suffix-contains :
    (term text : List ℕ) → some_suffix (fits (map char term ++ any ∷ [])) text ≡ contains term text
unfolding some_suffix
some_suffix-contains term [] = fits-starts term []
some_suffix-contains term (c ∷ text) =
    rw (fits-starts term (c ∷ text), some_suffix-contains term text) refl

-- A search for `%escapeLike(term)%` finds exactly the texts that contain the term up to case.
pub ilike-around : (term text : List ℕ) → ilike (around term) text ≡ contains term text
unfolding ilike around tokens fits
ilike-around term text =
    ap (λ p. some_suffix (fits p) text) (tokens-escape_like term (percent ∷ []))
    ∙ some_suffix-contains term text

-- some column holds the term, up to case
abbrev pub any_column_holds : List ℕ → List (Option String) → Bool
any_column_holds term [] = false
any_column_holds term (none ∷ columns) = any_column_holds term columns
any_column_holds term (some text ∷ columns) =
    contains term (codes text) || any_column_holds term columns

-- what a search asks for, without patterns: nothing, or that a column holds the trimmed term
abbrev pub holds_term : Option String → List (Option String) → Bool
holds_term q columns = elim (search_term q) [
  | none ↦ true
  | some term ↦ any_column_holds term columns
]

any_column_like-around :
    (term : List ℕ) (columns : List (Option String))
    → any_column_like (around term) columns ≡ any_column_holds term columns
any_column_like-around term [] = refl
any_column_like-around term (none ∷ columns) = any_column_like-around term columns
any_column_like-around term (some text ∷ columns) =
    rw (ilike-around term (codes text), any_column_like-around term columns) refl

-- A search of a list endpoint matches exactly the rows of which some column that is not null contains
-- the trimmed search term up to case, with its wildcards taken literally; an absent or blank term
-- matches every row.
pub searched-holds_term :
    (q : Option String) (columns : List (Option String)) → searched q columns ≡ holds_term q columns
unfolding searched
searched-holds_term q columns = go (search_term q)
  where
    go :
        (t : Option (List ℕ))
        → elim t as (λ _. Bool) [ none ↦ true | some term ↦ any_column_like (around term) columns ]
          ≡ elim t as (λ _. Bool) [ none ↦ true | some term ↦ any_column_holds term columns ]
    go none = refl
    go (some term) = any_column_like-around term columns
