-- ===== src/Tests/Lists.antt =====
-- The theorems on searching at work on small texts.
use ventura_api.Common.{◌≡◌, none, some, [], ◌∷◌, map}
use ventura_api.Common.Text.{codes, lower, same_codes}
use ventura_api.Common.Like.{
  escape_like, ilike, searched, holds_term, ilike-escape_like, searched-holds_term,
}

ilike-escape_like_example :
    ilike (escape_like (codes "50%_")) (codes "50%_")
    ≡ same_codes (map lower (codes "50%_")) (map lower (codes "50%_"))
ilike-escape_like_example = ilike-escape_like (codes "50%_") (codes "50%_")

searched-holds_term_example :
    searched (some " al ") (some "Malt" ∷ none ∷ [])
    ≡ holds_term (some " al ") (some "Malt" ∷ none ∷ [])
searched-holds_term_example = searched-holds_term (some " al ") (some "Malt" ∷ none ∷ [])
