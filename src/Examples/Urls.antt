-- ===== src/Examples/Urls.antt =====
-- The escaping of src/ge/http/HttpUtil.cpp at concrete texts.
use libge.Base.{ℕ, ◌≡◌, ◌⊎◌, List, [], ◌∷◌, ◌++◌, refl, true, false, Returns, arith}
use libge.Url.{is_safe, hex_char, escape_url, unescape_url_in_place}
use libge.Url.Grammar.{Decodes, Cut, cut_1}
use libge.Url.InPlace.{unescape_url_in_place_lem, unescape_url_in_place-Cut}

-- "a b%"
abbrev plain_text : List ℕ
plain_text = 97 ∷ 32 ∷ 98 ∷ 37 ∷ []

escaped : escape_url plain_text ≡ 97 ∷ 43 ∷ 98 ∷ 37 ∷ 50 ∷ 53 ∷ []
unfolding escape_url is_safe hex_char
escaped = refl

-- "+%4"
unescape_url_in_place_lem_example :
    Returns (unescape_url_in_place ((43 ∷ 37 ∷ 52 ∷ []) ++ 0 ∷ [])) (λ r.
      ((r.0 ≡ true) × (s : List ℕ) × Decodes (43 ∷ 37 ∷ 52 ∷ []) s)
      ⊎ ((r.0 ≡ false) × Cut (43 ∷ 37 ∷ 52 ∷ [])))
unescape_url_in_place_lem_example =
    unescape_url_in_place_lem (43 ∷ 37 ∷ 52 ∷ []) []
      (λ e. omega (arith, e), (λ e. omega (arith, e), (λ e. omega (arith, e), refl)))

-- "%4"
unescape_url_in_place-Cut_example :
    Returns (unescape_url_in_place ((37 ∷ 52 ∷ []) ++ 0 ∷ [])) (λ r. r.0 ≡ false)
unescape_url_in_place-Cut_example =
    unescape_url_in_place-Cut (37 ∷ 52 ∷ []) [] (cut_1 52 (λ e. omega (arith, e)))
