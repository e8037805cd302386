-- ===== src/Examples/Refs.antt =====
-- The string references of src/ge/text/StringRef.cpp at concrete texts.
use libge.Base.{ℕ, ◌≡◌, ◌↔◌, List, [], ◌∷◌, true, ok, Returns}
use libge.StringRef.{compare, equals, starts_with, ends_with}
use libge.StringRef.Equality.{Begins, Ends, equals_starts_ends_lem}
use libge.StringRef.Order.{order, compare-order}

-- "ab" and "abc"
abbrev ab : List ℕ
ab = 97 ∷ 98 ∷ []

abbrev abc : List ℕ
abc = 97 ∷ 98 ∷ 99 ∷ []

compare-order_example : compare ab abc ≡ ok (order ab abc)
compare-order_example = compare-order ab abc

equals_starts_ends_lem_example :
    Returns (equals abc ab) (λ b. (b ≡ true) ↔ (abc ≡ ab))
    × Returns (starts_with abc ab) (λ b. (b ≡ true) ↔ Begins abc ab)
    × Returns (ends_with abc ab) (λ b. (b ≡ true) ↔ Ends abc ab)
equals_starts_ends_lem_example = equals_starts_ends_lem abc ab
