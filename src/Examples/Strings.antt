-- ===== src/Examples/Strings.antt =====
-- The statements about String, at short texts.
use libge.Base.{
  ℕ, List, Option, ◌>>=◌, ◌≡◌, [], ◌∷◌, ◌++◌, replicate, none, fault, out_of_bounds, ok, arith,
}
use libge.OwnedString.{Str, from_chars}
use libge.OwnedString.{chars_of}
use libge.OwnedString.Appended.{append_all, from_chars-append_all}
use libge.OwnedString.Contents.{with_zero, from_chars_faults}

-- "ab" where a word has four bytes
abbrev ab_string : Str
ab_string = record {
  len = 2;
  reserved = 12;
  short_str = with_zero (97 ∷ 98 ∷ []) ++ replicate 17 none;
  block = none;
}

-- "ab", then ten chars and one more
from_chars-append_all_example :
    (s : Str) × (rest : List (Option ℕ)) × ((from_chars 4 (97 ∷ 98 ∷ []) >>= λ (t : Str).
    append_all t (replicate 10 99 ∷ (100 ∷ []) ∷ []))
      ≡ ok s)
    × (s.len ≡ 13)
    × (chars_of 4 s ≡ ok (with_zero ((97 ∷ 98 ∷ []) ++ (replicate 10 99 ++ 100 ∷ [])) ++ rest))
from_chars-append_all_example =
    from_chars-append_all 4 (97 ∷ 98 ∷ []) (replicate 10 99 ∷ (100 ∷ []) ∷ []) (omega arith)
      (omega arith) (omega arith)

from_chars_faults_example : from_chars 8 (replicate 9 99) ≡ fault out_of_bounds
from_chars_faults_example = from_chars_faults (replicate 9 99) (omega arith) (omega arith)
