-- ===== src/OwnedString/Copies.antt =====
-- Copies and assignments of a String of src/ge/text/String.cpp.
use libge.Base.{ℕ, ◌≡◌, refl, false, List, none, ltb, le→ltb, fault, out_of_bounds, arith}
use libge.OwnedString.{Str, small_str_max, delete_old, assign, assign_chars}

-- An assignment to a String whose text is in the object and has SMALL_STR_MAX chars, as `append` can
-- leave it, deletes the buffer in the object.
pub delete_old_faults :
    (w : ℕ) (old s : Str) (chars : List ℕ)
    → old.block ≡ none
    → old.len ≡ small_str_max w
    → (assign w old s ≡ fault out_of_bounds) × (assign_chars w old chars ≡ fault out_of_bounds)
unfolding assign assign_chars delete_old
delete_old_faults w old s chars short size =
    let long : ltb old.len (small_str_max w) ≡ false =
      le→ltb old.len (small_str_max w) (omega (arith, size)) in
    (rw (long, short) refl, rw (long, short) refl)
