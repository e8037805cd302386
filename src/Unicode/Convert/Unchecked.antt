-- ===== src/Unicode/Convert/Unchecked.antt =====
-- The conversions from UTF-8 are unchecked: what they do at a byte that begins no code point.
use libge.Base.{ℕ, zero, suc, ◌<◌, ◌≡◌, refl, List, [], ◌∷◌, ◌++◌, ok, stuck}
use libge.Base.Int.{negsuc}
use libge.Unicode.Memory.{cursor}
use libge.Unicode.Utf8.{utf8_code_point_length}
use libge.Unicode.Utf8.Lengths.{length_1}
use libge.Unicode.Convert.{while_ahead, utf8_to_utf16_pass}

module _ (a bad : ℕ) (ascii : a < 0x80) (illegal : utf8_code_point_length bad ≡ negsuc 0) where
  ascii-pass :
      (before rest dest : List ℕ)
      → utf8_to_utf16_pass (cursor before (a ∷ bad ∷ rest)) dest
        ≡ ok (cursor (a ∷ before) (bad ∷ rest), dest ++ a ∷ [])
  unfolding utf8_to_utf16_pass
  ascii-pass before rest dest = rw (length_1 a ascii)

  illegal-pass :
      (before rest dest : List ℕ)
      → utf8_to_utf16_pass (cursor (a ∷ before) (bad ∷ rest)) dest
        ≡ ok (cursor before (a ∷ bad ∷ rest), dest ++ [])
  unfolding utf8_to_utf16_pass
  illegal-pass before rest dest = rw illegal

  -- After an ASCII character, a byte of length -1 sends the pointer of `utf8ToUtf16` back to that
  -- character: no number of passes is enough, and each second one appends it again.
  pub utf8_to_utf16_loops :
      (fuel : ℕ) (before rest dest : List ℕ)
      → while_ahead utf8_to_utf16_pass fuel (cursor before (a ∷ bad ∷ rest)) dest ≡ stuck
  unfolding while_ahead
  utf8_to_utf16_loops zero before rest dest = refl
  utf8_to_utf16_loops (suc zero) before rest dest = rw (ascii-pass before rest dest)
  utf8_to_utf16_loops (suc (suc fuel)) before rest dest =
      rw (ascii-pass before rest dest, illegal-pass before rest (dest ++ a ∷ []))
        (utf8_to_utf16_loops fuel before rest _)
