-- ===== src/Unicode/Utf16/Units.antt =====
-- `nextUtf16CodePoint` reads back the units of a code point.
use libge.Base.{ℕ, ◌≤◌, ◌≡◌, refl, List, ◌∷◌, ok}
use libge.Unicode.CodePoint.{code_point_to_surrogates}
use libge.Unicode.CodePoint.Surrogates.{from-to_surrogates}
use libge.Unicode.Memory.{cursor}
use libge.Unicode.Utf16.{next_utf16_code_point}

-- A code point from 0x10000 to 0x10FFFF that `codePointToSurrogates` has split is read back by
-- `nextUtf16CodePoint`, which moves the pointer over both units.
pub next_utf16-surrogates :
    (cp : ℕ) (before rest : List ℕ)
    → 0x10000 ≤ cp
    → cp ≤ 0x10FFFF
    → let pair = code_point_to_surrogates cp in
      next_utf16_code_point (cursor before (pair.0 ∷ pair.1 ∷ rest))
      ≡ ok (cp, cursor (pair.1 ∷ pair.0 ∷ before) rest)
unfolding next_utf16_code_point
next_utf16-surrogates cp before rest lo hi =
    let (high, low, joined) = from-to_surrogates cp lo hi in rw high (rw joined refl)
