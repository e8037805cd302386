-- ===== src/Unicode/Utf16.antt =====
-- UTF-16 one code point at a time: `nextUtf16CodePoint` of src/ge/text/UnicodeUtil.cpp.
pub mod Units
use libge.Base.{ℕ, if◌then◌else◌, Run, ok, ◌>>=◌}
use libge.Base.Int.{pos}
use libge.Unicode.CodePoint.{is_high_surrogate, code_point_from_surrogates}
use libge.Unicode.Memory.{Cursor, read, move}

unfoldable pub next_utf16_code_point : Cursor → Run (ℕ × Cursor)
next_utf16_code_point c = do
  first ← read c 0
  if is_high_surrogate first
      then (do
        moved ← move c (pos 2)
        second ← read c 1
        ok (code_point_from_surrogates first second, moved))
      else (move c (pos 1) >>= λ moved. ok (first, moved))
