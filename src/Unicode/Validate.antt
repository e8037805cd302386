-- ===== src/Unicode/Validate.antt =====
-- `validateUtf8` of src/ge/text/UnicodeUtil.cpp. The bytes from `iter` to `end` are a list.
pub mod Steps
pub mod Decoded
pub mod Accepted
use libge.Base.{
  ℕ, zero, suc, ◌+◌, ◌-◌, ◌^◌, bit_and, Bool, true, false, not, ◌&&◌, ◌||◌, List, [], ◌∷◌, ◌++◌,
  Option, none, some, length, drop, ltb, leb, ◌==◌, if◌then◌else◌, Run, ok, stuck, ◌>>=◌,
}
use libge.Unicode.CodePoint.{is_valid_code_point}
use libge.Unicode.Scan.{scan_ascii}
use libge.Unicode.Utf8.{join3, join4}

unfoldable pub is_continuation : ℕ → Bool
is_continuation b = bit_and b 0xC0 == 0x80

-- `none` where the code breaks, and else what stands ahead after `iter += 2`. Each of these three
-- begins with the test `iter + n >= end`.
pub step_2 : ℕ → List ℕ → Option (List ℕ)
step_2 b0 (b1 ∷ m) =
    if leb (length m + 2) 2
    then none
    else if bit_and b0 0x1E == 0
    then none
    else if not (is_continuation b1)
    then none
    else some m
step_2 b0 [] = none

pub step_3 : ℕ → List ℕ → Option (List ℕ)
step_3 b0 (b1 ∷ b2 ∷ m) =
    let val = join3 b0 b1 b2 in
    if leb (length m + 3) 3
    then none
    else if not (is_continuation b1) || not (is_continuation b2)
    then none
    else if ltb val (2 ^ 11)
    then none
    else if not (is_valid_code_point val)
    then none
    else some m
step_3 b0 _ = none

pub step_4 : ℕ → List ℕ → Option (List ℕ)
step_4 b0 (b1 ∷ b2 ∷ b3 ∷ m) =
    let val = join4 b0 b1 b2 b3 in
    if leb (length m + 4) 4
    then none
    else if not (is_continuation b1) || (not (is_continuation b2) || not (is_continuation b3))
    then none
    else if ltb val (2 ^ 11)
    then none
    else if not (is_valid_code_point val)
    then none
    else some m
step_4 b0 _ = none

unfoldable pub validate_step : ℕ → List ℕ → Option (List ℕ)
validate_step b0 m =
    if ltb b0 128
    then some m
    else if bit_and b0 0xE0 == 0xC0
    then step_2 b0 m
    else if bit_and b0 0xF0 == 0xE0
    then step_3 b0 m
    else if bit_and b0 0xF8 == 0xF0
    then step_4 b0 m
    else none

-- what is ahead when the loop has ended
unfoldable pub validate_loop : ℕ → List ℕ → Run (List ℕ)
validate_loop fuel [] = ok []
validate_loop zero (b0 ∷ m) = stuck
validate_loop (suc fuel) (b0 ∷ m) = elim (validate_step b0 m) [
  | none ↦ ok (b0 ∷ m)
  | some r ↦ validate_loop fuel r
]

-- memcmp(buffer, "\xEF\xBB\xBF", 3) == 0
unfoldable pub starts_with_bom : List ℕ → Bool
starts_with_bom (b0 ∷ b1 ∷ b2 ∷ m) = b0 == 0xEF && (b1 == 0xBB && b2 == 0xBF)
starts_with_bom _ = false

pub is_empty : List ℕ → Bool
is_empty [] = true
is_empty (b ∷ m) = false

-- `beyond` is the memory that follows the buffer, which `scanAscii` may read
unfoldable pub validate_utf8 : ℕ → List ℕ → List ℕ → Run Bool
validate_utf8 addr buffer beyond =
    let skipped = if starts_with_bom buffer then 3 else 0 in
    let rest = drop skipped buffer in
    scan_ascii (addr + skipped) (length rest) (rest ++ beyond) >>= λ n.
    let iter = drop n rest in validate_loop (length iter) iter >>= λ ahead. ok (is_empty ahead)
