-- ===== src/Numbers/Print.antt =====
-- `uint32ToBuffer` and `uint64ToBuffer` of src/ge/util, and `uint32ToString`. A buffer is a pointer
-- into it, with the characters before and ahead; `buffer[--charPos] = v` moves it back and writes.
pub mod Decimal
pub mod Size
pub mod RoundTrip
pub mod Radix
use libge.Base.{
  ℕ, zero, suc, ◌+◌, ◌-◌, ◌*◌, ◌/◌, ◌%◌, ◌^◌, List, [], ◌∷◌, replicate, get_or, length, take, drop,
  ◌++◌, ltb, leb, ◌==◌, if◌then◌else◌, Run, ok, fault, out_of_bounds, ◌>>=◌,
}
use libge.Numbers.Tables.{digit_tens, digit_ones}
use libge.Unicode.Memory.{Cursor, cursor, forward}

unfoldable pub base10_size_table : List ℕ
base10_size_table =
    9 ∷ 99 ∷ 999 ∷ 9999 ∷ 99999 ∷ 999999 ∷ 9999999 ∷ 99999999 ∷ 999999999 ∷ 2147483647 ∷ []

-- The search has no end of its own: past the table it reads outside it.
pub size_loop : ℕ → ℕ → List ℕ → Run ℕ
size_loop value i [] = fault out_of_bounds
size_loop value i (t ∷ ts) =
    let rest = size_loop value (i + 1) ts in if leb value t then ok (i + 1) else rest

unfoldable pub uint32_base10_size : ℕ → Run ℕ
unfolding base10_size_table size_loop
uint32_base10_size value = size_loop value 0 base10_size_table

-- `uint64_base10Size`: the 18 tests, with `magnatude` multiplied by 10 after each
pub size64_loop : ℕ → ℕ → ℕ → ℕ → ℕ
size64_loop value zero i magnitude = 19
size64_loop value (suc rounds) i magnitude =
    let rest = size64_loop value rounds (i + 1) (magnitude * 10 % 2 ^ 64) in
    if ltb value magnitude then i else rest

unfoldable pub uint64_base10_size : ℕ → ℕ
unfolding size64_loop
uint64_base10_size value = size64_loop value 18 1 10

-- `for (;;) { ... }`, on the characters before the pointer; `m` is 2 ^ 32 or 2 ^ 64
unfoldable pub digit_loop : ℕ → List ℕ → List ℕ → ℕ → Run Cursor
digit_loop m [] ahead value = fault out_of_bounds
digit_loop m (x ∷ before) ahead value =
    let q = value * 52429 % m / 2 ^ 19 in
    let r = (value + m - (q * 2 ^ 3 + q * 2) % m) % m in
    let done = cursor before ((48 + r) % 256 ∷ ahead) in
    let rest = digit_loop m before ((48 + r) % 256 ∷ ahead) q in if q == 0 then ok done else rest

-- `while (value >= 65536) { ... }`, and the loop after it
unfoldable pub pair_loop : ℕ → List ℕ → List ℕ → ℕ → Run Cursor
pair_loop m (x ∷ y ∷ before) ahead value =
    let q = value / 100 in
    let r = (value + m - (q * 2 ^ 6 + q * 2 ^ 5 + q * 2 ^ 2) % m) % m in
    let rest = pair_loop m before (get_or digit_tens r 0 ∷ get_or digit_ones r 0 ∷ ahead) q in
    if leb 65536 value then rest else digit_loop m (x ∷ y ∷ before) ahead value
pair_loop m before ahead value =
    if leb 65536 value then fault out_of_bounds else digit_loop m before ahead value

-- The value returned, and the buffer after the call. `len` is the length that the caller claims.
write_base10 : ℕ → ℕ → Cursor → ℕ → ℕ → Run (ℕ × Cursor)
write_base10 m expected buffer len value =
    if ltb len expected
    then ok (expected, buffer)
    else (forward expected buffer.before buffer.ahead >>= λ (at : Cursor).
        pair_loop m at.before at.ahead value >>= λ (done : Cursor). ok (expected, done))

unfoldable pub uint32_to_buffer_base10 : Cursor → ℕ → ℕ → Run (ℕ × Cursor)
unfolding write_base10
uint32_to_buffer_base10 buffer len value =
    uint32_base10_size value >>= λ expected. write_base10 (2 ^ 32) expected buffer len value

unfoldable pub uint64_to_buffer_base10 : Cursor → ℕ → ℕ → Run (ℕ × Cursor)
unfolding write_base10
uint64_to_buffer_base10 buffer len value =
    write_base10 (2 ^ 64) (uint64_base10_size value) buffer len value

-- The other radixes: `while (value <= radix)` over `tempBuffer`, from its last place. `charPos` is
-- the place to be written next, and what has been stored behind it is a list.
unfoldable pub radix_loop : ℕ → ℕ → List ℕ → ℕ → Run (List ℕ)
radix_loop radix zero stored value =
    if leb value radix then fault out_of_bounds else ok ((48 + value) % 256 ∷ stored)
radix_loop radix (suc char_pos) stored value =
    let rest = radix_loop radix char_pos ((48 + value % radix) % 256 ∷ stored) (value / radix) in
    if leb value radix then rest else ok ((48 + value) % 256 ∷ stored)

-- memcpy(buffer, text, ret), if the buffer is said to be long enough
copy_if_fits : List ℕ → Cursor → ℕ → Run (ℕ × Cursor)
copy_if_fits text buffer len =
    if ltb len (length text)
    then ok (length text, buffer)
    else if ltb (length buffer.ahead) (length text)
    then fault out_of_bounds
    else ok (length text, cursor buffer.before (text ++ drop (length text) buffer.ahead))

unfoldable pub uint32_to_buffer : Cursor → ℕ → ℕ → ℕ → Run (ℕ × Cursor)
unfolding copy_if_fits
uint32_to_buffer buffer len value radix =
    if radix == 10
    then uint32_to_buffer_base10 buffer len value
    else radix_loop radix 32 [] value >>= λ text. copy_if_fits text buffer len

unfoldable pub uint64_to_buffer : Cursor → ℕ → ℕ → ℕ → Run (ℕ × Cursor)
unfolding copy_if_fits
uint64_to_buffer buffer len value radix =
    if radix == 10
    then uint64_to_buffer_base10 buffer len value
    else radix_loop radix 63 [] value >>= λ text. copy_if_fits text buffer len

-- `buf` is what the local array holds before the call. `uint32ToString` passes `value` for the
-- length and the size of the array, 34, for the value.
unfoldable pub uint32_to_string : List ℕ → ℕ → ℕ → Run (List ℕ)
uint32_to_string buf value radix =
    uint32_to_buffer (cursor [] buf) value 34 radix >>= λ (r : ℕ × Cursor). ok (take r.0 r.1.ahead)

unfoldable pub uint64_to_string : List ℕ → ℕ → ℕ → Run (List ℕ)
uint64_to_string buf value radix =
    uint64_to_buffer (cursor [] buf) 66 value radix >>= λ (r : ℕ × Cursor). ok (take r.0 r.1.ahead)
