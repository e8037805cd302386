-- ===== src/RaFile/Whole.antt =====
-- What `readFully` of src/win/ge/io/RAFile.cpp and of src/unix/ge/io/RAFile.cpp make of the parts in
-- which the operating system returns the bytes.
use libge.Base.{
  overlay-behind, ℕ, zero, suc, ◌+◌, ◌-◌, ◌≤◌, ◌<◌, ◌≡◌, refl, sym, ap, ◌∙◌, List, [], ◌∷◌, ◌++◌,
  append_assoc, append-nil, map, length, length-append, length-map-some, length-drop, drop,
  replicate, length-replicate, Option, none, some, lt→ltb, le→ltb, stuck, ok, arith,
}
use libge.RaFile.{got, Os, done, sys_read, read_fully, win_read_fully, unix_file, windows_file}

-- Reads that each ask for the bytes that are missing return, in one part or in several, none of them
-- empty, n bytes.
pub data Delivers {ℓ} {F : Type ℓ} (os : Os F) : ℕ → F → List ℕ → F → Type ℓ where
  all_read : {f : F} → Delivers os 0 f [] f
  some_read :
      {n b : ℕ} {bytes more : List ℕ} {f f' f'' : F}
      → os.os_read f n ≡ (got (b ∷ bytes), f')
      → length (b ∷ bytes) ≤ n
      → Delivers os (n - length (b ∷ bytes)) f' more f''
      → Delivers os n f (b ∷ bytes ++ more) f''

map_some_append :
    (xs ys : List ℕ) → ◌≡◌ {A = List (Option ℕ)} (map some (xs ++ ys)) (map some xs ++ map some ys)
map_some_append [] ys = refl
map_some_append (x ∷ xs) ys = ap (λ (l : List (Option ℕ)). some x ∷ l) (map_some_append xs ys)

drop-fresh : (n : ℕ) → drop n (replicate {A = Option ℕ} n none) ≡ []
drop-fresh zero = refl
drop-fresh (suc n) = drop-fresh n

module _ {ℓ} {F : Type ℓ} (os : Os F) where
  fills_back :
      {n : ℕ} {f f' : F} {bytes : List ℕ} (fuel buffer_len : ℕ) (front back : List (Option ℕ))
      → Delivers os n f bytes f'
      → n ≡ length back
      → length front + length back ≡ buffer_len
      → n < fuel
      → win_read_fully fuel os buffer_len (length front) (front ++ back) f
        ≡ ok (done (front ++ map some bytes) f')
  unfolding win_read_fully
  fills_back zero buffer_len front back d here whole h = absurd (omega (arith, h))
  fills_back (suc fuel) buffer_len front [] all_read here whole h =
      rw (le→ltb (length front) buffer_len (omega (arith, whole))) refl
  fills_back (suc fuel) buffer_len front (c ∷ back) all_read here whole h =
      absurd (omega (arith, here))
  fills_back {n} {f' = f'} (suc fuel) buffer_len front back
        (some_read {b = b} {bytes = bytes} {more = more} {f' = g} e small d) here whole h =
      let left : buffer_len - length front ≡ n = omega (arith, here, whole) in
      let part = b ∷ bytes in
      let filled : length front + suc (length bytes) ≡ length (front ++ map some part) =
        omega (arith, length-append front (map some part), length-map-some part) in
      let less : n - suc (length bytes) ≡ length (drop (suc (length bytes)) back) =
        omega (arith, here, length-drop back (suc (length bytes))) in
      rw
        (
          lt→ltb (length front) buffer_len (omega (arith, here, whole, small)),
          left,
          e,
          overlay-behind front back part,
          filled,
          left,
          e,
        )
        (fills_back {n = n - length part} {f = g} {f' = f'} {bytes = more} fuel buffer_len
            (front ++ map some part) (drop (suc (length bytes)) back) d less
            (omega (arith, filled, less, here, whole, small)) (omega (arith, small, h))
          ∙ ap (λ (cells : List (Option ℕ)). ok (done cells f'))
              (append_assoc front (map some part) (map some more)
                ∙ ap (λ (cells : List (Option ℕ)). front ++ cells)
                    (sym (map_some_append part more))))

  -- If reads that each ask for the bytes that are missing return n bytes, in one part or in several
  -- and none of them empty, `readFully` for Windows fills the buffer of n bytes with just those.
  pub windows_file-Delivers :
      (fuel n : ℕ) (f f' : F) (bytes : List ℕ)
      → n < fuel
      → Delivers os n f bytes f'
      → (windows_file fuel os).read_buffer n f ≡ ok (done (map some bytes) f')
  windows_file-Delivers fuel n f f' bytes h d =
      fills_back fuel n [] (replicate n none) d (sym (length-replicate n none))
        (omega (arith, length-replicate {A = Option ℕ} n none)) h

  sys_read-got :
      (fuel n : ℕ) (f f' : F) (bytes : List ℕ)
      → os.os_read f n ≡ (got bytes, f')
      → sys_read (suc fuel) os f n ≡ ok (got bytes, f')
  unfolding sys_read
  sys_read-got fuel n f f' bytes e = rw (e, sys_read, e) refl

  unix_loops :
      (fuel n : ℕ) (f : F) (buffer : List (Option ℕ))
      → 0 < n
      → ((k : ℕ) → os.os_read f k ≡ (got [], f))
      → read_fully fuel os n 0 buffer f ≡ stuck
  unfolding read_fully
  unix_loops zero n f buffer h end = refl
  unix_loops (suc fuel) n f buffer h end =
      rw (lt→ltb 0 n h, sys_read-got fuel n f f [] (end n)) (unix_loops fuel n f buffer h end)

  windows_loops :
      (fuel n : ℕ) (f : F) (buffer : List (Option ℕ))
      → 0 < n
      → ((k : ℕ) → os.os_read f k ≡ (got [], f))
      → win_read_fully fuel os n 0 buffer f ≡ stuck
  unfolding win_read_fully
  windows_loops zero n f buffer h end = refl
  windows_loops (suc fuel) n f buffer h end =
      rw (lt→ltb 0 n h, end (n - 0), end (n - 0)) (windows_loops fuel n f buffer h end)

  -- At the end of the file, where a read returns no byte and leaves the file as it is, `readFully` for
  -- Unix and for Windows never comes to an end for a buffer that is not empty: no number of rounds is
  -- enough.
  pub read_buffer_loops :
      (fuel n : ℕ) (f : F)
      → 0 < n
      → ((k : ℕ) → os.os_read f k ≡ (got [], f))
      → ((unix_file fuel os).read_buffer n f ≡ stuck)
        × ((windows_file fuel os).read_buffer n f ≡ stuck)
  read_buffer_loops fuel n f h end = (
    unix_loops fuel n f (replicate n none) h end,
    windows_loops fuel n f (replicate n none) h end,
  )

  -- If one read returns all n bytes, `readFully` for Unix fills the buffer with them.
  pub unix_file-got :
      (fuel n : ℕ) (f f' : F) (bytes : List ℕ)
      → 1 < fuel
      → os.os_read f n ≡ (got bytes, f')
      → length bytes ≡ n
      → 0 < n
      → (unix_file fuel os).read_buffer n f ≡ ok (done (map some bytes) f')
  unfolding read_fully
  unix_file-got zero n f f' bytes h e whole some_bytes = absurd (omega (arith, h))
  unix_file-got (suc zero) n f f' bytes h e whole some_bytes = absurd (omega (arith, h))
  unix_file-got (suc (suc fuel)) n f f' bytes h e whole some_bytes =
      let size : 0 + length bytes ≡ n = omega (arith, whole) in
      rw
        (
          lt→ltb 0 n some_bytes,
          sys_read-got (suc fuel) n f f' bytes e,
          size,
          le→ltb n n (omega arith),
          drop-fresh n,
          append-nil (map some bytes),
        )
        refl
