-- ===== src/Url/Appended.antt =====
-- `unescapeUrl` of src/ge/http/HttpUtil.cpp takes the length of what it appends from the escaped text.
use libge.Base.{
  ℕ, zero, suc, ◌+◌, ◌-◌, ◌≤◌, ◌≡◌, refl, sym, ap, true, List, [], ◌∷◌, ◌++◌, length, length-append,
  length-drop, take, drop, Returns, arith,
}
use libge.Url.{append_to, unescape_url}
use libge.Url.Grammar.{Decodes, nothing, plain, plus, percent}
use libge.Url.InPlace.{unescape_url_in_place-Decodes}

length-take : (n : ℕ) (xs : List ℕ) → n ≤ length xs → length (take n xs) ≡ n
length-take zero xs h = refl
length-take (suc n) [] h = absurd (omega arith)
length-take (suc n) (x ∷ xs) h = ap suc (length-take n xs (omega arith))

Decodes-shorter : {t s : List ℕ} → Decodes t s → length s ≤ length t
Decodes-shorter nothing = omega arith
Decodes-shorter (plain c n0 n37 n43 d) = omega (arith, Decodes-shorter d)
Decodes-shorter (plus d) = omega (arith, Decodes-shorter d)
Decodes-shorter (percent a b na nb d) = omega (arith, Decodes-shorter d)

-- Where a zero byte follows the copy of a text that stands for some bytes, `unescapeUrl` returns
-- true and appends these bytes, a zero byte and more of the buffer, as many bytes of it as the
-- escaped text has.
pub unescape_url-length :
    (t s after dest : List ℕ)
    → Decodes t s
    → Returns (unescape_url (0 ∷ after) t dest) (λ r.
      (r.0 ≡ true)
      × (r.1 ≡ dest ++ take (length t) (s ++ 0 ∷ drop (suc (length s)) (t ++ 0 ∷ after)))
      × (length r.1 ≡ length dest + length t))
unfolding unescape_url append_to
unescape_url-length t s after dest d =
    let mem : List ℕ = t ++ 0 ∷ after in
    let out : List ℕ = s ++ 0 ∷ drop (suc (length s)) mem in
    let size : length out ≡ length s + suc (length mem - suc (length s)) =
      rw (sym (length-drop mem (suc (length s))))
        (length-append s (0 ∷ drop (suc (length s)) mem)) in
    let long : length t ≤ length out =
      omega (arith, Decodes-shorter d, length-append t (0 ∷ after)) in
    (
      (true, dest ++ take (length t) out),
      rw (unescape_url_in_place-Decodes t s after d) refl,
      (
        refl,
        refl,
        omega (arith, length-append dest (take (length t) out), length-take (length t) out long),
      ),
    )
