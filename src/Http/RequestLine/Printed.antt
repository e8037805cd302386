-- ===== src/Http/RequestLine/Printed.antt =====
-- What `parseFirstRequestLine` of src/ge/http/HttpServer.cpp takes from a line with its three words.
use libge.Base.{
  ℕ, suc, ◌+◌, ◌-◌, ◌≡◌, refl, ap, ◌∙◌, false, List, [], ◌∷◌, ◌++◌, length, drop, take-append,
  drop-append, drop_sum, take_all, some, arith,
}
use libge.Http.{
  Session, Method, get, head, post, put, delete, trace, Prot, prot_10, prot_11, is_space, spaces,
  word,
}
use libge.Http.RequestLine.{
  req_type_end, get_text, head_text, post_text, put_text, delete_text, trace_text, http_10_text,
  http_11_text, method_of, prot_of, line_parts, parse_first_request_line,
}
use libge.StringRef.{to_upper, eng_equals_ignore_case, eng_equals_loop}

-- the text has no space
abbrev pub NoSpace : List ℕ → Type 0
NoSpace [] = ◌≡◌ {A = ℕ} 0 0
NoSpace (c ∷ s) = (is_space c ≡ false) × NoSpace s

-- a word is not empty and has no space
abbrev pub IsWord : List ℕ → Type 0
IsWord [] = ◌≡◌ {A = ℕ} 0 1
IsWord (c ∷ s) = NoSpace (c ∷ s)

-- the text of each request type, and of each protocol version
abbrev pub method_text : Method → List ℕ
method_text get = get_text
method_text head = head_text
method_text post = post_text
method_text put = put_text
method_text delete = delete_text
method_text trace = trace_text

abbrev pub version_text : Prot → List ℕ
version_text prot_10 = http_10_text
version_text prot_11 = http_11_text

abbrev pub request_line : List ℕ → List ℕ → List ℕ → List ℕ
request_line m u p = m ++ (32 ∷ (u ++ (32 ∷ p)))

-- what is stored as the method
abbrev pub stored : Method → Method
stored get = get
stored head = head
stored post = post
stored put = put
stored delete = put
stored trace = put

req_type_end-word :
    (m : List ℕ) (c : ℕ) (rest : List ℕ) → NoSpace m → req_type_end (m ++ 32 ∷ c ∷ rest) ≡ length m
unfolding req_type_end
req_type_end-word [] c rest h = refl
req_type_end-word (a ∷ []) c rest h = rw h.0 refl
req_type_end-word (a ∷ b ∷ m) c rest h =
    let e : 1 + suc (length m) ≡ suc (suc (length m)) = omega arith in
    rw (h.0, req_type_end-word (b ∷ m) c rest h.1, e) refl

word-space : (u rest : List ℕ) → NoSpace u → word (u ++ 32 ∷ rest) ≡ length u
unfolding word
word-space [] rest h = refl
word-space (a ∷ u) rest h =
    let e : 1 + length u ≡ suc (length u) = omega arith in rw (h.0, word-space u rest h.1, e) refl

word-all : (u : List ℕ) → NoSpace u → word u ≡ length u
unfolding word
word-all [] h = refl
word-all (a ∷ u) h =
    let e : 1 + length u ≡ suc (length u) = omega arith in rw (h.0, word-all u h.1, e) refl

spaces-one : (c : ℕ) (u : List ℕ) → is_space c ≡ false → spaces (32 ∷ c ∷ u) ≡ 1
unfolding spaces
spaces-one c u h = rw h refl

-- what follows a text and one char more
after_char : (m : List ℕ) (c : ℕ) (rest : List ℕ) → drop (length m + 1) (m ++ c ∷ rest) ≡ rest
after_char [] c rest = refl
after_char (a ∷ m) c rest =
    let e : suc (length m) + 1 ≡ suc (length m + 1) = omega arith in rw e (after_char m c rest)

-- The line has three parts, which its words are.
line_parts-request_line :
    (m u p : List ℕ) → NoSpace m → IsWord u → IsWord p → line_parts (request_line m u p) ≡ (m, u, p)
unfolding line_parts
line_parts-request_line m [] p hm hu hp = absurd (omega (arith, hu))
line_parts-request_line m (a ∷ u) [] hm hu hp = absurd (omega (arith, hp))
line_parts-request_line m (a ∷ u) (b ∷ p) hm hu hp =
    let line = request_line m (a ∷ u) (b ∷ p) in
    let type_end : req_type_end line ≡ length m = req_type_end-word m a (u ++ 32 ∷ b ∷ p) hm in
    let at_url : drop (length m + 1) line ≡ (a ∷ u) ++ 32 ∷ b ∷ p =
      after_char m 32 ((a ∷ u) ++ 32 ∷ b ∷ p) in
    let url_size : length m + 1 + length (a ∷ u) - (length m + 1) ≡ length (a ∷ u) = omega arith in
    let at_gap : drop (length m + 1 + length (a ∷ u)) line ≡ 32 ∷ b ∷ p =
      drop_sum line (length m + 1) (length (a ∷ u))
      ∙ (ap (drop (length (a ∷ u))) at_url ∙ drop-append (a ∷ u) (32 ∷ b ∷ p)) in
    let at_prot : drop (length m + 1 + length (a ∷ u) + 1) line ≡ b ∷ p =
      drop_sum line (length m + 1 + length (a ∷ u)) 1 ∙ ap (drop 1) at_gap in
    rw
      (
        type_end,
        drop-append m (32 ∷ ((a ∷ u) ++ (32 ∷ b ∷ p))),
        spaces-one a (u ++ 32 ∷ b ∷ p) hu.0,
        at_url,
        word-space (a ∷ u) (b ∷ p) hu,
        at_gap,
        spaces-one b p hp.0,
        at_prot,
        url_size,
        word-all (b ∷ p) hp,
        take-append m (32 ∷ ((a ∷ u) ++ (32 ∷ b ∷ p))),
        take-append u (32 ∷ b ∷ p),
        take_all (length p) p (omega arith),
      )
      refl

method_of-method_text : (m : Method) → method_of (method_text m) ≡ some (stored m)
unfolding method_of eng_equals_ignore_case eng_equals_loop to_upper
method_of-method_text get = refl
method_of-method_text head = refl
method_of-method_text post = refl
method_of-method_text put = refl
method_of-method_text delete = refl
method_of-method_text trace = refl

prot_of-version_text : (p : Prot) → prot_of (version_text p) ≡ some p
unfolding prot_of eng_equals_ignore_case eng_equals_loop to_upper
prot_of-version_text prot_10 = refl
prot_of-version_text prot_11 = refl

method_text-NoSpace : (m : Method) → NoSpace (method_text m)
method_text-NoSpace get = (refl, (refl, (refl, refl)))
method_text-NoSpace head = (refl, (refl, (refl, (refl, refl))))
method_text-NoSpace post = (refl, (refl, (refl, (refl, refl))))
method_text-NoSpace put = (refl, (refl, (refl, refl)))
method_text-NoSpace delete = (refl, (refl, (refl, (refl, (refl, (refl, refl))))))
method_text-NoSpace trace = (refl, (refl, (refl, (refl, (refl, refl)))))

version_text-IsWord : (p : Prot) → IsWord (version_text p)
version_text-IsWord prot_10 = (refl, (refl, (refl, (refl, (refl, (refl, (refl, (refl, refl))))))))
version_text-IsWord prot_11 = (refl, (refl, (refl, (refl, (refl, (refl, (refl, (refl, refl))))))))

pub parse_first_request_line-request_line :
    (m : Method) (url : List ℕ) (p : Prot) (s : Session)
    → IsWord url
    → parse_first_request_line (request_line (method_text m) url (version_text p)) s
      ≡ (record s { method = stored m; url = url; http_prot = p }, false)
unfolding parse_first_request_line
parse_first_request_line-request_line m url p s h =
    rw
      (
        line_parts-request_line (method_text m) url (version_text p) (method_text-NoSpace m) h
            (version_text-IsWord p),
        method_of-method_text m,
        prot_of-version_text p,
      )
      refl
