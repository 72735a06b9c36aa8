-- ===== src/Documents/Literal.antt =====
-- src/domain/models/document.rs: what can come of a field's name.
use oxigeon.Base.{
  ℕ, suc, Bool, true, false, not, ◌||◌, List, [], ◌∷◌, ◌++◌, ltb, leb, ◌==◌, if◌then◌else◌, Bytes,
  length, All, All-append, ◌≡◌, refl, sym, ap, ◌∙◌, arith, Bool-cases, inl, inr, all_of,
  append_assoc,
}
use oxigeon.Base.Utf8.{ascii}
use oxigeon.Websocket.Ansi.{split}
use oxigeon.Documents.{
  Parsed, ok, bad, panic, is_name_char, is_name, is_digit, is_index, cut_bracket, prepend,
  subscripts, index_from, named, segment, and_then, segments, parse,
}

-- What a path is made of, between its quotes.
abbrev pub is_inert : ℕ → Bool
is_inert c = is_name_char c || ((c == b'.') || ((c == b'[') || (c == b']')))

abbrev pub IsInert : Bytes → Type 0
IsInert = All (λ c. is_inert c ≡ true)

-- If there is a path, it is inert.
abbrev Inert : Parsed → Type 0
Inert (ok s) = IsInert s
Inert (bad why) = Unit
Inert panic = Unit

all_of-IsInert : (s : Bytes) → all_of is_name_char s ≡ true → IsInert s
all_of-IsInert [] h = tt
all_of-IsInert (c ∷ cs) h = (ground arith, all_of-IsInert cs (ground arith))

is_name-IsInert : (s : Bytes) → is_name s ≡ true → IsInert s
is_name-IsInert [] h = tt
is_name-IsInert (c ∷ cs) h = (ground arith, all_of-IsInert cs (ground arith))

digits-IsInert : (s : Bytes) → all_of is_digit s ≡ true → IsInert s
digits-IsInert [] h = tt
digits-IsInert (c ∷ cs) h = (ground arith, digits-IsInert cs (ground arith))

is_index-IsInert : (s : Bytes) → is_index s ≡ true → IsInert s
is_index-IsInert [] h = tt
is_index-IsInert (c ∷ cs) h = digits-IsInert (c ∷ cs) (ground arith)

prepend-Inert : (s : Bytes) (p : Parsed) → IsInert s → Inert p → Inert (prepend s p)
prepend-Inert s (ok t) h k = All-append (λ c. is_inert c ≡ true) s t h k
prepend-Inert s (bad why) h k = tt
prepend-Inert s panic h k = tt

Inert-if :
    (b : Bool) (p q : Parsed)
    → (b ≡ true → Inert p)
    → (b ≡ false → Inert q)
    → Inert (if b then p else q)
Inert-if true p q h k = h refl
Inert-if false p q h k = k refl

bracketed-IsInert : (s : Bytes) → IsInert s → IsInert (b'[' ∷ (s ++ b']' ∷ []))
bracketed-IsInert s h = (refl, All-append (λ c. is_inert c ≡ true) s (b']' ∷ []) h (refl, tt))

mutual
  unfolding subscripts

  subscripts-Inert : (s : Bytes) → Inert (subscripts s)
  subscripts-Inert [] = tt
  subscripts-Inert (c ∷ cs) =
      Inert-if (c == b']') panic _ (λ _. tt)
        (λ _.
          Inert-if (leb 128 c) _ (index_from [] cs)
            (λ _. Inert-if _ panic (bad _) (λ _. tt) (λ _. tt)) (λ _. index_from-Inert [] cs))

  index_from-Inert : (held s : Bytes) → Inert (index_from held s)
  index_from-Inert held [] = tt
  index_from-Inert held (c ∷ cs) =
      Inert-if (c == b']') _ (index_from (held ++ c ∷ []) cs)
        (λ _.
          Inert-if (is_index held) (prepend (b'[' ∷ (held ++ b']' ∷ [])) (subscripts cs)) (bad _)
            (λ h.
              prepend-Inert (b'[' ∷ (held ++ b']' ∷ [])) (subscripts cs)
                (bracketed-IsInert held (is_index-IsInert held h)) (subscripts-Inert cs))
            (λ _. tt))
        (λ _. index_from-Inert (held ++ c ∷ []) cs)

named-Inert : (count : ℕ) (name rest : Bytes) → Inert (named count name rest)
unfolding named
named-Inert count name rest =
    Inert-if (length name == 0) (bad _) _ (λ _. tt)
      (λ _.
        Inert-if (ltb 64 (length name)) (bad _) _ (λ _. tt)
          (λ _.
            Inert-if (not (is_name name)) (bad _) _ (λ _. tt)
              (λ h.
                Inert-if (ltb 8 count) (bad _) _ (λ _. tt)
                  (λ _.
                    prepend-Inert (b'.' ∷ name) (subscripts rest)
                      (refl, is_name-IsInert name (ground arith)) (subscripts-Inert rest)))))

segment-Inert : (count : ℕ) (s : Bytes) → Inert (segment count s)
unfolding segment
segment-Inert count [] = tt
segment-Inert count (c ∷ cs) = named-Inert count (cut_bracket (c ∷ cs)).0 (cut_bracket (c ∷ cs)).1

-- If there is a path, it is inert but for a quote at its end.
abbrev Closed : Parsed → Type 0
Closed (ok s) = (body : Bytes) × (s ≡ body ++ b'\'' ∷ []) × IsInert body
Closed (bad why) = Unit
Closed panic = Unit

and_then-Closed : (p rest : Parsed) → Inert p → Closed rest → Closed (and_then p rest)
and_then-Closed (bad why) rest h k = tt
and_then-Closed panic rest h k = tt
and_then-Closed (ok s) (bad why) h k = tt
and_then-Closed (ok s) panic h k = tt
and_then-Closed (ok s) (ok t) h (body, e, k) = (
  s ++ body,
  ap (λ u. s ++ u) e ∙ sym (append_assoc s body (b'\'' ∷ [])),
  All-append (λ c. is_inert c ≡ true) s body h k,
)

segments-Closed : (count : ℕ) (ps : List Bytes) → Closed (segments count ps)
unfolding segments
segments-Closed count [] = ([], refl, tt)
segments-Closed count (p ∷ ps) =
    and_then-Closed (segment (suc count) p) (segments (suc count) ps) (segment-Inert (suc count) p)
      (segments-Closed (suc count) ps)

prepend-Closed :
    (s : Bytes) (q : Parsed) (p : Bytes)
    → Closed q
    → prepend s q ≡ ok p
    → (body : Bytes) × (p ≡ s ++ (body ++ b'\'' ∷ [])) × IsInert body
prepend-Closed s (ok t) p (body, e, k) h =
    let same : p ≡ s ++ t = cc in (body, same ∙ ap (λ u. s ++ u) e, k)
prepend-Closed s (bad why) p k h = cc
prepend-Closed s panic p k h = cc

-- Whatever is asked for, what comes of it is one closed literal: a quote, a dollar sign, then nothing but
-- ASCII letters, digits, underscores, dots and brackets, and a quote.
pub parse-Closed :
    (key p : Bytes)
    → parse key ≡ ok p
    → (body : Bytes) × (p ≡ ascii "'$" ++ (body ++ b'\'' ∷ [])) × IsInert body
unfolding parse
parse-Closed key p h = elim (Bool-cases ((length key == 0) || ltb 256 (length key))) [
  | inl e ↦ cc (rw (e, parse) at h)
  | inr e ↦
      prepend-Closed (ascii "'$") (segments 0 (split b'.' key)) p
        (segments-Closed 0 (split b'.' key)) (rw (e, parse) at h)
]
