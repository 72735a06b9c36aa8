-- ===== src/Telnet/Mxp/Guard.antt =====
-- What `strip_line_modes` and `escape` of mxp.rs guarantee, and what they let through.
use oxigeon.Base.{
  ℕ, zero, suc, ◌<◌, Bool, false, ◌||◌, [], ◌∷◌, ◌++◌, some, ◌==◌, length, length-append, ◌≡◌, ◌≢◌,
  refl, sym, ap, ◌∙◌, subst, arith, Bool-cases, inl, inr, All, if◌then◌else◌, if◌then◌else◌,
}
use oxigeon.Telnet.Constants.{esc}
use oxigeon.Telnet.Mxp.{
  Text, escape_sequence, is_line_tag, scan, contains, itself, strip_line_modes, entity, escape,
}
use oxigeon.Telnet.Mxp.Scan.{
  Clean, clean_end, clean_char, clean_seq, escape_sequence-parts, escape_sequence-append,
  escape_sequence-head, scan_nil, scan_char, scan_escape,
}

abbrev pub Anything : ℕ → Type 0
Anything _ = Unit {0}

-- A sequence that is no tag, before a clean text that ends only where the scanned text ends.
Clean-sequence :
    (P : ℕ → Type 0) (b : ℕ) (bs seq rest u : Text)
    → b ≡ esc
    → escape_sequence (b ∷ bs) ≡ some (seq, rest)
    → is_line_tag seq ≡ false
    → (rest ≡ [] → u ≡ [])
    → Clean P u
    → Clean P (seq ++ u)
Clean-sequence P b bs seq rest u q e h n c =
    let (v, s) = escape_sequence-head b bs seq rest e in
    let again = escape_sequence-append (b ∷ bs) seq rest u e n in
    let s' : seq ≡ esc ∷ v = s ∙ ap (λ x. x ∷ v) q in
    subst (λ x. Clean P (x ++ u)) (sym s')
      (clean_seq (subst (λ x. escape_sequence (x ++ u) ≡ some (seq, u)) s' again) h c)

module _ (write : ℕ → Text) (P : ℕ → Type 0)
    (writes : (b : ℕ) (t : Text) → b ≢ esc → Clean P t → Clean P (write b ++ t)) where
  scan-Clean : (f : ℕ) (s t : Text) → scan write f s ≡ some t → Clean P t
  unfolding scan
  scan-Clean zero s t e = absurd cc
  scan-Clean (suc f) [] t e = subst (Clean P) (sym (scan_nil write (suc f) t e)) clean_end
  scan-Clean (suc f) (b ∷ bs) t e = elim (Bool-cases (b == esc)) [
    | inr h ↦
        let (u, p, q) = scan_char write f b bs t h e in
        subst (Clean P) (sym q) (writes b u (ground arith) (scan-Clean f bs u p))
    | inl h ↦
        let (seq, rest, u, p, q, r) = scan_escape write f b bs t h e in
        let c = scan-Clean f rest u q in
        subst (Clean P) (sym r) (elim (Bool-cases (is_line_tag seq)) [
          | inl tag ↦ subst (λ x. Clean P ((if x then [] else seq) ++ u)) (sym tag) c
          | inr plain ↦
              subst (λ x. Clean P ((if x then [] else seq) ++ u)) (sym plain)
                (Clean-sequence P b bs seq rest u (ground arith) p plain
                  (λ n. scan_nil write f u (subst (λ x. scan write f x ≡ some u) n q)) c)
        ])
  ]

pub contains-Clean : (s : Text) → contains esc s ≡ false → Clean Anything s
contains-Clean [] h = clean_end
contains-Clean (b ∷ bs) h = clean_char (ground arith) tt (contains-Clean bs (ground arith))

-- A clean text goes through a loop that writes every character as it is.
scan-itself-Clean :
    (P : ℕ → Type 0) (f : ℕ) {t : Text} → length t < f → Clean P t → scan itself f t ≡ some t
unfolding scan
scan-itself-Clean P zero l c = absurd (omega arith)
scan-itself-Clean P (suc f) l clean_end = refl
scan-itself-Clean P (suc f) l (clean_char {b} {bs} ne _ c) =
    ground (arith, scan-itself-Clean P f {t = bs} (omega arith) c)
scan-itself-Clean P (suc f) l (clean_seq {bs} {rest} {seq} e h c) =
    let (v, s) = escape_sequence-head esc bs seq rest e in
    let parts = escape_sequence-parts (esc ∷ bs) seq rest e in
    let shorter : length rest < f =
      omega (arith, ap length parts, ap length s, length-append seq rest) in
    ground (arith, scan-itself-Clean P f {t = rest} shorter c)

-- Text that has no line tag is not touched, whatever other sequences it has.
pub strip_line_modes-fixed : (s : Text) → Clean Anything s → strip_line_modes s ≡ some s
unfolding strip_line_modes
strip_line_modes-fixed s c =
    let r = scan-itself-Clean Anything (suc (length s)) (omega arith) c in ground arith

strip_line_modes-Clean : (s t : Text) → strip_line_modes s ≡ some t → Clean Anything t
unfolding strip_line_modes
strip_line_modes-Clean s t e = elim (Bool-cases (contains esc s)) [
  | inl h ↦
      scan-Clean itself Anything (λ b t ne c. clean_char ne tt c) (suc (length s)) s t
        (ground arith)
  | inr h ↦ subst (Clean Anything) (ground arith) (contains-Clean s h)
]

-- What is left of a text has no line tag, read as the scanner reads it, and stripping it once more
-- changes nothing.
pub strip_line_modes-idempotent :
    (s t : Text) → strip_line_modes s ≡ some t → Clean Anything t × (strip_line_modes t ≡ some t)
strip_line_modes-idempotent s t e =
    let c = strip_line_modes-Clean s t e in (c, strip_line_modes-fixed t c)

-- What could open or close a tag, or end the value of an attribute.
abbrev pub is_markup : ℕ → Bool
is_markup b = (b == b'<') || ((b == b'>') || (b == 34))

abbrev pub IsPlain : ℕ → Type 0
IsPlain b = is_markup b ≡ false

chars-Clean :
    (s t : Text) → All (λ c. (c ≢ esc) × IsPlain c) s → Clean IsPlain t → Clean IsPlain (s ++ t)
chars-Clean [] t a c = c
chars-Clean (b ∷ bs) t a c = clean_char a.0.0 a.0.1 (chars-Clean bs t a.1 c)

entity-All : (b : ℕ) → b ≢ esc → All (λ c. (c ≢ esc) × IsPlain c) (entity b)
unfolding entity
entity-All b ne = ground arith

-- Outside its escape sequences, escaped text has no `<`, no `>` and no quotation mark, and none of
-- its escape sequences is a line tag.
pub escape-Clean : (s t : Text) → escape s ≡ some t → Clean IsPlain t
unfolding escape
escape-Clean s t e =
    scan-Clean entity IsPlain (λ b u ne c. chars-Clean (entity b) u (entity-All b ne) c)
      (suc (length s)) s t e
