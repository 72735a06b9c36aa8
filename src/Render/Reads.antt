-- ===== src/Render/Reads.antt =====
-- What a client reads of the pieces of a line: src/core/render/mod.rs, and `escape` of mxp.rs.
use oxigeon.Base.{
  ℕ, zero, suc, ◌<◌, false, [], ◌∷◌, ◌++◌, Option, some, ◌==◌, if◌then◌else◌, length, All, ◌≡◌, ◌≢◌,
  refl, sym, ap, ◌∙◌, subst, arith, append_assoc, append-nil, Bool-cases, inl, inr,
}
use mathlib.Core.List.{flat_map}
use oxigeon.Base.Utf8.{ascii}
use oxigeon.Telnet.Constants.{esc, lf}
use oxigeon.Telnet.Mxp.{Text, entity, escape, scan}
use oxigeon.Telnet.Mxp.State.{line_tag}
use oxigeon.Render.{◌&◌, broken}
use oxigeon.Render.Client.{Seen, nothing, shows, obeyed, ◌⧺◌, locked, outside, in_tag, read_from}

abbrev pub IsPlain : Text → Type 0
IsPlain = All (λ c. c ≢ esc)

-- A text with entities for what markup is made of.
abbrev pub hidden : Text → Text
hidden = flat_map entity

scan-hidden : (f : ℕ) (s : Text) → length s < f → IsPlain s → scan entity f s ≡ some (hidden s)
unfolding scan flat_map
scan-hidden zero s h p = absurd (omega arith)
scan-hidden (suc f) [] h p = refl
scan-hidden (suc f) (c ∷ cs) h p = ground (arith, scan-hidden f cs)

pub escape-hidden : (s : Text) → IsPlain s → escape s ≡ some (hidden s)
unfolding escape
escape-hidden s p = scan-hidden (suc (length s)) s (omega arith) p

-- A text that the client reads as a whole, with what it sees of it.
abbrev pub Reads : Text → Seen → Type 0
Reads w seen = (rest : Text) → read_from outside (w ++ rest) ≡ seen ⧺ read_from outside rest

⧺_assoc : (p q r : Seen) → (p ⧺ q) ⧺ r ≡ p ⧺ (q ⧺ r)
⧺_assoc p q r i = record {
  shown = append_assoc p.shown q.shown r.shown i;
  tags = append_assoc p.tags q.tags r.tags i;
}

pub Reads-append : (v w : Text) (p q : Seen) → Reads v p → Reads w q → Reads (v ++ w) (p ⧺ q)
Reads-append v w p q hv hw rest =
    ap (read_from outside) (append_assoc v w rest)
    ∙ hv (w ++ rest)
    ∙ ap (◌⧺◌ p) (hw rest)
    ∙ sym (⧺_assoc p q (read_from outside rest))

pub Reads-nil : Reads [] nothing
Reads-nil rest = refl

-- Where a write succeeds, with what the client sees of it.
abbrev pub Shows : Option Text → Seen → Type 0
Shows o seen = (w : Text) × (o ≡ some w) × Reads w seen

pub Shows-then : (o r : Option Text) (p q : Seen) → Shows o p → Shows r q → Shows (o & r) (p ⧺ q)
Shows-then o r p q (v, e, hv) (w, d, hw) = (v ++ w, rw (e, d) refl, Reads-append v w p q hv hw)

Reads-char : (c : ℕ) → c ≢ b'<' → c ≢ b'&' → c ≢ esc → c ≢ lf → Reads (c ∷ []) (shows (c ∷ []))
unfolding read_from
Reads-char c h k e l rest = ground arith

-- An entity that the client knows.
Reads-known : (c d : ℕ) (w : Text) → c ≡ d → Reads w (shows (d ∷ [])) → Reads w (shows (c ∷ []))
Reads-known c d w e h = subst (λ x. Reads w (shows (x ∷ []))) (sym e) h

Reads-entity : (c : ℕ) → c ≢ esc → c ≢ lf → Reads (entity c) (shows (c ∷ []))
unfolding entity read_from
Reads-entity c e n = elim (Bool-cases (c == b'<')) [
  | inl h ↦ rw h (Reads-known c (b'<') (ascii "&lt;") (ground arith) (λ rest. refl))
  | inr h ↦ elim (Bool-cases (c == b'>')) [
    | inl k ↦ rw (h, k) (Reads-known c (b'>') (ascii "&gt;") (ground arith) (λ rest. refl))
    | inr k ↦ elim (Bool-cases (c == b'&')) [
      | inl l ↦ rw (h, k, l) (Reads-known c (b'&') (ascii "&amp;") (ground arith) (λ rest. refl))
      | inr l ↦ elim (Bool-cases (c == 34)) [
        | inl m ↦
            rw (h, k, l, m) (Reads-known c (34) (ascii "&quot;") (ground arith) (λ rest. refl))
        | inr m ↦ rw (h, k, l, m) (Reads-char c (ground arith) (ground arith) e n)
      ]
    ]
  ]
]

-- Neither the end of a tag nor of a line.
abbrev pub NoEnd : ℕ → Type 0
NoEnd c = (c ≢ b'>') × (c ≢ lf)

read_from-tag :
    (name body rest : Text)
    → All NoEnd body
    → read_from (in_tag name) (body ++ b'>' ∷ rest) ≡ obeyed (name ++ body) ⧺ read_from outside rest
unfolding read_from
read_from-tag name [] rest h = ap (λ n. obeyed n ⧺ read_from outside rest) (sym (append-nil name))
read_from-tag name (c ∷ cs) rest (h, hs) =
    let goes_on : (c == b'>') ≡ false = ground (arith, h.0) in
    let same_line : (c == lf) ≡ false = ground (arith, h.1) in
    rw (goes_on, same_line)
      (read_from-tag (name ++ c ∷ []) cs rest hs
        ∙ ap (λ n. obeyed n ⧺ read_from outside rest) (append_assoc name (c ∷ []) cs))

pub Reads-tag : (body : Text) → All NoEnd body → Reads (b'<' ∷ (body ++ b'>' ∷ [])) (obeyed body)
unfolding read_from
Reads-tag body h rest =
    ap (λ t. read_from (in_tag []) t) (append_assoc body (b'>' ∷ []) rest)
    ∙ read_from-tag [] body rest h

-- A line tag that makes the line secure.
abbrev pub Opens : Text → Type 0
Opens w = (rest : Text) → read_from locked (w ++ rest) ≡ read_from outside rest

pub Opens-line_tag : Opens (line_tag 1)
unfolding line_tag read_from
Opens-line_tag rest = refl

broken-append : (prefix s t : Text) → broken prefix (s ++ t) ≡ broken prefix s ++ broken prefix t
unfolding broken
broken-append prefix [] t = refl
broken-append prefix (c ∷ cs) t =
    ap (◌++◌ (if c == lf then lf ∷ prefix else c ∷ [])) (broken-append prefix cs t)
    ∙ sym (append_assoc _ (broken prefix cs) (broken prefix t))

broken_entity :
    (prefix : Text) (c : ℕ) → broken prefix (entity c) ≡ (if c == lf then lf ∷ prefix else entity c)
unfolding broken entity
broken_entity prefix c = ground (arith, append-nil prefix)

-- A newline is shown, and the line behind it is made secure again.
Reads-newline : (prefix : Text) → Opens prefix → Reads (lf ∷ prefix) (shows (lf ∷ []))
unfolding read_from
Reads-newline prefix h rest = ap (◌⧺◌ (shows (lf ∷ []))) (h rest)

Reads-broken_entity :
    (prefix : Text) (c : ℕ)
    → Opens prefix
    → c ≢ esc
    → Reads (broken prefix (entity c)) (shows (c ∷ []))
Reads-broken_entity prefix c h e = rw (broken_entity prefix c) (elim (Bool-cases (c == lf)) [
  | inl k ↦ rw k (Reads-known c lf (lf ∷ prefix) (ground arith) (Reads-newline prefix h))
  | inr k ↦ rw k (Reads-entity c e (ground arith))
])

pub Reads-broken :
    (prefix s : Text) → Opens prefix → IsPlain s → Reads (broken prefix (hidden s)) (shows s)
unfolding broken flat_map
Reads-broken prefix [] h p = Reads-nil
Reads-broken prefix (c ∷ cs) h (e, p) =
    subst (λ w. Reads w (shows (c ∷ cs))) (sym (broken-append prefix (entity c) (hidden cs)))
      (Reads-append (broken prefix (entity c)) (broken prefix (hidden cs)) (shows (c ∷ []))
        (shows cs) (Reads-broken_entity prefix c h e) (Reads-broken prefix cs h p))
