-- ===== src/Telnet/Mxp/Unmarked.antt =====
-- Text without a line tag, said without the scanner of mxp.rs, and that clean text is such.
use oxigeon.Base.{
  ℕ, ◌≤◌, true, false, [], ◌∷◌, ◌++◌, some, Option, none, All, ◌≡◌, ◌≢◌, refl, sym, ap, ◌∙◌, subst,
  arith, append_assoc,
}
use oxigeon.Telnet.Constants.{esc}
use oxigeon.Telnet.Mxp.{Text, csi_tail, escape_sequence, is_digits_z, is_line_tag}
use oxigeon.Telnet.Mxp.Scan.{Clean, clean_char, clean_seq}

-- What ends a control sequence, and what it may have before its end.
abbrev IsFinal : ℕ → Type 0
IsFinal c = (0x40 ≤ c) × (c ≤ 0x7e)

abbrev IsInner : ℕ → Type 0
IsInner c = ¬ IsFinal c

abbrev IsDigit : ℕ → Type 0
IsDigit c = (b'0' ≤ c) × (c ≤ b'9')

-- Characters other than ESC, and whole control sequences.
pub data Ordinary : Text → Type 0 where
  ordinary_end : Ordinary []
  ordinary_char : {c : ℕ} {cs : Text} → c ≢ esc → Ordinary cs → Ordinary (c ∷ cs)
  ordinary_csi :
      {f : ℕ} {cs : Text} (inner : Text)
      → All IsInner inner
      → IsFinal f
      → Ordinary cs
      → Ordinary (esc ∷ b'[' ∷ (inner ++ f ∷ cs))

-- The tag of a line: a number, whatever its digits.
abbrev tag : Text → Text
tag digits = esc ∷ b'[' ∷ (digits ++ b'z' ∷ [])

-- Behind no ordinary text does a line tag stand.
abbrev pub HasNoTag : Text → Type 0
HasNoTag s =
    (before : Text) (d : ℕ) (digits after : Text)
    → Ordinary before
    → All IsDigit (d ∷ digits)
    → ¬ (s ≡ before ++ (tag (d ∷ digits) ++ after))

csi_tail-final :
    (inner : Text) (f : ℕ) (t : Text)
    → All IsInner inner
    → IsFinal f
    → csi_tail (inner ++ f ∷ t) ≡ (inner ++ f ∷ [], t)
unfolding csi_tail
csi_tail-final [] f t h k = ground arith
csi_tail-final (c ∷ cs) f t (h, hs) k = ground (arith, csi_tail-final cs f t hs k, h)

escape_sequence-csi :
    (inner : Text) (f : ℕ) (t : Text)
    → All IsInner inner
    → IsFinal f
    → escape_sequence (esc ∷ b'[' ∷ (inner ++ f ∷ t)) ≡ some (esc ∷ b'[' ∷ (inner ++ f ∷ []), t)
unfolding escape_sequence
escape_sequence-csi inner f t h k = rw (csi_tail-final inner f t h k) refl

is_digits_z-tag : (digits : Text) → All IsDigit digits → is_digits_z (digits ++ b'z' ∷ []) ≡ true
unfolding is_digits_z
is_digits_z-tag [] h = refl
is_digits_z-tag (c ∷ []) h = ground arith
is_digits_z-tag (c ∷ d ∷ ds) h = ground (arith, is_digits_z-tag (d ∷ ds) h.1)

is_line_tag-tag : (d : ℕ) (ds : Text) → All IsDigit (d ∷ ds) → is_line_tag (tag (d ∷ ds)) ≡ true
unfolding is_line_tag
is_line_tag-tag d [] h = is_digits_z-tag (d ∷ []) h
is_line_tag-tag d (e ∷ ds) h = is_digits_z-tag (d ∷ e ∷ ds) h

digits-IsInner : (ds : Text) → All IsDigit ds → All IsInner ds
digits-IsInner [] h = tt
digits-IsInner (d ∷ ds) (h, hs) = ((λ f. omega (arith, h, f)), digits-IsInner ds hs)

Clean-tail : {P : ℕ → Type 0} (c : ℕ) (cs : Text) → c ≢ esc → Clean P (c ∷ cs) → Clean P cs
Clean-tail c cs ne (clean_char n p h) = h
Clean-tail c cs ne (clean_seq e n h) = absurd (ne refl)

abbrev parts : Option (Text × Text) → Text × Text
parts none = ([], [])
parts (some p) = p

-- Of clean text, what is behind a sequence is clean, and the sequence is no line tag.
Clean-rest :
    {P : ℕ → Type 0} (bs seq rest : Text)
    → escape_sequence (esc ∷ bs) ≡ some (seq, rest)
    → Clean P (esc ∷ bs)
    → (is_line_tag seq ≡ false) × Clean P rest
Clean-rest bs seq rest e (clean_char n p h) = absurd (n refl)
Clean-rest {P} bs seq rest e (clean_seq {rest = more} {seq = first} d n h) =
    let same : (first, more) ≡ (seq, rest) = ap parts (sym d ∙ e) in
    (ap (λ p. is_line_tag p.0) (sym same) ∙ n, subst (λ p. Clean P p.1) same h)

Clean-sequence :
    {P : ℕ → Type 0} (inner : Text) (f : ℕ) (t u : Text)
    → All IsInner inner
    → IsFinal f
    → t ≡ inner ++ f ∷ u
    → Clean P (esc ∷ b'[' ∷ t)
    → (is_line_tag (esc ∷ b'[' ∷ (inner ++ f ∷ [])) ≡ false) × Clean P u
Clean-sequence inner f t u i k e c =
    Clean-rest (b'[' ∷ t) (esc ∷ b'[' ∷ (inner ++ f ∷ [])) u
      (ap (λ x. escape_sequence (esc ∷ b'[' ∷ x)) e ∙ escape_sequence-csi inner f u i k) c

no_tag :
    {before : Text} (d : ℕ) (ds after : Text)
    → Ordinary before
    → All IsDigit (d ∷ ds)
    → Clean (λ c. Unit {0}) (before ++ (tag (d ∷ ds) ++ after))
    → ⊥
no_tag d ds after ordinary_end h c =
    let digits = d ∷ ds in
    let plain =
      (Clean-sequence digits (b'z') ((digits ++ b'z' ∷ []) ++ after) after (digits-IsInner digits h)
        (omega arith, omega arith) (append_assoc digits (b'z' ∷ []) after) c).0 in
    ground (arith, plain, is_line_tag-tag d ds h)
no_tag d ds after (ordinary_char {c = x} {cs = cs} n o) h c =
    no_tag d ds after o h (Clean-tail x (cs ++ (tag (d ∷ ds) ++ after)) n c)
no_tag d ds after (ordinary_csi {f = f} {cs = cs} inner i k o) h c =
    let more = tag (d ∷ ds) ++ after in
    no_tag d ds after o h
      (Clean-sequence inner f ((inner ++ f ∷ cs) ++ more) (cs ++ more) i k
        (append_assoc inner (f ∷ cs) more) c).1

-- Clean text has no line tag behind ordinary text.
pub Clean-HasNoTag : (s : Text) → Clean (λ c. Unit {0}) s → HasNoTag s
Clean-HasNoTag s c before d ds after o h e =
    no_tag d ds after o h (subst (Clean (λ c. Unit {0})) e c)
