-- ===== src/Telnet/Mxp/Scan.antt =====
-- What the two scanning functions of mxp.rs guarantee.
use oxigeon.Base.{
  ℕ, zero, suc, true, false, [], ◌∷◌, ◌++◌, Option, none, some, ◌==◌, ◌≡◌, ◌≢◌, refl, arith,
  Bool-cases, inl, inr,
}
use oxigeon.Telnet.Constants.{esc}
use oxigeon.Telnet.Mxp.{Text, csi_tail, escape_sequence, is_line_tag, kept, scan}

-- A text as the scanner reads it: no sequence of it is a line tag, and any other character meets
-- `P`. This says nothing of the loops.
pub data Clean (P : ℕ → Type 0) : Text → Type 0 where
  clean_end : Clean P []
  clean_char : {b : ℕ} {bs : Text} → b ≢ esc → P b → Clean P bs → Clean P (b ∷ bs)
  clean_seq :
      {bs rest seq : Text}
      → escape_sequence (esc ∷ bs) ≡ some (seq, rest)
      → is_line_tag seq ≡ false
      → Clean P rest
      → Clean P (esc ∷ bs)

csi_tail-parts : (bs : Text) → (csi_tail bs).0 ++ (csi_tail bs).1 ≡ bs
unfolding csi_tail
csi_tail-parts [] = refl
csi_tail-parts (b ∷ bs) = ground (arith, csi_tail-parts bs)

csi_tail-append :
    (bs t : Text)
    → ((csi_tail bs).1 ≡ [] → t ≡ [])
    → csi_tail ((csi_tail bs).0 ++ t) ≡ ((csi_tail bs).0, t)
unfolding csi_tail
csi_tail-append [] t h = ground (arith, h refl)
csi_tail-append (b ∷ bs) t h = ground (arith, csi_tail-append bs t)

pub escape_sequence-parts :
    (s seq rest : Text) → escape_sequence s ≡ some (seq, rest) → s ≡ seq ++ rest
unfolding escape_sequence
escape_sequence-parts [] seq rest e = ground arith
escape_sequence-parts (a ∷ []) seq rest e = ground arith
escape_sequence-parts (a ∷ b ∷ bs) seq rest e = ground (arith, csi_tail-parts bs)

pub escape_sequence-append :
    (s seq rest t : Text)
    → escape_sequence s ≡ some (seq, rest)
    → (rest ≡ [] → t ≡ [])
    → escape_sequence (seq ++ t) ≡ some (seq, t)
unfolding escape_sequence
escape_sequence-append [] seq rest t e h = ground (arith, h)
escape_sequence-append (a ∷ []) seq rest t e h = ground (arith, h)
escape_sequence-append (a ∷ b ∷ bs) seq rest t e h = ground (arith, h, csi_tail-append bs t)

pub escape_sequence-head :
    (b : ℕ) (bs seq rest : Text)
    → escape_sequence (b ∷ bs) ≡ some (seq, rest)
    → (u : Text) × (seq ≡ b ∷ u)
unfolding escape_sequence
escape_sequence-head b [] seq rest e = ([], ground arith)
escape_sequence-head b (c ∷ bs) seq rest e = elim (Bool-cases (c == b'[')) [
  | inl h ↦ (c ∷ (csi_tail bs).0, ground arith)
  | inr h ↦ (c ∷ [], ground arith)
]

module _ (write : ℕ → Text) where
  pub scan_nil : (f : ℕ) (t : Text) → scan write f [] ≡ some t → t ≡ []
  unfolding scan
  scan_nil zero t e = ground arith
  scan_nil (suc f) t e = ground arith

  -- The arms of the loop, read backwards.
  pub scan_char :
      (f b : ℕ) (bs t : Text)
      → (b == esc) ≡ false
      → scan write (suc f) (b ∷ bs) ≡ some t
      → (u : Text) × (scan write f bs ≡ some u) × (t ≡ write b ++ u)
  unfolding scan
  scan_char f b bs t q e = go (scan write f bs) refl
    where
      go :
          (r : Option Text)
          → scan write f bs ≡ r
          → (u : Text) × (scan write f bs ≡ some u) × (t ≡ write b ++ u)
      go none p = ground arith
      go (some u) p = (u, p, ground arith)

  pub scan_escape :
      (f b : ℕ) (bs t : Text)
      → (b == esc) ≡ true
      → scan write (suc f) (b ∷ bs) ≡ some t
      → (seq rest u : Text) × (escape_sequence (b ∷ bs) ≡ some (seq, rest))
        × (scan write f rest ≡ some u)
        × (t ≡ kept seq ++ u)
  unfolding scan
  scan_escape f b bs t q e = go (escape_sequence (b ∷ bs)) refl
    where
      inner :
          (seq rest : Text) (r : Option Text)
          → escape_sequence (b ∷ bs) ≡ some (seq, rest)
          → scan write f rest ≡ r
          → (seq rest u : Text) × (escape_sequence (b ∷ bs) ≡ some (seq, rest))
            × (scan write f rest ≡ some u)
            × (t ≡ kept seq ++ u)
      inner seq rest none p p' = ground arith
      inner seq rest (some u) p p' = (seq, rest, u, p, p', ground arith)

      go :
          (r : Option (Text × Text))
          → escape_sequence (b ∷ bs) ≡ r
          → (seq rest u : Text) × (escape_sequence (b ∷ bs) ≡ some (seq, rest))
            × (scan write f rest ≡ some u)
            × (t ≡ kept seq ++ u)
      go none p = ground arith
      go (some (seq, rest)) p = inner seq rest (scan write f rest) p refl
