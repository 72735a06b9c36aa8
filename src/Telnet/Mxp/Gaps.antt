-- ===== src/Telnet/Mxp/Gaps.antt =====
-- Where `strip_line_modes` of mxp.rs ends without a panic, and what it does not stop.
use oxigeon.Base.{
  ℕ, zero, suc, ◌≤◌, ◌<◌, true, false, [], ◌∷◌, ◌++◌, none, some, ◌==◌, length, length-append, ◌≡◌,
  refl, ap, subst, arith, Bool-cases, inl, inr, All,
}
use oxigeon.Telnet.Constants.{esc}
use oxigeon.Telnet.Mxp.{
  Text, csi_tail, escape_sequence, is_line_tag, kept, scan, contains, itself, strip_line_modes,
}
use oxigeon.Telnet.Mxp.Scan.{clean_seq, escape_sequence-parts, escape_sequence-head}
use oxigeon.Telnet.Mxp.Guard.{contains-Clean, strip_line_modes-fixed}

abbrev pub IsAscii : Text → Type 0
IsAscii s = All (λ b. b < 128) s

escape_sequence-IsAscii :
    (s : Text) → IsAscii s → (seq rest : Text) × (escape_sequence s ≡ some (seq, rest))
unfolding escape_sequence
escape_sequence-IsAscii [] a = ([], [], refl)
escape_sequence-IsAscii (e ∷ []) a = (e ∷ [], [], refl)
escape_sequence-IsAscii (e ∷ b ∷ bs) a = elim (Bool-cases (b == b'[')) [
  | inl h ↦ (e ∷ b ∷ (csi_tail bs).0, (csi_tail bs).1, ground arith)
  | inr h ↦ (e ∷ b ∷ [], bs, ground arith)
]

IsAscii-rest : (s t : Text) → IsAscii (s ++ t) → IsAscii t
IsAscii-rest [] t a = a
IsAscii-rest (b ∷ s) t a = IsAscii-rest s t a.1

scan_from :
    (write : ℕ → Text) (f b : ℕ) (bs seq rest t : Text)
    → (b == esc) ≡ true
    → escape_sequence (b ∷ bs) ≡ some (seq, rest)
    → scan write f rest ≡ some t
    → scan write (suc f) (b ∷ bs) ≡ some (kept seq ++ t)
unfolding scan
scan_from write f b bs seq rest t h p q = ground arith

scan-IsAscii :
    (write : ℕ → Text) (f : ℕ) (s : Text)
    → length s < f
    → IsAscii s
    → (t : Text) × (scan write f s ≡ some t)
unfolding scan
scan-IsAscii write zero s l a = absurd (omega arith)
scan-IsAscii write (suc f) [] l a = ([], refl)
scan-IsAscii write (suc f) (b ∷ bs) l a = elim (Bool-cases (b == esc)) [
  | inr h ↦ let (t, e) = scan-IsAscii write f bs (omega arith) a.1 in (write b ++ t, ground arith)
  | inl h ↦
      let (seq, rest, p) = escape_sequence-IsAscii (b ∷ bs) a in
      let (v, s) = escape_sequence-head b bs seq rest p in
      let parts = escape_sequence-parts (b ∷ bs) seq rest p in
      let shorter : length rest < f =
        omega (arith, ap length parts, ap length s, length-append seq rest) in
      let (t, e) =
        scan-IsAscii write f rest shorter (IsAscii-rest seq rest (subst IsAscii parts a)) in
      (kept seq ++ t, scan_from write f b bs seq rest t h p e)
]

-- Stripping an ASCII text ends, and without a panic.
pub strip_line_modes-IsAscii : (s : Text) → IsAscii s → (t : Text) × (strip_line_modes s ≡ some t)
unfolding strip_line_modes
strip_line_modes-IsAscii s a = elim (Bool-cases (contains esc s)) [
  | inl h ↦ let (t, e) = scan-IsAscii itself (suc (length s)) s (omega arith) a in (t, ground arith)
  | inr h ↦ (s, ground arith)
]

scan_panics :
    (f : ℕ) (before s : Text) (c : ℕ)
    → contains esc before ≡ false
    → 128 ≤ c
    → scan itself f (before ++ esc ∷ c ∷ s) ≡ none
unfolding scan escape_sequence
scan_panics zero before s c h l = ground arith
scan_panics (suc f) [] s c h l = ground arith
scan_panics (suc f) (b ∷ before) s c h l = ground (arith, scan_panics f before s c (ground arith) l)

contains-middle : (c : ℕ) (before s : Text) → contains c (before ++ c ∷ s) ≡ true
contains-middle c [] s = ground arith
contains-middle c (b ∷ before) s = ground (arith, contains-middle c before s)

-- An ESC before a character that is not ASCII is a panic, if it is the first ESC of the text.
pub strip_line_modes_panics :
    (before s : Text) (c : ℕ)
    → contains esc before ≡ false
    → 128 ≤ c
    → strip_line_modes (before ++ esc ∷ c ∷ s) ≡ none
unfolding strip_line_modes
strip_line_modes_panics before s c h l = ground (
  arith,
  contains-middle esc before (c ∷ s),
  scan_panics (suc (length (before ++ esc ∷ c ∷ s))) before s c h l,
)

-- A line tag goes through behind an ESC of its own: the two ESC are taken for a sequence, and what
-- would make the second one a tag, any text without an ESC, is then copied.
pub strip_line_modes_doubled :
    (tag : Text)
    → contains esc tag ≡ false
    → strip_line_modes (esc ∷ esc ∷ tag) ≡ some (esc ∷ esc ∷ tag)
unfolding escape_sequence is_line_tag
strip_line_modes_doubled tag h =
    strip_line_modes-fixed (esc ∷ esc ∷ tag)
      (clean_seq {seq = esc ∷ esc ∷ []} refl refl (contains-Clean tag h))
