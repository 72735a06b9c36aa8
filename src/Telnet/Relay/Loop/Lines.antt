-- ===== src/Telnet/Relay/Loop/Lines.antt =====
-- src/core/network/telnet/relay.rs: no newline is left in a line that the relay hands on.
use oxigeon.Base.{
  ℕ, zero, suc, List, [], ◌∷◌, ◌++◌, some, ◌==◌, length, All, All-append, ◌≡◌, ◌≢◌, sym, subst,
  arith, Bool-cases, inl, inr,
}
use oxigeon.Telnet.Constants.{esc, lf}
use oxigeon.Telnet.Mxp.{Text, kept, itself, scan, is_line_tag, strip_line_modes, contains}
use oxigeon.Telnet.Mxp.Scan.{scan_nil, scan_char, scan_escape, escape_sequence-parts}
use oxigeon.Telnet.Relay.Loop.{cut_lines, trim_end}

abbrev pub OneLine : Text → Type 0
OneLine = All (λ c. c ≢ lf)

All-left : (s t : Text) → OneLine (s ++ t) → OneLine s
All-left [] t h = tt
All-left (c ∷ s) t (n, h) = (n, All-left s t h)

All-right : (s t : Text) → OneLine (s ++ t) → OneLine t
All-right [] t h = h
All-right (c ∷ s) t (n, h) = All-right s t h

pub trim_end-OneLine : (s : Text) → OneLine s → OneLine (trim_end s)
unfolding trim_end
trim_end-OneLine [] h = tt
trim_end-OneLine (c ∷ cs) (n, h) = ground (arith, trim_end-OneLine cs h)

kept-OneLine : (s : Text) → OneLine s → OneLine (kept s)
kept-OneLine s h = elim (Bool-cases (is_line_tag s)) [ inl e ↦ rw e tt | inr e ↦ rw e h ]

scan-OneLine : (f : ℕ) (s t : Text) → OneLine s → scan itself f s ≡ some t → OneLine t
unfolding scan
scan-OneLine zero s t h e = cc
scan-OneLine (suc f) [] t h e = rw (scan_nil itself (suc f) t e) tt
scan-OneLine (suc f) (b ∷ bs) t h e = elim (Bool-cases (b == esc)) [
  | inr x ↦ let (u, p, q) = scan_char itself f b bs t x e in rw q (h.0, scan-OneLine f bs u h.1 p)
  | inl x ↦
      let (seq, rest, u, p, q, r) = scan_escape itself f b bs t x e in
      let whole = subst OneLine (escape_sequence-parts (b ∷ bs) seq rest p) h in
      subst OneLine (sym r) (
        All-append (λ c. c ≢ lf) (kept seq) u (kept-OneLine seq (All-left seq rest whole))
          (scan-OneLine f rest u (All-right seq rest whole) q))
]

pub strip_line_modes-OneLine : (s t : Text) → OneLine s → strip_line_modes s ≡ some t → OneLine t
unfolding strip_line_modes
strip_line_modes-OneLine s t h e = elim (Bool-cases (contains esc s)) [
  | inl x ↦ scan-OneLine (suc (length s)) s t h (ground arith)
  | inr x ↦ let same : s ≡ t = ground arith in subst OneLine same h
]

prepended-OneLine :
    (c : ℕ) (lines : List Text) (rest : Text)
    → c ≢ lf
    → All OneLine lines
    → let r : List Text × Text = elim lines [
      | [] ↦ ([], c ∷ rest)
      | l ∷ ls ↦ ((c ∷ l) ∷ ls, rest)
    ] in
      All OneLine r.0
prepended-OneLine c [] rest n h = tt
prepended-OneLine c (l ∷ ls) rest n (h, hs) = ((n, h), hs)

pub cut_lines-OneLine : (s : Text) → All OneLine (cut_lines s).0
unfolding cut_lines
cut_lines-OneLine [] = tt
cut_lines-OneLine (c ∷ cs) = elim (Bool-cases (c == lf)) [
  | inl e ↦ rw e (tt, cut_lines-OneLine cs)
  | inr e ↦
      rw e (
        prepended-OneLine c (cut_lines cs).0 (cut_lines cs).1 (ground arith) (cut_lines-OneLine cs))
]
