-- ===== src/Websocket/Frames/LineEnds.antt =====
-- src/core/network/websocket/protocol.rs: what `normalize` makes of line ends.
use oxigeon.Base.{
  ℕ, [], ◌∷◌, ◌++◌, ◌⊎◌, inl, inr, Bool-cases, ◌==◌, if◌then◌else◌, Bytes, map, All, ◌≡◌, ◌≢◌, refl,
  ap, ◌∙◌, arith,
}
use oxigeon.Telnet.Constants.{cr, lf}
use oxigeon.Websocket.Frames.{strip_terminator, replace_crlf, cr_to_lf, normalize}

abbrev pub NoCr : Bytes → Type 0
NoCr = All (λ c. c ≢ cr)

cr_to_lf-NoCr : (s : Bytes) → NoCr (map cr_to_lf s)
cr_to_lf-NoCr [] = tt
cr_to_lf-NoCr (c ∷ cs) = (ground arith, cr_to_lf-NoCr cs)

-- A text with CR LF for each of its newlines.
abbrev pub crlf : Bytes → Bytes
crlf [] = []
crlf (c ∷ cs) = (if c == lf then cr ∷ lf ∷ [] else c ∷ []) ++ crlf cs

strip_terminator_two :
    (c d : ℕ) (s : Bytes) → s ≢ [] → strip_terminator (c ∷ d ∷ s) ≡ c ∷ strip_terminator (d ∷ s)
unfolding strip_terminator
strip_terminator_two c d [] h = absurd (h refl)
strip_terminator_two c d (e ∷ es) h = refl

strip_terminator_one :
    (c : ℕ) (s : Bytes) → c ≢ cr → s ≢ [] → strip_terminator (c ∷ s) ≡ c ∷ strip_terminator s
unfolding strip_terminator
strip_terminator_one c [] n h = absurd (h refl)
strip_terminator_one c (d ∷ []) n h = ground arith
strip_terminator_one c (d ∷ e ∷ es) n h = refl

behind-ne-nil : (s : Bytes) (c : ℕ) (t : Bytes) → s ++ c ∷ t ≢ []
behind-ne-nil [] c t e = cc
behind-ne-nil (d ∷ ds) c t e = cc

strip_terminator_crlf : (s : Bytes) → strip_terminator (s ++ cr ∷ lf ∷ []) ≡ s
unfolding strip_terminator
strip_terminator_crlf [] = refl
strip_terminator_crlf (c ∷ []) = refl
strip_terminator_crlf (c ∷ d ∷ ds) =
    strip_terminator_two c d (ds ++ cr ∷ lf ∷ []) (behind-ne-nil ds cr (lf ∷ []))
    ∙ ap (◌∷◌ c) (strip_terminator_crlf (d ∷ ds))

strip_terminator-cr : (s : Bytes) → strip_terminator (s ++ cr ∷ []) ≡ s
unfolding strip_terminator
strip_terminator-cr [] = refl
strip_terminator-cr (c ∷ []) = ground arith
strip_terminator-cr (c ∷ d ∷ ds) =
    strip_terminator_two c d (ds ++ cr ∷ []) (behind-ne-nil ds cr [])
    ∙ ap (◌∷◌ c) (strip_terminator-cr (d ∷ ds))

strip_terminator-lf :
    (body : Bytes) → NoCr body → strip_terminator (crlf body ++ lf ∷ []) ≡ crlf body
unfolding strip_terminator
strip_terminator-lf [] h = refl
strip_terminator-lf (c ∷ cs) (h, hs) =
    let more = behind-ne-nil (crlf cs) lf [] in
    let rest = strip_terminator-lf cs hs in
    elim (Bool-cases (c == lf)) [
      | inl e ↦ rw e (
          strip_terminator_two cr lf (crlf cs ++ lf ∷ []) more
          ∙ ap (◌∷◌ cr) (
              strip_terminator_one lf (crlf cs ++ lf ∷ []) (λ x. absurd (omega arith)) more
              ∙ ap (◌∷◌ lf) rest))
      | inr e ↦ rw e (strip_terminator_one c (crlf cs ++ lf ∷ []) h more ∙ ap (◌∷◌ c) rest)
    ]

replace_crlf_one : (c : ℕ) (s : Bytes) → c ≢ cr → replace_crlf (c ∷ s) ≡ c ∷ replace_crlf s
unfolding replace_crlf
replace_crlf_one c [] h = refl
replace_crlf_one c (d ∷ ds) h = ground arith

replace_crlf-crlf : (body : Bytes) → NoCr body → replace_crlf (crlf body) ≡ body
unfolding replace_crlf
replace_crlf-crlf [] h = refl
replace_crlf-crlf (c ∷ cs) (h, hs) = elim (Bool-cases (c == lf)) [
  | inl e ↦ rw e (
      let newline : lf ≡ c = ground arith in
      ap (◌∷◌ lf) (replace_crlf-crlf cs hs) ∙ ap (λ x. x ∷ cs) newline)
  | inr e ↦ rw e (replace_crlf_one c (crlf cs) h ∙ ap (◌∷◌ c) (replace_crlf-crlf cs hs))
]

cr_to_lf-fixed : (s : Bytes) → NoCr s → map cr_to_lf s ≡ s
cr_to_lf-fixed [] h = refl
cr_to_lf-fixed (c ∷ cs) (h, hs) = ground (arith, cr_to_lf-fixed cs hs)

abbrev pub IsTerminator : Bytes → Type 0
IsTerminator t = (t ≡ cr ∷ lf ∷ []) ⊎ ((t ≡ lf ∷ []) ⊎ (t ≡ cr ∷ []))

strip_terminator-IsTerminator :
    (body t : Bytes) → NoCr body → IsTerminator t → strip_terminator (crlf body ++ t) ≡ crlf body
strip_terminator-IsTerminator body t h (inl e) = rw e (strip_terminator_crlf (crlf body))
strip_terminator-IsTerminator body t h (inr (inl e)) = rw e (strip_terminator-lf body h)
strip_terminator-IsTerminator body t h (inr (inr e)) = rw e (strip_terminator-cr (crlf body))

-- No frame of text has a carriage return in it, whatever the mudlib wrote.
pub normalize-NoCr : (s : Bytes) → NoCr (normalize s)
unfolding normalize
normalize-NoCr s = cr_to_lf-NoCr (replace_crlf (strip_terminator s))

-- Text without carriage returns that is written with CR LF between its lines, and ended by CR LF, LF or
-- CR, comes out as it was: one line end is taken from its end, and no blank line is lost or added.
pub normalize-crlf :
    (body t : Bytes) → NoCr body → IsTerminator t → normalize (crlf body ++ t) ≡ body
unfolding normalize
normalize-crlf body t h e =
    ap (λ s. map cr_to_lf (replace_crlf s)) (strip_terminator-IsTerminator body t h e)
    ∙ ap (map cr_to_lf) (replace_crlf-crlf body h)
    ∙ cr_to_lf-fixed body h
