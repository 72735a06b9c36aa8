-- ===== src/Telnet/Mxp/Reply/Tokens.antt =====
-- What `tokenize` of mxp.rs makes of words.
use oxigeon.Base.{
  arith, ℕ, false, List, [], ◌∷◌, ◌++◌, none, ◌≡◌, ◌≢◌, refl, All, append_assoc, append-nil, sym,
  ap, ◌∙◌,
}
use oxigeon.Telnet.Mxp.{Text}
use oxigeon.Telnet.Mxp.Reply.{is_whitespace, is_quote, Token, finish, tokenize_from, tokenize}

-- A character that stands for itself.
abbrev pub IsLetter : ℕ → Type 0
IsLetter c = (is_quote c ≡ false) × (is_whitespace c ≡ false)

abbrev pub IsWord : Text → Type 0
IsWord t = (t ≢ []) × All IsLetter t

-- The words with a space in front of each.
abbrev pub spaced : List Text → Text
spaced [] = []
spaced (t ∷ ts) = 32 ∷ (t ++ spaced ts)

-- A token in which no quote has been seen.
abbrev holding : Text → Token
holding cur = record { cur = cur; quote = none; started = false }

tokenize_from_letter :
    (cur : Text) (c : ℕ) (s : Text)
    → IsLetter c
    → tokenize_from (holding cur) (c ∷ s) ≡ tokenize_from (holding (cur ++ c ∷ [])) s
unfolding tokenize_from
tokenize_from_letter cur c s l = ground (arith, l.0, l.1)

tokenize_from-append :
    (cur w s : Text)
    → All IsLetter w
    → tokenize_from (holding cur) (w ++ s) ≡ tokenize_from (holding (cur ++ w)) s
unfolding tokenize_from
tokenize_from-append cur [] s a = ap (λ x. tokenize_from (holding x) s) (sym (append-nil cur))
tokenize_from-append cur (c ∷ w) s a =
    tokenize_from_letter cur c (w ++ s) a.0
    ∙ tokenize_from-append (cur ++ c ∷ []) w s a.1
    ∙ ap (λ x. tokenize_from (holding x) s) (append_assoc cur (c ∷ []) w)

finish-word : (cur : Text) (out : List Text) → cur ≢ [] → finish (holding cur) out ≡ cur ∷ out
finish-word [] out h = absurd (h refl)
finish-word (c ∷ cur) out h = refl

tokenize_from-spaced :
    (cur : Text) (ts : List Text)
    → All IsWord ts
    → tokenize_from (holding cur) (spaced ts) ≡ finish (holding cur) ts
unfolding tokenize_from
tokenize_from-spaced cur [] a = refl
tokenize_from-spaced cur (t ∷ ts) a = ap (finish (holding cur)) (
    tokenize_from-append [] t (spaced ts) a.0.1
    ∙ tokenize_from-spaced t ts a.1
    ∙ finish-word t ts a.0.0)

-- Words that are set apart by spaces are the tokens: a word is not empty and has no white space and
-- no quotation mark of either kind.
pub tokenize-spaced : (ts : List Text) → All IsWord ts → tokenize (spaced ts) ≡ ts
unfolding tokenize
tokenize-spaced ts a = tokenize_from-spaced [] ts a
