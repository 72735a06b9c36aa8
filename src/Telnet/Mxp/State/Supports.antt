-- ===== src/Telnet/Mxp/State/Supports.antt =====
-- What the list of `<SUPPORTS>` entries of mxp.rs can become.
use oxigeon.Base.{
  ◌≤◌, false, ◌||◌, List, [], ◌∷◌, ◌++◌, leb, if◌then◌else◌, length, length-append, ◌≡◌, refl,
  arith, Bool-cases, inl, inr, sym, subst,
}
use oxigeon.Telnet.Mxp.{Text}
use oxigeon.Telnet.Mxp.State.{max_supports, equals, member, add_supports}

-- No entry twice.
abbrev pub IsDistinct : List Text → Type 0
IsDistinct [] = Unit {0}
IsDistinct (s ∷ ss) = (member s ss ≡ false) × IsDistinct ss

equals_sym : (s t : Text) → equals s t ≡ equals t s
equals_sym [] [] = refl
equals_sym [] (b ∷ t) = refl
equals_sym (a ∷ s) [] = refl
equals_sym (a ∷ s) (b ∷ t) = ground (arith, equals_sym s t)

member-append :
    (s t : Text) (ss : List Text) → member s (ss ++ t ∷ []) ≡ (member s ss || equals t s)
member-append s t [] = ground arith
member-append s t (u ∷ ss) = ground (arith, member-append s t ss)

IsDistinct-append :
    (t : Text) (ss : List Text) → member t ss ≡ false → IsDistinct ss → IsDistinct (ss ++ t ∷ [])
IsDistinct-append t [] h d = (refl, tt)
IsDistinct-append t (s ∷ ss) h d = (
  ground (arith, member-append s t ss, equals_sym s t, d.0),
  IsDistinct-append t ss (ground arith) d.1,
)

abbrev add_one : Text → List Text → List Text
add_one t ss = if member t ss then ss else ss ++ t ∷ []

abbrev Bounded : List Text → Type 0
Bounded ss = (length ss ≤ max_supports) × IsDistinct ss

Bounded-add_one :
    (t : Text) (ss : List Text)
    → leb max_supports (length ss) ≡ false
    → Bounded ss
    → Bounded (add_one t ss)
Bounded-add_one t ss l b = elim (Bool-cases (member t ss)) [
  | inl h ↦ subst (λ x. Bounded (if x then ss else (ss ++ t ∷ []))) (sym h) b
  | inr h ↦
      subst (λ x. Bounded (if x then ss else (ss ++ t ∷ []))) (sym h)
        (ground (arith, length-append ss (t ∷ [])), IsDistinct-append t ss h b.1)
]

-- However many tags a client names: if the entries were at most `MAX_SUPPORTS` and none was there
-- twice, that is so still.
pub add_supports-IsDistinct :
    (ts ss : List Text)
    → length ss ≤ max_supports
    → IsDistinct ss
    → (length (add_supports ts ss) ≤ max_supports) × IsDistinct (add_supports ts ss)
unfolding add_supports
add_supports-IsDistinct [] ss l d = (l, d)
add_supports-IsDistinct (t ∷ ts) ss l d = elim (Bool-cases (leb max_supports (length ss))) [
  | inl h ↦ subst (λ x. Bounded (if x then ss else add_supports ts (add_one t ss))) (sym h) (l, d)
  | inr h ↦
      let next = Bounded-add_one t ss h (l, d) in
      subst (λ x. Bounded (if x then ss else add_supports ts (add_one t ss))) (sym h)
        (add_supports-IsDistinct ts (add_one t ss) next.0 next.1)
]
