-- ===== src/Telnet/Option/Link/Table.antt =====
-- One option on a link, as the states of its two ends and the signs in flight, and all the states
-- that moves lead to from an idle link.
use oxigeon.Base.{
  ℕ, zero, suc, Bool, true, false, ◌&&◌, ◌||◌, List, [], ◌∷◌, ◌++◌, Option, none, some, ◌≡◌, refl,
  arith, all_of, inl, inr, Bool-cases, &&-eq-true, subst, sym, ◌∙◌,
}
use oxigeon.Telnet.Option.{QState, off, on, want_no, want_yes}
use oxigeon.Telnet.Option.Link.{
  Move, server_enable, server_disable, client_enable, client_disable, client_reads, server_reads,
}

-- A sign is `true` for DO and WILL, `false` for DONT and WONT.
pub record Sides : Type 0 where
  pub him : QState
  pub us : QState
  pub to_us : List Bool
  pub to_him : List Bool

abbrev pub sign : Option Bool → List Bool
sign none = []
sign (some b) = b ∷ []

abbrev pub enable : QState → QState × Option Bool
enable off = (want_yes false, some true)
enable on = (on, none)
enable (want_no _) = (want_no true, none)
enable (want_yes _) = (want_yes false, none)

abbrev pub disable : QState → QState × Option Bool
disable off = (off, none)
disable on = (want_no false, some false)
disable (want_no _) = (want_no false, none)
disable (want_yes _) = (want_yes true, none)

abbrev pub hears : Bool → QState → QState × Option Bool
hears true off = (on, some true)
hears true on = (on, none)
hears true (want_no true) = (want_no false, some false)
hears true (want_no false) = (off, none)
hears true (want_yes true) = (want_no false, some false)
hears true (want_yes false) = (on, none)
hears false off = (off, none)
hears false on = (off, some false)
hears false (want_no true) = (want_yes false, some true)
hears false (want_no false) = (off, none)
hears false (want_yes _) = (off, none)

abbrev pub him_does : Sides → QState × Option Bool → Sides
him_does s r = record s { him = r.0; to_us = s.to_us ++ sign r.1 }

abbrev pub us_does : Sides → QState × Option Bool → Sides
us_does s r = record s { us = r.0; to_him = s.to_him ++ sign r.1 }

abbrev pub us_takes : List Bool → Sides → Sides
us_takes [] s = s
us_takes (b ∷ bs) s = us_does (record s { to_us = bs }) (hears b s.us)

abbrev pub him_takes : List Bool → Sides → Sides
him_takes [] s = s
him_takes (b ∷ bs) s = him_does (record s { to_him = bs }) (hears b s.him)

unfoldable pub shift : Move → Sides → Sides
shift server_enable s = him_does s (enable s.him)
shift server_disable s = him_does s (disable s.him)
shift client_enable s = us_does s (enable s.us)
shift client_disable s = us_does s (disable s.us)
shift client_reads s = us_takes s.to_us s
shift server_reads s = him_takes s.to_him s

unfoldable pub start : Sides
start = record { him = off; us = off; to_us = []; to_him = [] }

same_bool : Bool → Bool → Bool
same_bool true b = b
same_bool false true = false
same_bool false false = true

same_state : QState → QState → Bool
unfolding same_bool
same_state off off = true
same_state on on = true
same_state (want_no a) (want_no b) = same_bool a b
same_state (want_yes a) (want_yes b) = same_bool a b
same_state _ _ = false

same_signs : List Bool → List Bool → Bool
unfolding same_bool
same_signs [] [] = true
same_signs (x ∷ xs) (y ∷ ys) = same_bool x y && same_signs xs ys
same_signs _ _ = false

same : Sides → Sides → Bool
unfolding same_state same_signs
same s t =
    same_state s.him t.him
    && same_state s.us t.us
    && same_signs s.to_us t.to_us
    && same_signs s.to_him t.to_him

-- `contains l s`: the sides `s` are on the list.
pub contains : List Sides → Sides → Bool
unfolding same
contains [] s = false
contains (t ∷ ts) s = same s t || contains ts s

abbrev moves : List Move
moves =
    server_enable ∷ server_disable ∷ client_enable ∷ client_disable ∷ client_reads ∷ server_reads
    ∷ []

-- The sides that one move leads to and that are not on the list yet.
fresh : List Move → Sides → List Sides → List Sides
unfolding contains shift
fresh [] s seen = []
fresh (m ∷ ms) s seen =
    let t = shift m s in
    elim (contains seen t) [ true ↦ fresh ms s seen | false ↦ t ∷ fresh ms s (t ∷ seen) ]

explore : ℕ → List Sides → List Sides → List Sides
unfolding fresh
explore zero todo seen = seen
explore (suc f) [] seen = seen
explore (suc f) (s ∷ todo) seen =
    let new = fresh moves s seen in explore f (todo ++ new) (seen ++ new)

pub reachable : List Sides
unfolding explore start
reachable = explore 60 (start ∷ []) (start ∷ [])

-- Every move from a side on the list leads to one on the list.
closed_under : List Sides → List Sides → Bool
unfolding contains shift
closed_under seen [] = true
closed_under seen (s ∷ ss) = all_of (λ m. contains seen (shift m s)) moves && closed_under seen ss

reachable_closed : closed_under reachable reachable ≡ true
unfolding closed_under reachable
reachable_closed = refl

pub reachable-start : contains reachable start ≡ true
unfolding reachable contains start
reachable-start = refl

same_bool-eq : (a b : Bool) → same_bool a b ≡ true → a ≡ b
unfolding same_bool
same_bool-eq a b h = ground arith

same_state-eq : (a b : QState) → same_state a b ≡ true → a ≡ b
unfolding same_state
same_state-eq a b h = ground arith

same_signs-eq : (xs ys : List Bool) → same_signs xs ys ≡ true → xs ≡ ys
unfolding same_signs
same_signs-eq (x ∷ xs) (y ∷ ys) h = ground (arith, same_bool-eq x y, same_signs-eq xs ys)
same_signs-eq _ _ h = ground arith

same-eq : (s t : Sides) → same s t ≡ true → s ≡ t
unfolding same
same-eq s t h = ground (
  arith,
  same_state-eq s.him t.him,
  same_state-eq s.us t.us,
  same_signs-eq s.to_us t.to_us,
  same_signs-eq s.to_him t.to_him,
)

-- What a test finds of every listed side holds of a side on the list.
pub all_of-contains :
    (p : Sides → Bool) (ss : List Sides) (s : Sides)
    → all_of p ss ≡ true
    → contains ss s ≡ true
    → p s ≡ true
unfolding contains
all_of-contains p [] s h k = cc
all_of-contains p (t ∷ ts) s h k = elim (Bool-cases (same s t)) [
  | inl e ↦ subst (λ x. p x ≡ true) (sym (same-eq s t e)) ((&&-eq-true _ _ h).0)
  | inr e ↦ all_of-contains p ts s (&&-eq-true _ _ h).1 (rw e at k)
]

closed_under-all_of :
    (seen ss : List Sides)
    → closed_under seen ss ≡ all_of (λ s. all_of (λ m. contains seen (shift m s)) moves) ss
unfolding closed_under
closed_under-all_of seen [] = refl
closed_under-all_of seen (s ∷ ss) = rw (closed_under-all_of seen ss)

-- Every move keeps to the list.
pub reachable-shift :
    (m : Move) (s : Sides) → contains reachable s ≡ true → contains reachable (shift m s) ≡ true
reachable-shift m s h =
    let step =
      all_of-contains (λ s. all_of (λ m. contains reachable (shift m s)) moves) reachable s
        (sym (closed_under-all_of reachable reachable) ∙ reachable_closed) h in
    pick m step
  where
    pick :
        (m : Move)
        → all_of (λ m. contains reachable (shift m s)) moves ≡ true
        → contains reachable (shift m s) ≡ true
    pick server_enable h = ground arith
    pick server_disable h = ground arith
    pick client_enable h = ground arith
    pick client_disable h = ground arith
    pick client_reads h = ground arith
    pick server_reads h = ground arith

-- Nothing in flight: then both ends are off, or both are on.
abbrev both : QState → QState → Bool
both off off = true
both on on = true
both _ _ = false

abbrev both_if_quiet : Sides → List Bool → List Bool → Bool
both_if_quiet s [] [] = both s.him s.us
both_if_quiet s _ _ = true

abbrev pub agrees : Sides → Bool
agrees s = both_if_quiet s s.to_us s.to_him

abbrev pub at_most_two : List Bool → Bool
at_most_two (_ ∷ _ ∷ _ ∷ _) = false
at_most_two _ = true

abbrev pub bounded : Sides → Bool
bounded s = at_most_two s.to_us && at_most_two s.to_him

abbrev pub is_quiet : Sides → Bool
is_quiet s = elim s.to_us [ [] ↦ elim s.to_him [ [] ↦ true | _ ∷ _ ↦ false ] | _ ∷ _ ↦ false ]

-- Each end reads what there is, `n` times in turn.
abbrev pub shift_rounds : ℕ → Sides → Sides
shift_rounds zero s = s
shift_rounds (suc n) s = shift_rounds n (shift server_reads (shift client_reads s))

pub reachable-agrees : all_of agrees reachable ≡ true
unfolding reachable
reachable-agrees = refl

pub reachable-bounded : all_of bounded reachable ≡ true
unfolding reachable
reachable-bounded = refl

pub reachable-is_quiet : all_of (λ s. is_quiet (shift_rounds 4 s)) reachable ≡ true
unfolding reachable shift
reachable-is_quiet = refl
