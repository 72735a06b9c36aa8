-- ===== src/Telnet/Option/Link/Agree.antt =====
-- What two negotiators agree on, whatever they are asked and in whatever order they read.
use oxigeon.Base.{
  ℕ, zero, suc, ◌≤◌, Bool, true, List, [], ◌∷◌, map, ◌≡◌, refl, arith, &&-eq-true, length, ◌⊎◌, ◌∙◌,
  sym, ap, subst,
}
use oxigeon.Telnet.Option.{
  off, on, NegotiationCommand, OptionNegotiator, is_on, get_state, is_local_enabled,
  is_remote_enabled,
}
use oxigeon.Telnet.Option.Link.{Link, Move, client_reads, server_reads, idle, run}
use oxigeon.Telnet.Option.Link.Table.{
  Sides, start, contains, reachable, reachable-start, reachable-shift, all_of-contains, agrees,
  bounded, at_most_two, is_quiet, shift_rounds, reachable-agrees, reachable-bounded,
  reachable-is_quiet,
}
use oxigeon.Telnet.Option.Link.Simulation.{
  Shows, do_sign, will_sign, move-Shows, run-Shows, idle-Shows,
}

length-map : {A B : Type 0} (f : A → B) (xs : List A) → length (map f xs) ≡ length xs
length-map f [] = refl
length-map f (x ∷ xs) = ap suc (length-map f xs)

at_most_two-le : (bs : List Bool) → at_most_two bs ≡ true → length bs ≤ 2
at_most_two-le bs h = ground arith

-- Both ends say the same of the option, and neither waits for an answer.
pub record Settled (o : ℕ) (l : Link) : Type 0 where
  pub agreed : is_remote_enabled l.server o ≡ is_local_enabled l.client o
  pub server_rests : ((get_state l.server o).him ≡ off) ⊎ ((get_state l.server o).him ≡ on)
  pub client_rests : ((get_state l.client o).us ≡ off) ⊎ ((get_state l.client o).us ≡ on)

map-eq-nil : (f : Bool → NegotiationCommand) (bs : List Bool) → map f bs ≡ [] → bs ≡ []
map-eq-nil f [] h = refl
map-eq-nil f (b ∷ bs) h = cc

remote_enabled-him :
    (n : OptionNegotiator) (o : ℕ) → is_remote_enabled n o ≡ is_on (get_state n o).him
unfolding is_remote_enabled
remote_enabled-him n o = ground arith

local_enabled-us : (n : OptionNegotiator) (o : ℕ) → is_local_enabled n o ≡ is_on (get_state n o).us
unfolding is_local_enabled
local_enabled-us n o = ground arith

agrees-both :
    (s : Sides)
    → agrees s ≡ true
    → s.to_us ≡ []
    → s.to_him ≡ []
    → (is_on s.him ≡ is_on s.us) × ((s.him ≡ off) ⊎ (s.him ≡ on)) × ((s.us ≡ off) ⊎ (s.us ≡ on))
agrees-both s a e f = ground arith

agrees-Settled :
    (o : ℕ) (l : Link) (s : Sides)
    → Shows o l s
    → agrees s ≡ true
    → l.to_client ≡ []
    → l.to_server ≡ []
    → Settled o l
agrees-Settled o l s h a e f =
    let e' = map-eq-nil (do_sign o) s.to_us (sym h.to_us ∙ e) in
    let f' = map-eq-nil (will_sign o) s.to_him (sym h.to_him ∙ f) in
    let (same, him, us) = agrees-both s a e' f' in
    record {
      agreed =
          remote_enabled-him l.server o
          ∙ ap is_on h.him
          ∙ same
          ∙ sym (ap is_on h.us)
          ∙ sym (local_enabled-us l.client o);
      server_rests = subst (λ q. (q ≡ off) ⊎ (q ≡ on)) (sym h.him) him;
      client_rests = subst (λ q. (q ≡ off) ⊎ (q ≡ on)) (sym h.us) us;
    }

-- Whatever the two ends ask for, and in whatever order they read: when nothing is in flight any
-- more, both ends agree on whether the option is on, and neither waits for an answer.
pub run-Settled :
    (o : ℕ) (ms : List Move)
    → (run o ms idle).to_client ≡ []
    → (run o ms idle).to_server ≡ []
    → Settled o (run o ms idle)
run-Settled o ms e f =
    let (s, h, k) = run-Shows o ms idle start (idle-Shows o) reachable-start in
    agrees-Settled o _ s h (all_of-contains agrees reachable s reachable-agrees k) e f

-- At no time are more than two commands on their way in either direction.
pub run_in_flight :
    (o : ℕ) (ms : List Move)
    → (length (run o ms idle).to_client ≤ 2) × (length (run o ms idle).to_server ≤ 2)
run_in_flight o ms =
    let (s, h, k) = run-Shows o ms idle start (idle-Shows o) reachable-start in
    let b = &&-eq-true _ _ (all_of-contains bounded reachable s reachable-bounded k) in
    (
      rw (h.to_us, length-map) (at_most_two-le s.to_us b.0),
      rw (h.to_him, length-map) (at_most_two-le s.to_him b.1),
    )

-- The ends read in turn, `n` times each.
abbrev pub rounds : ℕ → List Move
rounds zero = []
rounds (suc n) = client_reads ∷ server_reads ∷ rounds n

run-rounds-Shows :
    (n : ℕ) (o : ℕ) (l : Link) (s : Sides)
    → Shows o l s
    → Shows o (run o (rounds n) l) (shift_rounds n s)
unfolding run
run-rounds-Shows zero o l s h = h
run-rounds-Shows (suc n) o l s h =
    run-rounds-Shows n o _ _ (move-Shows o server_reads _ _ (move-Shows o client_reads l s h))

contains-shift_rounds :
    (n : ℕ) (s : Sides) → contains reachable s ≡ true → contains reachable (shift_rounds n s) ≡ true
contains-shift_rounds zero s k = k
contains-shift_rounds (suc n) s k =
    contains-shift_rounds n _ (reachable-shift server_reads _ (reachable-shift client_reads s k))

is_quiet-eq : (s : Sides) → is_quiet s ≡ true → (s.to_us ≡ []) × (s.to_him ≡ [])
is_quiet-eq s h = ground arith

-- The talk ends: after any run, once both ends ask for nothing more and have read four times in
-- turn, nothing is in flight, and they agree.
pub run-rounds-Settled :
    (o : ℕ) (ms : List Move)
    → let l = run o (rounds 4) (run o ms idle) in
      (l.to_client ≡ []) × (l.to_server ≡ []) × Settled o l
run-rounds-Settled o ms =
    let (s, h, k) = run-Shows o ms idle start (idle-Shows o) reachable-start in
    let t = shift_rounds 4 s in
    let h' = run-rounds-Shows 4 o (run o ms idle) s h in
    let k' = contains-shift_rounds 4 s k in
    let quiet = is_quiet-eq t (all_of-contains _ reachable s reachable-is_quiet k) in
    let e = h'.to_us ∙ ap (map (do_sign o)) quiet.0 in
    let f = h'.to_him ∙ ap (map (will_sign o)) quiet.1 in
    (e, f, agrees-Settled o _ t h' (all_of-contains agrees reachable t reachable-agrees k') e f)
