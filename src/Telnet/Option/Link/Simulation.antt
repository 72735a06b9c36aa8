-- ===== src/Telnet/Option/Link/Simulation.antt =====
-- The two negotiators do what the table says: a move on the link is a move of its sides.
use mathlib.Core.List.{map-append}
use mathlib.Core.Option
use oxigeon.Base.{
  ℕ, Bool, true, false, List, [], ◌∷◌, ◌++◌, map, Option, none, some, ◌≡◌, refl, arith, ◌∙◌, sym,
  ap, subst, append-nil,
}
use oxigeon.Telnet.Option.{
  QState, NegotiationCommand, send_will, send_wont, send_do, send_dont, OptionNegotiator,
  OptionState, get_state, put, remote_enable, remote_disable, local_enable, local_disable,
  will_received, wont_received, do_received, dont_received,
}
use oxigeon.Telnet.Option.Link.{
  Link, Move, server_enable, server_disable, client_enable, client_disable, client_reads,
  server_reads, idle, move, run, queued, from_server, from_client, client_takes, server_takes,
  handle,
}
use oxigeon.Telnet.Option.Link.Table.{
  Sides, shift, sign, enable, disable, hears, him_does, us_does, us_takes, him_takes, start,
  contains, reachable, reachable-shift,
}

abbrev pub do_sign : ℕ → Bool → NegotiationCommand
do_sign o true = send_do o
do_sign o false = send_dont o

abbrev pub will_sign : ℕ → Bool → NegotiationCommand
will_sign o true = send_will o
will_sign o false = send_wont o

-- The link shows these sides at option `o`, and all that is in flight is about `o`.
pub record Shows (o : ℕ) (l : Link) (s : Sides) : Type 0 where
  pub him : (get_state l.server o).him ≡ s.him
  pub us : (get_state l.client o).us ≡ s.us
  pub to_us : l.to_client ≡ map (do_sign o) s.to_us
  pub to_him : l.to_server ≡ map (will_sign o) s.to_him

abbrev reply :
    (Bool → NegotiationCommand) → QState × Option Bool → QState × Option NegotiationCommand
reply f r = (r.0, Option.map f r.1)

queued-map :
    (f : Bool → NegotiationCommand) (xs : List NegotiationCommand) (ys : List Bool)
    (o : Option Bool)
    → xs ≡ map f ys
    → xs ++ queued (Option.map f o) ≡ map f (ys ++ sign o)
queued-map f xs ys none h = rw (append-nil, append-nil) h
queued-map f xs ys (some b) h = rw (map-append, h)

-- The handlers and requests of either end are the one machine of the table.
remote_enable-enable : (o : ℕ) (q : QState) → remote_enable o q ≡ reply (do_sign o) (enable q)
unfolding remote_enable
remote_enable-enable o q = ground arith

remote_disable-disable : (o : ℕ) (q : QState) → remote_disable o q ≡ reply (do_sign o) (disable q)
unfolding remote_disable
remote_disable-disable o q = ground arith

local_enable-enable : (o : ℕ) (q : QState) → local_enable o q ≡ reply (will_sign o) (enable q)
unfolding local_enable
local_enable-enable o q = ground arith

local_disable-disable : (o : ℕ) (q : QState) → local_disable o q ≡ reply (will_sign o) (disable q)
unfolding local_disable
local_disable-disable o q = ground arith

-- A handler's new state and answer, without its flag.
abbrev said : QState × Option NegotiationCommand × Bool → QState × Option NegotiationCommand
said r = (r.0, r.1)

do_received-hears :
    (o : ℕ) (q : QState) → said (do_received o q) ≡ reply (will_sign o) (hears true q)
unfolding do_received
do_received-hears o q = ground arith

dont_received-hears :
    (o : ℕ) (q : QState) → said (dont_received o q) ≡ reply (will_sign o) (hears false q)
unfolding dont_received
dont_received-hears o q = ground arith

will_received-hears :
    (o : ℕ) (q : QState) → said (will_received o q) ≡ reply (do_sign o) (hears true q)
unfolding will_received
will_received-hears o q = ground arith

wont_received-hears :
    (o : ℕ) (q : QState) → said (wont_received o q) ≡ reply (do_sign o) (hears false q)
unfolding wont_received
wont_received-hears o q = ground arith

get_state-put : (n : OptionNegotiator) (o : ℕ) (s : OptionState) → get_state (put n o s) o ≡ s
get_state-put n o s = ground arith

module _ (o : ℕ) (l : Link) (s : Sides) (h : Shows o l s) where
  -- The server's side becomes what the table says, and sends what it says.
  server_does :
      (r : QState × Option NegotiationCommand) (q : QState × Option Bool)
      → r ≡ reply (do_sign o) q
      → Shows o
          (from_server l (put l.server o (record (get_state l.server o) { him = r.0 }), r.1))
          (him_does s q)
  server_does r q e = rw e (record {
    him = ap (λ x. x.him) (get_state-put l.server o _);
    us = h.us;
    to_us = queued-map (do_sign o) l.to_client s.to_us q.1 h.to_us;
    to_him = h.to_him;
  })

  client_does :
      (r : QState × Option NegotiationCommand) (q : QState × Option Bool)
      → r ≡ reply (will_sign o) q
      → Shows o
          (from_client l (put l.client o (record (get_state l.client o) { us = r.0 }), r.1))
          (us_does s q)
  client_does r q e = rw e (record {
    him = h.him;
    us = ap (λ x. x.us) (get_state-put l.client o _);
    to_us = h.to_us;
    to_him = queued-map (will_sign o) l.to_server s.to_him q.1 h.to_him;
  })

module _ (o : ℕ) (l : Link) (s : Sides) (h : Shows o l s) where
  client_takes-Shows :
      (bs : List Bool) → Shows o (client_takes (map (do_sign o) bs) l) (us_takes bs s)
  unfolding client_takes handle
  client_takes-Shows [] = h
  client_takes-Shows (true ∷ bs) =
      client_does o (record l { to_client = map (do_sign o) bs }) (record s { to_us = bs })
        (record { him = h.him; us = h.us; to_us = refl; to_him = h.to_him }) _ _
        (do_received-hears o _ ∙ ap (λ q. reply (will_sign o) (hears true q)) h.us)
  client_takes-Shows (false ∷ bs) =
      client_does o (record l { to_client = map (do_sign o) bs }) (record s { to_us = bs })
        (record { him = h.him; us = h.us; to_us = refl; to_him = h.to_him }) _ _
        (dont_received-hears o _ ∙ ap (λ q. reply (will_sign o) (hears false q)) h.us)

  server_takes-Shows :
      (bs : List Bool) → Shows o (server_takes (map (will_sign o) bs) l) (him_takes bs s)
  unfolding server_takes handle
  server_takes-Shows [] = h
  server_takes-Shows (true ∷ bs) =
      server_does o (record l { to_server = map (will_sign o) bs }) (record s { to_him = bs })
        (record { him = h.him; us = h.us; to_us = h.to_us; to_him = refl }) _ _
        (will_received-hears o _ ∙ ap (λ q. reply (do_sign o) (hears true q)) h.him)
  server_takes-Shows (false ∷ bs) =
      server_does o (record l { to_server = map (will_sign o) bs }) (record s { to_him = bs })
        (record { him = h.him; us = h.us; to_us = h.to_us; to_him = refl }) _ _
        (wont_received-hears o _ ∙ ap (λ q. reply (do_sign o) (hears false q)) h.him)

pub move-Shows :
    (o : ℕ) (m : Move) (l : Link) (s : Sides) → Shows o l s → Shows o (move o m l) (shift m s)
unfolding move shift
move-Shows o server_enable l s h =
    server_does o l s h _ _
      (remote_enable-enable o _ ∙ ap (λ q. reply (do_sign o) (enable q)) h.him)
move-Shows o server_disable l s h =
    server_does o l s h _ _
      (remote_disable-disable o _ ∙ ap (λ q. reply (do_sign o) (disable q)) h.him)
move-Shows o client_enable l s h =
    client_does o l s h _ _
      (local_enable-enable o _ ∙ ap (λ q. reply (will_sign o) (enable q)) h.us)
move-Shows o client_disable l s h =
    client_does o l s h _ _
      (local_disable-disable o _ ∙ ap (λ q. reply (will_sign o) (disable q)) h.us)
move-Shows o client_reads l s h =
    subst (λ cs. Shows o (client_takes cs l) (us_takes s.to_us s)) (sym h.to_us)
      (client_takes-Shows o l s h s.to_us)
move-Shows o server_reads l s h =
    subst (λ cs. Shows o (server_takes cs l) (him_takes s.to_him s)) (sym h.to_him)
      (server_takes-Shows o l s h s.to_him)

-- A run shows sides that are on the table.
pub run-Shows :
    (o : ℕ) (ms : List Move) (l : Link) (s : Sides)
    → Shows o l s
    → contains reachable s ≡ true
    → (t : Sides) × Shows o (run o ms l) t × (contains reachable t ≡ true)
unfolding run
run-Shows o [] l s h k = (s, h, k)
run-Shows o (m ∷ ms) l s h k =
    run-Shows o ms (move o m l) (shift m s) (move-Shows o m l s h) (reachable-shift m s k)

pub idle-Shows : (o : ℕ) → Shows o idle start
unfolding idle start
idle-Shows o = record { him = refl; us = refl; to_us = refl; to_him = refl }
