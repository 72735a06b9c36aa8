-- ===== src/Telnet/Relay/Agree.antt =====
-- What the capabilities of relay.rs and the state of MXP agree on, and what is written for it.
use oxigeon.Base.{
  ℕ, ◌+◌, ◌*◌, ◌/◌, ◌%◌, Bool, true, false, List, [], ◌∷◌, Option, none, some, Bytes, ◌≡◌, refl,
  arith, ◌⊎◌, append-nil,
}
use oxigeon.Telnet.Constants.{will, do_verb, opt_mxp, opt_naws}
use oxigeon.Telnet.Capabilities.{ClientCapabilities, default}
use oxigeon.Telnet.Option
use oxigeon.Telnet.Option.{OptionNegotiator}
use oxigeon.Telnet.Mxp.State
use oxigeon.Telnet.Mxp.State.{MxpState, on_accept, on_refuse, enable, disable, start_sequence}
use oxigeon.Telnet.Relay.{
  Conn, response, reply_bytes, policy, on_negotiate, naws, handle_subnegotiation,
}

-- What the game is told of MXP is what the connection does.
abbrev pub Agrees : ClientCapabilities → MxpState → Type 0
Agrees caps s = caps.mxp_supported ≡ s.enabled

on_accept-Agrees :
    (caps : ClientCapabilities) (offered enabled : Bool)
    → caps.mxp_supported ≡ enabled
    → let r = on_accept caps (record { offered = offered; enabled = enabled }) in Agrees r.0 r.1
unfolding on_accept enable start_sequence
on_accept-Agrees caps offered true h = h
on_accept-Agrees caps offered false h = refl

policy-Agrees :
    (version : Bytes) (verb option : ℕ) (caps : ClientCapabilities) (s : MxpState)
    → Agrees caps s
    → let r = policy version verb option caps s in Agrees r.0 r.1
unfolding policy on_refuse disable
policy-Agrees version verb option caps s h =
    ground (arith, on_accept-Agrees caps s.offered s.enabled h)

on_accept_again :
    (caps : ClientCapabilities) (s : MxpState) → s.enabled ≡ true → on_accept caps s ≡ (caps, s, [])
unfolding on_accept enable
on_accept_again caps s h = ground arith

-- The negotiations that arrive on one connection.
unfoldable pub negotiate_all : Bytes → List (ℕ × ℕ) → Conn → Conn
negotiate_all version [] c = c
negotiate_all version ((verb, option) ∷ rest) c =
    negotiate_all version rest (on_negotiate version verb option c).0

-- The connection as it is opened.
unfoldable pub opened : Bool → Conn
unfolding Option.new State.new
opened offered = record { negotiator = Option.new; capabilities = default; mxp = State.new offered }

negotiate_all-Agrees :
    (version : Bytes) (ms : List (ℕ × ℕ)) (c : Conn)
    → Agrees c.capabilities c.mxp
    → Agrees (negotiate_all version ms c).capabilities (negotiate_all version ms c).mxp
unfolding negotiate_all on_negotiate
negotiate_all-Agrees version [] c h = h
negotiate_all-Agrees version ((verb, option) ∷ rest) c h =
    negotiate_all-Agrees version rest _ (policy-Agrees version verb option c.capabilities c.mxp h)

-- Whatever a client negotiates, in whatever order: the game is told that MXP is there exactly while
-- the connection has it switched on.
pub mxp-Agrees :
    (version : Bytes) (offered : Bool) (ms : List (ℕ × ℕ))
    → let c = negotiate_all version ms (opened offered) in
      c.capabilities.mxp_supported ≡ c.mxp.enabled
unfolding opened
mxp-Agrees version offered ms = negotiate_all-Agrees version ms (opened offered) refl

-- An offer of MXP that is repeated while MXP is on adds nothing: only the negotiator's answer is
-- written, and the capabilities and the state of MXP stay.
on_negotiate_repeated :
    (version : Bytes) (verb : ℕ) (c : Conn)
    → c.mxp.enabled ≡ true
    → (verb ≡ do_verb) ⊎ (verb ≡ will)
    → let r = on_negotiate version verb opt_mxp c in
      (r.1 ≡ reply_bytes (response verb opt_mxp c.negotiator).1)
      × (r.0.capabilities ≡ c.capabilities)
      × (r.0.mxp ≡ c.mxp)
unfolding on_negotiate policy
on_negotiate_repeated version verb c h v = ground (
  arith,
  on_accept_again c.capabilities c.mxp h,
  append-nil (reply_bytes (response verb opt_mxp c.negotiator).1),
)

-- A window size of 16-bit numbers that is sent as four bytes, high byte first, is recorded as it
-- was, and nothing else is changed.
pub handle_subnegotiation-naws :
    {J : Type 0} (from_str : Bytes → Option J) (null : J) (w h : ℕ) (caps : ClientCapabilities)
    → handle_subnegotiation from_str null opt_naws (w / 256 ∷ w % 256 ∷ h / 256 ∷ h % 256 ∷ []) caps
      ≡ (record caps { window_width = some w; window_height = some h }, none)
unfolding handle_subnegotiation naws
handle_subnegotiation-naws from_str null w h caps =
    let p : (w / 256) * 256 + w % 256 ≡ w = omega arith in
    let q : (h / 256) * 256 + h % 256 ≡ h = omega arith in rw (p, q)
