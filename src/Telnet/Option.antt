-- ===== src/Telnet/Option.antt =====
-- src/core/network/telnet/option.rs: RFC 1143 option negotiation.
--
-- `QState::No` and `QState::Yes` are `off` and `on` here. The `HashMap` is a function from option
-- bytes to what is stored for them. A method that takes `&mut self` returns the negotiator it
-- leaves; its `match` on one side's state is a function by clauses of that state.
pub mod Frame
pub mod Link
use oxigeon.Base.{
  ℕ, Bool, true, false, List, [], ◌∷◌, Option, none, some, ◌==◌, if◌then◌else◌, Bytes,
}
use oxigeon.Telnet.Constants.{iac, will, wont, do_verb, dont}

-- The `bool` of `WantNo` and `WantYes` is the field `queue`.
pub data QState : Type 0 where
  off on : QState
  want_no want_yes : Bool → QState

pub data NegotiationCommand : Type 0 where
  send_will send_wont send_do send_dont : ℕ → NegotiationCommand

unfoldable pub to_bytes : NegotiationCommand → Bytes
to_bytes (send_will opt) = iac ∷ will ∷ opt ∷ []
to_bytes (send_wont opt) = iac ∷ wont ∷ opt ∷ []
to_bytes (send_do opt) = iac ∷ do_verb ∷ opt ∷ []
to_bytes (send_dont opt) = iac ∷ dont ∷ opt ∷ []

pub record OptionState : Type 0 where
  pub us : QState
  pub him : QState

pub record OptionNegotiator : Type 0 where
  pub options : ℕ → Option OptionState

unfoldable pub new : OptionNegotiator
new = record { options = λ _. none }

abbrev pub or_default : Option OptionState → OptionState
or_default none = record { us = off; him = off }
or_default (some s) = s

-- `entry(option).or_default()`: what a caller then finds there.
abbrev pub get_state : OptionNegotiator → ℕ → OptionState
get_state n option = or_default (n.options option)

abbrev pub put : OptionNegotiator → ℕ → OptionState → OptionNegotiator
put n option s = record { options = λ o. if o == option then some s else n.options o }

abbrev pub is_on : QState → Bool
is_on on = true
is_on _ = false

abbrev us_on : Option OptionState → Bool
us_on none = false
us_on (some s) = is_on s.us

abbrev him_on : Option OptionState → Bool
him_on none = false
him_on (some s) = is_on s.him

unfoldable pub is_local_enabled : OptionNegotiator → ℕ → Bool
is_local_enabled n option = us_on (n.options option)

unfoldable pub is_remote_enabled : OptionNegotiator → ℕ → Bool
is_remote_enabled n option = him_on (n.options option)

abbrev pub Reply : Type 0
Reply = QState × Option NegotiationCommand

abbrev pub Answer : Type 0
Answer = QState × Option NegotiationCommand × Bool

unfoldable pub local_enable : ℕ → QState → Reply
local_enable option off = (want_yes false, some (send_will option))
local_enable option on = (on, none)
local_enable option (want_no _) = (want_no true, none)
local_enable option (want_yes _) = (want_yes false, none)

unfoldable pub local_disable : ℕ → QState → Reply
local_disable option off = (off, none)
local_disable option on = (want_no false, some (send_wont option))
local_disable option (want_no _) = (want_no false, none)
local_disable option (want_yes _) = (want_yes true, none)

unfoldable pub remote_enable : ℕ → QState → Reply
remote_enable option off = (want_yes false, some (send_do option))
remote_enable option on = (on, none)
remote_enable option (want_no _) = (want_no true, none)
remote_enable option (want_yes _) = (want_yes false, none)

unfoldable pub remote_disable : ℕ → QState → Reply
remote_disable option off = (off, none)
remote_disable option on = (want_no false, some (send_dont option))
remote_disable option (want_no _) = (want_no false, none)
remote_disable option (want_yes _) = (want_yes true, none)

unfoldable pub will_received : ℕ → QState → Answer
will_received option off = (on, some (send_do option), true)
will_received option on = (on, none, true)
will_received option (want_no true) = (want_no false, some (send_dont option), false)
will_received option (want_no false) = (off, none, false)
will_received option (want_yes true) = (want_no false, some (send_dont option), false)
will_received option (want_yes false) = (on, none, true)

unfoldable pub wont_received : ℕ → QState → Answer
wont_received option off = (off, none, false)
wont_received option on = (off, some (send_dont option), false)
wont_received option (want_no true) = (want_yes false, some (send_do option), false)
wont_received option (want_no false) = (off, none, false)
wont_received option (want_yes _) = (off, none, false)

unfoldable pub do_received : ℕ → QState → Answer
do_received option off = (on, some (send_will option), true)
do_received option on = (on, none, true)
do_received option (want_no true) = (want_no false, some (send_wont option), false)
do_received option (want_no false) = (off, none, false)
do_received option (want_yes true) = (want_no false, some (send_wont option), false)
do_received option (want_yes false) = (on, none, true)

unfoldable pub dont_received : ℕ → QState → Answer
dont_received option off = (off, none, false)
dont_received option on = (off, some (send_wont option), false)
dont_received option (want_no true) = (want_yes false, some (send_will option), false)
dont_received option (want_no false) = (off, none, false)
dont_received option (want_yes _) = (off, none, false)

-- A method reads and writes one side of one option.
abbrev on_us :
    (QState → Reply) → OptionNegotiator → ℕ → OptionNegotiator × Option NegotiationCommand
on_us f n option =
    let s = get_state n option in let r = f s.us in (put n option (record s { us = r.0 }), r.1)

abbrev on_him :
    (QState → Reply) → OptionNegotiator → ℕ → OptionNegotiator × Option NegotiationCommand
on_him f n option =
    let s = get_state n option in let r = f s.him in (put n option (record s { him = r.0 }), r.1)

unfoldable pub request_local_enable :
    OptionNegotiator → ℕ → OptionNegotiator × Option NegotiationCommand
unfolding local_enable
request_local_enable n option = on_us (local_enable option) n option

unfoldable pub request_local_disable :
    OptionNegotiator → ℕ → OptionNegotiator × Option NegotiationCommand
unfolding local_disable
request_local_disable n option = on_us (local_disable option) n option

unfoldable pub request_remote_enable :
    OptionNegotiator → ℕ → OptionNegotiator × Option NegotiationCommand
unfolding remote_enable
request_remote_enable n option = on_him (remote_enable option) n option

unfoldable pub request_remote_disable :
    OptionNegotiator → ℕ → OptionNegotiator × Option NegotiationCommand
unfolding remote_disable
request_remote_disable n option = on_him (remote_disable option) n option

abbrev us_answers :
    (QState → Answer) → OptionNegotiator → ℕ → OptionNegotiator × Option NegotiationCommand × Bool
us_answers f n option =
    let s = get_state n option in let r = f s.us in (put n option (record s { us = r.0 }), r.1, r.2)

abbrev him_answers :
    (QState → Answer) → OptionNegotiator → ℕ → OptionNegotiator × Option NegotiationCommand × Bool
him_answers f n option =
    let s = get_state n option in
    let r = f s.him in (put n option (record s { him = r.0 }), r.1, r.2)

unfoldable pub receive_will :
    OptionNegotiator → ℕ → OptionNegotiator × Option NegotiationCommand × Bool
unfolding will_received
receive_will n option = him_answers (will_received option) n option

unfoldable pub receive_wont :
    OptionNegotiator → ℕ → OptionNegotiator × Option NegotiationCommand × Bool
unfolding wont_received
receive_wont n option = him_answers (wont_received option) n option

unfoldable pub receive_do :
    OptionNegotiator → ℕ → OptionNegotiator × Option NegotiationCommand × Bool
unfolding do_received
receive_do n option = us_answers (do_received option) n option

unfoldable pub receive_dont :
    OptionNegotiator → ℕ → OptionNegotiator × Option NegotiationCommand × Bool
unfolding dont_received
receive_dont n option = us_answers (dont_received option) n option
