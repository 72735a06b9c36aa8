-- ===== src/Telnet/Option/Link.antt =====
-- Two negotiators of option.rs, one at each end of a connection, and the commands in flight.
--
-- The server asks for an option on the client's side (`request_remote_*`), the client asks for the
-- same option on its own side (`request_local_*`), and each end handles what arrives, in the order
-- it was sent. A schedule is any list of these moves.
mod Table
mod Simulation
pub mod Agree
use oxigeon.Base.{ℕ, List, [], ◌∷◌, ◌++◌, Option, none, some, ◌≡◌, Bool, true, false}
use oxigeon.Telnet.Option.{
  NegotiationCommand, send_will, send_wont, send_do, send_dont, OptionNegotiator, new,
  request_local_enable, request_local_disable, request_remote_enable, request_remote_disable,
  receive_will, receive_wont, receive_do, receive_dont,
}

pub record Link : Type 0 where
  pub server : OptionNegotiator
  pub client : OptionNegotiator
  pub to_client : List NegotiationCommand
  pub to_server : List NegotiationCommand

pub data Move : Type 0 where
  server_enable server_disable client_enable client_disable : Move
  client_reads server_reads : Move

unfoldable pub idle : Link
unfolding new
idle = record { server = new; client = new; to_client = []; to_server = [] }

abbrev pub queued : Option NegotiationCommand → List NegotiationCommand
queued none = []
queued (some c) = c ∷ []

-- A command that arrives, to its handler, as `on_negotiate` of relay.rs hands it on.
unfoldable pub handle :
    OptionNegotiator → NegotiationCommand → OptionNegotiator × Option NegotiationCommand
unfolding receive_will receive_wont receive_do receive_dont
handle n (send_will o) = let r = receive_will n o in (r.0, r.1)
handle n (send_wont o) = let r = receive_wont n o in (r.0, r.1)
handle n (send_do o) = let r = receive_do n o in (r.0, r.1)
handle n (send_dont o) = let r = receive_dont n o in (r.0, r.1)

abbrev pub from_server : Link → OptionNegotiator × Option NegotiationCommand → Link
from_server l r = record l { server = r.0; to_client = l.to_client ++ queued r.1 }

abbrev pub from_client : Link → OptionNegotiator × Option NegotiationCommand → Link
from_client l r = record l { client = r.0; to_server = l.to_server ++ queued r.1 }

pub client_takes : List NegotiationCommand → Link → Link
client_takes [] l = l
client_takes (c ∷ cs) l = from_client (record l { to_client = cs }) (handle l.client c)

pub server_takes : List NegotiationCommand → Link → Link
server_takes [] l = l
server_takes (c ∷ cs) l = from_server (record l { to_server = cs }) (handle l.server c)

unfoldable pub move : ℕ → Move → Link → Link
unfolding request_local_enable request_local_disable request_remote_enable request_remote_disable
    handle client_takes server_takes
move o server_enable l = from_server l (request_remote_enable l.server o)
move o server_disable l = from_server l (request_remote_disable l.server o)
move o client_enable l = from_client l (request_local_enable l.client o)
move o client_disable l = from_client l (request_local_disable l.client o)
move o client_reads l = client_takes l.to_client l
move o server_reads l = server_takes l.to_server l

unfoldable pub run : ℕ → List Move → Link → Link
run o [] l = l
run o (m ∷ ms) l = run o ms (move o m l)
