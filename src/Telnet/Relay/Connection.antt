-- ===== src/Telnet/Relay/Connection.antt =====
-- src/core/network/telnet/connection.rs: what a connection writes. It is the state that negotiations
-- change; what is sent is a result, and a write is taken to succeed.
--
-- Text that goes out is the list of its bytes. `strip_line_modes` does the same on the bytes of a text
-- as on its characters: it looks for ASCII alone, and a byte above 127 behind an ESC is where it panics.
use oxigeon.Base.{◌++◌, ℕ, Option, none, some, if◌then◌else◌, Bytes}
use oxigeon.Base.Utf8.{from_utf8_lossy}
use oxigeon.Telnet.Constants.{opt_echo, opt_sga, opt_ttype, opt_naws, opt_mccp2, opt_mxp, opt_gmcp}
use oxigeon.Telnet.Codec.{encode_text}
use oxigeon.Telnet.Mxp.{strip_line_modes}
use oxigeon.Telnet.Option.{
  OptionNegotiator, NegotiationCommand, request_local_enable, request_local_disable,
  request_remote_enable,
}
use oxigeon.Telnet.Relay.{Conn, reply_bytes}

-- A request to the negotiator, and the bytes of its command.
abbrev pub requested :
    (OptionNegotiator → OptionNegotiator × Option NegotiationCommand) → Conn → Conn × Bytes
requested request c =
    let (n, command) = request c.negotiator in (record c { negotiator = n }, reply_bytes command)

-- One request behind others.
abbrev pub and_then : (Conn → Conn × Bytes) → Conn × Bytes → Conn × Bytes
and_then f (c, out) = let (c', more) = f c in (c', out ++ more)

abbrev pub local_on : ℕ → Conn → Conn × Bytes
unfolding request_local_enable
local_on option = requested (λ n. let r = request_local_enable n option in (r.0, r.1))

abbrev pub remote_on : ℕ → Conn → Conn × Bytes
unfolding request_remote_enable
remote_on option = requested (λ n. let r = request_remote_enable n option in (r.0, r.1))

unfoldable pub start_echo : Conn → Conn × Bytes
unfolding request_local_enable
start_echo = local_on opt_echo

unfoldable pub stop_echo : Conn → Conn × Bytes
unfolding request_local_disable
stop_echo = requested (λ n. let r = request_local_disable n opt_echo in (r.0, r.1))

unfoldable pub send_initial_negotiations : Conn → Conn × Bytes
unfolding request_local_enable request_remote_enable
send_initial_negotiations c =
    let burst = and_then (remote_on opt_naws) (
      and_then (remote_on opt_ttype) (
        and_then (local_on opt_mccp2)
          (and_then (local_on opt_gmcp) (and_then (remote_on opt_sga) (local_on opt_sga c))))) in
    if c.mxp.offered then and_then (local_on opt_mxp) burst else burst

-- `none` is the panic of `strip_line_modes`.
abbrev pub without_tags : Conn → Bytes → Option Bytes
unfolding strip_line_modes
without_tags c s = if c.mxp.enabled then strip_line_modes s else some s

unfoldable pub send_game_text : Conn → Bytes → Option Bytes
unfolding strip_line_modes encode_text
send_game_text c s = elim (without_tags c s) [ none ↦ none | some t ↦ some (encode_text t) ]

unfoldable pub send_game_prompt : Conn → Bytes → Option Bytes
unfolding strip_line_modes from_utf8_lossy
send_game_prompt c bytes =
    if c.mxp.enabled then strip_line_modes (from_utf8_lossy bytes) else some bytes
