-- ===== src/Telnet/Option/Frame.antt =====
-- What a method of option.rs leaves alone, and when it writes to the peer.
use oxigeon.Base.{ℕ, Bool, Option, none, ◌≡◌, ◌≢◌, arith}
use oxigeon.Telnet.Option.{
  NegotiationCommand, OptionNegotiator, get_state, receive_will, receive_wont, receive_do,
  receive_dont, is_local_enabled, is_remote_enabled,
}

-- The four commands a peer can send, by the handler that takes them.
pub data Verb : Type 0 where
  will_in wont_in do_in dont_in : Verb

unfoldable pub receive :
    Verb → OptionNegotiator → ℕ → OptionNegotiator × Option NegotiationCommand × Bool
unfolding receive_will receive_wont receive_do receive_dont
receive will_in = receive_will
receive wont_in = receive_wont
receive do_in = receive_do
receive dont_in = receive_dont

-- Whatever the peer sends about one option, what is stored for the others stays.
pub receive_frame :
    (v : Verb) (n : OptionNegotiator) (o other : ℕ)
    → other ≢ o
    → (receive v n o).0.options other ≡ n.options other
unfolding receive
receive_frame will_in n o other h = ground arith
receive_frame wont_in n o other h = ground arith
receive_frame do_in n o other h = ground arith
receive_frame dont_in n o other h = ground arith

-- No answer without a change: if a command leaves both sides of its option as they were, nothing is
-- sent back.
pub receive_quiet :
    (v : Verb) (n : OptionNegotiator) (o : ℕ)
    → get_state (receive v n o).0 o ≡ get_state n o
    → (receive v n o).1 ≡ none
unfolding receive
receive_quiet will_in n o h = ground arith
receive_quiet wont_in n o h = ground arith
receive_quiet do_in n o h = ground arith
receive_quiet dont_in n o h = ground arith

abbrev pub enabled_by : Verb → OptionNegotiator → ℕ → Bool
enabled_by will_in = is_remote_enabled
enabled_by wont_in = is_remote_enabled
enabled_by do_in = is_local_enabled
enabled_by dont_in = is_local_enabled

-- The flag that a handler returns is what the negotiator then says of that side of the option.
pub receive_enabled :
    (v : Verb) (n : OptionNegotiator) (o : ℕ) → (receive v n o).2 ≡ enabled_by v (receive v n o).0 o
unfolding receive is_local_enabled is_remote_enabled
receive_enabled will_in n o = ground arith
receive_enabled wont_in n o = ground arith
receive_enabled do_in n o = ground arith
receive_enabled dont_in n o = ground arith
