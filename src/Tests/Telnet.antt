-- ===== src/Tests/Telnet.antt =====
-- Tests and witnesses for src/core/network/telnet.
use oxigeon.Base.{List, [], ◌∷◌, ◌++◌, ◌≡◌, refl, arith, Bytes}
use oxigeon.Base.Utf8.{ascii, from_utf8_lossy}
use oxigeon.Telnet.Constants.{iac, se, sb, will, opt_echo, opt_ttype}
use oxigeon.Telnet.Parser
use oxigeon.Telnet.Parser.{
  text, negotiate, subnegotiation, feed_each, feed_bytes, flush_data, emit, in_iac, normal,
}
use oxigeon.Telnet.Parser.Buffered.{feed_bytes-append}
use oxigeon.Telnet.Parser.RoundTrip.{feed_each-encode_subnegotiation}
use oxigeon.Telnet.Codec.{decode_line, encode_subnegotiation}
use oxigeon.Telnet.Option.Link.{
  move, Move, server_enable, server_disable, client_enable, client_reads, server_reads, idle, run,
}
use oxigeon.Telnet.Option.Link.Agree.{Settled, rounds, run-Settled, run-rounds-Settled}

greeting :
    (feed_bytes Parser.new (ascii "hello" ++ iac ∷ will ∷ opt_echo ∷ [])).1
    ≡ text (ascii "hello") ∷ negotiate will opt_echo ∷ []
unfolding feed_bytes Parser.new Parser.feed_in
greeting = refl

escaped_payload :
    (feed_bytes Parser.new (iac ∷ sb ∷ 201 ∷ 65 ∷ iac ∷ iac ∷ 66 ∷ iac ∷ se ∷ [])).1
    ≡ subnegotiation 201 (65 ∷ 255 ∷ 66 ∷ []) ∷ []
unfolding feed_bytes Parser.new Parser.feed_in
escaped_payload = refl

crlf : decode_line (ascii "a\r\nb\rc\n") ≡ ascii "a\nb\rc\n"
unfolding decode_line
crlf = refl

latin :
    from_utf8_lossy (0xC3 ∷ 0xA9 ∷ 0xC3 ∷ 65 ∷ 0xFF ∷ [])
    ≡ 0xC3 ∷ 0xA9 ∷ 0xEF ∷ 0xBF ∷ 0xBD ∷ 65 ∷ 0xEF ∷ 0xBF ∷ 0xBD ∷ []
unfolding from_utf8_lossy
latin = refl

feed_bytes-append_example :
    (feed_bytes (feed_bytes Parser.new (65 ∷ iac ∷ [])).0 (will ∷ 1 ∷ [])).0
    ≡ (feed_bytes Parser.new ((65 ∷ iac ∷ []) ++ (will ∷ 1 ∷ []))).0
unfolding Parser.new
feed_bytes-append_example = (feed_bytes-append Parser.new (65 ∷ iac ∷ []) (will ∷ 1 ∷ []) tt).0

feed_each-encode_subnegotiation_example :
    feed_each Parser.new (encode_subnegotiation opt_ttype (0 ∷ 255 ∷ 240 ∷ [])) ≡ (
      Parser.new,
      emit (flush_data Parser.new).1 (subnegotiation opt_ttype (0 ∷ 255 ∷ 240 ∷ []) ∷ []),
    )
unfolding Parser.new
feed_each-encode_subnegotiation_example =
    feed_each-encode_subnegotiation Parser.new opt_ttype (0 ∷ 255 ∷ 240 ∷ []) refl (omega arith)

abbrev two_lines : Bytes
two_lines = ascii "go\r\nup\n"

-- Both ends ask at once, and the server takes its wish back.
abbrev crossing : List Move
crossing = server_enable ∷ client_enable ∷ server_disable ∷ client_reads ∷ server_reads ∷ []

run-Settled_example : Settled 1 (run 1 (crossing ++ rounds 2) idle)
unfolding run idle move
run-Settled_example = run-Settled 1 (crossing ++ rounds 2) refl refl

run-rounds-Settled_example : Settled 1 (run 1 (rounds 4) (run 1 crossing idle))
run-rounds-Settled_example = (run-rounds-Settled 1 crossing).2
