-- ===== src/Telnet/Relay/Loop/Published.antt =====
-- src/core/network/telnet/relay.rs: what the game is told of a client's capabilities.
use oxigeon.Base.{
  ℕ, ◌<◌, Bool, true, false, List, [], ◌∷◌, Option, none, some, if◌then◌else◌, Bytes, length, ◌≡◌,
  refl, arith, Bool-cases, inl, inr,
}
use oxigeon.Session.{SessionOutput, Session}
use oxigeon.Session.Handler.{SessionHandler, connect, publish_capabilities}
use oxigeon.Render.{to_mxp, to_text}
use oxigeon.Telnet.Capabilities.{ClientCapabilities}
use oxigeon.Telnet.Codec.{encode_text}
use oxigeon.Telnet.Mxp.{Text, strip_line_modes}
use oxigeon.Telnet.Mxp.Reply.{MxpReply, parse_reply}
use oxigeon.Telnet.Parser.{TelnetEvent, text, command, negotiate, subnegotiation, feed, flush}
use oxigeon.Telnet.Relay.{Conn, handle_subnegotiation}
use oxigeon.Telnet.Relay.Connection.{start_echo, stop_echo, send_initial_negotiations}
use oxigeon.Telnet.Relay.Loop.{
  Link, Standing, goes_on, breaks, panics, Event, read, read_failed, output, output_closed,
  cut_lines, trim_end, told, typed, write, replied, on_line, on_lines, on_event, heard, feed_all,
  flushed, write_or_panic, on_read, on_output, step, run, start,
}
use oxigeon.Websocket.Connection.Published.{Holds, publish-Holds}

start_echo-capabilities : (c : Conn) → (start_echo c).0.capabilities ≡ c.capabilities
unfolding start_echo
start_echo-capabilities c = refl

stop_echo-capabilities : (c : Conn) → (stop_echo c).0.capabilities ≡ c.capabilities
unfolding stop_echo
stop_echo-capabilities c = refl

initial-capabilities : (c : Conn) → (send_initial_negotiations c).0.capabilities ≡ c.capabilities
unfolding send_initial_negotiations
initial-capabilities c = ground arith

module _ {C : Type 0} (id : ℕ) where
  -- What the connection knows of its client is what the registry says of the session.
  abbrev pub IsPublished : Link C → Type 0
  IsPublished t = Holds id t.conn.capabilities t.handler

  told-IsPublished :
      (message : Option (Bytes × Bytes)) (t : Link C) (h : SessionHandler C)
      → t.handler ≡ h
      → Holds id t.conn.capabilities (publish_capabilities id t.conn.capabilities h)
      → IsPublished (
          let u = told id message t in
          record u { handler = publish_capabilities id u.conn.capabilities u.handler })
  told-IsPublished none t h e p = rw e p
  told-IsPublished (some (pack, json)) t h e p = rw e p

  replied-IsPublished :
      (reply : MxpReply) (t : Link C) → IsPublished t → IsPublished (replied id reply t)
  unfolding replied
  replied-IsPublished reply t p = elim (Bool-cases t.mxp_announced) [
    | inl e ↦ rw (replied, e) (publish-Holds id _ t.conn.capabilities t.handler p)
    | inr e ↦ rw (replied, e) (publish-Holds id _ t.conn.capabilities t.handler p)
  ]

  typed-IsPublished :
      (line : Option Text) (t : Link C) → IsPublished t → IsPublished (typed id line t).0
  typed-IsPublished none t p = p
  typed-IsPublished (some line) t p = p

  answered-IsPublished :
      (o : Option (Option MxpReply)) (line : Option Text) (t : Link C)
      → IsPublished t
      → let r : Link C × Bool = elim o [
        | none ↦ (t, false)
        | some none ↦ typed id line t
        | some (some reply) ↦ (replied id reply t, true)
      ] in
        IsPublished r.0
  answered-IsPublished none line t p = p
  answered-IsPublished (some none) line t p = typed-IsPublished line t p
  answered-IsPublished (some (some reply)) line t p = replied-IsPublished reply t p

  either-IsPublished :
      (b : Bool) (x y : Link C × Bool)
      → IsPublished x.0
      → IsPublished y.0
      → IsPublished (if b then x else y).0
  either-IsPublished true x y p q = p
  either-IsPublished false x y p q = q

  on_line-IsPublished :
      (drained : Text) (t : Link C) → IsPublished t → IsPublished (on_line id drained t).0
  unfolding on_line
  on_line-IsPublished drained t p =
      let line = trim_end drained in
      either-IsPublished t.conn.mxp.enabled _ (typed id (strip_line_modes line) t)
        (answered-IsPublished (parse_reply line) (strip_line_modes line) t p)
        (typed-IsPublished (strip_line_modes line) t p)

  on_lines-IsPublished :
      (ls : List Text) (t : Link C) → IsPublished t → IsPublished (on_lines id ls t).0
  unfolding on_lines
  on_lines-IsPublished [] t p = p
  on_lines-IsPublished (l ∷ ls) t p =
      let next = on_line-IsPublished l t p in
      either-IsPublished (on_line id l t).1 (on_lines id ls (on_line id l t).0)
        ((on_line id l t).0, false) (on_lines-IsPublished ls (on_line id l t).0 next) next

  module _ (version : Bytes) (from_str : Bytes → Option Bytes) (null : Bytes) where
    on_event-IsPublished :
        (e : TelnetEvent) (t : Link C)
        → IsPublished t
        → IsPublished (on_event version from_str null id e t)
    unfolding on_event
    on_event-IsPublished (text bytes) t p = p
    on_event-IsPublished (negotiate verb option) t p =
        publish-Holds id _ t.conn.capabilities t.handler p
    on_event-IsPublished (subnegotiation option payload) t p =
        let r = handle_subnegotiation from_str null option payload t.conn.capabilities in
        told-IsPublished r.1 (record t { conn = record t.conn { capabilities = r.0 } }) t.handler
          refl (publish-Holds id r.0 t.conn.capabilities t.handler p)
    on_event-IsPublished (command _) t p = p

    heard-IsPublished :
        (e : Option TelnetEvent) (t : Link C)
        → IsPublished t
        → IsPublished (heard version from_str null id e t)
    unfolding heard
    heard-IsPublished none t p = p
    heard-IsPublished (some e) t p = on_event-IsPublished e t p

    feed_all-IsPublished :
        (bs : Bytes) (t : Link C)
        → IsPublished t
        → IsPublished (feed_all version from_str null id bs t)
    unfolding feed_all
    feed_all-IsPublished [] t p = p
    feed_all-IsPublished (b ∷ bs) t p =
        let fed = record t { parser = (feed t.parser b).0 } in
        let event = (feed t.parser b).1 in
        feed_all-IsPublished bs (heard version from_str null id event fed)
          (heard-IsPublished event fed p)

    flushed-IsPublished :
        (t : Link C) → IsPublished t → IsPublished (flushed version from_str null id t)
    unfolding flushed heard
    flushed-IsPublished t p =
        heard-IsPublished (flush t.parser).1 (record t { parser = (flush t.parser).0 }) p

    on_read-IsPublished :
        (bs : Bytes) (t : Link C)
        → IsPublished t
        → IsPublished (on_read version from_str null id bs t).0
    unfolding on_read
    on_read-IsPublished bs t p =
        let all = feed_all version from_str null id bs t in
        let fed = flushed version from_str null id all in
        on_lines-IsPublished (cut_lines fed.line_buf).0
          (record fed { line_buf = (cut_lines fed.line_buf).1 })
          (flushed-IsPublished all (feed_all-IsPublished bs t p))

    write_or_panic-IsPublished :
        (o : Option Bytes) (t : Link C) → IsPublished t → IsPublished (write_or_panic o t).0
    write_or_panic-IsPublished none t p = p
    write_or_panic-IsPublished (some bytes) t p = p

    rendered-IsPublished :
        (o : Option Text) (t : Link C)
        → IsPublished t
        → let r : Link C × Standing = elim o [
          | none ↦ (t, panics)
          | some s ↦ (write (encode_text s) t, goes_on)
        ] in
          IsPublished r.0
    rendered-IsPublished none t p = p
    rendered-IsPublished (some s) t p = p

    on_output-IsPublished :
        (out : SessionOutput) (t : Link C)
        → IsPublished t
        → IsPublished (on_output version from_str null id out t).0
    unfolding on_output
    on_output-IsPublished (SessionOutput.text s) t p = write_or_panic-IsPublished _ t p
    on_output-IsPublished (SessionOutput.raw bytes) t p = write_or_panic-IsPublished _ t p
    on_output-IsPublished (SessionOutput.rich line) t p =
        rendered-IsPublished (if t.conn.mxp.enabled then to_mxp line else some (to_text line)) t p
    on_output-IsPublished (SessionOutput.gmcp pack json) t p = p
    on_output-IsPublished SessionOutput.start_echo t p = rw (start_echo-capabilities t.conn) p
    on_output-IsPublished SessionOutput.stop_echo t p = rw (stop_echo-capabilities t.conn) p
    on_output-IsPublished SessionOutput.disconnect_out t p = p

    step-IsPublished :
        (e : Event) (t : Link C) → IsPublished t → IsPublished (step version from_str null id e t).0
    unfolding step
    step-IsPublished (read []) t p = p
    step-IsPublished (read (b ∷ bs)) t p = on_read-IsPublished (b ∷ bs) t p
    step-IsPublished read_failed t p = p
    step-IsPublished (output out) t p = on_output-IsPublished out t p
    step-IsPublished output_closed t p = p

    standing-IsPublished :
        (s : Standing) (next : Link C) (rest : Link C × Standing)
        → IsPublished next
        → IsPublished rest.0
        → let r : Link C × Standing = elim s [
          | goes_on ↦ rest
          | breaks ↦ (next, breaks)
          | panics ↦ (next, panics)
        ] in
          IsPublished r.0
    standing-IsPublished goes_on next rest p q = q
    standing-IsPublished breaks next rest p q = p
    standing-IsPublished panics next rest p q = p

    run-IsPublished :
        (es : List Event) (t : Link C)
        → IsPublished t
        → IsPublished (run version from_str null id es t).0
    unfolding run
    run-IsPublished [] t p = p
    run-IsPublished (e ∷ es) t p =
        let next = step-IsPublished e t p in
        standing-IsPublished (step version from_str null id e t).1
          (step version from_str null id e t).0
          (run version from_str null id es (step version from_str null id e t).0) next
          (run-IsPublished es (step version from_str null id e t).0 next)

    start-IsPublished :
        (t : Link C) → IsPublished t → IsPublished (start version from_str null id t)
    unfolding start
    start-IsPublished t p = rw (initial-capabilities t.conn) p

    connect-Holds :
        (session : Session C) (caps : ClientCapabilities) (h : SessionHandler C)
        → session.id ≡ id
        → session.capabilities ≡ caps
        → length h.sessions < h.max_connections
        → Holds id caps (connect session h).0
    unfolding connect
    connect-Holds session caps h e same room = (session, ground arith, same)

    -- Behind any reads, writes and outputs, in whatever order: what the registry says of the client of a
    -- session that was let in is what the connection knows of it.
    pub run-start-Published :
        (session : Session C) (es : List Event) (t : Link C)
        → session.id ≡ id
        → session.capabilities ≡ t.conn.capabilities
        → length t.handler.sessions < t.handler.max_connections
        → IsPublished
            (run version from_str null id es (
              start version from_str null id
                (record t { handler = (connect session t.handler).0 }))).0
    run-start-Published session es t e same room =
        let let_in = record t { handler = (connect session t.handler).0 } in
        run-IsPublished es (start version from_str null id let_in) (
          start-IsPublished let_in
            (connect-Holds session t.conn.capabilities t.handler e same room))
