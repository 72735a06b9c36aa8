-- ===== src/Telnet/Relay/Loop/Panics.antt =====
-- src/core/network/telnet/relay.rs: what becomes of a session whose task panics.
use oxigeon.Base.{
  ℕ, ◌<◌, ◌≤◌, false, List, [], ◌∷◌, ◌++◌, Option, some, ◌==◌, Bytes, length, ◌≡◌, refl, sym, ap,
  ◌∙◌, subst, arith,
}
use oxigeon.Session.{Session}
use oxigeon.Session.Commands.{on_connect}
use oxigeon.Session.Handler.{find, connect}
use oxigeon.Telnet.Constants.{esc, lf}
use oxigeon.Telnet.Codec.{decode_line}
use oxigeon.Telnet.Mxp.Gaps.{strip_line_modes_panics}
use oxigeon.Telnet.Parser
use oxigeon.Telnet.Parser.{TelnetParser, feed, feed_in, flush_data}
use oxigeon.Telnet.Relay.{Conn}
use oxigeon.Telnet.Relay.Connection.{send_initial_negotiations}
use oxigeon.Telnet.Relay.Loop.Admitted.{begun, lets_in, serve-lets_in}
use oxigeon.Telnet.Relay.Loop.{
  Link, panics, Event, read, cut_lines, trim_end, on_line, on_lines, on_event, feed_all, flushed,
  on_read, step, run, start, ended, serve,
}

-- An ESC, a byte that begins no ASCII character, and a line end.
abbrev pub stroke : ℕ → Bytes
stroke c = esc ∷ c ∷ lf ∷ []

decode_line-stroke : (c : ℕ) → 128 ≤ c → decode_line (stroke c) ≡ stroke c
unfolding decode_line
decode_line-stroke c h = ground arith

cut_lines-stroke : (c : ℕ) → 128 ≤ c → cut_lines (stroke c) ≡ ((esc ∷ c ∷ []) ∷ [], [])
unfolding cut_lines
cut_lines-stroke c h = ground arith

trim_end-stroke : (c : ℕ) → 128 ≤ c → trim_end (esc ∷ c ∷ []) ≡ esc ∷ c ∷ []
unfolding trim_end
trim_end-stroke c h = ground arith

initial-mxp : (c : Conn) → (send_initial_negotiations c).0.mxp ≡ c.mxp
unfolding send_initial_negotiations
initial-mxp c = ground arith

module _ {C : Type 0} (version : Bytes) (from_str : Bytes → Option Bytes) (null : Bytes)
    (id : ℕ) where
  unfoldable fresh : Link C → Link C
  unfolding Parser.new
  fresh t = record t { parser = Parser.new; line_buf = [] }

  feed_all-stroke :
      (c : ℕ) (t : Link C)
      → 128 ≤ c
      → c < 255
      → flushed version from_str null id (feed_all version from_str null id (stroke c) (fresh t))
        ≡ record t { parser = Parser.new; line_buf = stroke c }
  unfolding feed_all feed_in flush_data on_event Parser.new fresh
  feed_all-stroke c t h k =
      let plain : (c == 255) ≡ false = ground arith in rw plain (rw (decode_line-stroke c h) refl)

  on_line-stroke :
      (c : ℕ) (t : Link C)
      → 128 ≤ c
      → t.conn.mxp.enabled ≡ false
      → on_line id (esc ∷ c ∷ []) t ≡ (t, false)
  unfolding on_line
  on_line-stroke c t h off =
      ground (arith, trim_end-stroke c h, strip_line_modes_panics [] [] c refl h)

  step-stroke :
      (c : ℕ) (t : Link C)
      → 128 ≤ c
      → c < 255
      → t.conn.mxp.enabled ≡ false
      → step version from_str null id (read (stroke c)) (fresh t) ≡ (fresh t, panics)
  unfolding step on_read on_lines fresh
  step-stroke c t h k off =
      rw (on_read, feed_all-stroke c t h k)
        (rw (cut_lines-stroke c h) (rw (on_line-stroke c (fresh t) h off) refl))

  start-enabled :
      (t : Link C)
      → t.conn.mxp.enabled ≡ false
      → (begun version from_str null id t).conn.mxp.enabled ≡ false
  unfolding start
  start-enabled t off = ap (λ m. m.enabled) (initial-mxp t.conn) ∙ off

  start-fresh :
      (t : Link C) → begun version from_str null id t ≡ fresh (begun version from_str null id t)
  unfolding start fresh
  start-fresh t = refl

  run_panicked :
      (e : Event) (es : List Event) (t last : Link C)
      → step version from_str null id e t ≡ (last, panics)
      → run version from_str null id (e ∷ es) t ≡ (last, panics)
  unfolding run
  run_panicked e es t last h =
      let standing : (step version from_str null id e t).1 ≡ panics = ap (λ r. r.1) h in
      rw (run, standing) (ap (λ l. (l, panics)) (ap (λ r. r.0) h))

  run-stroke :
      (c : ℕ) (es : List Event) (t : Link C)
      → 128 ≤ c
      → c < 255
      → t.conn.mxp.enabled ≡ false
      → run version from_str null id (read (stroke c) ∷ es) (begun version from_str null id t)
        ≡ (begun version from_str null id t, panics)
  unfolding run
  run-stroke c es t h k off =
      let stops : step version from_str null id (read (stroke c)) (begun version from_str null id t)
          ≡ (begun version from_str null id t, panics) =
        subst (λ u. step version from_str null id (read (stroke c)) u ≡ (u, panics))
          (sym (start-fresh t))
          (step-stroke c (begun version from_str null id t) h k (start-enabled t off)) in
      run_panicked (read (stroke c)) es (begun version from_str null id t)
        (begun version from_str null id t) stops

  -- Three bytes of a client that has not switched MXP on end the task and leave the session behind: an
  -- ESC, a byte that is neither ASCII nor IAC, and a line end. The session stays registered, and the
  -- game never hears that it is gone.
  pub serve-panics :
      (address c : ℕ) (session : Session C) (es : List Event) (t : Link C)
      → 128 ≤ c
      → c < 255
      → t.conn.mxp.enabled ≡ false
      → session.id ≡ id
      → length t.handler.sessions < t.handler.max_connections
      → let r = serve version from_str null id address session (read (stroke c) ∷ es) t in
        (r.1 ≡ panics)
        × (find id r.0.handler.sessions ≡ some session)
        × (r.0.commands ≡ t.commands ++ on_connect id ∷ [])
  unfolding connect start ended
  serve-panics address c session es t h k off e room =
      let crashed =
        serve-lets_in version from_str null id address session (read (stroke c) ∷ es) t room
        ∙ ap (ended version from_str null id address)
            (run-stroke c es (lets_in session t) h k off) in
      rw crashed (refl, ground arith, refl)
