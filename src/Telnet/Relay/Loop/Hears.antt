-- ===== src/Telnet/Relay/Loop/Hears.antt =====
-- src/core/network/telnet/relay.rs: what the game hears of events.
use oxigeon.Base.{
  ℕ, ◌+◌, ◌≤◌, Bool, true, false, List, [], ◌∷◌, ◌++◌, Option, none, some, if◌then◌else◌, Bytes,
  All, All-append, ◌≡◌, refl, sym, ap, ◌∙◌, arith, append_assoc, append-nil,
}
use oxigeon.Render.{to_mxp, to_text}
use oxigeon.Session.{SessionOutput}
use oxigeon.Session.Commands.{
  LuaCommand, on_connect, on_disconnect, on_mxp_ready, on_input, on_gmcp,
}
use oxigeon.Telnet.Codec.{encode_text}
use oxigeon.Telnet.Mxp.{Text, strip_line_modes}
use oxigeon.Telnet.Mxp.Unmarked.{HasNoTag, Clean-HasNoTag}
use oxigeon.Telnet.Mxp.Guard.{strip_line_modes-idempotent}
use oxigeon.Telnet.Mxp.Reply.{MxpReply, parse_reply, apply}
use oxigeon.Telnet.Parser.{TelnetEvent, text, command, negotiate, subnegotiation, feed, flush}
use oxigeon.Telnet.Relay.{handle_subnegotiation}
use oxigeon.Telnet.Relay.Connection.{send_game_text, send_game_prompt}
use oxigeon.Telnet.Relay.Loop.Lines.{
  OneLine, trim_end-OneLine, strip_line_modes-OneLine, cut_lines-OneLine,
}
use oxigeon.Telnet.Relay.Loop.{
  Link, Standing, goes_on, breaks, panics, Event, read, read_failed, output, output_closed,
  cut_lines, trim_end, told, typed, write, send, publish, replied, on_line, on_lines, on_event,
  heard, feed_all, flushed, write_or_panic, on_read, on_output, step, run,
}

abbrev pub flag : Bool → ℕ
flag b = if b then 1 else 0

pub flag_bounds : (b : Bool) → flag b ≤ 1
flag_bounds true = omega arith
flag_bounds false = omega arith

-- How often the game hears that MXP is ready.
abbrev pub announcements : List LuaCommand → ℕ
announcements [] = 0
announcements (on_mxp_ready _ ∷ cs) = 1 + announcements cs
announcements (_ ∷ cs) = announcements cs

announcements-append :
    (xs ys : List LuaCommand) → announcements (xs ++ ys) ≡ announcements xs + announcements ys
announcements-append [] ys = omega arith
announcements-append (on_mxp_ready _ ∷ xs) ys = omega (arith, announcements-append xs ys)
announcements-append (on_connect _ ∷ xs) ys = announcements-append xs ys
announcements-append (on_disconnect _ ∷ xs) ys = announcements-append xs ys
announcements-append (on_input _ _ ∷ xs) ys = announcements-append xs ys
announcements-append (on_gmcp _ _ _ ∷ xs) ys = announcements-append xs ys

-- A command of a session between its connect and its disconnect: one line of input, with no line tag
-- behind ordinary text, a message, or that MXP is ready.
abbrev pub IsHeard : ℕ → LuaCommand → Type 0
IsHeard id (on_input who s) = (who ≡ id) × OneLine s × HasNoTag s
IsHeard id (on_gmcp who pack json) = who ≡ id
IsHeard id (on_mxp_ready who) = who ≡ id
IsHeard id (on_connect who) = ⊥
IsHeard id (on_disconnect who) = ⊥

module _ {C : Type 0} (id : ℕ) where
  -- The game has heard more of the session, with one announcement if the task has come to make it.
  abbrev pub Hears : Link C → Link C → Type 0
  Hears t u =
      (more : List LuaCommand) × (u.commands ≡ t.commands ++ more)
      × All (IsHeard id) more
      × (announcements more + flag t.mxp_announced ≡ flag u.mxp_announced)

  Hears-same :
      (t u : Link C) → u.commands ≡ t.commands → u.mxp_announced ≡ t.mxp_announced → Hears t u
  Hears-same t u e a = ([], e ∙ sym (append-nil t.commands), tt, omega (arith, ap flag a))

  Hears-trans : (a b c : Link C) → Hears a b → Hears b c → Hears a c
  Hears-trans a b c (x, e, h, m) (y, d, k, n) = (
    x ++ y,
    d ∙ ap (λ l. l ++ y) e ∙ append_assoc a.commands x y,
    All-append (IsHeard id) x y h k,
    omega (arith, announcements-append x y, m, n),
  )

  Hears-if :
      (b : Bool) (t : Link C) (x y : Link C × Bool)
      → Hears t x.0
      → Hears t y.0
      → Hears t (if b then x else y).0
  Hears-if true t x y p q = p
  Hears-if false t x y p q = q

  told-Hears : (message : Option (Bytes × Bytes)) (t : Link C) → Hears t (told id message t)
  told-Hears none t = Hears-same t t refl refl
  told-Hears (some (pack, json)) t = (on_gmcp id pack json ∷ [], refl, (refl, tt), omega arith)

  announced-Hears :
      (b : Bool) (t a : Link C)
      → t.mxp_announced ≡ b
      → a.commands ≡ t.commands
      → a.mxp_announced ≡ b
      → Hears t
          (publish id (if b then a else send (on_mxp_ready id) (record a { mxp_announced = true })))
  unfolding publish
  announced-Hears true t a e d f =
      ([], d ∙ sym (append-nil t.commands), tt, omega (arith, ap flag e, ap flag f))
  announced-Hears false t a e d f = (
    on_mxp_ready id ∷ [],
    ap (λ l. l ++ on_mxp_ready id ∷ []) d,
    (refl, tt),
    omega (arith, ap flag e),
  )

  replied-Hears : (reply : MxpReply) (t : Link C) → Hears t (replied id reply t)
  unfolding replied
  replied-Hears reply t =
      announced-Hears t.mxp_announced t
        (record t { conn = record t.conn { capabilities = apply reply t.conn.capabilities } }) refl
        refl refl

  typed-Hears :
      (o : Option Text) (t : Link C)
      → ((s : Text) → o ≡ some s → OneLine s × HasNoTag s)
      → Hears t (typed id o t).0
  typed-Hears none t h = Hears-same t t refl refl
  typed-Hears (some s) t h =
      (on_input id s ∷ [], refl, ((refl, (h s refl).0, (h s refl).1), tt), omega arith)

  answered-Hears :
      (o : Option (Option MxpReply)) (line : Option Text) (t : Link C)
      → ((s : Text) → line ≡ some s → OneLine s × HasNoTag s)
      → let r : Link C × Bool = elim o [
        | none ↦ (t, false)
        | some none ↦ typed id line t
        | some (some reply) ↦ (replied id reply t, true)
      ] in
        Hears t r.0
  answered-Hears none line t h = Hears-same t t refl refl
  answered-Hears (some none) line t h = typed-Hears line t h
  answered-Hears (some (some reply)) line t h = replied-Hears reply t

  on_line-Hears : (drained : Text) (t : Link C) → OneLine drained → Hears t (on_line id drained t).0
  unfolding on_line
  on_line-Hears drained t h =
      let line = trim_end drained in
      let safe : (s : Text) → strip_line_modes line ≡ some s → OneLine s × HasNoTag s = λ s e. (
        strip_line_modes-OneLine line s (trim_end-OneLine drained h) e,
        Clean-HasNoTag s (strip_line_modes-idempotent line s e).0,
      ) in
      Hears-if t.conn.mxp.enabled t _ (typed id (strip_line_modes line) t)
        (answered-Hears (parse_reply line) (strip_line_modes line) t safe)
        (typed-Hears (strip_line_modes line) t safe)

  on_lines-Hears : (ls : List Text) (t : Link C) → All OneLine ls → Hears t (on_lines id ls t).0
  unfolding on_lines
  on_lines-Hears [] t h = Hears-same t t refl refl
  on_lines-Hears (l ∷ ls) t (h, hs) =
      let next = (on_line id l t).0 in
      Hears-if (on_line id l t).1 t (on_lines id ls next) (next, false)
        (Hears-trans t next (on_lines id ls next).0 (on_line-Hears l t h)
          (on_lines-Hears ls next hs))
        (on_line-Hears l t h)

  write_or_panic-Hears : (o : Option Bytes) (t : Link C) → Hears t (write_or_panic o t).0
  write_or_panic-Hears none t = Hears-same t t refl refl
  write_or_panic-Hears (some bytes) t = Hears-same t (write bytes t) refl refl

  rendered-Hears :
      (o : Option Text) (t : Link C)
      → let r : Link C × Standing = elim o [
        | none ↦ (t, panics)
        | some s ↦ (write (encode_text s) t, goes_on)
      ] in
        Hears t r.0
  rendered-Hears none t = Hears-same t t refl refl
  rendered-Hears (some s) t = Hears-same t (write (encode_text s) t) refl refl

  module _ (version : Bytes) (from_str : Bytes → Option Bytes) (null : Bytes) where
    on_event-Hears :
        (e : TelnetEvent) (t : Link C) → Hears t (on_event version from_str null id e t)
    unfolding on_event
    on_event-Hears (text bytes) t = ([], sym (append-nil t.commands), tt, omega arith)
    on_event-Hears (negotiate verb option) t = ([], sym (append-nil t.commands), tt, omega arith)
    on_event-Hears (subnegotiation option payload) t =
        let r = handle_subnegotiation from_str null option payload t.conn.capabilities in
        told-Hears r.1 (record t { conn = record t.conn { capabilities = r.0 } })
    on_event-Hears (command _) t = ([], sym (append-nil t.commands), tt, omega arith)

    heard-Hears :
        (e : Option TelnetEvent) (t : Link C) → Hears t (heard version from_str null id e t)
    unfolding heard
    heard-Hears none t = Hears-same t t refl refl
    heard-Hears (some e) t = on_event-Hears e t

    feed_all-Hears : (bs : Bytes) (t : Link C) → Hears t (feed_all version from_str null id bs t)
    unfolding feed_all
    feed_all-Hears [] t = Hears-same t t refl refl
    feed_all-Hears (b ∷ bs) t =
        let fed = record t { parser = (feed t.parser b).0 } in
        let next = heard version from_str null id (feed t.parser b).1 fed in
        Hears-trans t next (feed_all version from_str null id bs next)
          (heard-Hears (feed t.parser b).1 fed) (feed_all-Hears bs next)

    flushed-Hears : (t : Link C) → Hears t (flushed version from_str null id t)
    unfolding flushed heard
    flushed-Hears t = heard-Hears (flush t.parser).1 (record t { parser = (flush t.parser).0 })

    on_read-Hears : (bs : Bytes) (t : Link C) → Hears t (on_read version from_str null id bs t).0
    unfolding on_read
    on_read-Hears bs t =
        let all = feed_all version from_str null id bs t in
        let fed = flushed version from_str null id all in
        let cut = record fed { line_buf = (cut_lines fed.line_buf).1 } in
        Hears-trans t all (on_read version from_str null id bs t).0 (feed_all-Hears bs t) (
          Hears-trans all fed (on_read version from_str null id bs t).0 (flushed-Hears all)
            (on_lines-Hears (cut_lines fed.line_buf).0 cut (cut_lines-OneLine fed.line_buf)))

    on_output-Hears :
        (out : SessionOutput) (t : Link C) → Hears t (on_output version from_str null id out t).0
    unfolding on_output
    on_output-Hears (SessionOutput.text s) t = write_or_panic-Hears (send_game_text t.conn s) t
    on_output-Hears (SessionOutput.raw bytes) t =
        write_or_panic-Hears (send_game_prompt t.conn bytes) t
    on_output-Hears (SessionOutput.rich line) t =
        rendered-Hears (if t.conn.mxp.enabled then to_mxp line else some (to_text line)) t
    on_output-Hears (SessionOutput.gmcp pack json) t =
        ([], sym (append-nil t.commands), tt, omega arith)
    on_output-Hears SessionOutput.start_echo t = ([], sym (append-nil t.commands), tt, omega arith)
    on_output-Hears SessionOutput.stop_echo t = ([], sym (append-nil t.commands), tt, omega arith)
    on_output-Hears SessionOutput.disconnect_out t = Hears-same t t refl refl

    step-Hears : (e : Event) (t : Link C) → Hears t (step version from_str null id e t).0
    unfolding step
    step-Hears (read []) t = Hears-same t t refl refl
    step-Hears (read (b ∷ bs)) t = on_read-Hears (b ∷ bs) t
    step-Hears read_failed t = Hears-same t t refl refl
    step-Hears (output out) t = on_output-Hears out t
    step-Hears output_closed t = Hears-same t t refl refl

    standing-Hears :
        (s : Standing) (t next : Link C) (rest : Link C × Standing)
        → Hears t next
        → Hears next rest.0
        → let r : Link C × Standing = elim s [
          | goes_on ↦ rest
          | breaks ↦ (next, breaks)
          | panics ↦ (next, panics)
        ] in
          Hears t r.0
    standing-Hears goes_on t next rest p q = Hears-trans t next rest.0 p q
    standing-Hears breaks t next rest p q = p
    standing-Hears panics t next rest p q = p

    pub run-Hears : (es : List Event) (t : Link C) → Hears t (run version from_str null id es t).0
    unfolding run
    run-Hears [] t = Hears-same t t refl refl
    run-Hears (e ∷ es) t =
        let next = (step version from_str null id e t).0 in
        standing-Hears (step version from_str null id e t).1 t next
          (run version from_str null id es next) (step-Hears e t) (run-Hears es next)
