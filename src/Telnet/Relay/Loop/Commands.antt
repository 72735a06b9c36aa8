-- ===== src/Telnet/Relay/Loop/Commands.antt =====
-- src/core/network/telnet/relay.rs: what the game hears of a connection.
use oxigeon.Base.{
  ℕ, ◌<◌, ◌≤◌, List, [], ◌∷◌, ◌++◌, Option, Bytes, length, All, ◌≡◌, refl, sym, ap, ◌∙◌, subst,
  arith, append_assoc, append-nil,
}
use oxigeon.Session.{Session}
use oxigeon.Session.Commands.{LuaCommand, on_connect, on_disconnect}
use oxigeon.Session.Handler.{connect}
use oxigeon.Telnet.Relay.Loop.Admitted.{lets_in, serve-lets_in}
use oxigeon.Telnet.Relay.Loop.{
  Link, Standing, goes_on, breaks, panics, Event, run, ended, finish, start, serve,
}
use oxigeon.Telnet.Relay.Loop.Hears.{flag_bounds, announcements, IsHeard, run-Hears}

-- What the game is told at the end.
abbrev pub farewell : ℕ → Standing → List LuaCommand
farewell id breaks = on_disconnect id ∷ []
farewell id _ = []

module _ {C : Type 0} (id : ℕ) (version : Bytes) (from_str : Bytes → Option Bytes)
    (null : Bytes) where
  finish-commands :
      (address : ℕ) (before : List LuaCommand) (r : Link C × Standing) (more : List LuaCommand)
      → r.0.commands ≡ before ++ more
      → (ended version from_str null id address r).0.commands
        ≡ before ++ (more ++ farewell id (ended version from_str null id address r).1)
  unfolding ended finish
  finish-commands address before (t, goes_on) more e =
      e ∙ ap (λ l. before ++ l) (sym (append-nil more))
  finish-commands address before (t, panics) more e =
      e ∙ ap (λ l. before ++ l) (sym (append-nil more))
  finish-commands address before (t, breaks) more e =
      ap (λ l. l ++ on_disconnect id ∷ []) e ∙ append_assoc before more (on_disconnect id ∷ [])

  start-commands :
      (t : Link C) → (start version from_str null id t).commands ≡ t.commands ++ on_connect id ∷ []
  unfolding start
  start-commands t = refl

  -- What the game hears of a telnet session that was let in: first that it connected; then lines of
  -- input, messages, and at most once that MXP is ready, all of this session; and that it disconnected
  -- just when the loop has been left, once. A line has no newline, and no line tag, of however many
  -- digits, with nothing in front of it but characters other than ESC and whole control sequences,
  -- each from its ESC and bracket to its final byte. This does not speak of a tag behind any other ESC.
  pub serve-announcements :
      (address : ℕ) (session : Session C) (es : List Event) (t : Link C)
      → length t.handler.sessions < t.handler.max_connections
      → let r = serve version from_str null id address session es t in
        (more : List LuaCommand) × (r.0.commands
          ≡ (t.commands ++ on_connect id ∷ []) ++ (more ++ farewell id r.1))
        × All (IsHeard id) more
        × (announcements more ≤ 1)
  unfolding start connect
  serve-announcements address session es t room =
      let u = start version from_str null id (lets_in session t) in
      let r = run version from_str null id es u in
      let (more, e, h, n) = run-Hears id version from_str null es u in
      let before = t.commands ++ on_connect id ∷ [] in
      subst
        (λ s.
          (more : List LuaCommand) × (s.0.commands ≡ before ++ (more ++ farewell id s.1))
          × All (IsHeard id) more
          × (announcements more ≤ 1))
        (sym (serve-lets_in version from_str null id address session es t room))
        (
          more,
          finish-commands address before r more e,
          h,
          omega (arith, n, flag_bounds r.0.mxp_announced),
        )
