-- ===== src/Websocket/Connection/Commands.antt =====
-- src/core/network/websocket/connection.rs: what the game hears of a connection.
use oxigeon.Base.{
  ℕ, suc, ◌<◌, ◌≤◌, Bool, true, false, List, [], ◌∷◌, ◌++◌, Option, ltb, leb, ◌==◌, if◌then◌else◌,
  Bytes, length, map, All, All-append, ◌≡◌, ◌≢◌, refl, sym, ap, ◌∙◌, subst, arith, Bool-cases,
  Option-cases, inl, inr, append_assoc, append-nil,
}
use oxigeon.Telnet.Constants.{lf}
use oxigeon.Session.{Session}
use oxigeon.Session.Commands.{
  LuaCommand, on_connect, on_disconnect, on_mxp_ready, on_input, on_gmcp,
}
use oxigeon.Session.Handler.{connect}
use oxigeon.Websocket.Ansi.{split, prepend_to}
use oxigeon.Websocket.Connection.{
  ClientFrame, input, hello, gmcp_from, ping, Config, Task, strip_cr, input_lines, handle_frame,
  handle_client_text, Event, text_message, binary_message, pong_message, other_message, closed,
  output, output_closed, tick, step, run, start, finish, serve,
}

abbrev IsLine : ℕ → Bytes → Type 0
IsLine limit s = All (λ c. c ≢ lf) s × (length s ≤ limit)

-- A command of a session between its connect and its disconnect: a message, or one line of input,
-- within the limit.
abbrev pub IsHeard : ℕ → ℕ → LuaCommand → Type 0
IsHeard id limit (on_input who s) = (who ≡ id) × IsLine limit s
IsHeard id limit (on_gmcp who pack json) = who ≡ id
IsHeard id limit (on_connect who) = ⊥
IsHeard id limit (on_disconnect who) = ⊥
IsHeard id limit (on_mxp_ready who) = ⊥

IsLine-suc : (limit : ℕ) (s : Bytes) → IsLine limit s → IsLine (suc limit) s
IsLine-suc limit s (h, k) = (h, omega arith)

lines_more : (limit : ℕ) (ps : List Bytes) → All (IsLine limit) ps → All (IsLine (suc limit)) ps
lines_more limit [] h = tt
lines_more limit (p ∷ ps) (h, hs) = (IsLine-suc limit p h, lines_more limit ps hs)

prepend_to-IsLine :
    (limit c : ℕ) (ps : List Bytes)
    → c ≢ lf
    → All (IsLine limit) ps
    → All (IsLine (suc limit)) (prepend_to c ps)
prepend_to-IsLine limit c [] n h = (((n, tt), omega arith), tt)
prepend_to-IsLine limit c (p ∷ ps) n ((h, k), hs) = (((n, h), omega arith), lines_more limit ps hs)

split-IsLine : (s : Bytes) → All (IsLine (length s)) (split lf s)
unfolding split
split-IsLine [] = ((tt, omega arith), tt)
split-IsLine (c ∷ cs) = elim (Bool-cases (c == lf)) [
  | inl e ↦ rw e ((tt, omega arith), lines_more (length cs) (split lf cs) (split-IsLine cs))
  | inr e ↦ rw e (prepend_to-IsLine (length cs) c (split lf cs) (ground arith) (split-IsLine cs))
]

strip_cr-lf : (s : Bytes) → All (λ c. c ≢ lf) s → All (λ c. c ≢ lf) (strip_cr s)
unfolding strip_cr
strip_cr-lf [] h = h
strip_cr-lf (c ∷ []) h = ground arith
strip_cr-lf (c ∷ d ∷ ds) (n, hs) = (n, strip_cr-lf (d ∷ ds) hs)

length-strip_cr-le : (s : Bytes) → length (strip_cr s) ≤ length s
unfolding strip_cr
length-strip_cr-le [] = omega arith
length-strip_cr-le (c ∷ []) = ground arith
length-strip_cr-le (c ∷ d ∷ ds) = omega (arith, length-strip_cr-le (d ∷ ds))

module _ (id limit : ℕ) where
  inputs-IsHeard :
      (ps : List Bytes)
      → All (IsLine limit) ps
      → All (IsHeard id limit) (map (on_input id) (map strip_cr ps))
  inputs-IsHeard [] h = tt
  inputs-IsHeard (p ∷ ps) ((n, k), hs) =
      ((refl, (strip_cr-lf p n, omega (arith, length-strip_cr-le p))), inputs-IsHeard ps hs)

lines_within :
    (small big : ℕ) (ps : List Bytes) → small ≤ big → All (IsLine small) ps → All (IsLine big) ps
lines_within small big [] h k = tt
lines_within small big (p ∷ ps) h ((n, l), ks) = ((n, omega arith), lines_within small big ps h ks)

input_lines-IsHeard :
    (id limit : ℕ) (text : Bytes)
    → length text ≤ limit
    → All (IsHeard id limit) (map (on_input id) (input_lines text))
unfolding input_lines
input_lines-IsHeard id limit text h =
    inputs-IsHeard id limit (split lf text)
      (lines_within (length text) limit (split lf text) h (split-IsLine text))

abbrev pub AllHeard : Config → List LuaCommand → Type 0
AllHeard cfg = All (IsHeard cfg.session_id cfg.input_buffer_bytes)

module _ {C : Type 0} (cfg : Config) where
  -- The game has heard more of the session, and nothing else.
  abbrev HearsFrom : List LuaCommand → Task C → Type 0
  HearsFrom before after =
      (heard : List LuaCommand) × (after.commands ≡ before ++ heard) × AllHeard cfg heard

  abbrev Hears : Task C → Task C → Type 0
  Hears before = HearsFrom before.commands

  Hears-same : (before after : Task C) → after.commands ≡ before.commands → Hears before after
  Hears-same before after e = ([], e ∙ sym (append-nil before.commands), tt)

  Hears-trans : (a b c : Task C) → Hears a b → Hears b c → Hears a c
  Hears-trans a b c (x, e, h) (y, d, k) = (
    x ++ y,
    d ∙ ap (λ l. l ++ y) e ∙ append_assoc a.commands x y,
    All-append (IsHeard cfg.session_id cfg.input_buffer_bytes) x y h k,
  )

  handle_frame-Hears :
      (too_long : Bytes) (frame : ClientFrame) (ok : Bool) (t : Task C)
      → Hears t (handle_frame cfg too_long frame ok t).0
  unfolding handle_frame
  handle_frame-Hears too_long (input text) ok t =
      elim (Bool-cases (ltb cfg.input_buffer_bytes (length text))) [
        | inl e ↦ rw e (([], sym (append-nil t.commands), tt))
        | inr e ↦ rw e (
          map (on_input cfg.session_id) (input_lines text),
          refl,
          input_lines-IsHeard cfg.session_id cfg.input_buffer_bytes text (ground arith),
        )
      ]
  handle_frame-Hears too_long (hello w h g term mode) ok t = ([], sym (append-nil t.commands), tt)
  handle_frame-Hears too_long (gmcp_from pack json) ok t =
      (on_gmcp cfg.session_id pack json ∷ [], ground arith, (refl, tt))
  handle_frame-Hears too_long ping ok t = ([], sym (append-nil t.commands), tt)

  module _ (from_str : Bytes → Option ClientFrame)
      (unreadable too_long not_text core_hello : Bytes) where
    abbrev stepped : Event → Task C → Task C × Bool
    stepped = step from_str cfg unreadable too_long not_text core_hello

    step-Hears : (e : Event) (t : Task C) → Hears t (stepped e t).0
    unfolding step handle_client_text
    step-Hears (text_message message ok) t = elim (Option-cases (from_str message)) [
      | inl e ↦ rw (handle_client_text, e) (([], sym (append-nil t.commands), tt))
      | inr (f, e) ↦ rw (handle_client_text, e) (handle_frame-Hears too_long f ok t)
    ]
    step-Hears (tick ok) t = Hears-same t (stepped (tick ok) t).0 (ground arith)
    step-Hears (binary_message ok) t = ([], sym (append-nil t.commands), tt)
    step-Hears pong_message t = ([], sym (append-nil t.commands), tt)
    step-Hears other_message t = ([], sym (append-nil t.commands), tt)
    step-Hears closed t = ([], sym (append-nil t.commands), tt)
    step-Hears (output out ok) t = ([], sym (append-nil t.commands), tt)
    step-Hears output_closed t = ([], sym (append-nil t.commands), tt)

    abbrev left : List Event → Task C → Task C
    left es t = (run from_str cfg unreadable too_long not_text core_hello es t).0

    run-Hears : (es : List Event) (t : Task C) → Hears t (left es t)
    unfolding run
    run-Hears [] t = ([], sym (append-nil t.commands), tt)
    run-Hears (e ∷ es) t = elim (Bool-cases (stepped e t).1) [
      | inl on ↦
          rw (on, left)
            (Hears-trans t (stepped e t).0 (left es (stepped e t).0) (step-Hears e t)
              (run-Hears es (stepped e t).0))
      | inr over ↦ rw (over, left) (step-Hears e t)
    ]

    abbrev begun : Bytes → Task C → Task C
    begun = start from_str cfg unreadable too_long not_text core_hello

    start-commands :
        (query : Bytes) (t : Task C)
        → (begun query t).commands ≡ t.commands ++ on_connect cfg.session_id ∷ []
    unfolding start
    start-commands query t = ground arith

    abbrev Told : Task C → Task C × Bool → Type 0
    Told t r =
        (heard : List LuaCommand) × (r.0.commands
          ≡ (t.commands ++ on_connect cfg.session_id ∷ [])
            ++ (heard ++ (if r.1 then on_disconnect cfg.session_id ∷ [] else [])))
        × AllHeard cfg heard

    over_if :
        (t last : Task C) (on : Bool)
        → HearsFrom (t.commands ++ on_connect cfg.session_id ∷ []) last
        → Told t (
            if on
            then (last, false)
            else (finish from_str cfg unreadable too_long not_text core_hello last, true))
    unfolding finish
    over_if t last true (heard, e, h) = (
      heard,
      e ∙ ap (λ l. (t.commands ++ on_connect cfg.session_id ∷ []) ++ l) (sym (append-nil heard)),
      h,
    )
    over_if t last false (heard, e, h) = (
      heard,
      ap (λ l. l ++ on_disconnect cfg.session_id ∷ []) e
          ∙ append_assoc (t.commands ++ on_connect cfg.session_id ∷ []) heard
              (on_disconnect cfg.session_id ∷ []),
      h,
    )

    -- What the game hears of a session that was let in: first that it connected; then lines of input, each
    -- without a newline and within the limit, and messages, all of this session; and at the end, if it has
    -- come, that it disconnected, once.
    pub serve-commands :
        (query : Bytes) (session : Session C) (es : List Event) (t : Task C)
        → length t.handler.sessions < t.handler.max_connections
        → let r = serve from_str cfg unreadable too_long not_text core_hello query session es t in
          (heard : List LuaCommand) × (r.0.commands
            ≡ (t.commands ++ on_connect cfg.session_id ∷ [])
              ++ (heard ++ (if r.1 then on_disconnect cfg.session_id ∷ [] else [])))
          × AllHeard cfg heard
    unfolding serve connect
    serve-commands query session es t room =
        let full : leb t.handler.max_connections (length t.handler.sessions) ≡ false =
          ground arith in
        let t' = record t { handler = (connect session t.handler).0 } in
        let r = run from_str cfg unreadable too_long not_text core_hello es (begun query t') in
        rw (full, serve)
          (over_if t r.0 r.1 (
            subst (λ l. HearsFrom l r.0) (start-commands query t') (run-Hears es (begun query t'))))
