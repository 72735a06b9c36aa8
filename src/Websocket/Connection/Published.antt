-- ===== src/Websocket/Connection/Published.antt =====
-- src/core/network/websocket/connection.rs: what the game is told of a client's capabilities.
use oxigeon.Base.{
  ℕ, ◌<◌, ◌+◌, ◌%◌, ◌^◌, Bool, true, false, List, [], ◌∷◌, Option, some, ltb, leb, ◌==◌,
  if◌then◌else◌, Bytes, length, ◌≡◌, refl, arith, Option-cases, inl, inr,
}
use oxigeon.Telnet.Capabilities.{ClientCapabilities, for_websocket}
use oxigeon.Session.{Session}
use oxigeon.Session.Handler.{SessionHandler, find, modify, connect, publish_capabilities}
use oxigeon.Websocket.Frames.{raw}
use oxigeon.Websocket.Connection.{
  ClientFrame, input, hello, gmcp_from, ping, Config, Task, apply_query, handle_frame,
  handle_client_text, Event, text_message, binary_message, pong_message, other_message, closed,
  output, output_closed, tick, step, run, start,
}

module _ {C : Type 0} where
  -- The session is registered, with just these capabilities.
  abbrev pub Holds : ℕ → ClientCapabilities → SessionHandler C → Type 0
  Holds id caps h = (s : Session C) × (find id h.sessions ≡ some s) × (s.capabilities ≡ caps)

  find-modify-some :
      (id : ℕ) (caps : ClientCapabilities) (ss : List (Session C)) (s : Session C)
      → find id ss ≡ some s
      → find id (modify id (λ s. record s { capabilities = caps }) ss)
        ≡ some (record s { capabilities = caps })
  find-modify-some id caps [] s e = cc
  find-modify-some id caps (x ∷ ss) s e = ground (arith, find-modify-some id caps ss s)

  pub publish-Holds :
      (id : ℕ) (caps old : ClientCapabilities) (h : SessionHandler C)
      → Holds id old h
      → Holds id caps (publish_capabilities id caps h)
  unfolding publish_capabilities
  publish-Holds id caps old h (s, e, _) =
      (record s { capabilities = caps }, find-modify-some id caps h.sessions s e, refl)

  module _ (cfg : Config) where
    -- What the task knows of its client is what the registry says of the session.
    abbrev pub IsPublished : Task C → Type 0
    IsPublished t = Holds cfg.session_id t.caps t.handler

    IsPublished-if :
        (b : Bool) (x y : Task C) → IsPublished x → IsPublished y → IsPublished (if b then x else y)
    IsPublished-if true x y p q = p
    IsPublished-if false x y p q = q

    step-if :
        (b : Bool) (x y : Task C × Bool)
        → IsPublished x.0
        → IsPublished y.0
        → IsPublished (if b then x else y).0
    step-if true x y p q = p
    step-if false x y p q = q

    handle_frame-IsPublished :
        (too_long : Bytes) (frame : ClientFrame) (ok : Bool) (t : Task C)
        → IsPublished t
        → IsPublished (handle_frame cfg too_long frame ok t).0
    unfolding handle_frame
    handle_frame-IsPublished too_long (input text) ok t p =
        step-if (ltb cfg.input_buffer_bytes (length text)) _ _ p p
    handle_frame-IsPublished too_long (hello w h g term mode) ok t p =
        publish-Holds cfg.session_id _ t.caps t.handler p
    handle_frame-IsPublished too_long (gmcp_from pack json) ok t p =
        IsPublished-if t.caps.gmcp_supported t _ p
          (publish-Holds cfg.session_id _ t.caps t.handler p)
    handle_frame-IsPublished too_long ping ok t p = p

    module _ (from_str : Bytes → Option ClientFrame)
        (unreadable too_long not_text core_hello : Bytes) where
      step-IsPublished :
          (e : Event) (t : Task C)
          → IsPublished t
          → IsPublished (step from_str cfg unreadable too_long not_text core_hello e t).0
      unfolding step handle_client_text
      step-IsPublished (text_message message ok) t p = elim (Option-cases (from_str message)) [
        | inl e ↦ rw (handle_client_text, e) p
        | inr (f, e) ↦ rw (handle_client_text, e) (handle_frame-IsPublished too_long f ok t p)
      ]
      step-IsPublished (binary_message ok) t p = p
      step-IsPublished pong_message t p = p
      step-IsPublished other_message t p = p
      step-IsPublished closed t p = p
      step-IsPublished (output out ok) t p = p
      step-IsPublished output_closed t p = p
      step-IsPublished (tick ok) t p = step-if (cfg.ping_interval_secs == 0) _ _ p (
          step-if (leb cfg.missed_pongs t.missed) _ _ p
            (IsPublished-if ok (record t { missed = (t.missed + 1) % 2 ^ 32 }) t p p))

      run-IsPublished :
          (es : List Event) (t : Task C)
          → IsPublished t
          → IsPublished (run from_str cfg unreadable too_long not_text core_hello es t).0
      unfolding run
      run-IsPublished [] t p = p
      run-IsPublished (e ∷ es) t p =
          let next = step-IsPublished e t p in
          step-if (step from_str cfg unreadable too_long not_text core_hello e t).1 _ _
            (run-IsPublished es (step from_str cfg unreadable too_long not_text core_hello e t).0
              next)
            next

      connect-Holds :
          (session : Session C) (h : SessionHandler C)
          → session.id ≡ cfg.session_id
          → length h.sessions < h.max_connections
          → Holds cfg.session_id session.capabilities (connect session h).0
      unfolding connect
      connect-Holds session h e room = (session, ground arith, refl)

      start-IsPublished :
          (query : Bytes) (old : ClientCapabilities) (t : Task C)
          → Holds cfg.session_id old t.handler
          → IsPublished (start from_str cfg unreadable too_long not_text core_hello query t)
      unfolding start apply_query
      start-IsPublished [] old t p = publish-Holds cfg.session_id for_websocket old t.handler p
      start-IsPublished (c ∷ cs) old t p =
          let some_query : (length (c ∷ cs) == 0) ≡ false = ground arith in
          rw some_query (
            publish-Holds cfg.session_id (apply_query (c ∷ cs) (for_websocket, raw)).0 for_websocket
              (publish_capabilities cfg.session_id for_websocket t.handler)
              (publish-Holds cfg.session_id for_websocket old t.handler p))

      -- A session that was let in: whatever query it came with, and whatever befalls the connection, in
      -- whatever order, what the registry says of its client is what the task knows of it.
      pub run-start-IsPublished :
          (query : Bytes) (session : Session C) (es : List Event) (t : Task C)
          → session.id ≡ cfg.session_id
          → length t.handler.sessions < t.handler.max_connections
          → IsPublished
              (run from_str cfg unreadable too_long not_text core_hello es (
                start from_str cfg unreadable too_long not_text core_hello query
                  (record t { handler = (connect session t.handler).0 }))).0
      run-start-IsPublished query session es t e room = run-IsPublished es _ (
          start-IsPublished query session.capabilities
            (record t { handler = (connect session t.handler).0 })
            (connect-Holds session t.handler e room))
