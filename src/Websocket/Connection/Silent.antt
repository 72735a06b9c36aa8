-- ===== src/Websocket/Connection/Silent.antt =====
-- src/core/network/websocket/connection.rs: a client that answers no ping.
use oxigeon.Base.{
  ℕ, ◌<◌, ◌≤◌, ◌+◌, ◌^◌, Bool, true, false, List, [], ◌∷◌, Option, ltb, leb, if◌then◌else◌, Bytes,
  length, ◌≡◌, ◌≢◌, refl, sym, subst, arith, Bool-cases, Option-cases, inl, inr,
}
use oxigeon.Websocket.Connection.{
  ClientFrame, input, hello, gmcp_from, ping, Config, Task, handle_frame, handle_client_text, Event,
  text_message, binary_message, pong_message, other_message, closed, output, output_closed, tick,
  step, run, start, serve,
}
use oxigeon.Session.{Session}
use oxigeon.Session.Handler.{connect}

-- No pong is among the events.
abbrev pub NoPong : List Event → Type 0
NoPong [] = Unit {0}
NoPong (pong_message ∷ es) = ⊥
NoPong (_ ∷ es) = NoPong es

abbrev pub ticks : List Event → ℕ
ticks [] = 0
ticks (tick ok ∷ es) = 1 + ticks es
ticks (_ ∷ es) = ticks es

module _ {C : Type 0} (cfg : Config) where
  missed-if :
      (b : Bool) (x y : Task C × Bool) (n : ℕ)
      → x.0.missed ≡ n
      → y.0.missed ≡ n
      → (if b then x else y).0.missed ≡ n
  missed-if true x y n p q = p
  missed-if false x y n p q = q

  handle_frame-missed :
      (too_long : Bytes) (frame : ClientFrame) (ok : Bool) (t : Task C)
      → (handle_frame cfg too_long frame ok t).0.missed ≡ t.missed
  unfolding handle_frame
  handle_frame-missed too_long (input text) ok t =
      missed-if (ltb cfg.input_buffer_bytes (length text)) _ _ t.missed refl refl
  handle_frame-missed too_long (hello w h g term mode) ok t = refl
  handle_frame-missed too_long (gmcp_from pack json) ok t = ground arith
  handle_frame-missed too_long ping ok t = refl

  module _ (from_str : Bytes → Option ClientFrame)
      (unreadable too_long not_text core_hello : Bytes) where
    handle_client_text-missed :
        (message : Bytes) (ok : Bool) (t : Task C)
        → (handle_client_text from_str cfg unreadable too_long message ok t).0.missed ≡ t.missed
    unfolding handle_client_text
    handle_client_text-missed message ok t = elim (Option-cases (from_str message)) [
      | inl e ↦ rw (handle_client_text, e) refl
      | inr (f, e) ↦ rw (handle_client_text, e) (handle_frame-missed too_long f ok t)
    ]

    -- The loop is over behind the events.
    abbrev Ends : List Event → Task C → Type 0
    Ends es t = (run from_str cfg unreadable too_long not_text core_hello es t).1 ≡ false

    run_next :
        (e : Event) (es : List Event) (t : Task C)
        → Ends es (step from_str cfg unreadable too_long not_text core_hello e t).0
        → Ends (e ∷ es) t
    unfolding run
    run_next e es t h = ground arith

    run_stop :
        (e : Event) (es : List Event) (t : Task C)
        → (step from_str cfg unreadable too_long not_text core_hello e t).1 ≡ false
        → Ends (e ∷ es) t
    unfolding run
    run_stop e es t h = rw h refl

    start-missed :
        (query : Bytes) (t : Task C)
        → (start from_str cfg unreadable too_long not_text core_hello query t).missed ≡ 0
    unfolding start
    start-missed query t = ground arith

    module _ (wraps : cfg.missed_pongs < 2 ^ 32) (pings : cfg.ping_interval_secs ≢ 0) where
      tick-missed :
          (ok : Bool) (t : Task C)
          → ok ≡ true
          → leb cfg.missed_pongs t.missed ≡ false
          → (step from_str cfg unreadable too_long not_text core_hello (tick ok) t).0
            ≡ record t { missed = t.missed + 1 }
      unfolding step
      tick-missed ok t good e = ground arith

      run_silent :
          (es : List Event) (t : Task C)
          → NoPong es
          → t.missed ≤ cfg.missed_pongs
          → cfg.missed_pongs < t.missed + ticks es
          → Ends es t
      unfolding step
      run_silent [] t n m h = absurd (omega arith)
      run_silent (text_message message ok ∷ es) t n m h =
          let same = handle_client_text-missed message ok t in
          run_next (text_message message ok) es t
            (run_silent es _ n (omega (arith, same)) (omega (arith, same)))
      run_silent (binary_message ok ∷ es) t n m h =
          run_next (binary_message ok) es t (run_silent es _ n m h)
      run_silent (other_message ∷ es) t n m h = run_next other_message es t (run_silent es _ n m h)
      run_silent (closed ∷ es) t n m h = run_next closed es t (run_silent es _ n m h)
      run_silent (output out ok ∷ es) t n m h =
          run_next (output out ok) es t (run_silent es _ n m h)
      run_silent (output_closed ∷ es) t n m h = run_next output_closed es t (run_silent es _ n m h)
      run_silent (pong_message ∷ es) t n m h = absurd n
      run_silent (tick ok ∷ es) t n m h = elim (Bool-cases (leb cfg.missed_pongs t.missed)) [
        | inl e ↦ run_stop (tick ok) es t (ground arith)
        | inr e ↦ elim (Bool-cases ok) [
          | inr bad ↦ run_stop (tick ok) es t (ground arith)
          | inl good ↦ run_next (tick ok) es t (
              subst (λ x. Ends es x) (sym (tick-missed ok t good e))
                (run_silent es (record t { missed = t.missed + 1 }) n (ground arith) (omega arith)))
        ]
      ]

      -- A client that answers no ping is let go: with an interval for pings, and fewer of them allowed to
      -- be missed than 2^32, a task is over once more ticks have come than may be missed, whatever else
      -- befalls it.
      pub serve-silent :
          (query : Bytes) (session : Session C) (es : List Event) (t : Task C)
          → NoPong es
          → cfg.missed_pongs < ticks es
          → (serve from_str cfg unreadable too_long not_text core_hello query session es t).1 ≡ true
      unfolding serve
      serve-silent query session es t n h =
          let begun =
            start from_str cfg unreadable too_long not_text core_hello query
              (record t { handler = (connect session t.handler).0 }) in
          let none_missed =
            start-missed query (record t { handler = (connect session t.handler).0 }) in
          let ends =
            run_silent es begun n (omega (arith, none_missed)) (omega (arith, none_missed)) in
          ground arith
