-- ===== src/Session/Handler/Valid.antt =====
-- What stays true of the handler of src/core/session/handler.rs over its operations.
use oxigeon.Base.{
  suc, Option, none, some, ap, ◌∙◌, ◌≡◌, false, refl, ℕ, ◌≤◌, Bool, true, List, [], ◌∷◌,
  if◌then◌else◌, Bytes, length, arith,
}
use oxigeon.Session.{
  text, sent, full, closed, notice_sent, counted, flush_drop_notice, try_send, SessionState,
  playing, SessionOutput, Sent, Session,
}
use oxigeon.Session.Handler.{
  has, find, broadcast, broadcast_each, send_to, MultisessionMode, SessionHandler, granted,
  state_named, new, modify, connect, disconnect, remaining, login, authenticate, enter_game,
  set_permissions, set_state_by_name,
}
use oxigeon.Session.Handler.Policy.{
  IsDistinct, IsValid, remove-IsDistinct, has-remove_same, length-remove, remaining-IsDistinct,
  length-remaining, modify-IsDistinct, length-modify,
}

pub data Operation (C : Type 0) : Type 0 where
  connects : Session C → Operation C
  disconnects : ℕ → Operation C
  logs_in : ℕ → ℕ → Operation C
  enters : ℕ → ℕ → ℕ → List Bytes → Bool → Operation C
  is_permitted : ℕ → List Bytes → Bool → Operation C
  is_set : ℕ → Bytes → Operation C
  broadcasts : Bytes → Operation C
  sends : ℕ → Bytes → Operation C

module _ {C : Type 0} where
  modify-IsValid :
      (id : ℕ) (f : Session C → Session C) (h : SessionHandler C)
      → ((s : Session C) → (f s).id ≡ s.id)
      → IsValid h
      → IsValid (record h { sessions = modify id f h.sessions })
  modify-IsValid id f h k v =
      (modify-IsDistinct id f k h.sessions v.0, omega (arith, length-modify id f k h.sessions))

  connect-IsValid : (s : Session C) (h : SessionHandler C) → IsValid h → IsValid (connect s h).0
  unfolding connect
  connect-IsValid s h v = ground (
    arith,
    v.0,
    v.1,
    remove-IsDistinct s.id h.sessions v.0,
    has-remove_same s.id h.sessions,
    length-remove s.id h.sessions,
  )

  IsValid-if :
      (b : Bool) (x y : SessionHandler C) → IsValid x → IsValid y → IsValid (if b then x else y)
  IsValid-if true x y p q = p
  IsValid-if false x y p q = q

module _ {C : Type 0} (send : SessionOutput → C → C × Sent) (marker : Bytes) where
  unfoldable pub step : Operation C → SessionHandler C → SessionHandler C
  unfolding connect disconnect authenticate enter_game set_permissions set_state_by_name broadcast
      send_to
  step (connects s) h = (connect s h).0
  step (disconnects id) h = (disconnect id h).0
  step (logs_in id account) h = (authenticate send marker id account h).0
  step (enters id a c ps admin) h = (enter_game id a c ps admin h).0
  step (is_permitted id ps admin) h = (set_permissions id ps admin h).0
  step (is_set id name) h = (set_state_by_name id name h).0
  step (broadcasts message) h = (broadcast send marker message h).0
  step (sends id message) h = (send_to send marker id message h).0

  unfoldable pub run : List (Operation C) → SessionHandler C → SessionHandler C
  unfolding step
  run [] h = h
  run (o ∷ os) h = run os (step o h)

  authenticate-IsValid :
      (id account : ℕ) (h : SessionHandler C)
      → IsValid h
      → IsValid (authenticate send marker id account h).0
  unfolding authenticate
  authenticate-IsValid id account h v =
      let k = modify-IsValid id (login account) h (λ s. refl) v in
      let single =
        modify-IsValid id (login account) (record h { sessions = remaining id account h.sessions })
          (λ s. refl)
          (
            remaining-IsDistinct id account h.sessions v.0,
            omega (arith, length-remaining id account h.sessions),
          ) in
      ground (arith, k, single, v)

  set_state_by_name-IsValid :
      (id : ℕ) (name : Bytes) (h : SessionHandler C)
      → IsValid h
      → IsValid (set_state_by_name id name h).0
  unfolding set_state_by_name
  set_state_by_name-IsValid id name h v = go (state_named name) refl
    where
      go :
          (o : Option SessionState) → state_named name ≡ o → IsValid (set_state_by_name id name h).0
      go none q = ground (arith, v)
      go (some state) q =
          ground (arith, v, modify-IsValid id (λ s. record s { state = state }) h (λ s. refl) v)

  notice_sent-id : (s : Session C) (r : C × Sent) → (notice_sent send marker s r).id ≡ s.id
  notice_sent-id s (c, sent) = refl
  notice_sent-id s (c, full) = refl
  notice_sent-id s (c, closed) = refl

  counted-id : (s : Session C) (r : C × Sent) → (counted send marker s r).0.id ≡ s.id
  counted-id s (c, sent) = refl
  counted-id s (c, full) = refl
  counted-id s (c, closed) = refl

  flush-id : (s : Session C) → (flush_drop_notice send marker s).id ≡ s.id
  unfolding flush_drop_notice
  flush-id s = ground (arith, notice_sent-id s (send (text marker) s.output_tx))

  try_send-id : (o : SessionOutput) (s : Session C) → (try_send send marker o s).0.id ≡ s.id
  unfolding try_send
  try_send-id o s =
      let s' = flush_drop_notice send marker s in counted-id s' (send o s'.output_tx) ∙ flush-id s

  has-broadcast_each :
      (i : ℕ) (o : SessionOutput) (ss : List (Session C))
      → has i (broadcast_each send marker o ss).0 ≡ has i ss
  unfolding broadcast_each
  has-broadcast_each i o [] = refl
  has-broadcast_each i o (s ∷ ss) = ground (arith, has-broadcast_each i o ss, try_send-id o s)

  broadcast_each-IsDistinct :
      (o : SessionOutput) (ss : List (Session C))
      → IsDistinct ss
      → IsDistinct (broadcast_each send marker o ss).0
        × (length (broadcast_each send marker o ss).0 ≡ length ss)
  unfolding broadcast_each
  broadcast_each-IsDistinct o [] d = (tt, refl)
  broadcast_each-IsDistinct o (s ∷ ss) d =
      let r = broadcast_each-IsDistinct o ss d.1 in
      let e : has (try_send send marker o s).0.id (broadcast_each send marker o ss).0 ≡ false =
        has-broadcast_each _ o ss ∙ ap (λ i. has i ss) (try_send-id o s) ∙ d.0 in
      ((e, r.0), ap suc r.1)

  broadcast-IsValid :
      (message : Bytes) (h : SessionHandler C)
      → IsValid h
      → IsValid (broadcast send marker message h).0
  unfolding broadcast
  broadcast-IsValid message h v =
      let r = broadcast_each-IsDistinct (text message) h.sessions v.0 in (r.0, omega (arith, r.1))

  send_to-IsValid :
      (id : ℕ) (message : Bytes) (h : SessionHandler C)
      → IsValid h
      → IsValid (send_to send marker id message h).0
  unfolding send_to
  send_to-IsValid id message h v = go (find id h.sessions) refl
    where
      go :
          (o : Option (Session C))
          → find id h.sessions ≡ o
          → IsValid (send_to send marker id message h).0
      go none q = rw (q, send_to) v
      go (some s) q =
          rw (q, send_to)
            (modify-IsValid id (λ s. (try_send send marker (text message) s).0) h
              (try_send-id (text message)) v)

  step-IsValid : (o : Operation C) (h : SessionHandler C) → IsValid h → IsValid (step o h)
  unfolding step
  step-IsValid (connects s) h v = connect-IsValid s h v
  step-IsValid (disconnects id) h v =
      (remove-IsDistinct id h.sessions v.0, omega (arith, length-remove id h.sessions))
  step-IsValid (logs_in id account) h v = authenticate-IsValid id account h v
  step-IsValid (enters id a c ps admin) h v = ground (
    arith,
    v,
    modify-IsValid id (λ s. record s { state = playing a c; permissions = granted ps admin }) h
        (λ s. refl) v,
  )
  step-IsValid (is_permitted id ps admin) h v = ground (
    arith,
    v,
    modify-IsValid id (λ s. record s { permissions = granted ps admin }) h (λ s. refl) v,
  )
  step-IsValid (is_set id name) h v = set_state_by_name-IsValid id name h v
  step-IsValid (broadcasts message) h v = broadcast-IsValid message h v
  step-IsValid (sends id message) h v = send_to-IsValid id message h v

  run-step : (os : List (Operation C)) (h : SessionHandler C) → IsValid h → IsValid (run os h)
  unfolding run
  run-step [] h v = v
  run-step (o ∷ os) h v = run-step os (step o h) (step-IsValid o h v)

  -- Over any operations on a new handler, no identifier is registered twice, and there are never
  -- more sessions than `max_connections`.
  pub run-IsValid :
      (mode : MultisessionMode) (max : ℕ) (os : List (Operation C))
      → IsDistinct (run os (new mode max)).sessions
        × (length (run os (new mode max)).sessions ≤ (run os (new mode max)).max_connections)
  unfolding new
  run-IsValid mode max os = run-step os (new mode max) (tt, omega arith)
