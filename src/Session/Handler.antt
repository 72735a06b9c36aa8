-- ===== src/Session/Handler.antt =====
-- src/core/session/handler.rs: the registry of the sessions.
--
-- The map is the list of the sessions; the key of each is its own identifier, and the order stands
-- for the one, unspecified, in which the map is walked.
pub mod Policy
pub mod Valid
pub mod Permissions
use oxigeon.Base.{
  ℕ, ◌+◌, Bool, true, false, not, ◌&&◌, ◌||◌, List, [], ◌∷◌, ◌++◌, Option, none, some, ◌==◌, ltb,
  leb, if◌then◌else◌, Bytes, length, map,
}
use oxigeon.Base.Utf8.{ascii}
use oxigeon.Telnet.Mxp.State.{equals, member}
use oxigeon.Telnet.Capabilities.{ClientCapabilities}
use oxigeon.Session.{
  SessionState, connected, authenticating, authenticated, playing, account_id, SessionOutput, text,
  disconnect_out, Sent, Session, try_send,
}

pub data MultisessionMode : Type 0 where
  single shared_character multi_character full_multi : MultisessionMode

pub data Failure : Type 0 where
  max_connections_reached session_not_found internal : Failure

pub data Result (A : Type 0) : Type 0 where
  ok : A → Result A
  err : Failure → Result A

pub record SessionHandler (C : Type 0) : Type 0 where
  pub sessions : List (Session C)
  pub multisession_mode : MultisessionMode
  pub max_connections : ℕ

abbrev pub superuser : Bytes
superuser = ascii "**superuser**"

abbrev pub is_single : MultisessionMode → Bool
is_single single = true
is_single _ = false

abbrev pub granted : List Bytes → Bool → List Bytes
granted permissions is_admin = if is_admin then superuser ∷ permissions else permissions

abbrev pub state_named : Bytes → Option SessionState
state_named name =
    if equals name (ascii "connected")
    then some connected
    else if equals name (ascii "authenticating")
    then some authenticating
    else none

module _ {C : Type 0} where
  -- `s.state.account_id() == Some(account)`
  abbrev pub has_account : ℕ → Session C → Bool
  has_account account s = elim (account_id s.state) [ none ↦ false | some a ↦ a == account ]

  abbrev pub sessions_for_account : ℕ → List (Session C) → List (Session C)
  sessions_for_account account [] = []
  sessions_for_account account (s ∷ ss) =
      let rest = sessions_for_account account ss in if has_account account s then s ∷ rest else rest

  unfoldable pub new : MultisessionMode → ℕ → SessionHandler C
  new mode max = record { sessions = []; multisession_mode = mode; max_connections = max }

  -- `HashMap::get`, `remove` and, by way of `get_mut`, a change in place.
  abbrev pub find : ℕ → List (Session C) → Option (Session C)
  find id [] = none
  find id (s ∷ ss) = if s.id == id then some s else find id ss

  abbrev pub remove : ℕ → List (Session C) → List (Session C)
  remove id [] = []
  remove id (s ∷ ss) = let rest = remove id ss in if s.id == id then rest else s ∷ rest

  abbrev pub modify : ℕ → (Session C → Session C) → List (Session C) → List (Session C)
  modify id f [] = []
  modify id f (s ∷ ss) = (if s.id == id then f s else s) ∷ modify id f ss

  unfoldable pub connect : Session C → SessionHandler C → SessionHandler C × Result ℕ
  connect s h =
      if leb h.max_connections (length h.sessions)
      then (h, err max_connections_reached)
      else (record h { sessions = s ∷ remove s.id h.sessions }, ok s.id)

  unfoldable pub disconnect : ℕ → SessionHandler C → SessionHandler C × Option (Session C)
  disconnect id h = (record h { sessions = remove id h.sessions }, find id h.sessions)

  -- The function of src/core/session/capabilities.rs: what a transport knows of its client.
  unfoldable pub publish_capabilities : ℕ → ClientCapabilities → SessionHandler C → SessionHandler C
  publish_capabilities id caps h = record h {
    sessions = modify id (λ s. record s { capabilities = caps }) h.sessions;
  }

  -- The filter of the `Single` arm, and what it leaves.
  abbrev pub is_other : ℕ → ℕ → Session C → Bool
  is_other id account s = not (s.id == id) && has_account account s

  abbrev pub others : ℕ → ℕ → List (Session C) → List (Session C)
  others id account [] = []
  others id account (s ∷ ss) =
      let rest = others id account ss in if is_other id account s then s ∷ rest else rest

  abbrev pub remaining : ℕ → ℕ → List (Session C) → List (Session C)
  remaining id account [] = []
  remaining id account (s ∷ ss) =
      let rest = remaining id account ss in if is_other id account s then rest else s ∷ rest

  abbrev pub last_id : List (Session C) → Option ℕ
  last_id [] = none
  last_id (s ∷ []) = some s.id
  last_id (s ∷ ss) = last_id ss

  abbrev pub has : ℕ → List (Session C) → Bool
  has id [] = false
  has id (s ∷ ss) = (s.id == id) || has id ss

  abbrev pub login : ℕ → Session C → Session C
  login account s = record s { state = authenticated account }

  -- The handler, the sessions that were kicked, and `Ok(kicked_id)`.
  unfoldable pub authenticate :
      (SessionOutput → C → C × Sent)
      → Bytes
      → ℕ
      → ℕ
      → SessionHandler C
      → SessionHandler C × List (Session C) × Result (Option ℕ)
  unfolding try_send
  authenticate send marker id account h =
      let kicked = if is_single h.multisession_mode then others id account h.sessions else [] in
      let rest =
        if is_single h.multisession_mode then remaining id account h.sessions else h.sessions in
      if has id h.sessions
      then (
        record h { sessions = modify id (login account) rest },
        map (λ s. (try_send send marker disconnect_out s).0) kicked,
        ok (last_id kicked),
      )
      else (h, [], err session_not_found)

  unfoldable pub enter_game :
      ℕ → ℕ → ℕ → List Bytes → Bool → SessionHandler C → SessionHandler C × Result Unit
  enter_game id account character permissions is_admin h =
      if has id h.sessions
      then (
        record h {
          sessions =
              modify id
                (λ s. record s {
                  state = playing account character;
                  permissions = granted permissions is_admin;
                })
                h.sessions;
        },
        ok tt,
      )
      else (h, err session_not_found)

  unfoldable pub has_permission : ℕ → Bytes → SessionHandler C → Bool
  has_permission id perm h = elim (find id h.sessions) [
    | none ↦ false
    | some s ↦ member superuser s.permissions || member perm s.permissions
  ]

  unfoldable pub set_permissions :
      ℕ → List Bytes → Bool → SessionHandler C → SessionHandler C × Result Unit
  set_permissions id permissions is_admin h =
      if has id h.sessions
      then (
        record h {
          sessions =
              modify id (λ s. record s { permissions = granted permissions is_admin }) h.sessions;
        },
        ok tt,
      )
      else (h, err session_not_found)

  unfoldable pub set_state_by_name : ℕ → Bytes → SessionHandler C → SessionHandler C × Result Unit
  set_state_by_name id name h =
      if has id h.sessions
      then elim (state_named name) [
        | none ↦ (h, err internal)
        | some state ↦
            (record h { sessions = modify id (λ s. record s { state = state }) h.sessions }, ok tt)
      ]
      else (h, err session_not_found)

  -- The sessions after an output was offered to each, and how many could not take it.
  unfoldable pub broadcast_each :
      (SessionOutput → C → C × Sent)
      → Bytes
      → SessionOutput
      → List (Session C)
      → List (Session C) × ℕ
  unfolding try_send
  broadcast_each send marker out [] = ([], 0)
  broadcast_each send marker out (s ∷ ss) =
      let (s', queued) = try_send send marker out s in
      let (rest, n) = broadcast_each send marker out ss in
      (s' ∷ rest, (if queued then 0 else 1) + n)

  unfoldable pub broadcast :
      (SessionOutput → C → C × Sent) → Bytes → Bytes → SessionHandler C → SessionHandler C × ℕ
  unfolding broadcast_each
  broadcast send marker message h =
      let (ss, n) = broadcast_each send marker (text message) h.sessions in
      (record h { sessions = ss }, n)

  unfoldable pub send_to :
      (SessionOutput → C → C × Sent)
      → Bytes
      → ℕ
      → Bytes
      → SessionHandler C
      → SessionHandler C × Result Unit
  unfolding try_send
  send_to send marker id message h = elim (find id h.sessions) [
    | none ↦ (h, err session_not_found)
    | some s ↦ (
      record h { sessions = modify id (λ s. (try_send send marker (text message) s).0) h.sessions },
      if (try_send send marker (text message) s).1 then ok tt else err internal,
    )
  ]
