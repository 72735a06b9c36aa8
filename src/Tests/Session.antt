-- ===== src/Tests/Session.antt =====
-- Tests and witnesses for src/core/session, over a channel that holds two outputs.
use oxigeon.Base.{ℕ, ◌+◌, ◌≤◌, true, false, List, [], ◌∷◌, ◌≡◌, refl, length, if◌then◌else◌, ltb}
use oxigeon.Session
use oxigeon.Session.{SessionOutput, text, Sent, sent, full, closed, Session, try_send}
use oxigeon.Session.Drops.{send_all}
use oxigeon.Session.Handler
use oxigeon.Session.Handler.{
  MultisessionMode, single, SessionHandler, superuser, authenticate, enter_game, has_permission,
  sessions_for_account,
}
use oxigeon.Session.Handler.Policy.{IsDistinct, authenticate_single}
use oxigeon.Session.Handler.Valid.{
  Operation, connects, logs_in, disconnects, broadcasts, run, run-IsValid,
}

abbrev two_slots : SessionOutput → ℕ → ℕ × Sent
two_slots out n = if ltb n 2 then (n + 1, sent) else (n, full)

abbrev session : ℕ → Session ℕ
session id = Session.new id 0

abbrev texts : List SessionOutput
texts = text [] ∷ text [] ∷ text [] ∷ []

third_lost : (send_all two_slots [] texts (session 1)).1 ≡ true ∷ true ∷ false ∷ []
unfolding send_all Session.new try_send
third_lost = refl

-- Session 1 is logged in, session 2 is not.
abbrev crowd : SessionHandler ℕ
crowd = record {
  sessions = record (session 1) { state = Session.authenticated 7 } ∷ session 2 ∷ [];
  multisession_mode = single;
  max_connections = 9;
}

authenticate_single_example :
    length (sessions_for_account 7 (authenticate two_slots [] 2 7 crowd).0.sessions) ≡ 1
unfolding Session.new
authenticate_single_example =
    authenticate_single two_slots [] 2 7 crowd refl (refl, (refl, tt)) refl

abbrev day : List (Operation ℕ)
day =
    connects (session 1)
    ∷ connects (session 2)
    ∷ logs_in 1 7
    ∷ logs_in 2 7
    ∷ broadcasts []
    ∷ disconnects 2
    ∷ []

run-IsValid_example :
    IsDistinct (run two_slots [] day (Handler.new single 1)).sessions
    × (length (run two_slots [] day (Handler.new single 1)).sessions
        ≤ (run two_slots [] day (Handler.new single 1)).max_connections)
run-IsValid_example = run-IsValid two_slots [] single 1 day
