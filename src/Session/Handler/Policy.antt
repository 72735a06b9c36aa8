-- ===== src/Session/Handler/Policy.antt =====
-- What the handler of src/core/session/handler.rs keeps up.
use oxigeon.Base.{
  ℕ, suc, ◌≤◌, true, false, List, [], ◌∷◌, ◌==◌, Bytes, length, ◌≡◌, refl, arith, Bool-cases, inl,
  inr, ap,
}
use oxigeon.Session.{account_id, SessionOutput, Sent, Session}
use oxigeon.Session.Handler.{
  single, SessionHandler, remove, modify, sessions_for_account, remaining, has, login, authenticate,
}

module _ {C : Type 0} where
  -- Every identifier once.
  abbrev pub IsDistinct : List (Session C) → Type 0
  IsDistinct [] = Unit {0}
  IsDistinct (s ∷ ss) = (has s.id ss ≡ false) × IsDistinct ss

  abbrev pub IsValid : SessionHandler C → Type 0
  IsValid h = IsDistinct h.sessions × (length h.sessions ≤ h.max_connections)

  after-login_absent :
      (id account : ℕ) (ss : List (Session C))
      → has id ss ≡ false
      → sessions_for_account account (modify id (login account) (remaining id account ss)) ≡ []
  after-login_absent id account [] p = refl
  after-login_absent id account (s ∷ ss) p =
      ground (arith, after-login_absent id account ss (ground arith))

  after-login :
      (id account : ℕ) (ss : List (Session C))
      → IsDistinct ss
      → has id ss ≡ true
      → length (sessions_for_account account (modify id (login account) (remaining id account ss)))
        ≡ 1
  unfolding account_id
  after-login id account [] d p = ground arith
  after-login id account (s ∷ ss) d p = elim (Bool-cases (s.id == id)) [
    | inl q ↦ ground (arith, after-login_absent id account ss (ground (arith, d.0)))
    | inr q ↦ ground (arith, after-login id account ss d.1 (ground arith))
  ]

module _ {C : Type 0} (send : SessionOutput → C → C × Sent) (marker : Bytes) where
  -- In the mode of one session for each account, after a registered session logs in to an account,
  -- the account has exactly one session, whatever sessions it had before. No identifier is
  -- registered twice before.
  pub authenticate_single :
      (id account : ℕ) (h : SessionHandler C)
      → h.multisession_mode ≡ single
      → IsDistinct h.sessions
      → has id h.sessions ≡ true
      → length (sessions_for_account account (authenticate send marker id account h).0.sessions) ≡ 1
  unfolding authenticate
  authenticate_single id account h m d p = rw (p, m) (after-login id account h.sessions d p)

module _ {C : Type 0} where
  has-remove : (i id : ℕ) (ss : List (Session C)) → has i ss ≡ false → has i (remove id ss) ≡ false
  has-remove i id [] p = refl
  has-remove i id (s ∷ ss) p = ground (arith, has-remove i id ss (ground arith))

  pub has-remove_same : (id : ℕ) (ss : List (Session C)) → has id (remove id ss) ≡ false
  has-remove_same id [] = refl
  has-remove_same id (s ∷ ss) = ground (arith, has-remove_same id ss)

  pub remove-IsDistinct :
      (id : ℕ) (ss : List (Session C)) → IsDistinct ss → IsDistinct (remove id ss)
  remove-IsDistinct id [] d = tt
  remove-IsDistinct id (s ∷ ss) d =
      ground (arith, remove-IsDistinct id ss d.1, has-remove s.id id ss d.0, d.1)

  pub length-remove : (id : ℕ) (ss : List (Session C)) → length (remove id ss) ≤ length ss
  length-remove id [] = omega arith
  length-remove id (s ∷ ss) = ground (arith, length-remove id ss)

  has-remaining :
      (i id account : ℕ) (ss : List (Session C))
      → has i ss ≡ false
      → has i (remaining id account ss) ≡ false
  has-remaining i id account [] p = refl
  has-remaining i id account (s ∷ ss) p =
      ground (arith, has-remaining i id account ss (ground arith))

  pub remaining-IsDistinct :
      (id account : ℕ) (ss : List (Session C))
      → IsDistinct ss
      → IsDistinct (remaining id account ss)
  remaining-IsDistinct id account [] d = tt
  remaining-IsDistinct id account (s ∷ ss) d =
      ground
        (arith, remaining-IsDistinct id account ss d.1, has-remaining s.id id account ss d.0, d.1)

  pub length-remaining :
      (id account : ℕ) (ss : List (Session C)) → length (remaining id account ss) ≤ length ss
  length-remaining id account [] = omega arith
  length-remaining id account (s ∷ ss) = ground (arith, length-remaining id account ss)

  module _ (id : ℕ) (f : Session C → Session C) (keeps : (s : Session C) → (f s).id ≡ s.id) where
    has-modify : (i : ℕ) (ss : List (Session C)) → has i (modify id f ss) ≡ has i ss
    has-modify i [] = refl
    has-modify i (s ∷ ss) = ground (arith, has-modify i ss, keeps s)

    pub modify-IsDistinct : (ss : List (Session C)) → IsDistinct ss → IsDistinct (modify id f ss)
    modify-IsDistinct [] d = tt
    modify-IsDistinct (s ∷ ss) d =
        ground (arith, modify-IsDistinct ss d.1, has-modify s.id ss, keeps s, d.0)

    pub length-modify : (ss : List (Session C)) → length (modify id f ss) ≡ length ss
    length-modify [] = refl
    length-modify (s ∷ ss) = ap suc (length-modify ss)
