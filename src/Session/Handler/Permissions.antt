-- ===== src/Session/Handler/Permissions.antt =====
-- Who may do what, after src/core/session/handler.rs let a session enter the game.
use oxigeon.Base.{
  ℕ, Bool, true, false, ◌||◌, List, [], ◌∷◌, some, ◌==◌, Bytes, ◌≡◌, ◌≢◌, refl, arith, Bool-cases,
  inl, inr,
}
use oxigeon.Telnet.Mxp.State.{member}
use oxigeon.Session.{playing, Session}
use oxigeon.Session.Handler.{
  SessionHandler, superuser, granted, find, modify, has, enter_game, has_permission,
}

granted-member :
    (perm : Bytes) (permissions : List Bytes) (is_admin : Bool)
    → (member superuser (granted permissions is_admin)
        || member perm (granted permissions is_admin))
      ≡ (is_admin || (member superuser permissions || member perm permissions))
granted-member perm permissions true = refl
granted-member perm permissions false = refl

module _ {C : Type 0} where
  find-modify :
      (id : ℕ) (f : Session C → Session C) (ss : List (Session C))
      → ((s : Session C) → (f s).id ≡ s.id)
      → has id ss ≡ true
      → (s : Session C) × (find id (modify id f ss) ≡ some (f s))
  find-modify id f [] k p = absurd cc
  find-modify id f (s ∷ ss) k p = elim (Bool-cases (s.id == id)) [
    | inl q ↦ (s, ground (arith, k s))
    | inr q ↦ let (t, e) = find-modify id f ss k (ground arith) in (t, ground (arith, k s))
  ]

  find-modify_other :
      (id other : ℕ) (f : Session C → Session C) (ss : List (Session C))
      → ((s : Session C) → (f s).id ≡ s.id)
      → other ≢ id
      → find other (modify id f ss) ≡ find other ss
  find-modify_other id other f [] k n = refl
  find-modify_other id other f (s ∷ ss) k n =
      ground (arith, k s, find-modify_other id other f ss k n)

  -- What a registered session may do after it entered the game is what it was given then, and all
  -- if it is an admin's; a permission spelled like the sentinel counts as all too. Any other
  -- session may do what it could before.
  pub enter_game-has_permission :
      (id other account character : ℕ) (perm : Bytes) (permissions : List Bytes) (is_admin : Bool)
      (h : SessionHandler C)
      → has id h.sessions ≡ true
      → other ≢ id
      → let after = (enter_game id account character permissions is_admin h).0 in
        (has_permission id perm after
          ≡ (is_admin || (member superuser permissions || member perm permissions)))
        × (has_permission other perm after ≡ has_permission other perm h)
  unfolding enter_game has_permission
  enter_game-has_permission id other account character perm permissions is_admin h p n =
      let f : Session C → Session C = λ s. record s {
        state = playing account character;
        permissions = granted permissions is_admin;
      } in
      let (s, e) = find-modify id f h.sessions (λ s. refl) p in
      let o = find-modify_other id other f h.sessions (λ s. refl) n in
      rw p (
        rw (e, has_permission) (granted-member perm permissions is_admin),
        rw (o, has_permission) refl,
      )
