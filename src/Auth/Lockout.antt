-- ===== src/Auth/Lockout.antt =====
-- src/core/auth.rs: what locks an address out.
use oxigeon.Base.{ℕ, false, List, [], ◌∷◌, some}
use oxigeon.Base.Keyed.{find}
use oxigeon.Auth.{AuthWorker, or_default, record_outcome}

-- The count of an address.
abbrev count_of : ℕ → AuthWorker → ℕ
count_of ip w = (or_default (find ip w.strikes)).count

-- Failures of an address at some instants, one after another.
abbrev pub failures : ℕ → List ℕ → AuthWorker → AuthWorker
failures ip [] w = w
failures ip (t ∷ ts) w = failures ip ts (record_outcome t (some ip) false w)
