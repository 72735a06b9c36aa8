-- ===== src/Session/Drops.antt =====
-- What a session knows of the output that it lost.
use oxigeon.Base.{
  ℕ, ◌+◌, ◌^◌, ◌≤◌, ◌<◌, Bool, List, [], ◌∷◌, if◌then◌else◌, Bytes, ◌≡◌, ◌≢◌, refl, length, arith,
}
use oxigeon.Session.{
  SessionOutput, text, Sent, sent, full, closed, Session, notice_sent, flush_drop_notice, counted,
  try_send,
}

-- How many were not queued.
abbrev pub refused : List Bool → ℕ
refused [] = 0
refused (q ∷ qs) = (if q then 0 else 1) + refused qs

module _ {C : Type 0} (send : SessionOutput → C → C × Sent) (marker : Bytes) where
  notice_sent-counts :
      (s : Session C) (r : C × Sent)
      → ((notice_sent send marker s r).dropped_pending ≤ s.dropped_pending)
        × ((notice_sent send marker s r).dropped_total ≡ s.dropped_total)
  notice_sent-counts s (c, sent) = (omega arith, refl)
  notice_sent-counts s (c, full) = (omega arith, refl)
  notice_sent-counts s (c, closed) = (omega arith, refl)

  flush-counts :
      (s : Session C)
      → ((flush_drop_notice send marker s).dropped_pending ≤ s.dropped_pending)
        × ((flush_drop_notice send marker s).dropped_total ≡ s.dropped_total)
  unfolding flush_drop_notice
  flush-counts s = ground (arith, notice_sent-counts s (send (text marker) s.output_tx))

  -- Outputs one after another, and which of them were queued.
  unfoldable pub send_all : List SessionOutput → Session C → Session C × List Bool
  send_all [] s = (s, [])
  send_all (o ∷ os) s =
      let (s', queued) = try_send send marker o s in
      let (s'', all) = send_all os s' in (s'', queued ∷ all)

  module _ (open_channel : (o : SessionOutput) (c : C) → (send o c).1 ≢ closed) where
    counted-counts :
        (s : Session C) (r : C × Sent)
        → r.1 ≢ closed
        → s.dropped_total + 1 < 2 ^ 64
        → s.dropped_pending ≤ s.dropped_total
        → let t = counted send marker s r in
          (t.0.dropped_total ≡ s.dropped_total + (if t.1 then 0 else 1))
          × (t.0.dropped_pending ≤ t.0.dropped_total)
    counted-counts s (c, sent) h l p = (omega arith, p)
    counted-counts s (c, full) h l p = (omega arith, omega arith)
    counted-counts s (c, closed) h l p = absurd (h refl)

    try_send-counts :
        (o : SessionOutput) (s : Session C)
        → s.dropped_total + 1 < 2 ^ 64
        → s.dropped_pending ≤ s.dropped_total
        → let t = try_send send marker o s in
          (t.0.dropped_total ≡ s.dropped_total + (if t.1 then 0 else 1))
          × (t.0.dropped_pending ≤ t.0.dropped_total)
    unfolding try_send
    try_send-counts o s l p =
        let f = flush-counts s in
        let s' = flush_drop_notice send marker s in
        let t =
          counted-counts s' (send o s'.output_tx) (open_channel o s'.output_tx) (omega (arith, f.1))
            (omega (arith, f.0, f.1)) in
        (omega (arith, t.0, f.1), t.1)

    -- No output is lost unseen: over any outputs on a channel whose receiver stays, the total
    -- grows by one for each output that was not queued, and what the player is still to be told of
    -- is never more than the total, if it was not more before. The counter does not wrap.
    pub send_all-counts :
        (os : List SessionOutput) (s : Session C)
        → s.dropped_total + length os < 2 ^ 64
        → s.dropped_pending ≤ s.dropped_total
        → let t = send_all os s in
          (t.0.dropped_total ≡ s.dropped_total + refused t.1)
          × (t.0.dropped_pending ≤ t.0.dropped_total)
    unfolding send_all
    send_all-counts [] s l p = (omega arith, p)
    send_all-counts (o ∷ os) s l p =
        let t = try_send-counts o s (omega arith) p in
        let s' = (try_send send marker o s).0 in
        let room : s'.dropped_total + length os < 2 ^ 64 = ground (arith, t.0) in
        let r = send_all-counts os s' room t.1 in (ground (arith, t.0, r.0), r.1)
