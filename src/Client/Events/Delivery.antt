-- ===== src/Client/Events/Delivery.antt =====
-- No final result is lost by a flush, and what the queue may lose (client/client.go).
use mathlib.Core.List.{Perm, perm_middle, append_assoc, append-nil}
use mathlib.Core.List.Perm
use thesis_agent.Base.{
  ℕ, ◌+◌, ◌≤◌, ◌≡◌, refl, subst, ◌∙◌, ltb, if◌then◌else◌, ◌&&◌, Bool, true, none, List, [], ◌∷◌,
  ◌++◌, arith, length, length-append, Bool-cases, inl, inr,
}
use thesis_agent.Client.Events.{Outbox, pending_limit, send_event, put_back, flush_rounds, flush}

module _ {Message : Type 0} where
  -- Nothing is lost or doubled: what was sent and what still waits are the same messages.
  abbrev pub Conserves : Outbox Message → Outbox Message → Type 0
  Conserves c c' =
      Perm (c'.sent ++ c'.pending) (c.sent ++ c.pending)
      × (c'.lost ≡ c.lost)
      × (length c'.pending ≤ length c.pending)

  rotate-perm :
      (sent : List Message) (message : Message) (rest : List Message)
      → Perm (sent ++ (rest ++ message ∷ [])) (sent ++ message ∷ rest)
  rotate-perm sent message rest = Perm.append_left sent (
      subst (λ l. Perm (rest ++ message ∷ []) (message ∷ l)) (append-nil rest)
        (perm_middle rest []))

  flush_rounds-Conserves :
      (written : ℕ → Bool) (round : ℕ) (pending : List Message) (c : Outbox Message)
      → length pending ≤ pending_limit
      → Perm
          ((flush_rounds written round pending c).sent
            ++ (flush_rounds written round pending c).pending)
          (c.sent ++ pending)
        × ((flush_rounds written round pending c).lost ≡ c.lost)
        × (length (flush_rounds written round pending c).pending ≤ length pending)
  unfolding flush_rounds
  flush_rounds-Conserves written round [] c h = (Perm.refl _, refl, omega arith)
  flush_rounds-Conserves written round (message ∷ rest) c h = elim (Bool-cases (written round)) [
    | inl taken ↦
        let next = record c { sent = c.sent ++ message ∷ [] } in
        let (same, kept, short) =
          flush_rounds-Conserves written (round + 1) rest next (omega arith) in
        rw taken (
          subst (Perm _) (append_assoc c.sent (message ∷ []) rest) same,
          kept,
          omega (arith, short),
        )
    | inr failed ↦
        let room : ltb (length rest) pending_limit ≡ true = ground arith in
        rw (failed, put_back, room)
          (rotate-perm c.sent message rest, refl, omega (arith, length-append rest (message ∷ [])))
  ]

  -- A flush during which nothing else uses the queue, which is within its limit, loses and doubles
  -- no message, whichever writes fail.
  pub flush-Conserves :
      (written : ℕ → Bool) (c : Outbox Message)
      → length c.pending ≤ pending_limit
      → Conserves c (flush written c)
  unfolding flush
  flush-Conserves written c h = flush_rounds-Conserves written 0 c.pending c h

  flush_rounds_all :
      (written : ℕ → Bool) (round : ℕ) (pending : List Message) (c : Outbox Message)
      → ((k : ℕ) → written k ≡ true)
      → flush_rounds written round pending c ≡ record c { sent = c.sent ++ pending; pending = [] }
  unfolding flush_rounds
  flush_rounds_all written round [] c ok = rw (append-nil c.sent) refl
  flush_rounds_all written round (message ∷ rest) c ok = rw (ok round) (
      flush_rounds_all written (round + 1) rest (record c { sent = c.sent ++ message ∷ [] }) ok
      ∙ rw (append_assoc c.sent (message ∷ []) rest) refl)

  -- Over a working socket a flush sends everything that waits, in the order in which it was queued.
  pub flush_all :
      (written : ℕ → Bool) (c : Outbox Message)
      → ((k : ℕ) → written k ≡ true)
      → flush written c ≡ record c { sent = c.sent ++ c.pending; pending = [] }
  unfolding flush
  flush_all written c ok = flush_rounds_all written 0 c.pending c ok

  -- But a message that is put back while others have filled the buffer is dropped, final or not.
  pub put_back-loses :
      (message : Message) (pending : List Message) (c : Outbox Message)
      → pending_limit ≤ length pending
      → ((put_back message pending c).pending ≡ pending)
        × ((put_back message pending c).lost ≡ c.lost ++ message ∷ [])
  unfolding put_back
  put_back-loses message pending c full = (ground arith, ground arith)

  -- With the queue within its limit, it stays within it, and a final result that is sent without
  -- an error is not lost: it was written where there is a connection and the write succeeds, and
  -- is the last of the queue otherwise.
  pub send_event-kept :
      (is_final : Message → Bool) (written : Bool) (message : Message) (c : Outbox Message)
      → length c.pending ≤ pending_limit
      → is_final message ≡ true
      → (length (send_event is_final written message c).0.pending ≤ pending_limit)
        × (((send_event is_final written message c).1 ≡ none)
            → ((send_event is_final written message c).0.lost ≡ c.lost)
              × ((send_event is_final written message c).0.sent
                    ++ (send_event is_final written message c).0.pending
                  ≡ (if written && c.connected
                      then (c.sent ++ message ∷ []) ++ c.pending
                      else c.sent ++ (c.pending ++ message ∷ []))))
  unfolding send_event
  send_event-kept is_final written message c h final =
      (ground (arith, length-append c.pending (message ∷ [])), λ e. (ground arith, ground arith))
