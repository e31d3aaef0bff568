-- ===== src/Client/Events.antt =====
-- Results for the server and the bounded queue that keeps them for a reconnect (`sendDownloadEvent`
-- and `flushPending` of client/client.go). What each write to the socket answers is an argument.
pub mod Delivery
use thesis_agent.Base.{
  ℕ, ◌+◌, Bool, true, false, not, Option, none, some, List, [], ◌∷◌, ◌++◌, if◌then◌else◌, ltb,
  length,
}

-- The part of `Client` that the two operations share. `sent` is what the socket took, the oldest
-- first; `pending` is the channel's buffer, the oldest first; `lost` what was dropped.
module _ (Message : Type 0) where
  pub record Outbox : Type 0 where
    pub stopping : Bool
    pub connected : Bool
    pub pending : List Message
    pub sent : List Message
    pub lost : List Message

abbrev pub pending_limit : ℕ
pending_limit = 32

pub data SendError : Type 0 where
  context_cancelled queue_full : SendError

module _ {Message : Type 0} (is_final : Message → Bool) where
  -- What `sendDownloadEvent` does where no write succeeds.
  unfoldable pub enqueue : Message → Outbox Message → Outbox Message × Option SendError
  enqueue message c =
      if not (is_final message)
      then (record c { lost = c.lost ++ message ∷ [] }, none)
      else if ltb (length c.pending) pending_limit
      then (record c { pending = c.pending ++ message ∷ [] }, none)
      else (record c { lost = c.lost ++ message ∷ [] }, some queue_full)

  -- `sendDownloadEvent`; `written` is the answer of the write.
  unfoldable pub send_event : Bool → Message → Outbox Message → Outbox Message × Option SendError
  unfolding enqueue
  send_event written message c =
      if c.stopping
      then (record c { lost = c.lost ++ message ∷ [] }, some context_cancelled)
      else if c.connected
      then (if written
          then (record c { sent = c.sent ++ message ∷ [] }, none)
          else enqueue message c)
      else enqueue message c

module _ {Message : Type 0} where
  -- What `flushPending` does with a message whose write failed, where the buffer now holds `pending`.
  unfoldable pub put_back : Message → List Message → Outbox Message → Outbox Message
  put_back message pending c =
      if ltb (length pending) pending_limit
      then record c { pending = pending ++ message ∷ [] }
      else record c { pending = pending; lost = c.lost ++ message ∷ [] }

  -- The rounds of its loop, where no other goroutine uses the buffer meanwhile; `written` answers
  -- the write of each round.
  unfoldable pub flush_rounds : (ℕ → Bool) → ℕ → List Message → Outbox Message → Outbox Message
  unfolding put_back
  flush_rounds written round [] c = record c { pending = [] }
  flush_rounds written round (message ∷ rest) c =
      let more =
        flush_rounds written (round + 1) rest (record c { sent = c.sent ++ message ∷ [] }) in
      if written round then more else put_back message rest c

  unfoldable pub flush : (ℕ → Bool) → Outbox Message → Outbox Message
  unfolding flush_rounds
  flush written c = flush_rounds written 0 c.pending c
