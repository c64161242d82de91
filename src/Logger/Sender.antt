-- ===== src/Logger/Sender.antt =====
-- internal/logger/sender.go: the sender of log records, a bounded channel that one goroutine drains. The
-- records are of any type here. Whether a dial and a write succeed is an input of each round.
pub mod Delivery
mod Tests
use i_filter_imitation.Common.{
  ℕ, List, [], ◌∷◌, ◌++◌, Bool, true, false, ◌||◌, ltb, length, if◌then◌else◌,
}

-- The records in the channel, its size, whether there is a connection, and what was written to it.
pub record Sender (R : Type 0) : Type 0 where
  pub ch : List R
  pub buf_size : ℕ
  pub connected : Bool
  pub written : List R

-- what the network does in one round
pub record Network : Type 0 where
  pub dials : Bool
  pub writes : Bool

module _ {R : Type 0} where
  unfoldable pub new_sender : ℕ → Bool → Sender R
  new_sender buf_size dials = record {
    ch = [];
    buf_size = buf_size;
    connected = dials;
    written = [];
  }

  -- `Send`: a record is dropped if the channel is full.
  unfoldable pub send : R → Sender R → Sender R
  send r s = if ltb (length s.ch) s.buf_size then record s { ch = s.ch ++ r ∷ [] } else s

  -- `write` in `drain`: a connection is dialled if there is none, and given up if a write fails; the
  -- record is lost then.
  unfoldable pub write : Network → R → Sender R → Sender R
  write n r s =
      if s.connected || n.dials
      then if n.writes
        then record s { connected = true; written = s.written ++ r ∷ [] }
        else record s { connected = false }
      else s

  -- One round of the loop in `drain`; it waits on an empty channel.
  unfoldable pub drain : Network → Sender R → Sender R
  unfolding write
  drain n s = elim s.ch [ [] ↦ s | r ∷ rest ↦ write n r (record s { ch = rest }) ]

  -- the loop behind `stop`, which ends at the first round that finds the channel empty
  unfoldable pub flush : List Network → List R → Sender R → Sender R
  unfolding write
  flush ns [] s = record s { ch = []; connected = false }
  flush [] (r ∷ rest) s = record s { ch = r ∷ rest }
  flush (n ∷ ns) (r ∷ rest) s = flush ns rest (write n r (record s { ch = rest }))

  -- `Close`, with what the network does in the rounds that follow
  unfoldable pub close : List Network → Sender R → Sender R
  unfolding flush
  close ns s = flush ns s.ch s
