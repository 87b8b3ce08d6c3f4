-- ===== src/Server/Events.antt =====
-- server.EventBus of sidecar/internal/server/events.go. A buffered channel is its capacity and what it holds; what
-- a subscriber receives is a step of its own. A subscriber that leaves reads no more from its closed channel.
pub mod Delivery
pub mod Tests
use xrpl_confluence.Prelude.{
  ℕ, suc, Bool, true, false, Option, none, some, List, [], ◌∷◌, ◌++◌, if◌then◌else◌, length, ltb,
  nat_eq,
}
use xrpl_confluence.Prelude.Dict.{Dict, lookup, insert, erase, map_values}

module _ (E : Type 0) where
  pub record Channel : Type 0 where
    pub capacity : ℕ
    pub buffer : List E

  pub record EventBus : Type 0 where
    pub subscribers : Dict ℕ Channel
    pub next_id : ℕ

pub new_event_bus : {E : Type 0} → EventBus E
new_event_bus = record { subscribers = []; next_id = 0 }

module _ {E : Type 0} where
  -- The select of Publish: a full buffer drops the event. A channel without a buffer, which the server does not
  -- make, would drop what no receiver waits for.
  pub send : E → Channel E → Channel E
  send e c =
      if ltb (length c.buffer) c.capacity then record c { buffer = c.buffer ++ e ∷ [] } else c

  pub publish : E → EventBus E → EventBus E
  publish e b = record b { subscribers = map_values (send e) b.subscribers }

  pub subscribe : ℕ → EventBus E → EventBus E
  subscribe capacity b = record {
    subscribers = insert b.next_id (record { capacity = capacity; buffer = [] }) b.subscribers;
    next_id = suc b.next_id;
  }

  pub unsubscribe : ℕ → EventBus E → EventBus E
  unsubscribe id b = record b { subscribers = erase id b.subscribers }

  -- What a receive takes from a channel.
  taken : Option (Channel E) → List E
  taken none = []
  taken (some c) = elim c.buffer [ [] ↦ [] | e ∷ rest ↦ e ∷ [] ]

  rest_of : List E → List E
  rest_of [] = []
  rest_of (e ∷ rest) = rest

  take_from : ℕ → Option (Channel E) → EventBus E → EventBus E
  unfolding rest_of
  take_from id none b = b
  take_from id (some c) b = record b {
    subscribers = insert id (record c { buffer = rest_of c.buffer }) b.subscribers;
  }

  pub receive : ℕ → EventBus E → EventBus E × List E
  unfolding taken take_from
  receive id b = let c = lookup id b.subscribers in (take_from id c b, taken c)

-- What happens on the bus.
pub data Op (E : Type 0) : Type 0 where
  published : E → Op E
  subscribed : ℕ → Op E
  unsubscribed : ℕ → Op E
  received : ℕ → Op E

module _ {E : Type 0} where
  pub apply : Op E → EventBus E → EventBus E
  unfolding publish subscribe unsubscribe receive
  apply (published e) b = publish e b
  apply (subscribed capacity) b = subscribe capacity b
  apply (unsubscribed id) b = unsubscribe id b
  apply (received id) b = (receive id b).0

  -- The latest first, on a new bus.
  pub after : List (Op E) → EventBus E
  unfolding new_event_bus
  after [] = new_event_bus
  after (op ∷ earlier) = apply op (after earlier)
