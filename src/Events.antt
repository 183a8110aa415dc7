-- ===== src/Events.antt =====
-- openvtld/internal/events/bus.go: the bus that feeds the SSE clients. The data of an event is a
-- parameter, the map of channels a list: a publication treats each channel on its own.
pub mod Delivery
pub mod Lossless
use open_vtl.Prelude.{
  ℕ, ◌+◌, String, Bool, true, false, ◌&&◌, Option, none, some, List, [], ◌∷◌, ◌++◌, map, length,
  ltb, ◌==◌, if◌then◌else◌, find,
}

module _ (Data : Type 0) where
  pub record Event : Type 0 where
    pub ts : ℕ
    pub kind : String
    pub subject : String
    pub payload : Data

  -- A channel of a subscriber: what it holds, and whether the bus still sends to it. A closed channel
  -- can still be drained.
  pub record Channel : Type 0 where
    pub id : ℕ
    pub buffer : List Event
    pub subscribed : Bool

  pub record Bus : Type 0 where
    pub channels : List Channel
    pub next_id : ℕ

  abbrev pub capacity : ℕ
  capacity = 256

  unfoldable pub new_bus : Bus
  new_bus = record { channels = []; next_id = 0 }

  -- The new channel's id, by which the caller receives and unsubscribes.
  unfoldable pub subscribe : Bus → ℕ × Bus
  subscribe b =
      let ch : Channel = record { id = b.next_id; buffer = []; subscribed = true } in
      (b.next_id, record { channels = b.channels ++ ch ∷ []; next_id = b.next_id + 1 })

  abbrev pub closed : ℕ → Channel → Channel
  closed id ch = if ch.id == id then record ch { subscribed = false } else ch

  unfoldable pub unsubscribe : ℕ → Bus → Bus
  unsubscribe id b = record b { channels = map (closed id) b.channels }

  -- select { case ch <- ev: default: }
  unfoldable pub offer : Event → Channel → Channel
  offer ev ch =
      if ch.subscribed && ltb (length ch.buffer) capacity
      then record ch { buffer = ch.buffer ++ ev ∷ [] }
      else ch

  unfoldable pub publish : Event → Bus → Bus
  publish ev b = record b { channels = map (offer ev) b.channels }

  abbrev pub has_channel_id : ℕ → Channel → Bool
  has_channel_id id ch = ch.id == id

  unfoldable pub channel : ℕ → Bus → Option Channel
  channel id b = find (has_channel_id id) b.channels

  abbrev pub rest : List Event → List Event
  rest [] = []
  rest (e ∷ es) = es

  abbrev pub taken : ℕ → Channel → Channel
  taken id ch = if ch.id == id then record ch { buffer = rest ch.buffer } else ch

  abbrev pub first : List Event → List Event
  first [] = []
  first (e ∷ es) = e ∷ []

  abbrev pub first_of : Option Channel → List Event
  first_of none = []
  first_of (some ch) = first ch.buffer

  -- What a receive on a channel gives, if something is there, and the bus after it.
  unfoldable pub receive : ℕ → Bus → List Event × Bus
  unfolding channel
  receive id b = (first_of (channel id b), record b { channels = map (taken id) b.channels })

  -- What the clients and the daemon do, one after the other.
  pub data Op : Type 0 where
    op_subscribe : Op
    op_publish : Event → Op
    op_receive : ℕ → Op
    op_unsubscribe : ℕ → Op

  -- The events that the client of a channel receives during a run, and the bus after it.
  unfoldable pub received : ℕ → List Op → Bus → List Event × Bus
  received id [] b = ([], b)
  received id (op_subscribe ∷ ops) b = received id ops (subscribe b).1
  received id (op_publish ev ∷ ops) b = received id ops (publish ev b)
  received id (op_unsubscribe j ∷ ops) b = received id ops (unsubscribe j b)
  received id (op_receive j ∷ ops) b =
      let (es, b') = receive j b in
      let (later, b'') = received id ops b' in ((if j == id then es else []) ++ later, b'')

  -- The events that a run publishes.
  unfoldable pub published : List Op → List Event
  published [] = []
  published (op_subscribe ∷ ops) = published ops
  published (op_publish ev ∷ ops) = ev ∷ published ops
  published (op_unsubscribe j ∷ ops) = published ops
  published (op_receive j ∷ ops) = published ops
