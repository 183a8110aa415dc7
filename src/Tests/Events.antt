-- ===== src/Tests/Events.antt =====
-- A run of the bus at a concrete input (openvtld/internal/events/bus.go).
use open_vtl.Events.Lossless.{stays, IsHolding, IsComplete, received-IsComplete}
use open_vtl.Prelude.{◌+◌, ◌≤◌, arith, true, ℕ, ◌≡◌, refl, some, List, [], ◌∷◌, find, length}
use open_vtl.Events.{
  Event, Channel, Bus, subscribe, publish, offer, unsubscribe, channel, receive, Op, op_publish,
  op_receive, op_subscribe, op_unsubscribe, received, published,
}
use open_vtl.Events.Delivery.{Sub, received-Sub}

abbrev event : ℕ → Event ℕ
event n = record { ts = n; kind = "job_update"; subject = "job:1"; payload = n }

abbrev open_channel : Channel ℕ
open_channel = record { id = 0; buffer = event 1 ∷ []; subscribed = true }

abbrev bus : Bus ℕ
bus = record { channels = open_channel ∷ []; next_id = 1 }

abbrev ops : List (Op ℕ)
ops =
    op_publish (event 2)
    ∷ op_receive 0
    ∷ op_subscribe
    ∷ op_receive 0
    ∷ op_unsubscribe 0
    ∷ op_publish (event 3)
    ∷ op_receive 0
    ∷ []

finds : channel ℕ 0 bus ≡ some open_channel
unfolding channel find
finds = refl

-- The event after the end of the subscription is left out.
two_arrive : (received ℕ 0 ops bus).0 ≡ event 1 ∷ event 2 ∷ []
unfolding received receive publish offer unsubscribe subscribe channel find
two_arrive = refl

received-Sub_example : Sub (received ℕ 0 ops bus).0 (event 1 ∷ published ℕ ops)
received-Sub_example = received-Sub ℕ 0 ops bus finds

bus-IsHolding : IsHolding ℕ 0 bus (event 1 ∷ [])
bus-IsHolding = record { at = open_channel; found = finds; is_subscribed = refl; holds = refl }

abbrev staying : List (Op ℕ)
staying = op_publish (event 2) ∷ op_receive 0 ∷ op_publish (event 3) ∷ []

stays_open : stays ℕ 0 staying ≡ true
unfolding stays
stays_open = refl

fits : 1 + length (published ℕ staying) ≤ 256
unfolding published
fits = omega arith

received-IsComplete_example :
    IsComplete ℕ 0 (received ℕ 0 staying bus) (event 1 ∷ published ℕ staying)
received-IsComplete_example =
    received-IsComplete ℕ 0 staying bus (event 1 ∷ []) bus-IsHolding stays_open fits
