-- ===== src/EventBus.antt =====
-- internal/apiserver/eventbus.go: the subscribers and their buffered channels. A method holds the
-- lock of the bus, so it is one step; a subscriber that reads its channel is another.
pub mod Delivery
use schedulator.Prelude.{
  ℕ, suc, ltb, leb, String, Bool, false, ◌&&◌, ◌≡◌, List, [], ◌∷◌, ◌++◌, map, Option, none, some,
  length, if◌then◌else◌, or_else,
}
use schedulator.Model.{Time}

pub record Event (D : Type 0) : Type 0 where
  pub type : String
  pub timestamp : Time
  pub payload : D

-- The channel of a subscriber is the list of the events that wait in it.
pub record EventBus (D : Type 0) : Type 0 where
  pub subscribers : List (ℕ × List (Event D))
  pub next_id : ℕ

abbrev pub capacity : ℕ
capacity = 32

abbrev pub is_same : ℕ → ℕ → Bool
is_same i j = leb i j && leb j i

module _ {D : Type 0} where
  abbrev pub new_event_bus : EventBus D
  new_event_bus = record { subscribers = []; next_id = 0 }

  abbrev pub channel_of : ℕ → List (ℕ × List (Event D)) → Option (List (Event D))
  channel_of id [] = none
  channel_of id ((i, ch) ∷ m) = if is_same i id then some ch else channel_of id m

  abbrev pub put : ℕ → List (Event D) → List (ℕ × List (Event D)) → List (ℕ × List (Event D))
  put id ch [] = (id, ch) ∷ []
  put id ch ((i, old) ∷ m) =
      let rest = put id ch m in if is_same i id then (id, ch) ∷ m else (i, old) ∷ rest

  abbrev pub remove : ℕ → List (ℕ × List (Event D)) → List (ℕ × List (Event D))
  remove id [] = []
  remove id ((i, ch) ∷ m) = let rest = remove id m in if is_same i id then rest else (i, ch) ∷ rest

  -- A new subscriber gets the identifier next_id.
  abbrev pub subscribe : EventBus D → EventBus D
  subscribe b = record { subscribers = put b.next_id [] b.subscribers; next_id = suc b.next_id }

  -- The function that Subscribe returns. Its second call closes a closed channel, which panics:
  -- `none`.
  abbrev pub unsubscribe : ℕ → EventBus D → Option (EventBus D)
  unsubscribe id b = elim (channel_of id b.subscribers) [
    | none ↦ none
    | some ch ↦ some (record b { subscribers = remove id b.subscribers })
  ]

  -- A send that drops the event when the buffer is full.
  abbrev pub offer : Event D → List (Event D) → List (Event D)
  offer e ch = if ltb (length ch) capacity then ch ++ e ∷ [] else ch

  abbrev pub offer_all : Event D → List (ℕ × List (Event D)) → List (ℕ × List (Event D))
  offer_all e [] = []
  offer_all e ((i, ch) ∷ m) = (i, offer e ch) ∷ offer_all e m

  abbrev pub publish : Event D → EventBus D → EventBus D
  publish e b = record b { subscribers = offer_all e b.subscribers }

-- What happens to a bus: `receiving` is a subscriber that reads its channel.
pub data Step (D : Type 0) : Type 0 where
  subscribing : Step D
  unsubscribing : ℕ → Step D
  publishing : Event D → Step D
  receiving : ℕ → Step D

module _ {D : Type 0} where
  abbrev pub drop_first : List (Event D) → List (Event D)
  drop_first [] = []
  drop_first (e ∷ ch) = ch

  abbrev pub first : List (Event D) → List (Event D)
  first [] = []
  first (e ∷ ch) = e ∷ []

  -- A read takes the first event of the channel, and waits if there is none.
  abbrev pub read_channel : ℕ → EventBus D → EventBus D
  read_channel id b = elim (channel_of id b.subscribers) [
    | none ↦ b
    | some ch ↦ record b { subscribers = put id (drop_first ch) b.subscribers }
  ]

  abbrev pub take_step : Step D → EventBus D → Option (EventBus D)
  take_step subscribing b = some (subscribe b)
  take_step (unsubscribing id) b = unsubscribe id b
  take_step (publishing e) b = some (publish e b)
  take_step (receiving id) b = some (read_channel id b)

  unfoldable pub run : List (Step D) → EventBus D → Option (EventBus D)
  run [] b = some b
  run (s ∷ steps) b = elim (take_step s b) [ none ↦ none | some after ↦ run steps after ]

  abbrev pub waiting_events : ℕ → EventBus D → List (Event D)
  waiting_events id b = or_else (channel_of id b.subscribers) []

  -- What the subscriber `id` reads in a step, and in all of them.
  abbrev pub taken : ℕ → Step D → EventBus D → List (Event D)
  taken id subscribing b = []
  taken id (unsubscribing i) b = []
  taken id (publishing e) b = []
  taken id (receiving i) b = if is_same i id then first (waiting_events id b) else []

  unfoldable pub received : ℕ → List (Step D) → EventBus D → List (Event D)
  received id [] b = []
  received id (s ∷ steps) b = elim (take_step s b) [
    | none ↦ []
    | some after ↦ taken id s b ++ received id steps after
  ]

  abbrev pub published : List (Step D) → List (Event D)
  published [] = []
  published (subscribing ∷ steps) = published steps
  published (unsubscribing i ∷ steps) = published steps
  published (publishing e ∷ steps) = e ∷ published steps
  published (receiving i ∷ steps) = published steps

  abbrev pub Stays : ℕ → List (Step D) → Type 0
  Stays id [] = Unit
  Stays id (subscribing ∷ steps) = Stays id steps
  Stays id (unsubscribing i ∷ steps) = (is_same i id ≡ false) × Stays id steps
  Stays id (publishing e ∷ steps) = Stays id steps
  Stays id (receiving i ∷ steps) = Stays id steps
