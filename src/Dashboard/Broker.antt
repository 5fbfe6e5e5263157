-- ===== src/Dashboard/Broker.antt =====
-- dashboard/ws_broker.py: clients, their channels and queues. A set of channels is a list, and the
-- `data` of a message is its `payload`, in the parameter `D`. `get_message` is its two outcomes: what it finds at the time
-- it is answered, or `None`. The gauges and counters and the log are left out.
pub mod Queues
pub mod Delivery
pub mod Sound
pub mod Stream
use poly_market_prediction_b.Base.{
  ℕ, zero, suc, ◌+◌, String, Bool, not, ◌||◌, Option, none, some, List, [], ◌∷◌, ◌++◌, ◌==◌,
  string_eq, length, drop, select, any, ltb, if◌then◌else◌, get_or, map,
}
use poly_market_prediction_b.Base.Dict.{Dict, lookup, insert, erase}

-- `CHANNELS`
abbrev pub channels : List String
channels = "prices" ∷ "signals" ∷ "metrics" ∷ "trades" ∷ []

abbrev pub max_queue : ℕ
max_queue = 1_000

-- `ch in names`
abbrev pub contains : List String → String → Bool
contains names ch = any (λ name. name == ch) names

pub record Message (D : Type 0) : Type 0 where
  pub channel : String
  pub payload : D
  pub timestamp : ℕ

-- The field `queue`, which nothing reads or writes, is left out.
pub record ClientState : Type 0 where
  pub client_id : String
  pub channels : List String
  pub connected_at : ℕ
  pub last_pong : ℕ

pub record Broker (D : Type 0) : Type 0 where
  pub clients : Dict String ClientState
  pub queues : Dict String (List (Message D))
  pub snapshot : Dict String (Option (Message D))

module _ {D : Type 0} where
  abbrev pub new_broker : Broker D
  new_broker = record { clients = []; queues = []; snapshot = map (λ ch. (ch, none)) channels }

  unfoldable pub add_client : ℕ → String → Broker D → ClientState × Broker D
  add_client now client_id b =
      let state : ClientState = record {
        client_id = client_id;
        channels = channels;
        connected_at = now;
        last_pong = now;
      } in
      (
        state,
        record b {
          clients = insert client_id state b.clients;
          queues = insert client_id [] b.queues;
        },
      )

  unfoldable pub remove_client : String → Broker D → Broker D
  remove_client client_id b = record b {
    clients = erase client_id b.clients;
    queues = erase client_id b.queues;
  }

  abbrev pub set_channels : String → ClientState → List String → Broker D → Broker D
  set_channels client_id state names b = record b {
    clients = insert client_id (record state { channels = names }) b.clients;
  }

  unfoldable pub subscribe : String → List String → Broker D → List String × Broker D
  subscribe client_id names b = elim (lookup client_id b.clients) [
    | none ↦ ([], b)
    | some state ↦
        let valid = select (contains channels) names in
        let added = select (λ ch. not (contains state.channels ch)) valid in
        (valid, set_channels client_id state (state.channels ++ added) b)
  ]

  unfoldable pub unsubscribe : String → List String → Broker D → List String × Broker D
  unsubscribe client_id names b = elim (lookup client_id b.clients) [
    | none ↦ ([], b)
    | some state ↦
        let valid = select (contains channels) names in
        let kept = select (λ ch. not (contains valid ch)) state.channels in
        (valid, set_channels client_id state kept b)
  ]

  -- `queue.put_nowait(msg)`; `none` is `asyncio.QueueFull`.
  unfoldable pub put_nowait : Message D → List (Message D) → Option (List (Message D))
  put_nowait msg queue = if ltb (length queue) max_queue then some (queue ++ (msg ∷ [])) else none

  -- A message put into a queue, without the oldest where the queue is full; and how often.
  unfoldable pub put : Message D → List (Message D) → ℕ × List (Message D)
  unfolding put_nowait
  put msg queue = elim (put_nowait msg queue) [
    | some filled ↦ (1, filled)
    | none ↦
        let dropped = drop 1 queue in
        elim (put_nowait msg dropped) [ some filled ↦ (1, filled) | none ↦ (0, dropped) ]
  ]

  -- The loop of `publish`.
  unfoldable pub deliver :
      Message D
      → Dict String ClientState
      → Dict String (List (Message D))
      → ℕ × Dict String (List (Message D))
  unfolding put
  deliver msg [] queues = (0, queues)
  deliver msg ((client_id, state) ∷ rest) queues =
      if contains state.channels msg.channel
      then elim (lookup client_id queues) [
        | none ↦ deliver msg rest queues
        | some queue ↦
            let (n, filled) = put msg queue in
            let (delivered, queues') = deliver msg rest (insert client_id filled queues) in
            (n + delivered, queues')
      ]
      else deliver msg rest queues

  -- `publish` behind its guard.
  unfoldable pub send : Message D → Broker D → ℕ × Broker D
  unfolding deliver
  send msg b =
      let (delivered, queues) = deliver msg b.clients b.queues in
      (delivered, record b { queues = queues; snapshot = insert msg.channel (some msg) b.snapshot })

  unfoldable pub publish : ℕ → String → D → Broker D → ℕ × Broker D
  unfolding send
  publish now channel payload b =
      if contains channels channel
      then send (record { channel = channel; payload = payload; timestamp = now }) b
      else (0, b)

  -- `queue.get()`, which waits for a message where there is none.
  abbrev pub take_front : String → List (Message D) → Broker D → Option (Message D) × Broker D
  take_front client_id [] b = (none, b)
  take_front client_id (msg ∷ rest) b =
      (some msg, record b { queues = insert client_id rest b.queues })

  unfoldable pub get_message : String → Broker D → Option (Message D) × Broker D
  get_message client_id b = elim (lookup client_id b.queues) [
    | none ↦ (none, b)
    | some queue ↦ take_front client_id queue b
  ]

  unfoldable pub drain : String → Broker D → List (Message D) × Broker D
  drain client_id b = elim (lookup client_id b.queues) [
    | none ↦ ([], b)
    | some queue ↦ (queue, record b { queues = insert client_id [] b.queues })
  ]

  abbrev collect : Dict String (Option (Message D)) → List (Message D)
  collect [] = []
  collect ((ch, none) ∷ rest) = collect rest
  collect ((ch, some msg) ∷ rest) = msg ∷ collect rest

  unfoldable pub get_snapshot : Broker D → List (Message D)
  get_snapshot b = collect b.snapshot
