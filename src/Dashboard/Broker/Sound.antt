-- ===== src/Dashboard/Broker/Sound.antt =====
-- dashboard/ws_broker.py: the broker after any sequence of calls.
use poly_market_prediction_b.Base.{
  ℕ, ◌≤◌, String, ◌≡◌, inl, inr, refl, Option, none, some, List, [], ◌∷◌, ◌++◌, string_eq, arith,
  length, length-last_n-le, Bool-cases, Option-cases,
}
use poly_market_prediction_b.Base.Dict.{Dict, lookup, insert, erase, lookup-insert, lookup-erase}
use poly_market_prediction_b.Dashboard.Broker.{
  Message, ClientState, Broker, channels, contains, max_queue, new_broker, add_client,
  remove_client, set_channels, subscribe, unsubscribe, send, publish, get_message, drain,
  take_front,
}
use poly_market_prediction_b.Dashboard.Broker.Delivery.{
  IsDistinct, receive, deliver-other, deliver-receive,
}

module _ {V : Type 0} where
  pub insert-IsDistinct :
      (k : String) (v : V) (d : Dict String V) → IsDistinct d → IsDistinct (insert k v d)
  insert-IsDistinct k v [] h = (refl, tt)
  insert-IsDistinct k v ((j, w) ∷ d) (fresh, h) = ground (
    arith,
    string_eq.beq_iff k j,
    string_eq.beq_iff j k,
    lookup-insert k j v d,
    insert-IsDistinct k v d h,
  )

  pub erase-IsDistinct : (k : String) (d : Dict String V) → IsDistinct d → IsDistinct (erase k d)
  erase-IsDistinct k [] h = tt
  erase-IsDistinct k ((j, w) ∷ d) (fresh, h) =
      ground (arith, lookup-erase k j d, erase-IsDistinct k d h)

-- The calls that change a broker.
pub data Call (D : Type 0) : Type 0 where
  adds : ℕ → String → Call D
  removes : String → Call D
  subscribes : String → List String → Call D
  unsubscribes : String → List String → Call D
  publishes : ℕ → String → D → Call D
  gets : String → Call D
  drains : String → Call D

module _ {D : Type 0} where
  unfoldable pub call : Call D → Broker D → Broker D
  call (adds now id) b = (add_client now id b).1
  call (removes id) b = remove_client id b
  call (subscribes id names) b = (subscribe id names b).1
  call (unsubscribes id names) b = (unsubscribe id names b).1
  call (publishes now ch payload) b = (publish now ch payload b).1
  call (gets id) b = (get_message id b).1
  call (drains id) b = (drain id b).1

  unfoldable pub calls : List (Call D) → Broker D → Broker D
  unfolding call
  calls [] b = b
  calls (c ∷ cs) b = calls cs (call c b)

  abbrev pub IsFitting : Option ClientState → Option (List (Message D)) → Type 0
  IsFitting none none = Unit
  IsFitting none (some queue) = ⊥
  IsFitting (some state) none = ⊥
  IsFitting (some state) (some queue) = length queue ≤ max_queue

  -- No client stands twice; the clients are those that have a queue; no queue is above its bound.
  abbrev pub IsSound : Broker D → Type 0
  IsSound b =
      IsDistinct b.clients × ((id : String) → IsFitting (lookup id b.clients) (lookup id b.queues))

  send-IsSound : (msg : Message D) (b : Broker D) → IsSound b → IsSound (send msg b).1
  unfolding send receive
  send-IsSound msg b (d, fits) = (
    d,
    λ id. elim (Option-cases (lookup id b.clients)) [
      | inl e ↦ ground (arith, fits id, deliver-other msg b.clients b.queues id e)
      | inr (state, e) ↦ elim (Option-cases (lookup id b.queues)) [
        | inl e' ↦ absurd (ground (arith, fits id))
        | inr (queue, e') ↦ ground (
          arith,
          fits id,
          deliver-receive msg b.clients b.queues id state queue d e e',
          length-last_n-le max_queue (queue ++ (msg ∷ [])),
        )
      ]
    ],
  )

  set_channels-IsSound :
      (id : String) (old state : ClientState) (names : List String) (b : Broker D)
      → lookup id b.clients ≡ some old
      → IsSound b
      → IsSound (set_channels id state names b)
  set_channels-IsSound id old state names b e (d, fits) = (
    insert-IsDistinct id (record state { channels = names }) b.clients d,
    λ j. ground (
      arith,
      string_eq.beq_iff j id,
      lookup-insert id j (record state { channels = names }) b.clients,
      fits j,
    ),
  )

  refill-IsSound :
      (id : String) (old filled : List (Message D)) (b : Broker D)
      → lookup id b.queues ≡ some old
      → length filled ≤ length old
      → IsSound b
      → IsSound (record b { queues = insert id filled b.queues })
  refill-IsSound id old filled b e l (d, fits) =
      (d, λ j. ground (arith, string_eq.beq_iff j id, lookup-insert id j filled b.queues, fits j))

  take_front-IsSound :
      (id : String) (queue : List (Message D)) (b : Broker D)
      → lookup id b.queues ≡ some queue
      → IsSound b
      → IsSound (take_front id queue b).1
  take_front-IsSound id [] b e h = h
  take_front-IsSound id (msg ∷ rest) b e h = refill-IsSound id (msg ∷ rest) rest b e (omega arith) h

  pub call-IsSound : (c : Call D) (b : Broker D) → IsSound b → IsSound (call c b)
  unfolding call add_client remove_client subscribe unsubscribe publish get_message drain
  call-IsSound (adds now id) b (d, fits) =
      let state = (add_client now id b).0 in
      (
        insert-IsDistinct id state b.clients d,
        λ j.
            ground
              (arith, lookup-insert id j state b.clients, lookup-insert id j [] b.queues, fits j),
      )
  call-IsSound (removes id) b (d, fits) = (
    erase-IsDistinct id b.clients d,
    λ j. ground (arith, lookup-erase id j b.clients, lookup-erase id j b.queues, fits j),
  )
  call-IsSound (subscribes id names) b h = elim (Option-cases (lookup id b.clients)) [
    | inl e ↦ rw (call, subscribe, e) h
    | inr (state, e) ↦ rw (call, subscribe, e) (set_channels-IsSound id state state _ b e h)
  ]
  call-IsSound (unsubscribes id names) b h = elim (Option-cases (lookup id b.clients)) [
    | inl e ↦ rw (call, unsubscribe, e) h
    | inr (state, e) ↦ rw (call, unsubscribe, e) (set_channels-IsSound id state state _ b e h)
  ]
  call-IsSound (publishes now ch payload) b h = elim (Bool-cases (contains channels ch)) [
    | inl e ↦ rw (call, publish, e) (send-IsSound _ b h)
    | inr e ↦ rw (call, publish, e) h
  ]
  call-IsSound (gets id) b h = elim (Option-cases (lookup id b.queues)) [
    | inl e ↦ rw (call, get_message, e) h
    | inr (queue, e) ↦ rw (call, get_message, e) (take_front-IsSound id queue b e h)
  ]
  call-IsSound (drains id) b h = elim (Option-cases (lookup id b.queues)) [
    | inl e ↦ rw (call, drain, e) h
    | inr (queue, e) ↦ rw (call, drain, e) (refill-IsSound id queue [] b e (omega arith) h)
  ]

  -- After any sequence of calls, no client stands twice, the clients are those that have a queue, and
  -- no queue is above 1000 messages.
  pub calls-IsSound : (cs : List (Call D)) (b : Broker D) → IsSound b → IsSound (calls cs b)
  unfolding calls
  calls-IsSound [] b h = h
  calls-IsSound (c ∷ cs) b h = calls-IsSound cs (call c b) (call-IsSound c b h)

pub new_broker-IsSound : (D : Type 0) → IsSound (new_broker {D = D})
new_broker-IsSound D = (tt, λ id. tt)
