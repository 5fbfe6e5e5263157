-- ===== src/Dashboard/Broker/Stream.antt =====
-- dashboard/ws_broker.py: what a client is sent.
use poly_market_prediction_b.Base.{
  ℕ, ◌≤◌, String, Bool, true, false, ◌&&◌, ◌≡◌, ◌∙◌, inl, inr, refl, sym, some, List, [], ◌∷◌, ◌++◌,
  string_eq, arith, length, last_n, select, if◌then◌else◌, Option-cases, ap, drop, ◌-◌,
  length-last_n-le,
}
use poly_market_prediction_b.Base.Dict.{beq_self, lookup, lookup-insert}
use poly_market_prediction_b.Dashboard.Broker.{
  Message, ClientState, Broker, channels, contains, max_queue, new_broker, send, publish, drain,
}
use poly_market_prediction_b.Base.Lists.{last_n-append}
use poly_market_prediction_b.Dashboard.Broker.Delivery.{receive, deliver-receive}
use poly_market_prediction_b.Dashboard.Broker.Sound.{
  Call, publishes, call, call-IsSound, calls, IsSound, calls-IsSound, new_broker-IsSound,
}

module _ {D : Type 0} where
  unfoldable pub publish_all : List (Message D) → Broker D → Broker D
  publish_all [] b = b
  publish_all (m ∷ ms) b = publish_all ms (publish m.timestamp m.channel m.payload b).1

  -- Whether a message is for a client with these channels.
  abbrev pub is_for : List String → Message D → Bool
  is_for subscribed m = contains channels m.channel && contains subscribed m.channel

  append-nil : (xs : List (Message D)) → xs ++ [] ≡ xs
  append-nil [] = refl
  append-nil (x ∷ xs) = ap (λ ys. x ∷ ys) (append-nil xs)

  append-snoc :
      (xs : List (Message D)) (m : Message D) (ys : List (Message D))
      → (xs ++ (m ∷ [])) ++ ys ≡ xs ++ (m ∷ ys)
  append-snoc [] m ys = refl
  append-snoc (x ∷ xs) m ys = ap (λ zs. x ∷ zs) (append-snoc xs m ys)

  last_n-all : (n : ℕ) (xs : List (Message D)) → length xs ≤ n → last_n n xs ≡ xs
  last_n-all n xs h = let e : length xs - n ≡ 0 = omega arith in ap (λ k. drop k xs) e

  -- The queue of a client after a message that is for it, or is not.
  abbrev cut : ℕ → Bool → Message D → List (Message D) → List (Message D)
  cut n true m queue = last_n n (queue ++ (m ∷ []))
  cut n false m queue = queue

  length-cut :
      (n : ℕ) (c : Bool) (m : Message D) (queue : List (Message D))
      → length queue ≤ n
      → length (cut n c m queue) ≤ n
  length-cut n true m queue h = length-last_n-le n (queue ++ (m ∷ []))
  length-cut n false m queue h = h

  last_n-cut :
      (n : ℕ) (c : Bool) (m : Message D) (queue rest : List (Message D))
      → last_n n (cut n c m queue ++ rest) ≡ last_n n (queue ++ (if c then m ∷ rest else rest))
  last_n-cut n true m queue rest =
      last_n-append n (queue ++ (m ∷ [])) rest ∙ ap (last_n n) (append-snoc queue m rest)
  last_n-cut n false m queue rest = refl

  publish-cut :
      (m : Message D) (b : Broker D) (id : String) (state : ClientState) (queue : List (Message D))
      → IsSound b
      → lookup id b.clients ≡ some state
      → lookup id b.queues ≡ some queue
      → length queue ≤ max_queue
      → let b' = (publish m.timestamp m.channel m.payload b).1 in
        (lookup id b'.clients ≡ some state)
        × (lookup id b'.queues ≡ some (cut max_queue (is_for state.channels m) m queue))
  unfolding publish send receive
  publish-cut m b id state queue h c q l =
      ground (arith, deliver-receive m b.clients b.queues id state queue h.0 c q l)

  queue-publish_all :
      (ms : List (Message D)) (b : Broker D) (id : String) (state : ClientState)
      (queue : List (Message D))
      → IsSound b
      → lookup id b.clients ≡ some state
      → lookup id b.queues ≡ some queue
      → length queue ≤ max_queue
      → lookup id (publish_all ms b).queues
        ≡ some (last_n max_queue (queue ++ select (is_for state.channels) ms))
  unfolding publish_all call
  queue-publish_all [] b id state queue h c q l =
      q ∙ ap some (sym (ap (last_n max_queue) (append-nil queue) ∙ last_n-all max_queue queue l))
  queue-publish_all (m ∷ ms) b id state queue h c q l =
      let mine = is_for state.channels m in
      let (c', q') = publish-cut m b id state queue h c q l in
      queue-publish_all ms (publish m.timestamp m.channel m.payload b).1 id state
        (cut max_queue mine m queue) (call-IsSound (publishes m.timestamp m.channel m.payload) b h)
        c' q' (length-cut max_queue mine m queue l)
      ∙ ap some (last_n-cut max_queue mine m queue (select (is_for state.channels) ms))

  -- Take a client of a broker that has come to its state by any sequence of calls, and then publish
  -- messages. A drain of the client gives the newest 1000, in their order, of what was waiting and of
  -- the messages on known channels that the client subscribes to. A second drain gives nothing.
  pub drain-publish_all :
      (cs : List (Call D)) (ms : List (Message D)) (id : String) (state : ClientState)
      → lookup id (calls cs new_broker).clients ≡ some state
      → let b = calls cs new_broker in
        let (drained, after) = drain id (publish_all ms b) in
        (drained ≡ last_n max_queue ((drain id b).0 ++ select (is_for state.channels) ms))
        × ((drain id after).0 ≡ [])
  unfolding drain
  drain-publish_all cs ms id state c =
      let b : Broker D = calls cs new_broker in
      let h = calls-IsSound cs new_broker (new_broker-IsSound D) in
      elim (Option-cases (lookup id b.queues)) [
        | inl e ↦ absurd (ground (arith, h.1 id))
        | inr (queue, e) ↦
            let filled = last_n max_queue (queue ++ select (is_for state.channels) ms) in
            ground (
              arith,
              h.1 id,
              queue-publish_all ms b id state queue h c e,
              lookup-insert id id [] (publish_all ms b).queues,
              beq_self id,
            )
      ]
