-- ===== src/Dashboard/Broker/Delivery.antt =====
-- dashboard/ws_broker.py: the queues that a message reaches.
use poly_market_prediction_b.Base.{
  ◌≤◌, String, ◌≡◌, inl, inr, refl, none, some, List, [], ◌∷◌, ◌++◌, string_eq, arith, length,
  last_n, if◌then◌else◌, Option-cases,
}
use poly_market_prediction_b.Base.Dict.{Dict, lookup, insert, lookup-insert}
use poly_market_prediction_b.Dashboard.Broker.{
  Message, ClientState, contains, max_queue, put, deliver,
}
use poly_market_prediction_b.Dashboard.Broker.Queues.{put-last_n}

-- No key stands twice.
abbrev pub IsDistinct : {V : Type 0} → Dict String V → Type 0
IsDistinct [] = Unit
IsDistinct ((k, v) ∷ rest) = (lookup k rest ≡ none) × IsDistinct rest

module _ {D : Type 0} where
  -- The queue of a client with these channels after a message.
  unfoldable pub receive : List String → Message D → List (Message D) → List (Message D)
  receive subscribed msg queue =
      if contains subscribed msg.channel then last_n max_queue (queue ++ (msg ∷ [])) else queue

  pub deliver-other :
      (msg : Message D) (clients : Dict String ClientState)
      (queues : Dict String (List (Message D))) (id : String)
      → lookup id clients ≡ none
      → lookup id (deliver msg clients queues).1 ≡ lookup id queues
  unfolding deliver
  deliver-other msg [] queues id h = refl
  deliver-other msg ((client_id, state) ∷ rest) queues id h =
      elim (Option-cases (lookup client_id queues)) [
        | inl e ↦ ground (arith, deliver-other msg rest queues id)
        | inr (queue, e) ↦ ground (
          arith,
          deliver-other msg rest queues id,
          deliver-other msg rest (insert client_id (put msg queue).1 queues) id,
          lookup-insert client_id id (put msg queue).1 queues,
        )
      ]

  pub deliver-receive :
      (msg : Message D) (clients : Dict String ClientState)
      (queues : Dict String (List (Message D))) (id : String) (state : ClientState)
      (queue : List (Message D))
      → IsDistinct clients
      → lookup id clients ≡ some state
      → lookup id queues ≡ some queue
      → length queue ≤ max_queue
      → lookup id (deliver msg clients queues).1 ≡ some (receive state.channels msg queue)
  unfolding deliver receive
  deliver-receive msg [] queues id state queue ds h e l = absurd (ground arith)
  deliver-receive msg ((client_id, state') ∷ rest) queues id state queue (fresh, ds) h e l =
      elim (Option-cases (lookup client_id queues)) [
        | inl none_there ↦ ground (
          arith,
          string_eq.beq_iff id client_id,
          deliver-receive msg rest queues id state queue ds,
        )
        | inr (there, e') ↦
            let filled = (put msg there).1 in
            ground (
              arith,
              string_eq.beq_iff id client_id,
              put-last_n msg queue l,
              deliver-receive msg rest queues id state queue ds,
              deliver-receive msg rest (insert client_id filled queues) id state queue ds,
              deliver-other msg rest queues id,
              deliver-other msg rest (insert client_id filled queues) id,
              lookup-insert client_id id filled queues,
            )
      ]
