-- ===== src/Dashboard/Broker/Queues.antt =====
-- dashboard/ws_broker.py: what a message put into a queue leaves of it.
use poly_market_prediction_b.Base.{
  ◌≤◌, ◌≡◌, List, [], ◌∷◌, ◌++◌, arith, length, last_n, length-append, length-drop,
}
use poly_market_prediction_b.Base.Lists.{drop-prefix}
use poly_market_prediction_b.Dashboard.Broker.{Message, max_queue, put_nowait, put}

module _ {D : Type 0} where
  -- A message put into a queue of at most 1000 is delivered once, and the queue holds the newest 1000.
  pub put-last_n :
      (msg : Message D) (queue : List (Message D))
      → length queue ≤ max_queue
      → put msg queue ≡ (1, last_n max_queue (queue ++ (msg ∷ [])))
  unfolding put put_nowait
  put-last_n msg queue h =
      ground
        (arith, length-append queue (msg ∷ []), length-drop 1 queue, drop-prefix 1 queue (msg ∷ []))
