-- ===== src/Tests/Dashboard.antt =====
-- The broker of the WebSocket streams at concrete inputs.
use poly_market_prediction_b.Base.{
  ℕ, String, ◌≡◌, refl, some, List, [], ◌∷◌, ◌++◌, last_n, select, string_eq,
}
use poly_market_prediction_b.Base.Dict.{lookup}
use poly_market_prediction_b.Dashboard.Broker.{
  Message, ClientState, max_queue, new_broker, add_client, unsubscribe, publish, send, deliver, put,
  put_nowait, drain,
}
use poly_market_prediction_b.Dashboard.Broker.Sound.{
  Call, calls, call, IsSound, calls-IsSound, new_broker-IsSound, adds, unsubscribes, publishes,
}
use poly_market_prediction_b.Dashboard.Broker.Stream.{publish_all, is_for, drain-publish_all}

abbrev opening : List (Call ℕ)
opening =
    adds 5 "ana"
    ∷ adds 6 "bob"
    ∷ unsubscribes "ana" ("signals" ∷ "news" ∷ [])
    ∷ publishes 7 "trades" 70
    ∷ []

abbrev ana : ClientState
ana = record {
  client_id = "ana";
  channels = "prices" ∷ "metrics" ∷ "trades" ∷ [];
  connected_at = 5;
  last_pong = 5;
}

abbrev message : String → ℕ → Message ℕ
message ch n = record { channel = ch; payload = n; timestamp = n }

abbrev sent : List (Message ℕ)
sent = message "signals" 8 ∷ message "news" 9 ∷ message "prices" 10 ∷ []

ana_stays : lookup "ana" (calls opening new_broker).clients ≡ some ana
unfolding calls call add_client unsubscribe publish send
ana_stays = refl

drain-publish_all_example :
    let b = calls opening new_broker in
    let (drained, after) = drain "ana" (publish_all sent b) in
    (drained ≡ last_n max_queue ((drain "ana" b).0 ++ select (is_for ana.channels) sent))
    × ((drain "ana" after).0 ≡ [])
drain-publish_all_example = drain-publish_all opening sent "ana" ana ana_stays

drain_run :
    (drain "ana" (publish_all sent (calls opening new_broker))).0
    ≡ record { channel = "trades"; payload = 70; timestamp = 7 } ∷ message "prices" 10 ∷ []
unfolding calls call add_client unsubscribe publish publish_all send deliver put put_nowait drain
drain_run = refl

calls-IsSound_example : IsSound (calls opening new_broker)
calls-IsSound_example = calls-IsSound opening new_broker (new_broker-IsSound ℕ)
