-- ===== src/Feeds/Rsi/Closes.antt =====
-- feeds/rsi_feed.py: after any ticks, the closes are the last prices of the minutes that are over.
use poly_market_prediction_b.Base.{
  append_nil, append_snoc, ℕ, ◌-◌, drop, some_of, ◌≤◌, String, ◌≡◌, ◌∙◌, ap, sym, inl, inr, refl,
  some, List, [], ◌∷◌, ◌++◌, ◌==◌, All, All-imp, string_eq, nat_eq, if◌then◌else◌, length, last_n,
  last_n-append, length-last_n-le, arith, Bool-cases,
}
use poly_market_prediction_b.Base.Dict.{beq_self, lookup}
use poly_market_prediction_b.Feeds.Rsi.{Candle, RsiFeed, max_candles, tick}
use poly_market_prediction_b.Feeds.Rsi.Candles.{
  Tick, ticks, init, minute_closes, init-minute_closes, IsOpen, tick_of-lookup, IsFollowed,
  tick_within, tick_past, following,
}

module _ {F : Type 0} where
  closes_all :
      (closes : List F) → length closes ≤ max_candles → last_n max_candles (closes ++ []) ≡ closes
  closes_all closes h =
      let e : length closes - max_candles ≡ 0 = omega arith in
      ap (last_n max_candles) (append_nil closes) ∙ ap (λ k. drop k closes) e

  closed :
      (asset : String) (minute : ℕ) (price p : F) (closes : List F) (rest : List (Tick F))
      → let mine = minute_closes asset minute p rest in
        last_n max_candles (last_n max_candles (closes ++ (price ∷ [])) ++ init mine)
        ≡ last_n max_candles (closes ++ init (price ∷ mine))
  closed asset minute price p closes rest =
      let mine = minute_closes asset minute p rest in
      last_n-append max_candles (closes ++ (price ∷ [])) (init mine)
      ∙ ap (last_n max_candles) (
          append_snoc closes price (init mine)
          ∙ ap (λ ys. closes ++ ys) (sym (init-minute_closes asset minute p price rest)))

  ticks-closes :
      (asset : String) (rest : List (Tick F)) (minute : ℕ) (price : F) (closes : List F)
      (feed : RsiFeed F)
      → 1 ≤ minute
      → IsOpen asset minute price feed
      → lookup asset feed.closes ≡ some closes
      → length closes ≤ max_candles
      → All (IsFollowed feed) rest
      → (end : RsiFeed F) × (ticks rest feed ≡ some end)
        × (lookup asset end.closes
            ≡ some (last_n max_candles (closes ++ init (minute_closes asset minute price rest))))
  unfolding ticks
  ticks-closes asset [] minute price closes feed h o c l f =
      (feed, refl, c ∙ ap some (sym (closes_all closes l)))
  ticks-closes asset ((m, a, p) ∷ rest) minute price closes feed h (earlier, o) c l ((k, i, j), f) =
      let (cs, ec) = some_of (lookup a feed.closes) i in
      let (candle, ek) = some_of (lookup a feed.current_candle) j in
      let (feed', e, g, g') = tick_of-lookup m a p feed cs candle ec ek in
      let next = tick m p cs candle in
      let f' =
        All-imp (IsFollowed feed) (IsFollowed feed') (following m a p feed feed' next.0 next.1 g g')
          rest f in
      elim (Bool-cases (a == asset)) [
        | inl mine ↦
            let held : Candle F = record { open_time = minute; prices = earlier ++ (price ∷ []) } in
            let same : (a ≡ asset) × (cs ≡ closes) × (candle ≡ held) =
              ground (arith, string_eq.beq_iff a asset) in
            elim (Bool-cases (m == minute)) [
              | inl within ↦
                  let (end, run, result) =
                    ticks-closes asset rest m p closes feed' k
                      (
                        earlier ++ (price ∷ []),
                        ground (
                          arith,
                          g' asset,
                          beq_self asset,
                          tick_within m p price closes earlier k,
                        ),
                      )
                      (ground
                        (arith, g asset, beq_self asset, tick_within m p price closes earlier k))
                      l f' in
                  (end, ground (arith, e, run), ground (arith, mine, within, result))
              | inr past ↦
                  let after = last_n max_candles (closes ++ (price ∷ [])) in
                  let (end, run, result) =
                    ticks-closes asset rest m p after feed' k
                      (
                        [],
                        ground (
                          arith,
                          g' asset,
                          beq_self asset,
                          tick_past m minute p price closes earlier h past,
                        ),
                      )
                      (ground (
                        arith,
                        g asset,
                        beq_self asset,
                        tick_past m minute p price closes earlier h past,
                      ))
                      (length-last_n-le max_candles (closes ++ (price ∷ []))) f' in
                  (
                    end,
                    ground (arith, e, run),
                    ground (arith, mine, past, result, closed asset m price p closes rest),
                  )
            ]
        | inr other ↦
            let (end, run, result) =
              ticks-closes asset rest minute price closes feed' h
                (
                  earlier,
                  ground (arith, g' asset, string_eq.beq_iff asset a, string_eq.beq_iff a asset),
                )
                (ground (arith, g asset, string_eq.beq_iff asset a, string_eq.beq_iff a asset)) l
                f' in
            (end, ground (arith, e, run), ground (arith, other, result))
      ]

  -- The last prices of the minutes of the asset that are over at the end of the ticks.
  abbrev pub finished : String → List (Tick F) → List F
  finished asset [] = []
  finished asset ((m, a, p) ∷ rest) =
      if a == asset then init (minute_closes asset m p rest) else finished asset rest

  tick_first :
      (m : ℕ) (p : F)
      → tick m p [] (record { open_time = 0; prices = [] })
        ≡ ([], record { open_time = m; prices = p ∷ [] })
  unfolding tick
  tick_first m p = refl

  pub ticks-finished :
      (asset : String) (rest : List (Tick F)) (feed : RsiFeed F)
      → lookup asset feed.closes ≡ some []
      → lookup asset feed.current_candle ≡ some (record { open_time = 0; prices = [] })
      → All (IsFollowed feed) rest
      → (end : RsiFeed F) × (ticks rest feed ≡ some end)
        × (lookup asset end.closes ≡ some (last_n max_candles (finished asset rest)))
  unfolding ticks
  ticks-finished asset [] feed c o f = (feed, refl, c)
  ticks-finished asset ((m, a, p) ∷ rest) feed c o ((k, i, j), f) =
      let (cs, ec) = some_of (lookup a feed.closes) i in
      let (candle, ek) = some_of (lookup a feed.current_candle) j in
      let (feed', e, g, g') = tick_of-lookup m a p feed cs candle ec ek in
      let next = tick m p cs candle in
      let f' =
        All-imp (IsFollowed feed) (IsFollowed feed') (following m a p feed feed' next.0 next.1 g g')
          rest f in
      elim (Bool-cases (a == asset)) [
        | inl mine ↦
            let empty : Candle F = record { open_time = 0; prices = [] } in
            let same : (a ≡ asset) × (cs ≡ []) × (candle ≡ empty) =
              ground (arith, string_eq.beq_iff a asset) in
            let (end, run, result) =
              ticks-closes asset rest m p [] feed' k
                ([], ground (arith, g' asset, beq_self asset, tick_first m p))
                (ground (arith, g asset, beq_self asset, tick_first m p)) (omega arith) f' in
            (end, ground (arith, e, run), ground (arith, mine, result))
        | inr other ↦
            let (end, run, result) =
              ticks-finished asset rest feed'
                (ground (arith, g asset, string_eq.beq_iff asset a, string_eq.beq_iff a asset))
                (ground (arith, g' asset, string_eq.beq_iff asset a, string_eq.beq_iff a asset))
                f' in
            (end, ground (arith, e, run), ground (arith, other, result))
      ]
