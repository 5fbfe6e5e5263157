-- ===== src/Strategies/Trend/Confirm.antt =====
-- strategies/multi_tf.py: the confirmation always answers, and the candles stay bounded.
use mathlib.Core.List.{reverse, reverse_aux}
use poly_market_prediction_b.Base.{
  ℕ, ◌+◌, ◌≤◌, String, Bool, true, false, ◌≡◌, refl, some, List, [], ◌∷◌, ◌++◌, string_eq, ltb,
  length, arith, Bool-cases, inl, inr, ◌⊎◌, length-last_n-le,
}
use poly_market_prediction_b.Base.Dict.{lookup-insert, beq_self}
use poly_market_prediction_b.Core.Types.{Signal}
use poly_market_prediction_b.Number.{Number, of_ℕ, one_f}
use poly_market_prediction_b.Strategies.Trend.{
  Trend, Trends, CandleBuilder, Builders, ema, ema_after, compute_trend, builders_of, tick, update,
  is_confirmed, get_trend, agrees, ensure_asset, new_builders, trend_of_slope, close_candle,
}

length-reverse_aux :
    {A : Type 0} (xs ys : List A) → length (reverse_aux xs ys) ≡ length xs + length ys
length-reverse_aux [] ys = omega arith
length-reverse_aux (x ∷ xs) ys = omega (arith, length-reverse_aux xs (x ∷ ys))

length-reverse : {A : Type 0} (xs : List A) → length (reverse xs) ≡ length xs
length-reverse xs = omega (arith, length-reverse_aux xs [])

agrees_one : (t : Trend) → (agrees Signal.buy_yes t ≡ true) ⊎ (agrees Signal.buy_no t ≡ true)
agrees_one Trend.up = inl refl
agrees_one Trend.down = inr refl
agrees_one Trend.flat = inl refl

-- At most twenty closed candles of either length.
pub record IsBounded {F : Type 0} (b : Builders F) : Type 0 where
  pub minutes : length b.one_minute.closes ≤ 20
  pub fives : length b.five_minute.closes ≤ 20

module _ {F : Type 0} ⦃num : Number F⦄ where
  length-ema_after : (k v : F) (xs : List F) → length (ema_after k v xs) ≡ length xs
  unfolding ema_after
  length-ema_after k v [] = refl
  length-ema_after k v (x ∷ xs) =
      omega (arith, length-ema_after k (num.add (num.mul x k) (num.mul v (num.sub one_f k))) xs)

  length-ema : (xs : List F) (n : ℕ) → length (ema xs n) ≡ length xs
  unfolding ema
  length-ema [] n = refl
  length-ema (x ∷ xs) n = omega (arith, length-ema_after (num.div (of_ℕ 2) (of_ℕ (n + 1))) x xs)

  -- The slope never lacks a value.
  compute_trend_total : (closes : List F) → (t : Trend) × (compute_trend closes ≡ some t)
  unfolding compute_trend
  compute_trend_total closes = elim (Bool-cases (ltb (length closes) 5)) [
    | inl few ↦ (Trend.flat, ground arith)
    | inr many ↦ by_values (reverse (ema closes 5)) many refl
  ]
    where
      by_values :
          (rs : List F)
          → ltb (length closes) 5 ≡ false
          → reverse (ema closes 5) ≡ rs
          → (t : Trend) × (compute_trend closes ≡ some t)
      by_values [] many e =
          absurd (ground (arith, length-reverse (ema closes 5), length-ema closes 5))
      by_values (last ∷ []) many e =
          absurd (ground (arith, length-reverse (ema closes 5), length-ema closes 5))
      by_values (last ∷ (previous ∷ more)) many e =
          (trend_of_slope (num.sub last previous), ground arith)

  builders_of-ensure_asset :
      (asset : String) (trends : Trends F)
      → builders_of asset (ensure_asset asset trends) ≡ builders_of asset trends
  unfolding builders_of ensure_asset
  builders_of-ensure_asset asset trends =
      ground (arith, lookup-insert asset asset new_builders trends, beq_self asset)

  -- The confirmation always answers, and of the two directions it refuses at most one.
  pub is_confirmed_lem :
      (asset : String) (trends : Trends F)
      → (yes_ok : Bool) × (no_ok : Bool) × ((is_confirmed asset Signal.buy_yes trends).0
          ≡ some yes_ok)
        × ((is_confirmed asset Signal.buy_no trends).0 ≡ some no_ok)
        × ((yes_ok ≡ true) ⊎ (no_ok ≡ true))
  unfolding is_confirmed get_trend
  is_confirmed_lem asset trends =
      let b = builders_of asset trends in
      let (t, e) = compute_trend_total b.one_minute.closes in
      let same = builders_of-ensure_asset asset trends in
      elim (Bool-cases (ltb (length b.one_minute.closes) 5)) [
        | inl few ↦ (true, true, ground arith, ground arith, inl refl)
        | inr many ↦ (
          agrees Signal.buy_yes t,
          agrees Signal.buy_no t,
          ground arith,
          ground arith,
          agrees_one t,
        )
      ]

  close_candle_bound : (b : CandleBuilder F) → length b.closes ≤ 20 → length (close_candle b) ≤ 20
  close_candle_bound b h = by_prices (reverse b.cur_prices) refl
    where
      by_prices : (rs : List F) → reverse b.cur_prices ≡ rs → length (close_candle b) ≤ 20
      by_prices [] e = ground arith
      by_prices (last ∷ before) e = ground (arith, length-last_n-le 20 (b.closes ++ (last ∷ [])))

  tick_bound :
      (price : F) (ts : ℕ) (b : CandleBuilder F)
      → length b.closes ≤ 20
      → length (tick price ts b).closes ≤ 20
  unfolding tick
  tick_bound price ts b h = let closed = close_candle_bound b h in ground arith

  -- A tick keeps at most twenty closed candles of every asset in both timeframes.
  pub update-IsBounded :
      (asset other : String) (price : F) (ts : ℕ) (trends : Trends F)
      → IsBounded (builders_of asset trends)
      → IsBounded (builders_of other trends)
      → IsBounded (builders_of other (update asset price ts trends))
  unfolding update builders_of
  update-IsBounded asset other price ts trends own rest =
      let b = builders_of asset trends in
      let after : Builders F = record {
        one_minute = tick price ts b.one_minute;
        five_minute = tick price ts b.five_minute;
      } in
      let one = tick_bound price ts b.one_minute own.minutes in
      let five = tick_bound price ts b.five_minute own.fives in
      record {
        minutes = ground (arith, lookup-insert asset other after trends);
        fives = ground (arith, lookup-insert asset other after trends);
      }
