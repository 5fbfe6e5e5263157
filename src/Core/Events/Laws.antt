-- ===== src/Core/Events/Laws.antt =====
-- core/events.py: publishing reaches the subscribed handlers, in order, whatever they raise.
use mathlib.Core.List.{append-nil}
use text.Mathlib.TextEquality.{eq_iff}
use poly_market_prediction_b.Base.{
  ℕ, String, not, ◌≡◌, refl, List, [], ◌∷◌, ◌++◌, ◌==◌, string_eq, nat_eq, select, arith,
  if◌then◌else◌, select-append,
}
use poly_market_prediction_b.Base.Dict.{insert, lookup-insert, beq_self}
use poly_market_prediction_b.Core.Events.{
  Bus, handlers_of, subscribe, unsubscribe, Ran, returned, raised, run_all, publish,
}

handlers_of-insert :
    (event other : String) (hs : List ℕ) (bus : Bus)
    → handlers_of other (insert event hs bus)
      ≡ (if other == event then hs else handlers_of other bus)
handlers_of-insert event other hs bus = ground (arith, lookup-insert event other hs bus)

-- A handler that is subscribed to an event and unsubscribed again is gone from the event, however
-- often it was there before; its other handlers stay in order, and so do those of other events.
pub unsubscribe-subscribe :
    (event other : String) (h : ℕ) (bus : Bus)
    → handlers_of other (unsubscribe event h (subscribe event h bus)) ≡ (
        if other == event
        then select (λ k. not (k == h)) (handlers_of event bus)
        else handlers_of other bus)
unfolding subscribe unsubscribe
unsubscribe-subscribe event other h bus =
    let old = handlers_of event bus in
    let keep = λ (k : ℕ). not (k == h) in
    ground (
      arith,
      lookup-insert event event (old ++ (h ∷ [])) bus,
      lookup-insert event other (old ++ (h ∷ [])) bus,
      lookup-insert event other
          (select keep (handlers_of event (insert event (old ++ (h ∷ [])) bus)))
          (insert event (old ++ (h ∷ [])) bus),
      select-append keep old (h ∷ []),
      append-nil (select keep old),
      beq_self event,
    )

module _ {S D : Type 0} (run : ℕ → D → S → Ran S) where
  run_all-append :
      (payload : D) (hs ks : List ℕ) (s : S)
      → run_all run payload (hs ++ ks) s ≡ run_all run payload ks (run_all run payload hs s)
  unfolding run_all
  run_all-append payload [] ks s = refl
  run_all-append payload (h ∷ hs) ks s = run_all-append payload hs ks _

  abbrev after : Ran S → S
  after (returned s) = s
  after (raised s) = s

  -- Publishing runs a newly subscribed handler last, after all that the event had before; for any
  -- other event the subscription changes nothing. An exception of an earlier handler stops no
  -- later one.
  pub publish-subscribe :
      (event other : String) (h : ℕ) (payload : D) (bus : Bus) (s : S)
      → publish run other payload (subscribe event h bus) s ≡ (
          if other == event
          then after (run h payload (publish run other payload bus s))
          else publish run other payload bus s)
  unfolding publish subscribe run_all
  publish-subscribe event other h payload bus s = ground (
    arith,
    eq_iff other event,
    lookup-insert event other (handlers_of event bus ++ (h ∷ [])) bus,
    run_all-append payload (handlers_of event bus) (h ∷ []) s,
  )
