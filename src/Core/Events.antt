-- ===== src/Core/Events.antt =====
-- core/events.py: the event bus. A handler is named by the identity of its object; what it does to
-- the rest of the program, and whether it raises, is the argument `run`. Handlers do not change
-- the bus while it publishes.
pub mod Laws
use poly_market_prediction_b.Base.{
  ℕ, String, Bool, not, Option, none, some, List, [], ◌∷◌, ◌++◌, ◌==◌, string_eq, nat_eq, select,
  get_or,
}
use poly_market_prediction_b.Base.Dict.{Dict, lookup, insert}

abbrev pub Bus : Type 0
Bus = Dict String (List ℕ)

-- `self._handlers.get(event, [])`
abbrev pub handlers_of : String → Bus → List ℕ
handlers_of event bus = get_or (lookup event bus) []

unfoldable pub subscribe : String → ℕ → Bus → Bus
subscribe event handler bus = insert event (handlers_of event bus ++ (handler ∷ [])) bus

unfoldable pub unsubscribe : String → ℕ → Bus → Bus
unsubscribe event handler bus =
    insert event (select (λ h. not (h == handler)) (handlers_of event bus)) bus

-- What a handler leaves: it returned, or it raised.
pub data Ran (S : Type 0) : Type 0 where
  returned : S → Ran S
  raised : S → Ran S

module _ {S D : Type 0} where
  -- The loop of `publish`: an exception is printed, and the next handler runs.
  unfoldable pub run_all : (ℕ → D → S → Ran S) → D → List ℕ → S → S
  run_all run payload [] s = s
  run_all run payload (h ∷ hs) s =
      run_all run payload hs (elim (run h payload s) [ returned s' ↦ s' | raised s' ↦ s' ])

  unfoldable pub publish : (ℕ → D → S → Ran S) → String → D → Bus → S → S
  unfolding run_all
  publish run event payload bus s = run_all run payload (handlers_of event bus) s
