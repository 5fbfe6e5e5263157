-- ===== src/Execution/State.antt =====
-- What `Executor.execute` of execution/executor.py reads of its surroundings, what it keeps, and
-- how a step of it ends.
use poly_market_prediction_b.Base.{
  ℕ, String, Bool, ◌≡◌, ◌⊎◌, inl, inr, refl, arith, Option, none, some, List, string_eq,
  if◌then◌else◌,
}
use poly_market_prediction_b.Core.Types.{
  Signal, MarketInfo, FeedSnapshot, Indicators, FeeConfig, RiskConfig, SizerConfig,
}
use poly_market_prediction_b.Storage.{Database}
use poly_market_prediction_b.Execution.Risk.{Cooldown}
use poly_market_prediction_b.Execution.Window.{Counts}

pub record Inputs (F : Type 0) : Type 0 where
  pub vpn_active : Bool
  pub vpn_at : ℕ
  pub placed_at : ℕ
  pub elapsed_at : ℕ
  pub risk_at : ℕ
  pub trigger_at : ℕ
  pub market : Option (MarketInfo F)
  pub get_best_ask : String → Option F
  pub inserted_at : ℕ
  pub recorded_at : ℕ
  pub cleaned_at : ℕ
  pub dumps : FeedSnapshot F → Indicators F → F → String
  pub text_of : F → String

pub record Settings (F : Type 0) : Type 0 where
  pub fees : FeeConfig F
  pub risk : RiskConfig F
  pub sizer : SizerConfig F

-- The event "trade.placed".
pub record Placed (F : Type 0) : Type 0 where
  pub trade_id : ℕ
  pub strategy : String
  pub asset : String
  pub signal : Signal
  pub entry_price : F
  pub bet_size : F
  pub market_id : String
  pub confidence : F

-- What the executor and the objects that it holds keep.
pub record World (F : Type 0) : Type 0 where
  pub db : Database F
  pub cooldown : Cooldown
  pub counts : Counts
  pub published : List (Placed F)

-- How a step ends: with a value, by `return None`, or by an exception.
pub data Exit {ℓ} (A : Type ℓ) : Type ℓ where
  go : A → Exit A
  skipped : Exit A
  raised : Exit A

-- Code that changes a state of type `S`.
abbrev pub Act : Type 0 → Type 0 → Type 0
Act S A = S → Exit A × S

abbrev pub Step : Type 0 → Type 0 → Type 0
Step F = Act (World F)

infixl 5 ◌>>=◌ ◌>>◌
abbrev pub ◌>>=◌ : {S A B : Type 0} → Act S A → (A → Act S B) → Act S B
◌>>=◌ m f w =
    let (r, w') = m w in elim r [ go a ↦ f a w' | skipped ↦ (skipped, w') | raised ↦ (raised, w') ]

abbrev pub ◌>>◌ : {S B : Type 0} → Act S (Unit {0}) → Act S B → Act S B
m >> k = m >>= λ _. k

module _ {S : Type 0} where
  -- `if not test: return None`
  abbrev pub require : Bool → Act S (Unit {0})
  require test w = (if test then go tt else skipped, w)

  -- A library call or a division that may raise.
  abbrev pub or_raise : {A : Type 0} → Option A → Act S A
  or_raise o w = (elim o [ none ↦ raised | some a ↦ go a ], w)

  abbrev pub or_skip : {A : Type 0} → Option A → Act S A
  or_skip o w = (elim o [ none ↦ skipped | some a ↦ go a ], w)

  -- Inversion of a sequence that ends with a value.
  pub >>=-eq-go :
      {A B : Type 0} (m : Act S A) (f : A → Act S B) (w w' : S) (b : B)
      → (m >>= f) w ≡ (go b, w')
      → (a : A) × (v : S) × (m w ≡ (go a, v)) × (f a v ≡ (go b, w'))
  >>=-eq-go m f w w' b h = by_exit (m w) refl
    where
      by_exit :
          (o : Exit _ × S) → m w ≡ o → (a : _) × (v : S) × (m w ≡ (go a, v)) × (f a v ≡ (go b, w'))
      by_exit (go a, v) e = (a, v, e, ground arith)
      by_exit (skipped, v) e = absurd (ground arith)
      by_exit (raised, v) e = absurd (ground arith)

-- To split on the way that a step ends.
pub Exit-cases : {A : Type 0} (e : Exit A) → ((a : A) × (e ≡ go a)) ⊎ ((e ≡ skipped) ⊎ (e ≡ raised))
Exit-cases (go a) = inl (a, refl)
Exit-cases skipped = inr (inl refl)
Exit-cases raised = inr (inr refl)
