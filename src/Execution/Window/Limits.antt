-- ===== src/Execution/Window/Limits.antt =====
-- `_WindowTracker` of execution/executor.py: orders are counted one by one, and stay within a limit.
use text.Mathlib.TextEquality.{eq_iff}
use poly_market_prediction_b.Base.{
  ℕ, ◌+◌, ◌≤◌, String, Bool, true, ◌≡◌, none, some, List, [], ◌∷◌, ◌==◌, string_eq, nat_eq, pair_eq,
  ◌||◌, ◌&&◌, if◌then◌else◌, leb, length, select, arith, All, Eq, Bool-cases, inl, inr,
}
use poly_market_prediction_b.Base.Dict.{Dict, lookup, insert, lookup-insert, beq_self}
use poly_market_prediction_b.Execution.Window.{
  Counts, window_key, is_current, cleanup, count, can_place, record_order,
}

-- The assets that the bot trades.
abbrev pub is_traded : String → Bool
is_traded a = a == "BTC" || (a == "ETH" || a == "SOL")

lookup-select :
    {K V : Type 0} ⦃e : Eq K⦄ (k : K) (q : K → Bool) (d : Dict K V)
    → lookup k (select (λ x. q x.0) d) ≡ (if q k then lookup k d else none)
lookup-select ⦃e⦄ k q [] = ground arith
lookup-select ⦃e⦄ k q ((j, v) ∷ d) = ground (arith, e.beq_iff k j, lookup-select k q d)

window_key-is_current :
    (now : ℕ) (a : String) → is_traded a ≡ true → is_current now (window_key now a) ≡ true
unfolding window_key
window_key-is_current now a h = ground arith

-- A cleanup drops no count of a window that is running.
lookup-cleanup :
    (now : ℕ) (s a : String) (counts : Counts)
    → is_traded a ≡ true
    → lookup (s, (a, window_key now a)) (cleanup now counts)
      ≡ lookup (s, (a, window_key now a)) counts
unfolding cleanup
lookup-cleanup now s a counts h = ground (
  arith,
  window_key-is_current now a h,
  lookup-select (s, (a, window_key now a)) (λ k. is_current now k.1.1) counts,
)

-- Where the clock enters no new window before the cleanup, an order of a traded asset adds one to
-- the count of its strategy, asset and window, returns that count, and leaves every other count of
-- a running window.
pub count-record_order :
    (now cleaned_at : ℕ) (s a s' a' : String) (counts : Counts)
    → is_traded a ≡ true
    → is_traded a' ≡ true
    → window_key cleaned_at a ≡ window_key now a
    → window_key cleaned_at a' ≡ window_key now a'
    → let (n, counts') = record_order now cleaned_at s a counts in
      (n ≡ some (count now s a counts + 1))
      × (count now s' a' counts' ≡ count now s' a' counts + (if s' == s && a' == a then 1 else 0))
unfolding record_order count
count-record_order now cleaned_at s a s' a' counts h h' e e' =
    let key : String × (String × ℕ) = (s, (a, window_key now a)) in
    let key' : String × (String × ℕ) = (s', (a', window_key now a')) in
    let all = insert key (count now s a counts + 1) counts in
    let mine : lookup key (cleanup cleaned_at all) ≡ lookup key all =
      rw e at (lookup-cleanup cleaned_at s a all h) in
    let theirs : lookup key' (cleanup cleaned_at all) ≡ lookup key' all =
      rw e' at (lookup-cleanup cleaned_at s' a' all h') in
    ground (
      arith,
      mine,
      theirs,
      lookup-insert key key (count now s a counts + 1) counts,
      lookup-insert key key' (count now s a counts + 1) counts,
      beq_self {K = String × (String × ℕ)} key,
      eq_iff a' a,
      eq_iff s' s,
      beq_self {K = ℕ} (window_key now a),
    )

All-select :
    {A : Type 0} (P : A → Type 0) (p : A → Bool) (xs : List A) → All P xs → All P (select p xs)
All-select P p [] h = tt
All-select P p (x ∷ xs) h = ground (arith, All-select P p xs h.1)

All-insert :
    {K V : Type 0} ⦃e : Eq K⦄ (P : K × V → Type 0) (k : K) (v : V) (d : Dict K V)
    → P (k, v)
    → All P d
    → All P (insert k v d)
All-insert P k v [] p h = (p, tt)
All-insert ⦃e⦄ P k v ((j, w) ∷ d) p h = ground (arith, e.beq_iff k j, All-insert P k v d p h.1)

-- Every count is within the limit of its strategy and asset.
unfoldable pub IsLimited : (String → String → ℕ) → Counts → Type 0
IsLimited limit counts = All (λ e. e.1 ≤ limit e.0.0 e.0.1.0) counts

-- An order that `can_place` allows in the window that it is recorded in keeps every count within
-- the limit of its strategy and asset.
pub record_order-IsLimited :
    (limit : String → String → ℕ) (now cleaned_at : ℕ) (s a : String) (counts : Counts)
    → IsLimited limit counts
    → can_place now s a (limit s a) counts ≡ true
    → IsLimited limit (record_order now cleaned_at s a counts).1
unfolding record_order count can_place cleanup IsLimited
record_order-IsLimited limit now cleaned_at s a counts bounded free =
    let key : String × (String × ℕ) = (s, (a, window_key now a)) in
    let all = insert key (count now s a counts + 1) counts in
    let inside =
      All-insert (λ e. e.1 ≤ limit e.0.0 e.0.1.0) key (count now s a counts + 1) counts
        (ground arith) bounded in
    elim (Bool-cases (leb (length all) 500)) [
      | inl few ↦ rw few inside
      | inr many ↦ rw many (All-select _ _ all inside)
    ]
