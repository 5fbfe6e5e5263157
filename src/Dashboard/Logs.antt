-- ===== src/Dashboard/Logs.antt =====
-- dashboard/log_buffer.py (`LogBuffer`). An entry is taken after its formatting, and `upper` is Python's
-- `str.upper`. Locks and the installation on the root logger are left out.
pub mod Entries
use poly_market_prediction_b.Base.{
  string_eq, ℕ, zero, suc, String, Bool, true, Option, none, some, List, [], ◌∷◌, ◌++◌, ◌==◌, drop,
  last_n, select, if◌then◌else◌,
}
use poly_market_prediction_b.Number.Integer.{ℤ, pos, negsuc}

pub record LogEntry : Type 0 where
  pub timestamp : String
  pub level : String
  pub message : String
  pub logger : String

-- The deque with its bound.
pub record LogBuffer : Type 0 where
  pub capacity : ℕ
  pub buffer : List LogEntry

abbrev pub new_buffer : ℕ → LogBuffer
new_buffer capacity = record { capacity = capacity; buffer = [] }

unfoldable pub emit : LogEntry → LogBuffer → LogBuffer
emit entry log = record log { buffer = last_n log.capacity (log.buffer ++ (entry ∷ [])) }

-- Whether an entry is of the level that is asked for, where one is.
abbrev pub is_wanted : (String → String) → Option String → LogEntry → Bool
is_wanted upper none entry = true
is_wanted upper (some level) entry = if level == "" then true else entry.level == upper level

-- `entries[-n:]`
abbrev pub slice_from_end {ℓ} : {A : Type ℓ} → ℤ → List A → List A
slice_from_end (pos zero) xs = xs
slice_from_end (pos (suc n)) xs = last_n (suc n) xs
slice_from_end (negsuc n) xs = drop (suc n) xs

unfoldable pub get_entries : (String → String) → ℤ → Option String → LogBuffer → List LogEntry
get_entries upper n level log = slice_from_end n (select (is_wanted upper level) log.buffer)
