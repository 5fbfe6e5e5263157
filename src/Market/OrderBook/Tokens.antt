-- ===== src/Market/OrderBook/Tokens.antt =====
-- market/orderbook.py, `parse_token_ids`. A text in place of a list has been read by `json.loads`, and
-- outcomes are in lower case.
use poly_market_prediction_b.Base.{
  string_eq, String, Bool, true, false, ◌||◌, Option, none, some, List, [], ◌∷◌, ◌==◌,
  if◌then◌else◌,
}

-- An element of `tokens` that is a dict.
pub record Token : Type 0 where
  pub outcome : String
  pub token_id : Option String

-- The fields of a market: `none` is a `clobTokenIds` that is no list, and a token that is no dict.
pub record Fields : Type 0 where
  pub clob_token_ids : Option (List (Option String))
  pub tokens : List (Option Token)

abbrev pub is_set : Option String → Bool
is_set none = false
is_set (some text) = if text == "" then false else true

-- One turn of the loop over the tokens.
abbrev pub read_token : Option String × Option String → Option Token → Option String × Option String
read_token ids none = ids
read_token (up_id, down_id) (some t) =
    if t.outcome == "yes" || t.outcome == "up"
    then (t.token_id, down_id)
    else if t.outcome == "no" || t.outcome == "down"
    then (up_id, t.token_id)
    else (up_id, down_id)

unfoldable pub read_tokens :
    Option String × Option String → List (Option Token) → Option String × Option String
read_tokens ids [] = ids
read_tokens ids (t ∷ ts) = read_tokens (read_token ids t) ts

-- An id that is set, or else that of the token at a position.
abbrev pub or_token : Option String → Option Token → Option String
or_token id none = id
or_token id (some t) = if is_set id then id else t.token_id

-- The positional fallback.
abbrev pub fall_back :
    List (Option Token) → Option String × Option String → Option String × Option String
fall_back [] ids = ids
fall_back (t ∷ []) (up_id, down_id) = (or_token up_id t, down_id)
fall_back (t ∷ s ∷ ts) (up_id, down_id) = (or_token up_id t, or_token down_id s)

-- The result of the tokens, none where there are none.
abbrev pub by_tokens : List (Option Token) → Option String × Option String
unfolding read_tokens
by_tokens tokens = fall_back tokens (read_tokens (none, none) tokens)

unfoldable pub parse_token_ids : Fields → Option String × Option String
parse_token_ids market = elim market.clob_token_ids [
  | none ↦ by_tokens market.tokens
  | some [] ↦ by_tokens market.tokens
  | some (up_id ∷ []) ↦ by_tokens market.tokens
  | some (up_id ∷ down_id ∷ ids) ↦ (up_id, down_id)
]
