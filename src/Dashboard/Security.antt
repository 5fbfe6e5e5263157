-- ===== src/Dashboard/Security.antt =====
-- dashboard/security.py: the token bucket, and `dispatch` of the middleware. `call_next` is the rest of
-- the application, `int_of` is Python's `int` of a header, and `none` around a reply is an exception.
-- The monotonic clock is read once for a request. The log is left out.
pub mod Bucket
use text.Mathlib.Text.{starts_with}
use poly_market_prediction_b.Base.{
  string_eq, ℕ, String, Bool, true, false, Option, none, some, List, [], ◌∷◌, ◌==◌, any, get_or,
  if◌then◌else◌,
}
use poly_market_prediction_b.Base.Dict.{Dict, lookup, insert}
use poly_market_prediction_b.Number.{Number, one_f, of_ℕ, fmin}
use poly_market_prediction_b.Number.Integer.{ℤ, pos, ltb_ℤ}

-- `_TokenBucket`
pub record TokenBucket (F : Type 0) : Type 0 where
  pub rate : F
  pub capacity : F
  pub tokens : F
  pub last : F

-- `settings.security`
pub record SecuritySettings (F : Type 0) : Type 0 where
  pub max_body_size : ℕ
  pub rate_limit_rpm : F

pub record Request : Type 0 where
  pub path : String
  pub method : String
  pub client : Option String
  pub content_length : Option String

pub record Reply : Type 0 where
  pub status_code : ℕ
  pub detail : String
  pub headers : Dict String String

-- `_EXEMPT_PATHS`
abbrev pub exempt_paths : List String
exempt_paths = "/metrics" ∷ "/health" ∷ "/api/overview" ∷ []

abbrev pub body_methods : List String
body_methods = "POST" ∷ "PUT" ∷ "PATCH" ∷ []

abbrev pub too_large : Reply
too_large = record { status_code = 413; detail = "Request body too large"; headers = [] }

abbrev pub limited : Reply
limited = record {
  status_code = 429;
  detail = "Rate limit exceeded";
  headers = ("Retry-After", "5") ∷ [];
}

-- The headers of step 4.
unfoldable pub add_headers : String → Reply → Reply
add_headers path reply =
    let headers =
      insert "Permissions-Policy" "camera=(), microphone=(), geolocation=(), payment=()" (
        insert "Referrer-Policy" "strict-origin-when-cross-origin" (
          insert "X-Frame-Options" "SAMEORIGIN"
            (insert "X-Content-Type-Options" "nosniff" reply.headers))) in
    record reply {
      headers =
          if starts_with path "/api/" then insert "Cache-Control" "no-store" headers else headers;
    }

-- The length of the body that a request announces: `none` where `int` raises.
unfoldable pub is_too_large : (String → Option ℤ) → ℕ → Request → Option Bool
is_too_large int_of max_body_size request =
    if any (λ m. m == request.method) body_methods
    then elim request.content_length [
      | none ↦ some false
      | some text ↦
          if text == ""
          then some false
          else elim (int_of text) [ none ↦ none | some n ↦ some (ltb_ℤ (pos max_body_size) n) ]
    ]
    else some false

module _ {F : Type 0} ⦃num : Number F⦄ where
  open num use {add, sub, mul, div, le}

  -- `_TokenBucket(rate, capacity)`
  abbrev pub new_bucket : F → F → F → TokenBucket F
  new_bucket rate capacity now = record {
    rate = rate;
    capacity = capacity;
    tokens = capacity;
    last = now;
  }

  -- The default of `_buckets`.
  abbrev pub default_bucket : SecuritySettings F → F → TokenBucket F
  default_bucket cfg =
      new_bucket (div cfg.rate_limit_rpm (of_ℕ 60))
        (mul (div cfg.rate_limit_rpm (of_ℕ 60)) (of_ℕ 10))

  unfoldable pub allow : F → TokenBucket F → Bool × TokenBucket F
  allow now bucket =
      let elapsed = sub now bucket.last in
      let tokens = fmin bucket.capacity (add bucket.tokens (mul elapsed bucket.rate)) in
      if le one_f tokens
      then (true, record bucket { last = now; tokens = sub tokens one_f })
      else (false, record bucket { last = now; tokens = tokens })

  -- Step 2: whether the request goes on.
  unfoldable pub check_rate :
      SecuritySettings F
      → F
      → Request
      → Dict String (TokenBucket F)
      → Bool × Dict String (TokenBucket F)
  unfolding allow
  check_rate cfg now request buckets =
      if any (λ p. p == request.path) exempt_paths
      then (true, buckets)
      else let client_ip = get_or request.client "unknown" in
        let bucket = get_or (lookup client_ip buckets) (default_bucket cfg now) in
        let (allowed, bucket') = allow now bucket in (allowed, insert client_ip bucket' buckets)

  unfoldable pub dispatch :
      SecuritySettings F
      → (String → Option ℤ)
      → (Request → Option Reply)
      → F
      → Request
      → Dict String (TokenBucket F)
      → Option Reply × Dict String (TokenBucket F)
  unfolding add_headers is_too_large check_rate
  dispatch cfg int_of call_next now request buckets =
      elim (is_too_large int_of cfg.max_body_size request) [
        | none ↦ (none, buckets)
        | some true ↦ (some too_large, buckets)
        | some false ↦
            let (allowed, buckets') = check_rate cfg now request buckets in
            if allowed
            then (
              elim (call_next request) [
                | none ↦ none
                | some reply ↦ some (add_headers request.path reply)
              ],
              buckets',
            )
            else (some limited, buckets')
      ]
