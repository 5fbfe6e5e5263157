-- ===== src/Notifications/Telegram/Rate.antt =====
-- notifications/telegram.py: the requests of any minute.
use poly_market_prediction_b.Base.{
  ℕ, ◌+◌, ◌-◌, ◌≤◌, ◌<◌, ◌≡◌, refl, sym, ap, ◌∙◌, Bool, inl, inr, List, [], ◌∷◌, ◌++◌, map, String,
  arith, length, length-select-le, select, select-append, All, All-append, All-imp, ltb, leb,
  if◌then◌else◌, Bool-cases, Option,
}
use poly_market_prediction_b.Notifications.Telegram.{
  TelegramNotifier, new_notifier, minute, clean, take_slot, send,
}

-- The times of the calls do not go back.
abbrev pub IsAscending : ℕ → List ℕ → Type 0
IsAscending last [] = Unit
IsAscending last (t ∷ ts) = (last ≤ t) × IsAscending t ts

-- The times at which a sequence of calls of `send` makes a request.
unfoldable pub requests : List (ℕ × Option ℕ) → TelegramNotifier → List ℕ
requests [] n = []
requests ((t, answer) ∷ calls) n =
    let rest = requests calls (send t answer n).1 in if (take_slot t n).0 then t ∷ rest else rest

abbrev pub is_recent : ℕ → ℕ → Bool
is_recent now t = leb now (t + minute)

-- Each request is one of at most `limit` in the minute that it ends, given those `before` them.
abbrev pub IsSpaced : ℕ → List ℕ → List ℕ → Type 0
IsSpaced limit before [] = Unit
IsSpaced limit before (t ∷ ts) =
    (length (select (is_recent t) before) + 1 ≤ limit) × IsSpaced limit (before ++ (t ∷ [])) ts

abbrev Gone : ℕ → ℕ → Type 0
Gone last t = t + minute < last

-- What the cleaning takes away from the front is past.
clean-Gone :
    (now : ℕ) (ts : List ℕ) → (gone : List ℕ) × (ts ≡ gone ++ clean now ts) × All (Gone now) gone
unfolding clean
clean-Gone now [] = ([], refl, tt)
clean-Gone now (t ∷ ts) =
    let (gone, e, past) = clean-Gone now ts in
    elim (Bool-cases (ltb minute (now - t))) [
      | inl h ↦ (t ∷ gone, ground (arith, e), (ground arith, past))
      | inr h ↦ ([], ground arith, tt)
    ]

select-Gone :
    (now last : ℕ) (gone : List ℕ)
    → last ≤ now
    → All (Gone last) gone
    → select (is_recent now) gone ≡ []
select-Gone now last [] h a = refl
select-Gone now last (t ∷ gone) h (past, a) = ground (arith, select-Gone now last gone h a)

Gone-later :
    (last now : ℕ) (gone : List ℕ) → last ≤ now → All (Gone last) gone → All (Gone now) gone
Gone-later last now gone h a = All-imp (Gone last) (Gone now) (λ t past. omega arith) gone a

-- What holds between two calls: `before` are the requests so far, and those that the notifier has
-- forgotten are past.
abbrev Remembers : ℕ → List ℕ → TelegramNotifier → Type 0
Remembers last before n = (gone : List ℕ) × (before ≡ gone ++ n.timestamps) × All (Gone last) gone

append_assoc : (xs ys zs : List ℕ) → (xs ++ ys) ++ zs ≡ xs ++ (ys ++ zs)
append_assoc [] ys zs = refl
append_assoc (x ∷ xs) ys zs = ap (λ us. x ∷ us) (append_assoc xs ys zs)

-- The old timestamps go, and what is left of those before is recent.
Remembers-clean :
    (last now : ℕ) (before : List ℕ) (n : TelegramNotifier)
    → last ≤ now
    → Remembers last before n
    → Remembers now before (record n { timestamps = clean now n.timestamps })
      × (length (select (is_recent now) before) ≤ length (clean now n.timestamps))
Remembers-clean last now before n h (gone, e, a) =
    let (more, e', past) = clean-Gone now n.timestamps in
    let kept = clean now n.timestamps in
    let all_gone = All-append (Gone now) gone more (Gone-later last now gone h a) past in
    let split : before ≡ (gone ++ more) ++ kept =
      e ∙ ap (λ ts. gone ++ ts) e' ∙ sym (append_assoc gone more kept) in
    (
      (gone ++ more, split, all_gone),
      ground (
        arith,
        split,
        select-append (is_recent now) (gone ++ more) kept,
        select-Gone now now (gone ++ more) (omega arith) all_gone,
        length-select-le (is_recent now) kept,
      ),
    )

requests-IsSpaced-from :
    (calls : List (ℕ × Option ℕ)) (last : ℕ) (before : List ℕ) (n : TelegramNotifier)
    → Remembers last before n
    → IsAscending last (map (λ c. c.0) calls)
    → IsSpaced n.rate_limit before (requests calls n)
unfolding requests send take_slot
requests-IsSpaced-from [] last before n r asc = tt
requests-IsSpaced-from ((t, answer) ∷ calls) last before n (gone, e, a) (h, asc) =
    elim (Bool-cases n.enabled) [
      | inl on ↦
          let (cleaned, few) = Remembers-clean last t before n h (gone, e, a) in
          let kept = clean t n.timestamps in
          let (old, split, past) = cleaned in
          let extended : before ++ (t ∷ []) ≡ old ++ (kept ++ (t ∷ [])) =
            ap (λ ts. ts ++ (t ∷ [])) split ∙ append_assoc old kept (t ∷ []) in
          let refused = record n { timestamps = kept } in
          let placed = record n { timestamps = kept ++ (t ∷ []) } in
          ground (
            arith,
            few,
            requests-IsSpaced-from calls t before refused cleaned asc,
            requests-IsSpaced-from calls t (before ++ (t ∷ [])) placed (old, extended, past) asc,
          )
      | inr off ↦
          ground (
            arith,
            requests-IsSpaced-from calls t before n (gone, e, Gone-later last t gone h a) asc,
          )
    ]

-- For a notifier that starts anew and calls of `send` at times that do not go back, each request is one
-- of at most `limit` in the 60 seconds that it ends.
pub requests-IsSpaced :
    (bot_token chat_id : String) (enabled : Bool) (limit : ℕ) (calls : List (ℕ × Option ℕ))
    → IsAscending 0 (map (λ c. c.0) calls)
    → IsSpaced limit [] (requests calls (new_notifier bot_token chat_id enabled limit))
requests-IsSpaced bot_token chat_id enabled limit calls asc =
    requests-IsSpaced-from calls 0 [] (new_notifier bot_token chat_id enabled limit) ([], refl, tt)
      asc
