-- ===== src/Dashboard/Logs/Entries.antt =====
-- dashboard/log_buffer.py: the entries that are read are those that were written.
use mathlib.Core.Path.{subst}
use poly_market_prediction_b.Base.{
  append_nil, append_snoc, ℕ, suc, ◌≡◌, ◌∙◌, ap, sym, drop, ◌-◌, arith, String, Option, List, [],
  ◌∷◌, ◌++◌, last_n, last_n-append, select,
}
use poly_market_prediction_b.Number.Integer.{pos}
use poly_market_prediction_b.Dashboard.Logs.{
  LogEntry, LogBuffer, new_buffer, emit, is_wanted, get_entries,
}

abbrev pub emit_all : List LogEntry → LogBuffer → LogBuffer
emit_all [] log = log
emit_all (entry ∷ entries) log = emit_all entries (emit entry log)

-- The last entries of a list that was bounded before, with more behind it.
buffer-emit_all :
    (capacity : ℕ) (before entries : List LogEntry)
    → (emit_all entries (record { capacity = capacity; buffer = last_n capacity before })).buffer
      ≡ last_n capacity (before ++ entries)
unfolding emit
buffer-emit_all capacity before [] = ap (last_n capacity) (sym (append_nil before))
buffer-emit_all capacity before (entry ∷ entries) =
    ap (λ ls. (emit_all entries (record { capacity = capacity; buffer = ls })).buffer)
      (last_n-append capacity before (entry ∷ []))
    ∙ buffer-emit_all capacity (before ++ (entry ∷ [])) entries
    ∙ ap (last_n capacity) (append_snoc before entry entries)

-- After any entries on a new buffer: for a count above zero, the entries read are the last that many
-- of those of the level, among the newest entries that the buffer holds. A count of zero reads all of
-- them.
pub get_entries-emit_all :
    (upper : String → String) (capacity n : ℕ) (level : Option String) (entries : List LogEntry)
    → let log = emit_all entries (new_buffer capacity) in
      let wanted = select (is_wanted upper level) (last_n capacity entries) in
      (get_entries upper (pos (suc n)) level log ≡ last_n (suc n) wanted)
      × (get_entries upper (pos 0) level log ≡ wanted)
unfolding get_entries
get_entries-emit_all upper capacity n level entries =
    let empty : last_n capacity [] ≡ [] =
      let none_left : 0 - capacity ≡ 0 = omega arith in ap (λ k. drop k []) none_left in
    let held =
      subst
        (λ ls.
          (emit_all entries (record { capacity = capacity; buffer = ls })).buffer
          ≡ last_n capacity entries)
        empty (buffer-emit_all capacity [] entries) in
    (
      ap (λ ls. last_n (suc n) (select (is_wanted upper level) ls)) held,
      ap (select (is_wanted upper level)) held,
    )
