-- ===== src/Hooklane/Redis/Lua.antt =====
-- The tests that the scripts of src/hooklane/queue/events.py make on strings and replies.
use hooklane.Prelude.{
  ℕ, zero, suc, Bool, true, false, not, ◌&&◌, ◌||◌, Option, none, some, List, [], ◌∷◌, leb, ◌==◌,
  length, filter, same, if◌then◌else◌,
}
use hooklane.Hooklane.Redis.Values.{pos, Value, Field, value_eq, field_eq}
use hooklane.Hooklane.Redis.Script.{Kind}

-- `TYPE` is `none` or one other kind; it is that kind.
abbrev pub is_none_or_stream : Kind → Bool
is_none_or_stream Kind.no_kind = true
is_none_or_stream Kind.stream_kind = true
is_none_or_stream _ = false

abbrev pub is_none_or_zset : Kind → Bool
is_none_or_zset Kind.no_kind = true
is_none_or_zset Kind.zset_kind = true
is_none_or_zset _ = false

abbrev pub is_none_or_hash : Kind → Bool
is_none_or_hash Kind.no_kind = true
is_none_or_hash Kind.hash_kind = true
is_none_or_hash _ = false

abbrev pub is_none_kind : Kind → Bool
is_none_kind Kind.no_kind = true
is_none_kind _ = false

abbrev pub is_hash : Kind → Bool
is_hash Kind.hash_kind = true
is_hash _ = false

abbrev pub is_stream : Kind → Bool
is_stream Kind.stream_kind = true
is_stream _ = false

-- A reply of `HGET` against a string.
abbrev pub is_value : Option Value → Value → Bool
is_value none v = false
is_value (some u) v = same u v

abbrev pub every : (ℕ → Bool) → List ℕ → Bool
every p [] = true
every p (c ∷ cs) = p c && every p cs

abbrev pub is_dash : ℕ → Bool
is_dash c = c == 45

abbrev pub is_digit : ℕ → Bool
is_digit c = leb 48 c && leb c 57

abbrev pub is_hex : ℕ → Bool
is_hex c = is_digit c || (leb 97 c && leb c 102) || (leb 65 c && leb c 70)

-- `string.sub(value, n, n) == '-'`, counted from 1.
abbrev pub dash_at : ℕ → List ℕ → Bool
dash_at _ [] = false
dash_at zero (c ∷ cs) = false
dash_at (suc zero) (c ∷ cs) = is_dash c
dash_at (suc (suc n)) (c ∷ cs) = dash_at (suc n) cs

-- `is_uuid` of a string.
unfoldable pub spells_uuid : List ℕ → Bool
spells_uuid value =
    let compact = filter (λ c. not (is_dash c)) value in
    (length value == 36)
    && dash_at 9 value
    && dash_at 14 value
    && dash_at 19 value
    && dash_at 24 value
    && (length compact == 32)
    && every is_hex compact

unfoldable pub is_uuid : Value → Bool
unfolding spells_uuid
is_uuid (Value.uuid n) = true
is_uuid (Value.plain t) = spells_uuid t
is_uuid _ = false

-- `field_value(fields, 'event_id')` may be `nil`.
abbrev pub is_some_uuid : Option Value → Bool
is_some_uuid none = false
is_some_uuid (some v) = is_uuid v

-- `^%d+$`.
abbrev pub spells_digits : List ℕ → Bool
spells_digits [] = false
spells_digits (c ∷ cs) = is_digit c && every is_digit cs

-- The digits after the dash of `^%d+%-%d+$`, once there was a digit.
abbrev pub spells_rest : List ℕ → Bool
spells_rest [] = false
spells_rest (c ∷ cs) = if is_dash c then spells_digits cs else is_digit c && spells_rest cs

abbrev pub spells_stream_id : List ℕ → Bool
spells_stream_id [] = false
spells_stream_id (c ∷ cs) = is_digit c && spells_rest cs

abbrev pub is_count : Value → Bool
is_count (Value.int (pos n)) = true
is_count (Value.plain t) = spells_digits t
is_count _ = false

abbrev pub is_stream_id : Option Value → Bool
is_stream_id (some (Value.id i)) = true
is_stream_id (some (Value.plain t)) = spells_stream_id t
is_stream_id _ = false

-- `tonumber(value) >= 1`, which is a parameter for a string that is no canonical integer.
abbrev pub at_least_one : (List ℕ → Bool) → Value → Bool
at_least_one tonumber (Value.int (pos n)) = leb 1 n
at_least_one tonumber (Value.plain t) = tonumber t
at_least_one tonumber _ = false

-- `attempt_count and string.match(attempt_count, '^%d+$') and tonumber(attempt_count) >= 1`.
abbrev pub is_attempted : (List ℕ → Bool) → Option Value → Bool
is_attempted tonumber none = false
is_attempted tonumber (some v) = is_count v && at_least_one tonumber v

-- The value of a field in the list of a message: the first one, and the last one.
abbrev pub field_value : Field → List (Field × Value) → Option Value
field_value f [] = none
field_value f ((g, v) ∷ fields) = if same g f then some v else field_value f fields

abbrev pub last_value : Option Value → Field → List (Field × Value) → Option Value
last_value found f [] = found
last_value found f ((g, v) ∷ fields) = last_value (if same g f then some v else found) f fields
