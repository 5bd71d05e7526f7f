-- ===== src/Cloudflare/Contract.antt =====
-- The public models of cloudflare/src/hooklane_cf/contract.py. Texts are lists of code points, a
-- `UUID` is its integer, a hex digest is the number that it spells.
pub mod Chunks
use hooklane.Prelude.{
  ℕ, ◌+◌, Bool, true, false, not, ◌&&◌, ◌||◌, Option, none, some, List, [], ◌∷◌, ltb, leb, ◌==◌,
  any, length, if◌then◌else◌,
}

pub data EventStatus : Type 0 where
  queued delivering retry_scheduled delivered dead_letter : EventStatus

-- A value of `JsonValue`; a number is carried as the text of its literal.
mutual
  pub data JsonValue : Type 0 where
    null : JsonValue
    boolean : Bool → JsonValue
    number : List ℕ → JsonValue
    text : List ℕ → JsonValue
    array : Items → JsonValue
    object : Fields → JsonValue

  pub data Items : Type 0 where
    nil : Items
    cons : JsonValue → Items → Items

  pub data Fields : Type 0 where
    end : Fields
    field : List ℕ → JsonValue → Fields → Fields

pub record EventRequest : Type 0 where
  pub event_type : List ℕ
  pub payload : Fields

-- The code points that `str.strip` removes.
pub is_space : ℕ → Bool
is_space c =
    (leb 9 c && leb c 13)
    || (leb 28 c && leb c 32)
    || (c == 133)
    || (c == 160)
    || (c == 5760)
    || (leb 8192 c && leb c 8202)
    || (c == 8232)
    || (c == 8233)
    || (c == 8239)
    || (c == 8287)
    || (c == 12288)

-- `Field(min_length=1, max_length=128)`, and `value.strip()` is not empty.
unfoldable pub event_type_is_valid : List ℕ → Bool
unfolding is_space
event_type_is_valid value =
    leb 1 (length value) && leb (length value) 128 && any (λ c. not (is_space c)) value

-- `EventRequest(event_type=…, payload=…)`; `none` is a `ValidationError`.
unfoldable pub event_request : List ℕ → JsonValue → Option EventRequest
event_request event_type (object payload) =
    if event_type_is_valid event_type
    then some (record { event_type = event_type; payload = payload })
    else none
event_request event_type _ = none
