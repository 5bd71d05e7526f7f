-- ===== src/Hooklane/MockSink.antt =====
-- The mock sink, src/hooklane/mock_sink/app.py, less its logs and metrics.
use hooklane.Prelude.{
  ℕ, String, Bool, true, List, [], ◌∷◌, ◌++◌, ◌≡◌, refl, ltb, ◌==◌, ==_refl, any, any-append, ◌∙◌,
  Bool-cases, inl, inr, if◌then◌else◌,
}
use hooklane.Prelude.Outcome.{ok}
use hooklane.Hooklane.Delivery.{Posted, check_status, deliver}

pub data MockSinkMode : Type 0 where
  accept delay post_receipt_delay server_error : MockSinkMode

-- `MockSinkReceipts`: a set of ids, as a list without repetition.
abbrev pub Receipts : Type 0
Receipts = List ℕ

abbrev pub has_receipt : ℕ → Receipts → Bool
has_receipt id receipts = any (λ e. e == id) receipts

unfoldable pub record_receipt : ℕ → Receipts → Receipts
record_receipt id receipts = if has_receipt id receipts then receipts else receipts ++ id ∷ []

unfoldable pub http_reason_code : ℕ → String
http_reason_code status_code =
    if ltb status_code 400
    then "none"
    else if status_code == 429
    then "http_429"
    else if ltb status_code 500
    then "http_4xx"
    else if status_code == 500
    then "internal_error"
    else "http_5xx"

-- The response, how long after the request it is sent, and the receipts after it.
pub record Accepted : Type 0 where
  pub status_code : ℕ
  pub after_ms : ℕ
  pub receipts : Receipts

abbrev pub answered : ℕ → ℕ → Receipts → Accepted
answered status_code after_ms receipts = record {
  status_code = status_code;
  after_ms = after_ms;
  receipts = receipts;
}

-- The sleep of `delay_seconds` comes before the response, and the receipt before or after it.
unfoldable pub accept_delivery : MockSinkMode → ℕ → ℕ → Receipts → Accepted
unfolding record_receipt
accept_delivery MockSinkMode.server_error delay_ms id receipts = answered 503 0 receipts
accept_delivery MockSinkMode.post_receipt_delay delay_ms id receipts =
    answered 204 delay_ms (record_receipt id receipts)
accept_delivery MockSinkMode.delay delay_ms id receipts =
    answered 204 delay_ms (record_receipt id receipts)
accept_delivery MockSinkMode.accept delay_ms id receipts =
    answered 204 0 (record_receipt id receipts)

-- What a client sees that waits for `timeout_ms`.
abbrev pub posted : ℕ → Accepted → Posted
posted timeout_ms a =
    if ltb a.after_ms timeout_ms then Posted.response a.status_code else Posted.timed_out

record_receipt-has_receipt :
    (id : ℕ) (receipts : Receipts) → has_receipt id (record_receipt id receipts) ≡ true
unfolding record_receipt
record_receipt-has_receipt id receipts = elim (Bool-cases (has_receipt id receipts)) [
  | inl e ↦ rw e e
  | inr e ↦
      let found : has_receipt id (receipts ++ id ∷ []) ≡ true =
        any-append (λ x. x == id) receipts (id ∷ []) ∙ rw e (rw (==_refl id) refl) in
      rw e found
]

-- In every mode of the sink and with any delay and any timeout of the client: a delivery that the client
-- of the worker takes as accepted has a receipt in the sink.
pub accepted_has_receipt :
    (mode : MockSinkMode) (delay_ms timeout_ms id : ℕ) (receipts : Receipts)
    → deliver (posted timeout_ms (accept_delivery mode delay_ms id receipts)) ≡ ok tt
    → has_receipt id (accept_delivery mode delay_ms id receipts).receipts ≡ true
unfolding accept_delivery deliver check_status
accepted_has_receipt MockSinkMode.server_error delay_ms timeout_ms id receipts h =
    elim (Bool-cases (ltb 0 timeout_ms)) [
      | inl e ↦ absurd (cc (rw e at h))
      | inr e ↦ absurd (cc (rw e at h))
    ]
accepted_has_receipt MockSinkMode.post_receipt_delay delay_ms timeout_ms id receipts h =
    record_receipt-has_receipt id receipts
accepted_has_receipt MockSinkMode.delay delay_ms timeout_ms id receipts h =
    record_receipt-has_receipt id receipts
accepted_has_receipt MockSinkMode.accept delay_ms timeout_ms id receipts h =
    record_receipt-has_receipt id receipts
