-- ===== src/Cloudflare/Services/Laws.antt =====
-- What the services of cloudflare/src/hooklane_cf/core.py rely on from an `EventStore`: its replies
-- are true of its state when it gives them.
use hooklane.Prelude.{ℕ, true, Option, none, some, ◌≡◌}
use hooklane.Cloudflare.Contract.{EventStatus}
use hooklane.Cloudflare.Core.{
  DeliveryErrorClass, DeliveryStart, DeliveryStartDisposition, EventRecord,
}
use hooklane.Run.Ensures.{Ensures}
use hooklane.Cloudflare.D1.Tables.{is_terminal}
use hooklane.Cloudflare.Services.Setting.{EventStore}

module _ {W : Type 0} (Stands : ℕ → EventStatus → W → Type 0) where
  abbrev pub StartStands : ℕ → DeliveryStart → W → Type 0
  StartStands id d w =
      d.disposition ≡ DeliveryStartDisposition.terminal
      → Stands id d.status w × (is_terminal d.status ≡ true)

  abbrev pub StatusStands : ℕ → Option EventRecord → W → Type 0
  StatusStands id none w = Unit
  StatusStands id (some found) w = is_terminal found.status ≡ true → Stands id found.status w

-- `Stands id status w`: the event has the status in the state `w`. `limit` is the number of
-- attempts that the service allows.
pub record EventStoreLaws {W : Type 0} (store : EventStore W) (limit : ℕ) (Sound : W → Type 0)
    (Stands : ℕ → EventStatus → W → Type 0) : Type 0 where
  pub start :
      (id : ℕ)
      → Ensures Sound
          (λ d w. Sound w × StartStands Stands id d w)
          (store.mark_delivery_started id limit)
  pub delivered :
      (id token : ℕ)
      → Ensures Sound
          (λ moved w. Sound w × (moved ≡ true → Stands id EventStatus.delivered w))
          (store.mark_delivered id token)
  pub retry :
      (id : ℕ) (reason : DeliveryErrorClass) (token : ℕ)
      → Ensures Sound
          (λ moved w. Sound w × (moved ≡ true → Stands id EventStatus.retry_scheduled w))
          (store.mark_retry id reason token)
  pub dead_letter :
      (id : ℕ) (reason : DeliveryErrorClass) (token : ℕ)
      → Ensures Sound
          (λ moved w. Sound w × (moved ≡ true → Stands id EventStatus.dead_letter w))
          (store.mark_dead_letter id reason token)
  pub status : (id : ℕ) → Ensures Sound (StatusStands Stands id) (store.get_status id)
