-- ===== src/Hooklane/Redis/Client/Answers.antt =====
-- What a call of the server leaves behind for a method of src/hooklane/queue/events.py that goes on.
use hooklane.Prelude.{ℕ, Option}
use hooklane.Prelude.Outcome.{Outcome, ok, err}
use hooklane.Run.{Run}
use hooklane.Run.Ensures.{Holds, Ensures, Ensures-pure, Ensures-raise, Ensures-bind, Ensures-state}
use hooklane.Hooklane.Redis.Script.{RedisError}
use hooklane.Hooklane.Redis.Client.{
  Operation, Network, Client, ended, raised, sent, unavailable, or_unavailable, guarded,
}

-- What holds of a server when a call of it was answered holds after a guarded call that returns.
module _ {R A : Type 0} (Q : A → R → Type 0) where
  abbrev pub Answered : Outcome RedisError A → R → Type 0
  Answered (ok a) r = Q a r
  Answered (err e) r = Unit

  module _ (m : Run RedisError R A) (h : (r : R) → Answered (m r).0 (m r).1) where
    ended-Answered : (n : Network) (r : R) → Answered (ended n m r).0 (ended n m r).1
    ended-Answered Network.answered r = h r
    ended-Answered Network.request_lost r = tt
    ended-Answered Network.reply_lost r = tt
    ended-Answered Network.reply_unreadable r = h r

    raised-Answered :
        (n : Network) (o : Outcome RedisError A) (c : Client R)
        → Answered o c.server
        → Holds (λ outcome c. Answered outcome c.server) (raised n o, c)
    raised-Answered Network.answered o c p = p
    raised-Answered Network.request_lost o c p = p
    raised-Answered Network.reply_lost o c p = p
    raised-Answered Network.reply_unreadable o c p = tt

    or_unavailable-Ensures :
        (operation : Operation) (event_id : Option ℕ) (outcome : Outcome RedisError A)
        → Ensures
            (λ (c : Client R). Answered outcome c.server)
            (λ a c. Q a c.server)
            (or_unavailable operation event_id outcome)
    unfolding or_unavailable unavailable
    or_unavailable-Ensures operation event_id (ok a) = Ensures-pure a (λ c q. q)
    or_unavailable-Ensures operation event_id (err e) =
        Ensures-bind {Q = λ a c. Unit} _ _ (Ensures-state _ (λ c p. tt)) (λ a. Ensures-raise _)

    pub guarded-Ensures :
        (operation : Operation) (event_id : Option ℕ)
        → Ensures (λ (c : Client R). Unit) (λ a c. Q a c.server) (guarded operation event_id m)
    unfolding guarded sent
    guarded-Ensures operation event_id =
        Ensures-bind {Q = λ outcome c. Answered outcome c.server} _ _
          (record {
            at = λ c p.
                raised-Answered (c.network c.calls) _ _
                  (ended-Answered (c.network c.calls) (c.others c.calls c.server));
          })
          (or_unavailable-Ensures operation event_id)
