-- ===== src/Enroll/Handler/Spends.antt =====
-- What a call of Enroll does to the token store and the fleet.
use mathlib.Core.Path.{subst}
use f1337_mcp.Enroll.RateLimit.{RateLimiter, allow}
use f1337_mcp.Prelude.{
  ◌≡◌, refl, sym, ap, ◌⊎◌, inl, inr, Bool, true, false, Option, none, some, List, Text,
}
use f1337_mcp.Enroll.Token.{TokenError, Result, ok, err, TokenRecord}
use f1337_mcp.Enroll.Store.{inspect, redeem, TokenStore}
use f1337_mcp.Enroll.Service.{
  certified_name, san_set, certifiable, enrolled_sandbox, max_name_attempts, Request, Packages,
  FleetPorts, Reserved,
}
use f1337_mcp.Enroll.Handler.{
  name_for, Answer, refused, internal, invalid_argument, reject_token, resource_exhausted,
  check_request, reserve, after_reserve, reserving, enroll_checked, enroll_allowed, finish_enroll,
  enroll, World, enroll_inspected, Moment, Leaf,
}
use f1337_mcp.Enroll.Handler.Outlays.{
  Outlay, nothing_spent, none_redeemed, one_redeemed, reserve_from-Outlay,
}

module _ {F : Type 0} (p : Packages) (digest encode : Text → Text) (ports : FleetPorts F)
    (create : Leaf → Bool) (req : Request) (m : Moment) where
  abbrev looked_up : World F → Result TokenRecord × TokenStore
  looked_up w = inspect digest encode req.token m.inspect_clock m.inspect_disk w.tokens

  abbrev redeemed_from : TokenStore → Result TokenRecord × TokenStore
  redeemed_from s = redeem digest encode req.token m.redeem_clock m.redeem_disk s

  -- What a call costs.
  pub data Cost (w : World F) (a : Answer) (w' : World F) : Type 0 where
    limited :
        a ≡ refused resource_exhausted → w'.tokens ≡ w.tokens → w'.fleet ≡ w.fleet → Cost w a w'
    unknown_token :
        (e : TokenError)
        → (looked_up w).0 ≡ err e
        → a ≡ reject_token e
        → w'.tokens ≡ (looked_up w).1
        → w'.fleet ≡ w.fleet
        → Cost w a w'
    turned_down :
        (rec : TokenRecord)
        → (looked_up w).0 ≡ ok rec
        → (a ≡ refused invalid_argument) ⊎ (a ≡ refused internal)
        → w'.tokens ≡ (looked_up w).1
        → w'.fleet ≡ w.fleet
        → Cost w a w'
    lost_token :
        (rec : TokenRecord) (extra : List Text) (e : TokenError)
        → (looked_up w).0 ≡ ok rec
        → check_request p digest encode ports create rec req ≡ some extra
        → redeemed_from (looked_up w).1 ≡ (err e, w'.tokens)
        → a ≡ reject_token e
        → w'.fleet ≡ w.fleet
        → Cost w a w'
    token_spent :
        (rec rec' : TokenRecord) (extra : List Text)
        → (looked_up w).0 ≡ ok rec
        → check_request p digest encode ports create rec req ≡ some extra
        → redeemed_from (looked_up w).1 ≡ (ok rec', w'.tokens)
        → Cost w a w'

  finish_enroll-Cost :
      (w : World F) (limiter : RateLimiter) (rec : TokenRecord) (extra : List Text)
      (o : Reserved × (TokenStore × F))
      → (looked_up w).0 ≡ ok rec
      → check_request p digest encode ports create rec req ≡ some extra
      → Outlay redeemed_from (looked_up w).1 w.fleet o
      → Cost w
          (finish_enroll p digest encode ports create rec req extra limiter o).0
          (finish_enroll p digest encode ports create rec req extra limiter o).1
  unfolding finish_enroll after_reserve
  finish_enroll-Cost w limiter rec extra (r, (tokens, fleet)) q c (nothing_spent k (inl bad)) =
      turned_down rec q (inl (rw bad refl)) (ap (λ (t : TokenStore × F). t.0) k)
        (ap (λ (t : TokenStore × F). t.1) k)
  finish_enroll-Cost w limiter rec extra (r, (tokens, fleet)) q c (nothing_spent k (inr bad)) =
      turned_down rec q (inr (rw bad refl)) (ap (λ (t : TokenStore × F). t.0) k)
        (ap (λ (t : TokenStore × F). t.1) k)
  finish_enroll-Cost w limiter rec extra (r, (tokens, fleet)) q c (none_redeemed e bad k f) =
      lost_token rec extra e q c k (rw bad refl) f
  finish_enroll-Cost w limiter rec extra (r, (tokens, fleet)) q c (one_redeemed rec' ne k) =
      token_spent rec rec' extra q c k

  reserving-Outlay :
      (rec : TokenRecord) (extra : List Text) (tokens : TokenStore) (fleet : F)
      → Outlay redeemed_from tokens fleet
          (reserving p digest encode ports create rec req extra m tokens fleet)
  unfolding reserving reserve
  reserving-Outlay rec extra tokens fleet =
      reserve_from-Outlay ports (λ name. enrolled_sandbox p rec req name)
        (λ name. certifiable p (san_set p (certified_name rec.name name) rec.addresses extra))
        redeemed_from (name_for p digest encode ports create rec req) max_name_attempts 0 tokens
        fleet

  enroll_checked-Cost :
      (w : World F) (limiter : RateLimiter) (rec : TokenRecord) (c : Option (List Text))
      → (looked_up w).0 ≡ ok rec
      → check_request p digest encode ports create rec req ≡ c
      → Cost w
          (enroll_checked p digest encode ports create rec req m limiter
            (looked_up w).1
            w.fleet
            c).0
          (enroll_checked p digest encode ports create rec req m limiter
            (looked_up w).1
            w.fleet
            c).1
  unfolding enroll_checked
  enroll_checked-Cost w limiter rec none q k = turned_down rec q (inl refl) refl refl
  enroll_checked-Cost w limiter rec (some extra) q k =
      finish_enroll-Cost w limiter rec extra
        (reserving p digest encode ports create rec req extra m (looked_up w).1 w.fleet) q k
        (reserving-Outlay rec extra (looked_up w).1 w.fleet)

  enroll_inspected-Cost :
      (w : World F) (limiter : RateLimiter) (r : Result TokenRecord × TokenStore)
      → looked_up w ≡ r
      → Cost w
          (enroll_inspected p digest encode ports create req m limiter w.fleet r).0
          (enroll_inspected p digest encode ports create req m limiter w.fleet r).1
  unfolding enroll_inspected
  enroll_inspected-Cost w limiter (err e, s) q =
      unknown_token e (ap (λ (t : Result TokenRecord × TokenStore). t.0) q) refl
        (sym (ap (λ (t : Result TokenRecord × TokenStore). t.1) q)) refl
  enroll_inspected-Cost w limiter (ok rec, s) q =
      let is_ok = ap (λ (t : Result TokenRecord × TokenStore). t.0) q in
      let is_s = ap (λ (t : Result TokenRecord × TokenStore). t.1) q in
      subst
        (λ s.
          Cost w
            (enroll_checked p digest encode ports create rec req m limiter s w.fleet
              (check_request p digest encode ports create rec req)).0
            (enroll_checked p digest encode ports create rec req m limiter s w.fleet
              (check_request p digest encode ports create rec req)).1)
        is_s (enroll_checked-Cost w limiter rec _ is_ok refl)

  enroll_allowed-Cost :
      (w : World F) (l : Bool × RateLimiter)
      → Cost w
          (enroll_allowed p digest encode ports create req m w l).0
          (enroll_allowed p digest encode ports create req m w l).1
  unfolding enroll_allowed
  enroll_allowed-Cost w (false, limiter) = limited refl refl refl
  enroll_allowed-Cost w (true, limiter) = enroll_inspected-Cost w limiter (looked_up w) refl

  -- A call of Enroll answers an error with the fleet unchanged and the tokens as they were, or
  -- as looking the token up left them; or the request has passed its checks and the tokens are
  -- as one redemption left them, and if that redemption failed, the fleet is unchanged and the
  -- answer is the rejection of the token.
  pub enroll-Cost :
      (w : World F)
      → Cost w
          (enroll p digest encode ports create req m w).0
          (enroll p digest encode ports create req m w).1
  unfolding enroll
  enroll-Cost w = enroll_allowed-Cost w (allow m.peer m.now w.limiter)
