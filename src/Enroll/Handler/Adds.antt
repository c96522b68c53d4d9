-- ===== src/Enroll/Handler/Adds.antt =====
-- What a call of Enroll writes to the registry, where that is the fleet (internal/cli/fleetctl/serve.go).
use mathlib.Core.Path.{subst}
use f1337_mcp.Prelude.{
  ◌≡◌, refl, sym, ap, ◌⊎◌, inl, inr, Bool, true, false, Option, none, some, List, Bool-cases, Text,
}
use f1337_mcp.Enroll.Service.{
  Request, Packages, max_name_attempts, FleetPorts, Reserved, assigned, san_set, certifiable,
  certified_name, enrolled_sandbox,
}
use f1337_mcp.Enroll.Recorder.{Registered, Circumstances, fleet_ports}
use f1337_mcp.Enroll.RateLimit.{RateLimiter, allow}
use f1337_mcp.Enroll.Store.{TokenStore, inspect, redeem}
use f1337_mcp.Enroll.Token.{Result, ok, err, TokenRecord}
use f1337_mcp.Enroll.Handler.Certified.{reject_token-refuses, after_reserve-enrolled}
use f1337_mcp.Enroll.Handler.{
  World, Moment, Leaf, internal, Answer, enrolled, refused, reserve, name_for, check_request,
  leaf_for, sign_csr, signed, after_reserve, reserving, finish_enroll, enroll_checked,
  enroll_inspected, enroll_allowed, enroll,
}
use f1337_mcp.Enroll.Handler.Effects.{Adds, Effect, kept, added, reserve_from-Effect}

module _ (p : Packages) (digest encode : Text → Text) (c : Circumstances) (create : Leaf → Bool)
    (req : Request) (m : Moment) where
  abbrev ports : FleetPorts Registered
  ports = fleet_ports c

  -- The call adds no entry and answers an error, or one for the token's record: then it answers the name of the entry,
  -- or that the signing failed.
  pub data Addition (w : World Registered) (a : Answer) (w' : World Registered) : Type 0 where
    no_entry :
        ((name : Text) (leaf : Leaf) → ¬ (a ≡ enrolled name leaf))
        → w'.fleet.file ≡ w.fleet.file
        → Addition w a w'
    one_entry :
        (rec : TokenRecord) (name : Text)
        → (inspect digest encode req.token m.inspect_clock m.inspect_disk w.tokens).0 ≡ ok rec
        → Adds c (λ n. enrolled_sandbox p rec req n) name w.fleet.file w'.fleet.file
        → ((leaf : Leaf) × (a ≡ enrolled name leaf)) ⊎ (a ≡ refused internal)
        → Addition w a w'

  reserving-Effect :
      (rec : TokenRecord) (extra : List Text) (tokens : TokenStore) (r : Registered)
      → Effect c
          (λ n. enrolled_sandbox p rec req n)
          r.file
          (reserving p digest encode ports create rec req extra m tokens r)
  unfolding reserving reserve enrolled_sandbox
  reserving-Effect rec extra tokens r =
      reserve_from-Effect c (λ n. enrolled_sandbox p rec req n)
        (λ name. certifiable p (san_set p (certified_name rec.name name) rec.addresses extra))
        (λ s. redeem digest encode req.token m.redeem_clock m.redeem_disk s)
        (name_for p digest encode ports create rec req) (λ n. refl) max_name_attempts 0 false tokens
        r

  signed-answers :
      (name : Text) (leaf : Leaf)
      → ((l : Leaf) × (signed p digest encode ports create name leaf ≡ enrolled name l))
        ⊎ (signed p digest encode ports create name leaf ≡ refused internal)
  unfolding signed
  signed-answers name leaf = elim (Bool-cases (sign_csr p digest encode ports create leaf)) [
    | inl signs ↦ rw signs (inl (leaf, refl))
    | inr fails ↦ rw fails (inr refl)
  ]

  after_assigned :
      (rec : TokenRecord) (extra : List Text) (name : Text)
      → ((leaf : Leaf) × (after_reserve p digest encode ports create rec req extra (assigned name)
            ≡ enrolled name leaf))
        ⊎ (after_reserve p digest encode ports create rec req extra (assigned name)
            ≡ refused internal)
  unfolding after_reserve
  after_assigned rec extra name =
      signed-answers name (leaf_for p digest encode ports create rec req extra name)

  finish_enroll-Addition :
      (w : World Registered) (limiter : RateLimiter) (rec : TokenRecord) (extra : List Text)
      (o : Reserved × (TokenStore × Registered))
      → (inspect digest encode req.token m.inspect_clock m.inspect_disk w.tokens).0 ≡ ok rec
      → Effect c (λ n. enrolled_sandbox p rec req n) w.fleet.file o
      → Addition w
          (finish_enroll p digest encode ports create rec req extra limiter o).0
          (finish_enroll p digest encode ports create rec req extra limiter o).1
  unfolding finish_enroll
  finish_enroll-Addition w limiter rec extra (r, (tokens, fleet)) q (kept none_assigned same) =
      no_entry
        (λ name leaf h.
          none_assigned name
            (after_reserve-enrolled p digest encode ports create req m rec extra r h).0)
        same
  finish_enroll-Addition w limiter rec extra (r, (tokens, fleet)) q (added name is_assigned adds) =
      one_entry rec name q adds (
        subst
          (λ r.
            ((leaf : Leaf) × (after_reserve p digest encode ports create rec req extra r
                ≡ enrolled name leaf))
            ⊎ (after_reserve p digest encode ports create rec req extra r ≡ refused internal))
          (sym is_assigned) (after_assigned rec extra name))

  enroll_checked-Addition :
      (w : World Registered) (limiter : RateLimiter) (rec : TokenRecord) (tokens : TokenStore)
      (o : Option (List Text))
      → (inspect digest encode req.token m.inspect_clock m.inspect_disk w.tokens).0 ≡ ok rec
      → Addition w
          (enroll_checked p digest encode ports create rec req m limiter tokens w.fleet o).0
          (enroll_checked p digest encode ports create rec req m limiter tokens w.fleet o).1
  unfolding enroll_checked
  enroll_checked-Addition w limiter rec tokens none q = no_entry (λ name leaf h. cc) refl
  enroll_checked-Addition w limiter rec tokens (some extra) q =
      finish_enroll-Addition w limiter rec extra
        (reserving p digest encode ports create rec req extra m tokens w.fleet) q
        (reserving-Effect rec extra tokens w.fleet)

  enroll_inspected-Addition :
      (w : World Registered) (limiter : RateLimiter) (r : Result TokenRecord × TokenStore)
      → inspect digest encode req.token m.inspect_clock m.inspect_disk w.tokens ≡ r
      → Addition w
          (enroll_inspected p digest encode ports create req m limiter w.fleet r).0
          (enroll_inspected p digest encode ports create req m limiter w.fleet r).1
  unfolding enroll_inspected
  enroll_inspected-Addition w limiter (err e, s) q =
      no_entry (reject_token-refuses p digest encode ports create req m e) refl
  enroll_inspected-Addition w limiter (ok rec, s) q =
      enroll_checked-Addition w limiter rec s (check_request p digest encode ports create rec req)
        (ap (λ (t : Result TokenRecord × TokenStore). t.0) q)

  enroll_allowed-Addition :
      (w : World Registered) (l : Bool × RateLimiter)
      → Addition w
          (enroll_allowed p digest encode ports create req m w l).0
          (enroll_allowed p digest encode ports create req m w l).1
  unfolding enroll_allowed
  enroll_allowed-Addition w (false, limiter) = no_entry (λ name leaf h. cc) refl
  enroll_allowed-Addition w (true, limiter) =
      enroll_inspected-Addition w limiter
        (inspect digest encode req.token m.inspect_clock m.inspect_disk w.tokens) refl

  -- With the registry as its fleet, a call of Enroll leaves the registry file as it was and
  -- answers an error, or it adds the host that the token record and the request describe as the
  -- one new entry, at the end, under a name that no entry had, and then answers that name or
  -- that the signing failed.
  pub enroll-Addition :
      (w : World Registered)
      → Addition w
          (enroll p digest encode ports create req m w).0
          (enroll p digest encode ports create req m w).1
  unfolding enroll
  enroll-Addition w = enroll_allowed-Addition w (allow m.peer m.now w.limiter)
