-- ===== src/Enroll/Handler.antt =====
-- internal/security/enroll/service.go: the reservation of a name, and the Enroll call as a whole.
pub mod Outlays
pub mod Spends
pub mod Assigned
pub mod Certified
pub mod Effects
pub mod Adds
use f1337_mcp.Prelude.{
  ℕ, zero, suc, ◌+◌, ◌-◌, ◌*◌, ◌/◌, ◌%◌, ◌^◌, ◌≤◌, ◌<◌, ◌≡◌, refl, sym, ap, ◌∙◌, ◌≢◌, ◌↔◌, ◌⊎◌, inl,
  inr, Bool, true, false, not, ◌&&◌, ◌||◌, Option, none, some, List, [], ◌∷◌, ◌++◌, map,
  append_assoc, append-nil, arith, ltb, leb, ◌==◌, if◌then◌else◌, ltb→lt, lt→ltb, ==_iff,
  Bool-cases, Option-cases, is_some, length, get_elem?, get_or, set, take, drop, replicate, any,
  all, All, length-append, length-set, length-replicate, length-take, length-drop, take-append-drop,
  get_or-set_self, get_or-set_ne, Text, codes, eq_text, eq_text_iff, eq_text_refl, has_prefix,
  is_space, trim_left, trim_space, contains_byte, lower_byte,
}
use f1337_mcp.Enroll.Token.{TokenError, Result, ok, err, is_token_rejection, TokenRecord}
use f1337_mcp.Enroll.Store.{Disk, Clock, TokenStore, inspect, redeem}
use f1337_mcp.Enroll.RateLimit.{RateLimiter, new_rate_limiter, default_rate_window, allow}
use f1337_mcp.Enroll.Service.{
  Request, EnrolledSandbox, Packages, max_name_attempts, check_requested_name, certified_name,
  check_host_description, check_requested_addresses, san_set, certifiable, enrolled_sandbox,
  candidate_name, Recorded, recorded, name_taken, record_failed, FleetPorts, Reserved, assigned,
  uncertifiable, not_redeemed, fleet_failed, no_name_free,
}

pub record World (F : Type 0) : Type 0 where
  pub limiter : RateLimiter
  pub tokens : TokenStore
  pub fleet : F

-- When the calls of one Enroll run, and how the disk does in each.
pub record Moment : Type 0 where
  pub peer : Text
  pub now : ℕ
  pub inspect_clock : Clock
  pub inspect_disk : Disk
  pub redeem_clock : Clock
  pub redeem_disk : Disk

-- ca.SignOptions with the request to sign
pub record Leaf : Type 0 where
  pub csr_der : Text
  pub subject : Text
  pub dns_names : List Text
  pub ip_addresses : List Text

pub data Code : Type 0 where
  resource_exhausted : Code
  unauthenticated : Code
  invalid_argument : Code
  internal : Code

-- The response, with the leaf that was signed for it, or a status code.
pub data Answer : Type 0 where
  enrolled : Text → Leaf → Answer
  refused : Code → Answer

-- `rejectToken`
unfoldable pub reject_token : TokenError → Answer
reject_token e = if not (is_token_rejection e) then refused internal else refused unauthenticated

module _ {F : Type 0} (ports : FleetPorts F) where
  unfoldable pub is_taken : Option (F → Text → Bool) → F → Text → Bool
  is_taken none fleet name = false
  is_taken (some exists_name) fleet name = exists_name fleet name

  unfoldable pub record_outcome :
      (F → Reserved × (TokenStore × F))
      → Text
      → TokenStore
      → F × Recorded
      → Reserved × (TokenStore × F)
  record_outcome go name tokens (fleet, recorded) = (assigned name, (tokens, fleet))
  record_outcome go name tokens (fleet, name_taken) = go fleet
  record_outcome go name tokens (fleet, record_failed) = (fleet_failed, (tokens, fleet))

  -- A round of reserve once the token is spent.
  unfoldable pub try_record :
      (F → Reserved × (TokenStore × F))
      → Option (F → EnrolledSandbox → F × Recorded)
      → EnrolledSandbox
      → TokenStore
      → F
      → Reserved × (TokenStore × F)
  unfolding record_outcome
  try_record go none sb tokens fleet = (assigned sb.name, (tokens, fleet))
  try_record go (some record_sandbox) sb tokens fleet =
      record_outcome go sb.name tokens (record_sandbox fleet sb)

  module _ (sandbox : Text → EnrolledSandbox) (can_certify : Text → Bool)
      (redeem_it : TokenStore → Result TokenRecord × TokenStore) (base : Text) where
    unfoldable pub spend_first :
        (TokenStore → Reserved × (TokenStore × F))
        → F
        → Result TokenRecord × TokenStore
        → Reserved × (TokenStore × F)
    spend_first go fleet (err e, tokens) = (not_redeemed e, (tokens, fleet))
    spend_first go fleet (ok rec, tokens) = go tokens

    -- A round of reserve for a name that is free.
    unfoldable pub try_name :
        (TokenStore → F → Reserved × (TokenStore × F))
        → Text
        → Bool
        → TokenStore
        → F
        → Reserved × (TokenStore × F)
    unfolding try_record spend_first
    try_name go name true tokens fleet =
        if not (can_certify name)
        then (uncertifiable, (tokens, fleet))
        else try_record (go tokens) ports.record_sandbox (sandbox name) tokens fleet
    try_name go name false tokens fleet =
        if not (can_certify name)
        then (uncertifiable, (tokens, fleet))
        else spend_first
            (λ tokens'. try_record (go tokens') ports.record_sandbox (sandbox name) tokens' fleet)
            fleet (redeem_it tokens)

    -- The loop of `reserve`: the rounds left, the number of the round, and whether the token is spent.
    unfoldable pub reserve_from : ℕ → ℕ → Bool → TokenStore → F → Reserved × (TokenStore × F)
    unfolding try_name is_taken
    reserve_from zero i spent tokens fleet = (no_name_free, (tokens, fleet))
    reserve_from (suc n) i spent tokens fleet =
        let next = reserve_from n (i + 1) spent tokens fleet in
        if is_taken ports.exists_name fleet (candidate_name base i)
        then next
        else try_name (reserve_from n (i + 1) true) (candidate_name base i) spent tokens fleet

    unfoldable pub reserve : TokenStore → F → Reserved × (TokenStore × F)
    unfolding reserve_from
    reserve tokens fleet = reserve_from max_name_attempts 0 false tokens fleet

module _ {F : Type 0} (p : Packages) (digest encode : Text → Text) (ports : FleetPorts F)
    (create : Leaf → Bool) where
  -- Whose name the token reserved goes before the one that is asked for.
  unfoldable pub name_for : TokenRecord → Request → Text
  name_for rec req = if eq_text rec.name [] then req.requested_name else rec.name

  -- The checks of `Enroll` on a request, in front of reserve: the loopback hosts that it adds, or `none` for
  -- InvalidArgument.
  unfoldable pub check_request : TokenRecord → Request → Option (List Text)
  check_request rec req =
      if not (check_requested_name req.requested_name)
      then none
      else if not (check_host_description p req)
      then none
      else if not (eq_text rec.name [])
          && (not (eq_text req.requested_name []) && not (eq_text req.requested_name rec.name))
      then none
      else if eq_text rec.name [] && eq_text req.requested_name []
      then none
      else if not
          (is_some (check_requested_addresses p rec.name rec.addresses req.listen_addresses))
      then none
      else if not (p.check_csr req.csr_der)
      then none
      else check_requested_addresses p rec.name rec.addresses req.listen_addresses

  -- `SignCSR`, whose checks of the request and the names come first; `create` is the rest.
  unfoldable pub sign_csr : Leaf → Bool
  sign_csr leaf =
      if not (p.check_csr leaf.csr_der)
      then false
      else if not (certifiable p (leaf.dns_names, leaf.ip_addresses))
      then false
      else create leaf

  unfoldable pub leaf_for : TokenRecord → Request → List Text → Text → Leaf
  leaf_for rec req extra name = record {
    csr_der = req.csr_der;
    subject = certified_name rec.name name;
    dns_names = (san_set p (certified_name rec.name name) rec.addresses extra).0;
    ip_addresses = (san_set p (certified_name rec.name name) rec.addresses extra).1;
  }

  unfoldable pub signed : Text → Leaf → Answer
  unfolding sign_csr
  signed name leaf = if sign_csr leaf then enrolled name leaf else refused internal

  -- What `Enroll` does with the answer of reserve.
  unfoldable pub after_reserve : TokenRecord → Request → List Text → Reserved → Answer
  unfolding signed leaf_for reject_token
  after_reserve rec req extra (assigned name) = signed name (leaf_for rec req extra name)
  after_reserve rec req extra uncertifiable = refused invalid_argument
  after_reserve rec req extra (not_redeemed e) = reject_token e
  after_reserve rec req extra fleet_failed = refused internal
  after_reserve rec req extra no_name_free = refused internal

  unfoldable pub reserving :
      TokenRecord → Request → List Text → Moment → TokenStore → F → Reserved × (TokenStore × F)
  unfolding reserve name_for
  reserving rec req extra m tokens fleet =
      reserve ports (λ name. enrolled_sandbox p rec req name)
        (λ name. certifiable p (san_set p (certified_name rec.name name) rec.addresses extra))
        (λ s. redeem digest encode req.token m.redeem_clock m.redeem_disk s) (name_for rec req)
        tokens fleet

  unfoldable pub finish_enroll :
      TokenRecord
      → Request
      → List Text
      → RateLimiter
      → Reserved × (TokenStore × F)
      → Answer × World F
  unfolding after_reserve
  finish_enroll rec req extra limiter (r, (tokens, fleet)) =
      (after_reserve rec req extra r, record { limiter = limiter; tokens = tokens; fleet = fleet })

  unfoldable pub enroll_checked :
      TokenRecord
      → Request
      → Moment
      → RateLimiter
      → TokenStore
      → F
      → Option (List Text)
      → Answer × World F
  unfolding finish_enroll reserving
  enroll_checked rec req m limiter tokens fleet none =
      (refused invalid_argument, record { limiter = limiter; tokens = tokens; fleet = fleet })
  enroll_checked rec req m limiter tokens fleet (some extra) =
      finish_enroll rec req extra limiter (reserving rec req extra m tokens fleet)

  unfoldable pub enroll_inspected :
      Request → Moment → RateLimiter → F → Result TokenRecord × TokenStore → Answer × World F
  unfolding enroll_checked check_request
  enroll_inspected req m limiter fleet (err e, tokens) =
      (reject_token e, record { limiter = limiter; tokens = tokens; fleet = fleet })
  enroll_inspected req m limiter fleet (ok rec, tokens) =
      enroll_checked rec req m limiter tokens fleet (check_request rec req)

  unfoldable pub enroll_allowed : Request → Moment → World F → Bool × RateLimiter → Answer × World F
  unfolding enroll_inspected
  enroll_allowed req m w (false, limiter) =
      (refused resource_exhausted, record w { limiter = limiter })
  enroll_allowed req m w (true, limiter) =
      enroll_inspected req m limiter w.fleet
        (inspect digest encode req.token m.inspect_clock m.inspect_disk w.tokens)

  -- `Enroll`
  unfoldable pub enroll : Request → Moment → World F → Answer × World F
  unfolding enroll_allowed
  enroll req m w = enroll_allowed req m w (allow m.peer m.now w.limiter)
