-- ===== src/Enroll/Handler/Certified.antt =====
-- What a certificate that Enroll answers stands for.
use f1337_mcp.Enroll.Service.Hosts.{ips_of-All, dns_of-All, sort_texts-All, IsHostIp, san_hosts-All}
use f1337_mcp.Prelude.{
  Has, ℕ, ◌<◌, ◌≡◌, refl, ap, ◌∙◌, inl, inr, Bool, true, false, Option, none, some, List, [], arith,
  Bool-cases, All, Text, eq_text, eq_text_refl,
}
use f1337_mcp.Enroll.RateLimit.{RateLimiter, allow}
use f1337_mcp.Enroll.Token.{TokenError, Result, ok, err, TokenRecord}
use f1337_mcp.Enroll.Store.{inspect, redeem, TokenStore}
use f1337_mcp.Enroll.Service.{
  no_name_free, fleet_failed, uncertifiable, ips_of, not_redeemed, dns_of, enrolled_sandbox,
  san_set, certifiable, is_loopback_ip, san_hosts, host_of, max_name_attempts,
  check_requested_addresses, certified_name, Request, Packages, candidate_name, FleetPorts,
  Reserved, assigned,
}
use f1337_mcp.Enroll.Handler.{
  finish_enroll, enroll_checked, enroll_inspected, enroll_allowed, enroll, World, Answer, enrolled,
  reject_token, reserve, signed, leaf_for, after_reserve, sign_csr, reserving, name_for,
  check_request, Moment, Leaf,
}
use f1337_mcp.Enroll.Handler.Assigned.{reserve_from-Names}

module _ {F : Type 0} (p : Packages) (digest encode : Text → Text) (ports : FleetPorts F)
    (create : Leaf → Bool) (req : Request) (m : Moment) where
  -- What a leaf for a token may stand for: the assigned name if the token reserves one, a host of the addresses that the
  -- token authorizes, or a loopback address that the request names.
  pub data MayStandFor (rec : TokenRecord) (name h : Text) : Type 0 where
    own_name : eq_text rec.name [] ≡ false → h ≡ name → MayStandFor rec name h
    by_token : (addr : Text) → Has rec.addresses addr → h ≡ host_of p addr → MayStandFor rec name h
    loopback :
        (addr : Text)
        → Has req.listen_addresses addr
        → h ≡ host_of p addr
        → is_loopback_ip p (p.parse_ip h) ≡ true
        → MayStandFor rec name h

  abbrev pub IsCertifiedDns : TokenRecord → Text → Text → Type 0
  IsCertifiedDns rec name h = MayStandFor rec name h × (p.parse_ip h ≡ none)

  pub record IsCertified (rec : TokenRecord) (name : Text) (leaf : Leaf) : Type 0 where
    pub round : ℕ
    pub early : round < max_name_attempts
    pub is_candidate : name ≡ candidate_name (name_for p digest encode ports create rec req) round
    pub for_request : leaf.csr_der ≡ req.csr_der
    pub good_request : p.check_csr req.csr_der ≡ true
    pub subject : leaf.subject ≡ certified_name rec.name name
    pub dns : All (λ h. IsCertifiedDns rec name h) leaf.dns_names
    pub ips : All (IsHostIp p (MayStandFor rec name)) leaf.ip_addresses
    pub good_names : certifiable p (leaf.dns_names, leaf.ip_addresses) ≡ true

  check_request-some :
      (rec : TokenRecord) {extra : List Text}
      → check_request p digest encode ports create rec req ≡ some extra
      → (p.check_csr req.csr_der ≡ true)
        × (check_requested_addresses p rec.name rec.addresses req.listen_addresses ≡ some extra)
  unfolding check_request
  check_request-some rec h = ground arith

  certified_name-MayStandFor :
      (rec : TokenRecord) (name : Text)
      → eq_text (certified_name rec.name name) [] ≡ false
      → MayStandFor rec name (certified_name rec.name name)
  unfolding certified_name
  certified_name-MayStandFor rec name h = elim (Bool-cases (eq_text rec.name [])) [
    | inl unreserved ↦ absurd (cc (rw (unreserved, eq_text_refl []) at h))
    | inr reserved ↦ rw reserved (own_name reserved refl)
  ]

  leaf_for-hosts :
      (rec : TokenRecord) (name : Text) {extra : List Text}
      → check_requested_addresses p rec.name rec.addresses req.listen_addresses ≡ some extra
      → All (MayStandFor rec name) (san_hosts p (certified_name rec.name name) rec.addresses extra)
  leaf_for-hosts rec name e =
      san_hosts-All p (MayStandFor rec name) (certified_name rec.name name) rec.addresses
        req.listen_addresses (certified_name-MayStandFor rec name) (λ addr h. by_token addr h refl)
        (λ addr h l. loopback addr h refl l) rec.name e

  leaf_for-IsCertified :
      (rec : TokenRecord) (name : Text) (extra : List Text) (i : ℕ)
      → check_request p digest encode ports create rec req ≡ some extra
      → i < max_name_attempts
      → name ≡ candidate_name (name_for p digest encode ports create rec req) i
      → certifiable p (san_set p (certified_name rec.name name) rec.addresses extra) ≡ true
      → IsCertified rec name (leaf_for p digest encode ports create rec req extra name)
  unfolding leaf_for san_set
  leaf_for-IsCertified rec name extra i e lt is_name good =
      let (csr, checked) = check_request-some rec e in
      let hosts = san_hosts p (certified_name rec.name name) rec.addresses extra in
      let fine = leaf_for-hosts rec name checked in
      record {
        round = i;
        early = lt;
        is_candidate = is_name;
        for_request = refl;
        good_request = csr;
        subject = refl;
        dns =
            sort_texts-All (λ h. IsCertifiedDns rec name h) (dns_of p hosts)
              (dns_of-All p (MayStandFor rec name) hosts fine);
        ips =
            sort_texts-All (IsHostIp p (MayStandFor rec name)) (ips_of p hosts)
              (ips_of-All p (MayStandFor rec name) hosts fine);
        good_names = good;
      }

  reserving-Names :
      (rec : TokenRecord) (extra : List Text) (tokens : TokenStore) (fleet : F) (name : Text)
      → (reserving p digest encode ports create rec req extra m tokens fleet).0 ≡ assigned name
      → (i : ℕ) × (i < max_name_attempts)
        × (name ≡ candidate_name (name_for p digest encode ports create rec req) i)
        × (certifiable p (san_set p (certified_name rec.name name) rec.addresses extra) ≡ true)
  unfolding reserving reserve enrolled_sandbox
  reserving-Names rec extra tokens fleet name h =
      reserve_from-Names ports (λ name. enrolled_sandbox p rec req name)
        (λ name. certifiable p (san_set p (certified_name rec.name name) rec.addresses extra))
        (λ s. redeem digest encode req.token m.redeem_clock m.redeem_disk s)
        (name_for p digest encode ports create rec req) (λ n. refl) max_name_attempts 0 false tokens
        fleet name h

  -- Once a request has passed the checks and a name is reserved, the checks of SignCSR pass for
  -- the leaf: signing fails only if the creation of the certificate does.
  pub reserving-sign_csr :
      (rec : TokenRecord) (extra : List Text) (tokens : TokenStore) (fleet : F) (name : Text)
      → check_request p digest encode ports create rec req ≡ some extra
      → (reserving p digest encode ports create rec req extra m tokens fleet).0 ≡ assigned name
      → sign_csr p digest encode ports create
          (leaf_for p digest encode ports create rec req extra name)
        ≡ create (leaf_for p digest encode ports create rec req extra name)
  unfolding sign_csr
  reserving-sign_csr rec extra tokens fleet name e h =
      let (i, lt, is_name, good) = reserving-Names rec extra tokens fleet name h in
      let c = leaf_for-IsCertified rec name extra i e lt is_name good in
      rw (ap p.check_csr c.for_request ∙ c.good_request, c.good_names) refl

  enrolled-injective :
      (a b : Text) (x y : Leaf) → Answer.enrolled a x ≡ Answer.enrolled b y → (a ≡ b) × (x ≡ y)
  enrolled-injective a b x y h = (cc, cc)

  -- An answer other than a refusal signs the leaf of an assigned name.
  pub after_reserve-enrolled :
      (rec : TokenRecord) (extra : List Text) (r : Reserved) {name : Text} {leaf : Leaf}
      → after_reserve p digest encode ports create rec req extra r ≡ enrolled name leaf
      → (r ≡ assigned name) × (leaf ≡ leaf_for p digest encode ports create rec req extra name)
  unfolding after_reserve signed reject_token
  after_reserve-enrolled rec extra (assigned n) h = ground arith
  after_reserve-enrolled rec extra uncertifiable h = absurd (cc)
  after_reserve-enrolled rec extra (not_redeemed e) h = ground arith
  after_reserve-enrolled rec extra fleet_failed h = absurd (cc)
  after_reserve-enrolled rec extra no_name_free h = absurd (cc)

  -- The answer certifies a name for the record of the token.
  abbrev pub Certifies : World F → Answer → Type 0
  Certifies w a =
      (name : Text) (leaf : Leaf)
      → a ≡ enrolled name leaf
      → (rec : TokenRecord) × ((inspect digest encode req.token m.inspect_clock m.inspect_disk
            w.tokens).0
          ≡ ok rec)
        × IsCertified rec name leaf

  enroll_checked-Certifies :
      (w : World F) (limiter : RateLimiter) (rec : TokenRecord) (tokens : TokenStore)
      (c : Option (List Text))
      → (inspect digest encode req.token m.inspect_clock m.inspect_disk w.tokens).0 ≡ ok rec
      → check_request p digest encode ports create rec req ≡ c
      → Certifies w
          (enroll_checked p digest encode ports create rec req m limiter tokens w.fleet c).0
  unfolding enroll_checked finish_enroll
  enroll_checked-Certifies w limiter rec tokens none q k name leaf h = absurd (cc)
  enroll_checked-Certifies w limiter rec tokens (some extra) q k name leaf h =
      let o = reserving p digest encode ports create rec req extra m tokens w.fleet in
      let (is_assigned, is_leaf) = after_reserve-enrolled rec extra o.0 h in
      let (i, lt, is_name, good) = reserving-Names rec extra tokens w.fleet name is_assigned in
      (rec, q, rw is_leaf (leaf_for-IsCertified rec name extra i k lt is_name good))

  pub reject_token-refuses :
      (e : TokenError) (name : Text) (leaf : Leaf) → ¬ (reject_token e ≡ enrolled name leaf)
  unfolding reject_token
  reject_token-refuses e name leaf h = ground arith

  enroll_inspected-Certifies :
      (w : World F) (limiter : RateLimiter) (r : Result TokenRecord × TokenStore)
      → inspect digest encode req.token m.inspect_clock m.inspect_disk w.tokens ≡ r
      → Certifies w (enroll_inspected p digest encode ports create req m limiter w.fleet r).0
  unfolding enroll_inspected
  enroll_inspected-Certifies w limiter (err e, s) q name leaf h =
      absurd (reject_token-refuses e name leaf h)
  enroll_inspected-Certifies w limiter (ok rec, s) q name leaf h =
      enroll_checked-Certifies w limiter rec s (check_request p digest encode ports create rec req)
        (ap (λ (t : Result TokenRecord × TokenStore). t.0) q) refl name leaf h

  enroll_allowed-Certifies :
      (w : World F) (l : Bool × RateLimiter)
      → Certifies w (enroll_allowed p digest encode ports create req m w l).0
  unfolding enroll_allowed
  enroll_allowed-Certifies w (false, limiter) name leaf h = absurd (cc)
  enroll_allowed-Certifies w (true, limiter) name leaf h =
      enroll_inspected-Certifies w limiter
        (inspect digest encode req.token m.inspect_clock m.inspect_disk w.tokens) refl name leaf h

  -- A certificate that Enroll answers is for the request, and the name is one of 64 candidates
  -- from the name that the token reserves, or that is asked for where it reserves none. Its
  -- subject is that name only if the token reserves one, and each of its names and addresses is
  -- that name, a host the token authorizes or a loopback address in the request, and together
  -- they pass CheckSANs.
  pub enroll-IsCertified :
      (w : World F) (name : Text) (leaf : Leaf)
      → (enroll p digest encode ports create req m w).0 ≡ enrolled name leaf
      → (rec : TokenRecord) × ((inspect digest encode req.token m.inspect_clock m.inspect_disk
            w.tokens).0
          ≡ ok rec)
        × IsCertified rec name leaf
  unfolding enroll
  enroll-IsCertified w = enroll_allowed-Certifies w (allow m.peer m.now w.limiter)
