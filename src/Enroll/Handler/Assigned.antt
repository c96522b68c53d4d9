-- ===== src/Enroll/Handler/Assigned.antt =====
-- The name that reserve of internal/security/enroll/service.go settles on.
use f1337_mcp.Prelude.{
  ℕ, zero, suc, ◌+◌, ◌<◌, ◌≡◌, sym, ◌∙◌, inl, inr, Bool, true, false, Option, none, some, arith,
  Bool-cases, Text,
}
use f1337_mcp.Enroll.Token.{Result, ok, err, TokenRecord}
use f1337_mcp.Enroll.Store.{TokenStore}
use f1337_mcp.Enroll.Service.{
  EnrolledSandbox, candidate_name, Recorded, recorded, name_taken, record_failed, FleetPorts,
  Reserved, assigned,
}
use f1337_mcp.Enroll.Handler.{
  is_taken, record_outcome, try_record, spend_first, try_name, reserve_from,
}

assigned-injective : (a b : Text) → Reserved.assigned a ≡ Reserved.assigned b → a ≡ b
assigned-injective a b h = cc

module _ {F : Type 0} (ports : FleetPorts F) (sandbox : Text → EnrolledSandbox)
    (can_certify : Text → Bool) (redeem_it : TokenStore → Result TokenRecord × TokenStore)
    (base : Text) (keeps_name : (n : Text) → (sandbox n).name ≡ n) where
  -- An assigned name is a candidate of an early enough round, and can be certified.
  abbrev Names : ℕ → Reserved × (TokenStore × F) → Type 0
  Names bound o =
      (name : Text)
      → o.0 ≡ assigned name
      → (i : ℕ) × (i < bound) × (name ≡ candidate_name base i) × (can_certify name ≡ true)

  record_outcome-Names :
      (bound i : ℕ) (go : F → Reserved × (TokenStore × F)) (tokens : TokenStore) (q : F × Recorded)
      → i < bound
      → can_certify (candidate_name base i) ≡ true
      → ((fleet : F) → Names bound (go fleet))
      → Names bound (record_outcome ports go (sandbox (candidate_name base i)).name tokens q)
  unfolding record_outcome
  record_outcome-Names bound i go tokens (fleet, recorded) lt fine k name h =
      let e = sym (keeps_name (candidate_name base i)) ∙ assigned-injective _ _ h in
      (i, lt, sym e, rw (← e) fine)
  record_outcome-Names bound i go tokens (fleet, name_taken) lt fine k name h = k fleet name h
  record_outcome-Names bound i go tokens (fleet, record_failed) lt fine k name h = absurd (cc)

  spend_first-Names :
      (bound : ℕ) (go : TokenStore → Reserved × (TokenStore × F)) (fleet : F)
      (r : Result TokenRecord × TokenStore)
      → ((s : TokenStore) → Names bound (go s))
      → Names bound (spend_first ports sandbox can_certify redeem_it base go fleet r)
  unfolding spend_first
  spend_first-Names bound go fleet (err e, s) k name h = absurd (cc)
  spend_first-Names bound go fleet (ok rec, s) k name h = k s name h

  try_record-Names :
      (bound i : ℕ) (go : F → Reserved × (TokenStore × F))
      (r : Option (F → EnrolledSandbox → F × Recorded)) (tokens : TokenStore) (fleet : F)
      → i < bound
      → can_certify (candidate_name base i) ≡ true
      → ((fleet : F) → Names bound (go fleet))
      → Names bound (try_record ports go r (sandbox (candidate_name base i)) tokens fleet)
  unfolding try_record
  try_record-Names bound i go none tokens fleet lt fine k name h =
      let e = sym (keeps_name (candidate_name base i)) ∙ assigned-injective _ _ h in
      (i, lt, sym e, rw (← e) fine)
  try_record-Names bound i go (some r) tokens fleet lt fine k name h =
      record_outcome-Names bound i go tokens (r fleet (sandbox (candidate_name base i))) lt fine k
        name h

  try_name-Names :
      (bound i : ℕ) (go : TokenStore → F → Reserved × (TokenStore × F)) (spent : Bool)
      (tokens : TokenStore) (fleet : F)
      → i < bound
      → ((tokens : TokenStore) (fleet : F) → Names bound (go tokens fleet))
      → Names bound (
          try_name ports sandbox can_certify redeem_it base go
            (candidate_name base i)
            spent
            tokens
            fleet)
  unfolding try_name
  try_name-Names bound i go true tokens fleet lt k =
      elim (Bool-cases (can_certify (candidate_name base i))) [
        | inr bad ↦ rw bad (λ name h. absurd (cc))
        | inl good ↦ rw good (
            try_record-Names bound i (go tokens) ports.record_sandbox tokens fleet lt good
              (k tokens))
      ]
  try_name-Names bound i go false tokens fleet lt k =
      elim (Bool-cases (can_certify (candidate_name base i))) [
        | inr bad ↦ rw bad (λ name h. absurd (cc))
        | inl good ↦ rw good (
            spend_first-Names bound _ fleet (redeem_it tokens)
              (λ s. try_record-Names bound i (go s) ports.record_sandbox s fleet lt good (k s)))
      ]

  pub reserve_from-Names :
      (n i : ℕ) (spent : Bool) (tokens : TokenStore) (fleet : F)
      → Names (i + n) (reserve_from ports sandbox can_certify redeem_it base n i spent tokens fleet)
  unfolding reserve_from
  reserve_from-Names zero i spent tokens fleet = λ name h. absurd (cc)
  reserve_from-Names (suc n) i spent tokens fleet =
      let bound : i + 1 + n ≡ i + suc n = omega arith in
      let later : (s : Bool) (t : TokenStore) (f : F)
          → Names (i + suc n)
              (reserve_from ports sandbox can_certify redeem_it base n (i + 1) s t f) =
        λ s t f. rw (← bound) (reserve_from-Names n (i + 1) s t f) in
      elim (Bool-cases (is_taken ports ports.exists_name fleet (candidate_name base i))) [
        | inl taken ↦ rw taken (later spent tokens fleet)
        | inr free ↦ rw free (
            try_name-Names (i + suc n) i
              (reserve_from ports sandbox can_certify redeem_it base n (i + 1) true) spent tokens
              fleet (omega arith) (later true))
      ]
