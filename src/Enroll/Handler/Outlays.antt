-- ===== src/Enroll/Handler/Outlays.antt =====
-- What the reservation of a name in internal/security/enroll/service.go does to the token store.
use f1337_mcp.Prelude.{
  ℕ, zero, suc, ◌+◌, ◌≡◌, refl, sym, ap, ◌∙◌, ◌⊎◌, inl, inr, Bool, true, false, Option, none, some,
  Bool-cases, Text,
}
use f1337_mcp.Enroll.Token.{TokenError, Result, ok, err, TokenRecord}
use f1337_mcp.Enroll.Store.{TokenStore}
use f1337_mcp.Enroll.Service.{
  EnrolledSandbox, candidate_name, Recorded, recorded, name_taken, record_failed, FleetPorts,
  Reserved, uncertifiable, not_redeemed, no_name_free,
}
use f1337_mcp.Enroll.Handler.{
  is_taken, record_outcome, try_record, spend_first, try_name, reserve_from,
}

-- Without a redemption nothing is recorded; the redemption that counts is the first.
pub data Outlay {F : Type 0} (redeem_it : TokenStore → Result TokenRecord × TokenStore)
    (tokens : TokenStore) (fleet : F) (o : Reserved × (TokenStore × F)) : Type 0 where
  nothing_spent :
      o.1 ≡ (tokens, fleet)
      → (o.0 ≡ uncertifiable) ⊎ (o.0 ≡ no_name_free)
      → Outlay redeem_it tokens fleet o
  none_redeemed :
      (e : TokenError)
      → o.0 ≡ not_redeemed e
      → redeem_it tokens ≡ (err e, o.1.0)
      → o.1.1 ≡ fleet
      → Outlay redeem_it tokens fleet o
  one_redeemed :
      (rec : TokenRecord)
      → ((e : TokenError) → ¬ (o.0 ≡ not_redeemed e))
      → redeem_it tokens ≡ (ok rec, o.1.0)
      → Outlay redeem_it tokens fleet o

module _ {F : Type 0} (ports : FleetPorts F) (sandbox : Text → EnrolledSandbox)
    (can_certify : Text → Bool) (redeem_it : TokenStore → Result TokenRecord × TokenStore)
    (base : Text) where
  -- Rounds after the redemption leave the store alone.
  abbrev Keeps : TokenStore → Reserved × (TokenStore × F) → Type 0
  Keeps tokens o = (o.1.0 ≡ tokens) × ((e : TokenError) → ¬ (o.0 ≡ not_redeemed e))

  record_outcome-Keeps :
      (go : F → Reserved × (TokenStore × F)) (name : Text) (tokens : TokenStore) (q : F × Recorded)
      → ((fleet : F) → Keeps tokens (go fleet))
      → Keeps tokens (record_outcome ports go name tokens q)
  unfolding record_outcome
  record_outcome-Keeps go name tokens (fleet, recorded) k = (refl, λ e h. cc)
  record_outcome-Keeps go name tokens (fleet, name_taken) k = k fleet
  record_outcome-Keeps go name tokens (fleet, record_failed) k = (refl, λ e h. cc)

  try_record-Keeps :
      (go : F → Reserved × (TokenStore × F)) (r : Option (F → EnrolledSandbox → F × Recorded))
      (sb : EnrolledSandbox) (tokens : TokenStore) (fleet : F)
      → ((fleet : F) → Keeps tokens (go fleet))
      → Keeps tokens (try_record ports go r sb tokens fleet)
  unfolding try_record
  try_record-Keeps go none sb tokens fleet k = (refl, λ e h. cc)
  try_record-Keeps go (some r) sb tokens fleet k =
      record_outcome-Keeps go sb.name tokens (r fleet sb) k

  reserve_from-Keeps :
      (n i : ℕ) (tokens : TokenStore) (fleet : F)
      → Keeps tokens (reserve_from ports sandbox can_certify redeem_it base n i true tokens fleet)
  unfolding reserve_from try_name
  reserve_from-Keeps zero i tokens fleet = (refl, λ e h. cc)
  reserve_from-Keeps (suc n) i tokens fleet =
      elim (Bool-cases (is_taken ports ports.exists_name fleet (candidate_name base i))) [
        | inl taken ↦ rw taken (reserve_from-Keeps n (i + 1) tokens fleet)
        | inr free ↦ elim (Bool-cases (can_certify (candidate_name base i))) [
          | inr bad ↦ rw (free, bad) (refl, λ e h. cc)
          | inl good ↦
              rw (free, good)
                (try_record-Keeps
                  (reserve_from ports sandbox can_certify redeem_it base n (i + 1) true tokens)
                  ports.record_sandbox (sandbox (candidate_name base i)) tokens fleet
                  (λ f. reserve_from-Keeps n (i + 1) tokens f))
        ]
      ]

  spend_first-Outlay :
      (go : TokenStore → Reserved × (TokenStore × F)) (tokens : TokenStore) (fleet : F)
      (r : Result TokenRecord × TokenStore)
      → redeem_it tokens ≡ r
      → ((s : TokenStore) → Keeps s (go s))
      → Outlay redeem_it tokens fleet
          (spend_first ports sandbox can_certify redeem_it base go fleet r)
  unfolding spend_first
  spend_first-Outlay go tokens fleet (err e, s) q k = none_redeemed e refl q refl
  spend_first-Outlay go tokens fleet (ok rec, s) q k =
      one_redeemed rec (k s).1 (q ∙ ap (λ t. (ok rec, t)) (sym (k s).0))

  pub reserve_from-Outlay :
      (n i : ℕ) (tokens : TokenStore) (fleet : F)
      → Outlay redeem_it tokens fleet
          (reserve_from ports sandbox can_certify redeem_it base n i false tokens fleet)
  unfolding reserve_from try_name
  reserve_from-Outlay zero i tokens fleet = nothing_spent refl (inr refl)
  reserve_from-Outlay (suc n) i tokens fleet =
      elim (Bool-cases (is_taken ports ports.exists_name fleet (candidate_name base i))) [
        | inl taken ↦ rw taken (reserve_from-Outlay n (i + 1) tokens fleet)
        | inr free ↦ elim (Bool-cases (can_certify (candidate_name base i))) [
          | inr bad ↦ rw (free, bad) (nothing_spent refl (inl refl))
          | inl good ↦
              rw (free, good)
                (spend_first-Outlay _ tokens fleet (redeem_it tokens) refl (λ s.
                  try_record-Keeps
                    (reserve_from ports sandbox can_certify redeem_it base n (i + 1) true s)
                    ports.record_sandbox (sandbox (candidate_name base i)) s fleet
                    (λ f. reserve_from-Keeps n (i + 1) s f)))
        ]
      ]
