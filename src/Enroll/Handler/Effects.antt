-- ===== src/Enroll/Handler/Effects.antt =====
-- What the reservation of a name writes to the registry, where that is the fleet (internal/cli/fleetctl/serve.go).
use mathlib.Core.Path.{subst}
use f1337_mcp.Prelude.{
  ℕ, zero, suc, ◌+◌, ◌≡◌, refl, ap, inl, inr, Bool, true, false, Option, Bool-cases, Text,
}
use f1337_mcp.Fleet.Registry.{Sandbox, Stored, exists_already, done, failed, Access, add}
use f1337_mcp.Fleet.Registry
use f1337_mcp.Fleet.Register.Outcome.{Wrote, is_done, add-Wrote}
use f1337_mcp.Enroll.Service.{EnrolledSandbox, candidate_name, Reserved, assigned}
use f1337_mcp.Enroll.Recorder.{
  Registered, Circumstances, registry_sandbox, record_answer, record_in_fleet, fleet_ports,
}
use f1337_mcp.Enroll.Store.{TokenStore}
use f1337_mcp.Enroll.Token.{Result, ok, err, TokenRecord}
use f1337_mcp.Enroll.Handler.{
  is_taken, record_outcome, try_record, spend_first, try_name, reserve_from,
}

module _ (c : Circumstances) (sandbox : Text → EnrolledSandbox) where
  -- The sandbox of that name is added at the end of the registry, where no entry had the name.
  abbrev pub Adds : Text → Option Stored → Option Stored → Type 0
  Adds name file file' =
      (n : ℕ) × Wrote true (c.add_time n) (registry_sandbox (sandbox name) (c.record_time n)) file
        file'

  -- Either nothing is assigned and the registry stays, or the assigned name is added.
  pub data Effect (file : Option Stored) (o : Reserved × (TokenStore × Registered)) : Type 0 where
    kept : ((name : Text) → ¬ (o.0 ≡ assigned name)) → o.1.1.file ≡ file → Effect file o
    added : (name : Text) → o.0 ≡ assigned name → Adds name file o.1.1.file → Effect file o

  module _ (can_certify : Text → Bool) (redeem_it : TokenStore → Result TokenRecord × TokenStore)
      (base : Text) (keeps_name : (n : Text) → (sandbox n).name ≡ n) where
    record_add-Effect :
        (go : Registered → Reserved × (TokenStore × Registered)) (name : Text) (tokens : TokenStore)
        (r : Registered) (a : Registry.Answer (Unit {0})) (file : Option Stored)
        → ((r' : Registered) → r'.file ≡ r.file → Effect r.file (go r'))
        → Wrote
            (is_done a)
            (c.add_time r.records)
            (registry_sandbox (sandbox name) (c.record_time r.records))
            r.file
            file
        → Effect r.file (
            record_outcome
              (fleet_ports c)
              go
              (sandbox name).name
              tokens
              (record { file = file; records = r.records + 1 }, record_answer a))
    unfolding record_outcome record_answer is_done Wrote
    record_add-Effect go name tokens r (done u) file k w =
        added name (ap assigned (keeps_name name)) (r.records, w)
    record_add-Effect go name tokens r (failed exists_already) file k w =
        k (record { file = file; records = r.records + 1 }) w
    record_add-Effect go name tokens r (failed _) file k w = kept (λ n h. cc) w

    try_record-Effect :
        (go : Registered → Reserved × (TokenStore × Registered)) (name : Text) (tokens : TokenStore)
        (r : Registered)
        → ((r' : Registered) → r'.file ≡ r.file → Effect r.file (go r'))
        → Effect r.file
            (try_record (fleet_ports c) go (fleet_ports c).record_sandbox (sandbox name) tokens r)
    unfolding try_record record_in_fleet
    try_record-Effect go name tokens r k = record_add-Effect go name tokens r _ _ k (
        add-Wrote (c.record_access r.records) (c.add_time r.records)
          (registry_sandbox (sandbox name) (c.record_time r.records)) r.file)

    spend_first-Effect :
        (go : TokenStore → Reserved × (TokenStore × Registered)) (r : Registered)
        (q : Result TokenRecord × TokenStore)
        → ((s : TokenStore) → Effect r.file (go s))
        → Effect r.file (spend_first (fleet_ports c) sandbox can_certify redeem_it base go r q)
    unfolding spend_first
    spend_first-Effect go r (err e, s) k = kept (λ n h. cc) refl
    spend_first-Effect go r (ok rec, s) k = k s

    try_name-Effect :
        (go : TokenStore → Registered → Reserved × (TokenStore × Registered)) (name : Text)
        (spent : Bool) (tokens : TokenStore) (r : Registered)
        → ((s : TokenStore) (r' : Registered) → r'.file ≡ r.file → Effect r.file (go s r'))
        → Effect r.file
            (try_name (fleet_ports c) sandbox can_certify redeem_it base go name spent tokens r)
    unfolding try_name
    try_name-Effect go name true tokens r k = elim (Bool-cases (can_certify name)) [
      | inr bad ↦ rw bad (kept (λ n h. cc) refl)
      | inl good ↦ rw good (try_record-Effect (go tokens) name tokens r (k tokens))
    ]
    try_name-Effect go name false tokens r k = elim (Bool-cases (can_certify name)) [
      | inr bad ↦ rw bad (kept (λ n h. cc) refl)
      | inl good ↦ rw good (
          spend_first-Effect
            (λ s.
              try_record (fleet_ports c) (go s) (fleet_ports c).record_sandbox (sandbox name) s r)
            r (redeem_it tokens) (λ s. try_record-Effect (go s) name s r (k s)))
    ]

    Effect-from :
        (o : Reserved × (TokenStore × Registered)) (file file' : Option Stored)
        → file' ≡ file
        → Effect file' o
        → Effect file o
    Effect-from o file file' e h = subst (λ f. Effect f o) e h

    pub reserve_from-Effect :
        (n i : ℕ) (spent : Bool) (tokens : TokenStore) (r : Registered)
        → Effect r.file
            (reserve_from (fleet_ports c) sandbox can_certify redeem_it base n i spent tokens r)
    unfolding reserve_from
    reserve_from-Effect zero i spent tokens r = kept (λ n h. cc) refl
    reserve_from-Effect (suc n) i spent tokens r =
        elim (Bool-cases
          (is_taken (fleet_ports c) (fleet_ports c).exists_name r (candidate_name base i))) [
            | inl taken ↦ rw taken (reserve_from-Effect n (i + 1) spent tokens r)
            | inr free ↦ rw free (
                try_name-Effect
                  (reserve_from (fleet_ports c) sandbox can_certify redeem_it base n (i + 1) true)
                  (candidate_name base i) spent tokens r
                  (λ s r' e.
                    Effect-from
                      (reserve_from (fleet_ports c) sandbox can_certify redeem_it base n (i + 1)
                        true s r')
                      r.file r'.file e (reserve_from-Effect n (i + 1) true s r')))
          ]
