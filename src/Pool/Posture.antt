-- ===== src/Pool/Posture.antt =====
-- Which channel a caller of internal/client/pool.go gets.
use mathlib.Core.Path.{subst}
use f1337_mcp.Prelude.{
  ℕ, ◌≡◌, refl, ap, ◌⊎◌, inl, inr, Bool, true, false, not, ◌&&◌, ◌||◌, Option, none, some, [],
  arith, if◌then◌else◌, Bool-cases, Text, eq_text, eq_text_refl,
}
use f1337_mcp.Pool.{
  Target, Pooled, Pool, Channel, eq_target, eq_bool, find_entry, remove_locked, dial_host, dial,
  pooled_or_dial, conn,
}

got-injective : (a b : ℕ) → Channel.got a ≡ Channel.got b → a ≡ b
got-injective a b h = cc

unpick {ℓ} :
    {A : Type ℓ} (b : Bool) (x y r : A)
    → (if b then x else y) ≡ r
    → ((b ≡ true) × (x ≡ r)) ⊎ ((b ≡ false) × (y ≡ r))
unpick true x y r h = inl (refl, h)
unpick false x y r h = inr (refl, h)

eq_bool_refl : (b : Bool) → eq_bool b b ≡ true
eq_bool_refl true = refl
eq_bool_refl false = refl

eq_target_refl : (t : Target) → eq_target t t ≡ true
unfolding eq_target
eq_target_refl t = rw (eq_text_refl t.name, eq_text_refl t.address) (eq_bool_refl t.insecure)

module _ (split_host_port : Text → Option (Text × Text)) (new_client : Target → Bool) where
  -- The channel is that of an entry for just this target.
  abbrev Serves : Target → Pool × Channel → Type 0
  Serves t (p, Channel.fails e) = Unit
  Serves t (p, Channel.got c) =
      (e : Pooled) × (find_entry t.name p.entries ≡ some e)
      × (e.channel ≡ c)
      × (eq_target e.target t ≡ true)

  dial_host-Serves :
      (t : Target) (o : Option (Text × Text)) (p : Pool)
      → Serves t (dial_host split_host_port new_client t o p)
  unfolding dial_host find_entry
  dial_host-Serves t none p = tt
  dial_host-Serves t (some (host, port)) p = elim (Bool-cases (eq_text host [])) [
    | inl e ↦ rw e tt
    | inr e ↦ elim (Bool-cases (new_client t)) [
      | inr k ↦ rw (e, k) tt
      | inl k ↦
          rw (e, k)
            (
              record { target = t; channel = p.dial_count },
              rw (eq_text_refl t.name) refl,
              refl,
              eq_target_refl t,
            )
    ]
  ]

  pooled_or_dial-Serves :
      (t : Target) (o : Option Pooled) (p : Pool)
      → find_entry t.name p.entries ≡ o
      → Serves t (pooled_or_dial split_host_port new_client t o p)
  unfolding pooled_or_dial dial
  pooled_or_dial-Serves t none p h = dial_host-Serves t (split_host_port t.address) p
  pooled_or_dial-Serves t (some e) p h = elim (Bool-cases (eq_target e.target t)) [
    | inl k ↦ rw k (e, h, refl, k)
    | inr k ↦ rw k (dial_host-Serves t (split_host_port t.address) (remove_locked t.name p))
  ]

  -- A channel is handed out by a pool that is not closed, to a target that is insecure or with
  -- the pool having credentials, and it is the channel of the entry for just that target: its
  -- name, address and posture.
  pub conn_posture :
      (t : Target) (p p' : Pool) (c : ℕ)
      → conn split_host_port new_client t p ≡ (p', Channel.got c)
      → (p.is_closed ≡ false)
        × (t.insecure || p.has_tls ≡ true)
        × ((e : Pooled) × (find_entry t.name p'.entries ≡ some e)
            × (e.channel ≡ c)
            × (eq_target e.target t ≡ true))
  unfolding conn
  conn_posture t p p' c h = elim (unpick p.is_closed _ _ _ h) [
    | inl (k, e) ↦ cc (ap (λ (r : Pool × Channel). r.1) e)
    | inr (k, e) ↦ elim (unpick (not t.insecure && not p.has_tls) _ _ _ e) [
      | inl (l, f) ↦ cc (ap (λ (r : Pool × Channel). r.1) f)
      | inr (l, f) ↦ (
        k,
        ground (arith, l),
        subst (Serves t) f (pooled_or_dial-Serves t (find_entry t.name p.entries) p refl),
      )
    ]
  ]
