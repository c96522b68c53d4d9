-- ===== src/Enroll/Token.antt =====
-- internal/security/enroll/token.go: token records, their states, and the test of redeemability.
-- A time.Time is a number of nanoseconds. A digest is a parameter of what computes one: here an
-- entry is found by the digest of its token.
use f1337_mcp.Prelude.{
  ℕ, suc, ◌+◌, Bool, true, false, not, ◌&&◌, Option, none, some, List, [], ◌∷◌, ltb, if◌then◌else◌,
  length, take, Text, eq_text,
}

pub data TokenError : Type 0 where
  token_invalid token_expired token_used token_revoked : TokenError
  id_unknown id_ambiguous id_too_short already_spent : TokenError
  store_failed : TokenError

pub data Result {ℓ} (A : Type ℓ) : Type ℓ where
  ok : A → Result A
  err : TokenError → Result A

-- The sentinels that mean "not redeemable", as against a store that failed.
unfoldable pub is_token_rejection : TokenError → Bool
is_token_rejection token_invalid = true
is_token_rejection token_expired = true
is_token_rejection token_used = true
is_token_rejection token_revoked = true
is_token_rejection _ = false

pub record TokenRecord : Type 0 where
  pub id : Text
  pub name : Text
  pub labels : List (Text × Text)
  pub addresses : List Text
  pub issued_at : ℕ
  pub expires_at : ℕ
  pub used : Bool
  pub used_at : ℕ
  pub revoked : Bool
  pub revoked_at : ℕ

pub data TokenState : Type 0 where
  pending_state used_state expired_state revoked_state : TokenState

unfoldable pub expired : TokenRecord → ℕ → Bool
expired r now = ltb r.expires_at now

unfoldable pub state : TokenRecord → ℕ → TokenState
unfolding expired
state r now =
    if r.revoked
    then revoked_state
    else if r.used
    then used_state
    else if expired r now
    then expired_state
    else pending_state

abbrev pub is_pending : TokenState → Bool
is_pending pending_state = true
is_pending _ = false

pub record Entry : Type 0 where
  pub hash : Text
  pub rec : TokenRecord

abbrev pub token_id_length : ℕ
token_id_length = 12

unfoldable pub entry_id : Entry → Text
entry_id e = if ltb (length e.hash) token_id_length then e.hash else take token_id_length e.hash

-- A clone shares no memory with the entry; a value of the model never does.
abbrev pub exported : Entry → TokenRecord
exported e = record e.rec { id = entry_id e }

-- The `switch` of `redeemable`, for the entry whose hash matched.
unfoldable pub verdict : TokenRecord → ℕ → Option TokenError
unfolding expired
verdict r now =
    if r.revoked
    then some token_revoked
    else if r.used
    then some token_used
    else if expired r now
    then some token_expired
    else none

abbrev pub judged : Entry → Option TokenError → Result (ℕ × Entry)
judged e none = ok (0, e)
judged e (some x) = err x

abbrev pub one_further : Result (ℕ × Entry) → Result (ℕ × Entry)
one_further (ok (i, e)) = ok (suc i, e)
one_further (err x) = err x

-- The first entry with the wanted hash and its place in the list, which stands for the pointer
-- that the callers write through, or why it cannot be redeemed.
unfoldable pub redeemable : List Entry → Text → ℕ → Result (ℕ × Entry)
redeemable [] want now = err token_invalid
redeemable (e ∷ es) want now =
    let rest = one_further (redeemable es want now) in
    if eq_text want e.hash then judged e (verdict e.rec now) else rest

abbrev pub spent_token_retention : ℕ
spent_token_retention = 86_400_000_000_000

later : ℕ → Bool → ℕ → ℕ
later spent_at flag at = if flag && ltb spent_at at then at else spent_at

-- The moment from which a spent token's retention is counted.
unfoldable pub spent_at : TokenRecord → ℕ
unfolding later
spent_at r = later (later r.expires_at r.used r.used_at) r.revoked r.revoked_at

unfoldable pub retained : ℕ → Entry → Bool
unfolding state spent_at
retained now e =
    not (not (is_pending (state e.rec now)) && ltb (spent_at e.rec + spent_token_retention) now)

unfoldable pub prune : List Entry → ℕ → List Entry
unfolding retained
prune [] now = []
prune (e ∷ es) now = let rest = prune es now in if retained now e then e ∷ rest else rest
