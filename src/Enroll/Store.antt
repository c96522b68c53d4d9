-- ===== src/Enroll/Store.antt =====
-- internal/security/enroll/token.go: the operations of TokenStore. An operation takes the store to
-- its result and the new store; the outcomes of the lock, the read and the write of a file-backed
-- store are arguments, and so are the clock readings (one by the operation, one by `update`).

pub mod Entries
pub mod Ledger
pub mod Authority
pub mod Redeem
use f1337_mcp.Prelude.{
  ℕ, suc, ◌+◌, Bool, true, false, not, ◌&&◌, ◌||◌, Option, none, some, List, [], ◌∷◌, ◌++◌, map,
  ltb, ◌==◌, if◌then◌else◌, length, set, Text, codes, has_prefix, trim_space, lower_byte,
}
use f1337_mcp.Enroll.Token.{
  TokenError, Result, ok, err, id_unknown, id_ambiguous, id_too_short, already_spent, store_failed,
  TokenRecord, state, is_pending, Entry, exported, redeemable, prune,
}

-- What the file system answers: each flag is a failure.
pub record Disk : Type 0 where
  pub lock_fails : Bool
  pub load_fails : Bool
  pub save_fails : Bool

pub record Clock : Type 0 where
  pub asked : ℕ
  pub locked : ℕ

pub record TokenStore : Type 0 where
  pub on_disk : Bool
  pub tokens : List Entry

-- NewTokenStore
unfoldable pub new_token_store : TokenStore
new_token_store = record { on_disk = false; tokens = [] }

-- What the callback of `update` returns, with the result that its caller reads from the closure.
pub record Change (A : Type 0) : Type 0 where
  pub next : List Entry
  pub changed : Bool
  pub out : Result A

unfoldable pub update :
    {A : Type 0} → Disk → ℕ → TokenStore → (List Entry → Change A) → Result A × TokenStore
update d now s fn =
    let kept = prune s.tokens now in
    let pruned = not (length kept == length s.tokens) in
    let c = fn kept in
    let written = record s { tokens = c.next } in
    if not s.on_disk
    then (c.out, written)
    else if d.lock_fails || d.load_fails
    then (err store_failed, s)
    else if not c.changed && not pruned
    then (c.out, s)
    else if d.save_fails
    then (err store_failed, s)
    else (c.out, written)

pub record MintOptions : Type 0 where
  pub name : Text
  pub labels : List (Text × Text)
  pub addresses : List Text
  -- `none` is a TTL that is not positive
  pub ttl : Option ℕ

abbrev pub default_token_ttl : ℕ
default_token_ttl = 900_000_000_000

abbrev ttl_or_default : Option ℕ → ℕ
ttl_or_default none = default_token_ttl
ttl_or_default (some t) = t

unfoldable pub min_token_id_prefix : ℕ
min_token_id_prefix = 4

pub matches : ℕ → Text → List Entry → List (ℕ × Entry)
matches i id [] = []
matches i id (e ∷ es) =
    let rest = matches (suc i) id es in if has_prefix e.hash id then (i, e) ∷ rest else rest

unfoldable pub mark_used : ℕ → Entry → Entry
mark_used now e = record e { rec = record e.rec { used = true; used_at = now } }

unfoldable pub mark_revoked : ℕ → Entry → Entry
mark_revoked now e = record e { rec = record e.rec { revoked = true; revoked_at = now } }

abbrev pub refused : {A : Type 0} → List Entry → TokenError → Change A
refused entries x = record { next = entries; changed = false; out = err x }

inspected : List Entry → Result (ℕ × Entry) → Change TokenRecord
inspected entries (err x) = refused entries x
inspected entries (ok (i, e)) = record { next = entries; changed = false; out = ok (exported e) }

redeemed : ℕ → List Entry → Result (ℕ × Entry) → Change TokenRecord
unfolding mark_used
redeemed now entries (err x) = refused entries x
redeemed now entries (ok (i, e)) =
    let e' = mark_used now e in
    record { next = set entries i e'; changed = true; out = ok (exported e') }

revoked_one : ℕ → List Entry → List (ℕ × Entry) → Change TokenRecord
unfolding mark_revoked state
revoked_one now entries [] = refused entries id_unknown
revoked_one now entries ((i, e) ∷ []) =
    let e' = mark_revoked now e in
    if is_pending (state e.rec now)
    then record { next = set entries i e'; changed = true; out = ok (exported e') }
    else refused entries already_spent
revoked_one now entries (_ ∷ _) = refused entries id_ambiguous

-- The callbacks that the operations hand to `update`.
inspecting : Text → ℕ → List Entry → Change TokenRecord
unfolding inspected
inspecting want now entries = inspected entries (redeemable entries want now)

redeeming : Text → ℕ → List Entry → Change TokenRecord
unfolding redeemed
redeeming want now entries = redeemed now entries (redeemable entries want now)

revoking : Text → ℕ → List Entry → Change TokenRecord
unfolding revoked_one matches
revoking id now entries = revoked_one now entries (matches 0 id entries)

listing : List Entry → Change (List TokenRecord)
listing entries = record {
  next = entries;
  changed = false;
  out = ok (map (λ e. exported e) entries);
}

minting : Text → Entry → List Entry → Change (Text × TokenRecord)
minting token e entries = record {
  next = entries ++ e ∷ [];
  changed = true;
  out = ok (token, exported e);
}

-- `digest` is SHA-256 in hexadecimal and `encode` is base64url, both of Go's standard library.
module _ (digest encode : Text → Text) where
  unfoldable pub generate_token : Text → Text
  generate_token random = codes "sbx_" ++ encode random

  unfoldable pub minted : MintOptions → Text → ℕ → Entry
  minted opts token now = record {
    hash = digest token;
    rec = record {
      id = [];
      name = opts.name;
      labels = opts.labels;
      addresses = opts.addresses;
      issued_at = now;
      expires_at = now + ttl_or_default opts.ttl;
      used = false;
      used_at = 0;
      revoked = false;
      revoked_at = 0;
    };
  }

  -- `none` for the random bytes is a failing random source.
  unfoldable pub mint :
      MintOptions
      → Option Text
      → Clock
      → Disk
      → TokenStore
      → Result (Text × TokenRecord) × TokenStore
  unfolding minted minting
  mint opts none c d s = (err store_failed, s)
  mint opts (some random) c d s =
      let token = generate_token random in
      update d c.locked s (minting token (minted opts token c.asked))

  unfoldable pub inspect : Text → Clock → Disk → TokenStore → Result TokenRecord × TokenStore
  unfolding inspecting
  inspect token c d s = update d c.locked s (inspecting (digest token) c.asked)

  unfoldable pub redeem : Text → Clock → Disk → TokenStore → Result TokenRecord × TokenStore
  unfolding redeeming
  redeem token c d s = update d c.locked s (redeeming (digest token) c.asked)

  unfoldable pub list : Clock → Disk → TokenStore → Result (List TokenRecord) × TokenStore
  unfolding listing
  list c d s = update d c.locked s listing

  unfoldable pub revoke : Text → Clock → Disk → TokenStore → Result TokenRecord × TokenStore
  unfolding revoking min_token_id_prefix
  revoke given c d s =
      let id = map lower_byte (trim_space given) in
      if ltb (length id) min_token_id_prefix
      then (err id_too_short, s)
      else update d c.locked s (revoking id c.asked)
