-- ===== src/Enroll/Store/Redeem.antt =====
-- When a redemption succeeds, and that an inspection foretells it.
use f1337_mcp.Prelude.{
  ◌∙◌, sym, ℕ, suc, ◌≤◌, ◌≡◌, refl, inl, inr, true, false, none, some, List, [], ◌∷◌, ◌++◌, arith,
  Bool-cases, All, Text, eq_text, eq_text_refl,
}
use f1337_mcp.Enroll.Token.{
  Result, ok, err, TokenRecord, Entry, verdict, redeemable, prune, retained, exported, entry_id,
}
use f1337_mcp.Enroll.Store.{
  Disk, Clock, TokenStore, Change, update, MintOptions, mark_used, inspected, redeemed,
  generate_token, minted, mint, inspect, redeem, minting, inspecting, redeeming,
}

abbrev pub IsHealthy : Disk → Type 0
IsHealthy d = (d.lock_fails ≡ false) × (d.load_fails ≡ false) × (d.save_fails ≡ false)

-- No entry has this hash.
abbrev pub IsFresh : Text → List Entry → Type 0
IsFresh h es = All (λ e. eq_text h e.hash ≡ false) es

verdict-retained : (e : Entry) (now : ℕ) → verdict e.rec now ≡ none → retained now e ≡ true
unfolding verdict retained
verdict-retained e now v = ground arith

in_time-retained :
    (e : Entry) (now : ℕ)
    → e.rec.used ≡ false
    → e.rec.revoked ≡ false
    → now ≤ e.rec.expires_at
    → retained now e ≡ true
unfolding retained
in_time-retained e now u r t = ground arith

-- A new entry at the end of a list without its hash is the one that a search finds, also after a
-- pruning in its lifetime.
redeemable-fresh :
    (h : Text) (es : List Entry) (e : Entry) (locked now : ℕ)
    → IsFresh h es
    → eq_text h e.hash ≡ true
    → retained locked e ≡ true
    → verdict e.rec now ≡ none
    → (j : ℕ) × (redeemable (prune (es ++ e ∷ []) locked) h now ≡ ok (j, e))
unfolding redeemable prune
redeemable-fresh h [] e locked now f same k v = (0, rw (k, same, v))
redeemable-fresh h (x ∷ xs) e locked now f same k v =
    let (j, p) = redeemable-fresh h xs e locked now f.1 same k v in
    elim (Bool-cases (retained locked x)) [
      | inl kept ↦ (suc j, rw (kept, f.0, p))
      | inr dropped ↦ (j, rw dropped p)
    ]

IsFresh-prune : (h : Text) (es : List Entry) (now : ℕ) → IsFresh h es → IsFresh h (prune es now)
unfolding prune
IsFresh-prune h [] now f = tt
IsFresh-prune h (x ∷ xs) now f = elim (Bool-cases (retained now x)) [
  | inl k ↦ rw k (f.0, IsFresh-prune h xs now f.1)
  | inr k ↦ rw k (IsFresh-prune h xs now f.1)
]

update_healthy :
    {A : Type 0} (d : Disk) (now : ℕ) (s : TokenStore) (fn : List Entry → Change A)
    → IsHealthy d
    → (update d now s fn).0 ≡ (fn (prune s.tokens now)).out
unfolding update
update_healthy d now s fn h = ground arith

update_written :
    {A : Type 0} (d : Disk) (now : ℕ) (s : TokenStore) (fn : List Entry → Change A)
    → IsHealthy d
    → (fn (prune s.tokens now)).changed ≡ true
    → (update d now s fn).1.tokens ≡ (fn (prune s.tokens now)).next
unfolding update
update_written d now s fn h c = ground arith

abbrev pub map_ok : {A B : Type 0} → (A → B) → Result A → Result B
map_ok f (ok a) = ok (f a)
map_ok f (err x) = err x

abbrev pub with_use : ℕ → TokenRecord → TokenRecord
with_use now r = record r { used = true; used_at = now }

redeemed-inspected :
    (now : ℕ) (es : List Entry) (r : Result (ℕ × Entry))
    → (redeemed now es r).out ≡ map_ok (with_use now) (inspected es r).out
unfolding redeemed inspected entry_id
redeemed-inspected now es (ok (i, e)) = refl
redeemed-inspected now es (err x) = refl

-- The redemption of an entry that stands last in a store without its hash.
redeem_last :
    (want : Text) (es : List Entry) (e : Entry) (c : Clock) (d : Disk) (s : TokenStore)
    → IsHealthy d
    → IsFresh want es
    → s.tokens ≡ es ++ e ∷ []
    → eq_text want e.hash ≡ true
    → retained c.locked e ≡ true
    → verdict e.rec c.asked ≡ none
    → (update d c.locked s (redeeming want c.asked)).0 ≡ ok (exported (mark_used c.asked e))
unfolding redeeming redeemed
redeem_last want es e c d s h fresh at same k v =
    let (j, found) = redeemable-fresh want es e c.locked c.asked fresh same k v in
    rw (update_healthy d c.locked s (redeeming want c.asked) h)
      (rw at (unfold redeeming redeemed in rw found refl))

module _ (digest encode : Text → Text) where
  minted-lives :
      (opts : MintOptions) (token : Text) (issued now : ℕ)
      → let e = minted digest encode opts token issued in
        now ≤ e.rec.expires_at → (verdict e.rec now ≡ none) × (retained now e ≡ true)
  unfolding minted verdict
  minted-lives opts token issued now h =
      (ground arith, in_time-retained (minted digest encode opts token issued) now refl refl h)

  -- With a healthy disk, a token that was minted into a store without its hash is redeemed by the
  -- first attempt at or before its expiry, and the redemption returns the minted record, marked used.
  pub redeem-mint :
      (opts : MintOptions) (random : Text) (c c' : Clock) (d d' : Disk) (s : TokenStore)
      (token : Text) (rec : TokenRecord)
      → IsHealthy d
      → IsHealthy d'
      → IsFresh (digest (generate_token digest encode random)) s.tokens
      → (mint digest encode opts (some random) c d s).0 ≡ ok (token, rec)
      → c'.asked ≤ rec.expires_at
      → c'.locked ≤ rec.expires_at
      → (redeem digest encode token c' d' (mint digest encode opts (some random) c d s).1).0
        ≡ ok (with_use c'.asked rec)
  unfolding mint redeem minting mark_used entry_id
  redeem-mint opts random c c' d d' s token rec hd hd' fresh m asked locked =
      rw (is_token, is_record)
        (redeem_last (digest drawn) (prune s.tokens c.locked) e c' d' written hd'
          (IsFresh-prune (digest drawn) s.tokens c.locked fresh)
          (update_written d c.locked s (minting drawn e) hd refl) (eq_text_refl (digest drawn))
          (minted-lives opts drawn c.asked c'.locked (rw is_record at locked)).1
          (minted-lives opts drawn c.asked c'.asked (rw is_record at asked)).0)
    where
      drawn : Text
      drawn = generate_token digest encode random

      e : Entry
      e = minted digest encode opts drawn c.asked

      written : TokenStore
      written = (update d c.locked s (minting drawn e)).1

      same : ◌≡◌ {A = Result (Text × TokenRecord)} (ok (drawn, exported e)) (ok (token, rec))
      same = sym (update_healthy d c.locked s (minting drawn e) hd) ∙ m

      is_token : token ≡ drawn
      is_token = ground (arith, same)

      is_record : rec ≡ exported e
      is_record = ground (arith, same)

  -- With a healthy disk and at the same readings of the clock, Redeem answers what Inspect answers:
  -- the same refusal, or the same record, marked used.
  pub redeem-inspect :
      (token : Text) (c : Clock) (d : Disk) (s : TokenStore)
      → IsHealthy d
      → (redeem digest encode token c d s).0
        ≡ map_ok (with_use c.asked) (inspect digest encode token c d s).0
  unfolding inspect redeem inspecting redeeming
  redeem-inspect token c d s h =
      let want = digest token in
      let es = prune s.tokens c.locked in
      rw (update_healthy d c.locked s (redeeming want c.asked) h) (
        rw (update_healthy d c.locked s (inspecting want c.asked) h)
          (redeemed-inspected c.asked es (redeemable es want c.asked)))
