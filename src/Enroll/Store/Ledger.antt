-- ===== src/Enroll/Store/Ledger.antt =====
-- Sequences of operations on a token store, and how often a token's hash is redeemed in them.
use f1337_mcp.Prelude.{
  trim_space, lower_byte, map, none, Option, ℕ, ◌+◌, ◌≤◌, ◌≡◌, refl, true, false, some, List, [],
  ◌∷◌, arith, if◌then◌else◌, get_elem?, Text, eq_text, eq_text_iff,
}
use f1337_mcp.Enroll.Token.{Result, ok, err, Entry, redeemable, prune}
use f1337_mcp.Enroll.Store.{
  matches, revoking, listing, redeeming, inspecting, minting, minted, inspected, list, revoke,
  redeem, inspect, generate_token, Clock, MintOptions, mint, Disk, TokenStore, Change, update,
  mark_used, mark_revoked, redeemed, revoked_one,
}
use f1337_mcp.Enroll.Store.Entries.{
  matches-get, unspent-append, live, unspent, unspent-set, unspent-prune-le, IsFound,
  redeemable-IsFound,
}

-- `n` where the operation succeeded, and 0 where it failed.
abbrev pub count_ok : {A : Type 0} → Result A → ℕ → ℕ
count_ok (ok a) n = n
count_ok (err x) n = 0

-- If the callback of `update` gains and spends no more than this, then so does the store.
update_ledger :
    {A : Type 0} (h : Text) (gain spend : ℕ) (d : Disk) (now : ℕ) (s : TokenStore)
    (fn : List Entry → Change A)
    → (let c = fn (prune s.tokens now) in
        unspent h c.next + count_ok c.out spend
        ≤ unspent h (prune s.tokens now) + count_ok c.out gain)
    → (let c = fn (prune s.tokens now) in c.changed ≡ false → count_ok c.out spend ≡ 0)
    → let (r, s') = update d now s fn in
      unspent h s'.tokens + count_ok r spend ≤ unspent h s.tokens + count_ok r gain
unfolding update
update_ledger h gain spend d now s fn kept idle = ground (arith, unspent-prune-le h s.tokens now)

-- 1 where the token's digest is `h`.
abbrev pub names_hash : Text → Text → ℕ
names_hash h x = if eq_text h x then 1 else 0

eq_text_trans : (a b c : Text) → eq_text a b ≡ true → eq_text b c ≡ true → eq_text a c ≡ true
eq_text_trans a b c p q = ground (arith, eq_text_iff a b, eq_text_iff b c, eq_text_iff a c)

live-found :
    (es : List Entry) (h want : Text) (now i : ℕ) (e : Entry)
    → IsFound es want now i e
    → live h (mark_used now e) + names_hash h want ≡ live h e
unfolding mark_used
live-found es h want now i e f =
    ground (arith, eq_text_iff h want, eq_text_iff h e.hash, eq_text_iff want e.hash)

redeemed_ledger :
    (h want : Text) (es : List Entry) (now : ℕ) (r : Result (ℕ × Entry))
    → redeemable es want now ≡ r
    → let c = redeemed now es r in
      (unspent h c.next + count_ok c.out (names_hash h want) ≤ unspent h es + count_ok c.out 0)
      × (c.changed ≡ false → count_ok c.out (names_hash h want) ≡ 0)
unfolding redeemed
redeemed_ledger h want es now (err x) p = (omega arith, λ q. refl)
redeemed_ledger h want es now (ok (i, e)) p =
    let found = redeemable-IsFound es want now i e p in
    (
      omega (
        arith,
        unspent-set h es i e (mark_used now e) found.at,
        live-found es h want now i e found,
      ),
      λ q. cc,
    )

revoked_ledger :
    (h : Text) (es : List Entry) (now : ℕ) (m : List (ℕ × Entry))
    → ((i : ℕ) (e : Entry) (more : List (ℕ × Entry)) → m ≡ (i, e) ∷ more → get_elem? es i ≡ some e)
    → unspent h (revoked_one now es m).next ≤ unspent h es
unfolding revoked_one
revoked_ledger h es now [] at = omega arith
revoked_ledger h es now ((i, e) ∷ []) at =
    ground (arith, unspent-set h es i e (mark_revoked now e) (at i e [] refl))
revoked_ledger h es now (a ∷ b ∷ m) at = omega arith

count_ok-zero : {A : Type 0} (r : Result A) → count_ok r 0 ≡ 0
count_ok-zero (ok a) = refl
count_ok-zero (err x) = refl

inspected_ledger :
    (h : Text) (es : List Entry) (r : Result (ℕ × Entry))
    → let c = inspected es r in
      unspent h c.next + count_ok c.out 0 ≤ unspent h es + count_ok c.out 0
unfolding inspected
inspected_ledger h es (ok (i, e)) = omega arith
inspected_ledger h es (err x) = omega arith

revoke_ledger :
    (h id : Text) (c : Clock) (d : Disk) (s : TokenStore)
    → unspent h (update d c.locked s (revoking id c.asked)).1.tokens ≤ unspent h s.tokens
unfolding revoking
revoke_ledger h id c d s = omega (
  arith,
  update_ledger h 0 0 d c.locked s (revoking id c.asked)
      (omega (
        arith,
        count_ok-zero (revoked_one c.asked kept (matches 0 id kept)).out,
        revoked_ledger h kept c.asked (matches 0 id kept) at,
      ))
      (λ q. count_ok-zero (revoked_one c.asked kept (matches 0 id kept)).out),
  count_ok-zero (update d c.locked s (revoking id c.asked)).0,
)
  where
    kept : List Entry
    kept = prune s.tokens c.locked

    at :
        (i : ℕ) (e : Entry) (more : List (ℕ × Entry))
        → matches 0 id kept ≡ (i, e) ∷ more
        → get_elem? kept i ≡ some e
    at i e more p =
        let (j, same, found) = matches-get kept id 0 i e more p in
        let is_j : i ≡ j = omega arith in rw is_j found

pub data Request : Type 0 where
  mint_request : MintOptions → Option Text → Request
  inspect_request redeem_request revoke_request : Text → Request
  list_request : Request

-- One operation, with what the clock and the file system answered it.
pub record Event : Type 0 where
  pub request : Request
  pub clock : Clock
  pub disk : Disk

module _ (digest encode : Text → Text) where
  unfoldable pub after_request : Request → Clock → Disk → TokenStore → TokenStore
  after_request (mint_request opts random) c d s = (mint digest encode opts random c d s).1
  after_request (inspect_request token) c d s = (inspect digest encode token c d s).1
  after_request (redeem_request token) c d s = (redeem digest encode token c d s).1
  after_request (revoke_request id) c d s = (revoke digest encode id c d s).1
  after_request list_request c d s = (list digest encode c d s).1

  -- How many tokens of digest `h` the request minted, and how many it redeemed: 0 or 1.
  abbrev pub mints_of : Text → Request → Clock → Disk → TokenStore → ℕ
  mints_of h (mint_request opts none) c d s = 0
  mints_of h (mint_request opts (some random)) c d s =
      count_ok (mint digest encode opts (some random) c d s).0
        (names_hash h (digest (generate_token digest encode random)))
  mints_of h _ c d s = 0

  abbrev pub redemptions_of : Text → Request → Clock → Disk → TokenStore → ℕ
  redemptions_of h (redeem_request token) c d s =
      count_ok (redeem digest encode token c d s).0 (names_hash h (digest token))
  redemptions_of h _ c d s = 0

  unfoldable pub serve : TokenStore → List Event → TokenStore
  unfolding after_request
  serve s [] = s
  serve s (ev ∷ evs) = serve (after_request ev.request ev.clock ev.disk s) evs

  unfoldable pub mints : Text → TokenStore → List Event → ℕ
  mints h s [] = 0
  mints h s (ev ∷ evs) =
      mints_of h ev.request ev.clock ev.disk s
      + mints h (after_request ev.request ev.clock ev.disk s) evs

  unfoldable pub redemptions : Text → TokenStore → List Event → ℕ
  redemptions h s [] = 0
  redemptions h s (ev ∷ evs) =
      redemptions_of h ev.request ev.clock ev.disk s
      + redemptions h (after_request ev.request ev.clock ev.disk s) evs

  live-minted :
      (h : Text) (opts : MintOptions) (token : Text) (now : ℕ)
      → live h (minted digest encode opts token now) ≡ names_hash h (digest token)
  unfolding minted
  live-minted h opts token now = ground arith

  revoke_request_ledger :
      (h given : Text) (c : Clock) (d : Disk) (s : TokenStore)
      → unspent h (revoke digest encode given c d s).1.tokens ≤ unspent h s.tokens
  unfolding revoke
  revoke_request_ledger h given c d s =
      ground (arith, revoke_ledger h (map lower_byte (trim_space given)) c d s)

  request_ledger :
      (h : Text) (q : Request) (c : Clock) (d : Disk) (s : TokenStore)
      → unspent h (after_request q c d s).tokens + redemptions_of h q c d s
        ≤ unspent h s.tokens + mints_of h q c d s
  unfolding after_request mint inspect redeem list
  request_ledger h (mint_request opts none) c d s = omega arith
  request_ledger h (mint_request opts (some random)) c d s =
      let token = generate_token digest encode random in
      let n = names_hash h (digest token) in
      let e = minted digest encode opts token c.asked in
      let kept = prune s.tokens c.locked in
      omega (
        arith,
        update_ledger h n 0 d c.locked s (minting token e)
            (omega (arith, unspent-append h kept (e ∷ []), live-minted h opts token c.asked))
            (λ q. refl),
      )
  request_ledger h (inspect_request token) c d s = omega (
    arith,
    update_ledger h 0 0 d c.locked s (inspecting (digest token) c.asked)
        (inspected_ledger h (prune s.tokens c.locked) _) (λ q. count_ok-zero _),
  )
  request_ledger h (redeem_request token) c d s =
      let want = digest token in
      let kept = prune s.tokens c.locked in
      let (fine, idle) = redeemed_ledger h want kept c.asked (redeemable kept want c.asked) refl in
      omega (
        arith,
        update_ledger h 0 (names_hash h want) d c.locked s (redeeming want c.asked) fine idle,
        count_ok-zero (update d c.locked s (redeeming want c.asked)).0,
      )
  request_ledger h (revoke_request given) c d s = omega (arith, revoke_request_ledger h given c d s)
  request_ledger h list_request c d s =
      omega (arith, update_ledger h 0 0 d c.locked s listing (omega arith) (λ q. refl))

  -- Over any sequence of operations, with any failures of the disk, the redemptions of a hash and
  -- the entries that can still be redeemed are at most the entries there were and those minted.
  pub redemptions_bounded :
      (h : Text) (s : TokenStore) (evs : List Event)
      → unspent h (serve s evs).tokens + redemptions h s evs ≤ unspent h s.tokens + mints h s evs
  unfolding serve mints redemptions
  redemptions_bounded h s [] = omega arith
  redemptions_bounded h s (ev ∷ evs) = omega (
    arith,
    request_ledger h ev.request ev.clock ev.disk s,
    redemptions_bounded h (after_request ev.request ev.clock ev.disk s) evs,
  )
