-- ===== src/Enroll/Store/Authority.antt =====
-- What a token authorizes is fixed when it is minted, and an inspection foretells a redemption.
use f1337_mcp.Enroll.Store.Entries.{redeemable-IsFound, matches-get}
use f1337_mcp.Enroll.Store.Ledger.{
  list_request, revoke_request, redeem_request, inspect_request, Request, Event, mints, serve,
  after_request, mint_request, mints_of, names_hash,
}
use f1337_mcp.Prelude.{
  refl, ◌⊎◌, none, trim_space, lower_byte, map, ℕ, zero, suc, ◌≡◌, inl, inr, true, some, List, [],
  ◌∷◌, ◌++◌, arith, Bool-cases, get_elem?, set, All, Text, eq_text,
}
use f1337_mcp.Enroll.Token.{exported, err, redeemable, ok, Result, Entry, prune, retained}
use f1337_mcp.Enroll.Store.{
  listing, revoking, redeeming, inspecting, revoke, list, redeem, inspect, generate_token, minting,
  Clock, MintOptions, matches, mint, inspected, revoked_one, redeemed, minted, Disk, TokenStore,
  Change, update, mark_used, mark_revoked,
}

-- The fields that enrollment validates a request against.
pub record Authority : Type 0 where
  pub name : Text
  pub labels : List (Text × Text)
  pub addresses : List Text
  pub issued_at : ℕ
  pub expires_at : ℕ

unfoldable pub authority : Entry → Authority
authority e = record {
  name = e.rec.name;
  labels = e.rec.labels;
  addresses = e.rec.addresses;
  issued_at = e.rec.issued_at;
  expires_at = e.rec.expires_at;
}

-- Every entry of hash `h` authorizes `a`.
abbrev pub Authorizes : Text → Authority → List Entry → Type 0
Authorizes h a es = All (λ e. eq_text h e.hash ≡ true → authority e ≡ a) es

module _ (P : Entry → Type 0) where
  All-set : (es : List Entry) (i : ℕ) (e : Entry) → All P es → P e → All P (set es i e)
  All-set [] i e a p = tt
  All-set (x ∷ xs) zero e a p = (p, a.1)
  All-set (x ∷ xs) (suc i) e a p = (a.0, All-set xs i e a.1 p)

  All-get : (es : List Entry) (i : ℕ) (e : Entry) → All P es → get_elem? es i ≡ some e → P e
  All-get [] i e a p = cc
  All-get (x ∷ xs) zero e a p = let same : x ≡ e = ground arith in rw same at (a.0)
  All-get (x ∷ xs) (suc i) e a p = All-get xs i e a.1 p

  All-snoc : (es : List Entry) (e : Entry) → All P es → P e → All P (es ++ e ∷ [])
  All-snoc [] e a p = (p, tt)
  All-snoc (x ∷ xs) e a p = (a.0, All-snoc xs e a.1 p)

  All-prune : (es : List Entry) (now : ℕ) → All P es → All P (prune es now)
  unfolding prune
  All-prune [] now a = tt
  All-prune (x ∷ xs) now a = elim (Bool-cases (retained now x)) [
    | inl k ↦ rw k (a.0, All-prune xs now a.1)
    | inr k ↦ rw k (All-prune xs now a.1)
  ]

  All-update :
      {A : Type 0} (d : Disk) (now : ℕ) (s : TokenStore) (fn : List Entry → Change A)
      → All P s.tokens
      → All P (fn (prune s.tokens now)).next
      → All P (update d now s fn).1.tokens
  unfolding update
  All-update d now s fn a b = ground arith

-- A mint either succeeds and appends its entry, or leaves the store as it was.
update-minting :
    (token : Text) (e : Entry) (d : Disk) (now : ℕ) (s : TokenStore)
    → let (r, s') = update d now s (minting token e) in
      ((r ≡ ok (token, exported e)) × (s'.tokens ≡ prune s.tokens now ++ e ∷ []))
      ⊎ (s'.tokens ≡ s.tokens)
unfolding update minting
update-minting token e d now s = ground arith

module _ (h : Text) (a : Authority) where
  abbrev Fits : Entry → Type 0
  Fits e = eq_text h e.hash ≡ true → authority e ≡ a

  Fits-mark_used : (now : ℕ) (e : Entry) → Fits e → Fits (mark_used now e)
  unfolding mark_used authority
  Fits-mark_used now e f = f

  Fits-mark_revoked : (now : ℕ) (e : Entry) → Fits e → Fits (mark_revoked now e)
  unfolding mark_revoked authority
  Fits-mark_revoked now e f = f

  redeemed-Authorizes :
      (want : Text) (now : ℕ) (es : List Entry) (r : Result (ℕ × Entry))
      → redeemable es want now ≡ r
      → Authorizes h a es
      → Authorizes h a (redeemed now es r).next
  unfolding redeemed
  redeemed-Authorizes want now es (err x) p f = f
  redeemed-Authorizes want now es (ok (i, e)) p f =
      let found = redeemable-IsFound es want now i e p in
      All-set Fits es i (mark_used now e) f (Fits-mark_used now e (All-get Fits es i e f found.at))

  inspected-Authorizes :
      (es : List Entry) (r : Result (ℕ × Entry))
      → Authorizes h a es
      → Authorizes h a (inspected es r).next
  unfolding inspected
  inspected-Authorizes es (ok (i, e)) f = f
  inspected-Authorizes es (err x) f = f

  revoked-Authorizes :
      (id : Text) (now : ℕ) (es : List Entry) (m : List (ℕ × Entry))
      → matches 0 id es ≡ m
      → Authorizes h a es
      → Authorizes h a (revoked_one now es m).next
  unfolding revoked_one
  revoked-Authorizes id now es [] p f = f
  revoked-Authorizes id now es ((i, e) ∷ []) p f =
      let (j, same, found) = matches-get es id 0 i e [] p in
      let is_j : i ≡ j = omega arith in
      let found_i : get_elem? es i ≡ some e = rw is_j found in
      let marked =
        All-set Fits es i (mark_revoked now e) f
          (Fits-mark_revoked now e (All-get Fits es i e f found_i)) in
      ground (arith, marked, f)
  revoked-Authorizes id now es (x ∷ y ∷ m) p f = f

  module _ (digest encode : Text → Text) where
    minted-Fits :
        (opts : MintOptions) (token : Text) (now : ℕ)
        → names_hash h (digest token) ≡ 0
        → Fits (minted digest encode opts token now)
    unfolding minted
    minted-Fits opts token now n = ground arith

    mint-Authorizes :
        (opts : MintOptions) (random : Text) (c : Clock) (d : Disk) (s : TokenStore)
        → mints_of digest encode h (mint_request opts (some random)) c d s ≡ 0
        → Authorizes h a s.tokens
        → Authorizes h a (mint digest encode opts (some random) c d s).1.tokens
    unfolding mint
    mint-Authorizes opts random c d s none_minted f = elim (update-minting token e d c.locked s) [
      | inl (minted_ok, appended) ↦ rw appended (
          All-snoc Fits (prune s.tokens c.locked) e (All-prune Fits s.tokens c.locked f)
            (minted-Fits opts token c.asked (rw minted_ok at none_minted)))
      | inr same ↦ rw same f
    ]
      where
        token : Text
        token = generate_token digest encode random

        e : Entry
        e = minted digest encode opts token c.asked

    after_request-Authorizes :
        (q : Request) (c : Clock) (d : Disk) (s : TokenStore)
        → mints_of digest encode h q c d s ≡ 0
        → Authorizes h a s.tokens
        → Authorizes h a (after_request digest encode q c d s).tokens
    unfolding after_request inspect redeem list revoke
    after_request-Authorizes (mint_request opts none) c d s n f = unfold mint in f
    after_request-Authorizes (mint_request opts (some random)) c d s n f =
        mint-Authorizes opts random c d s n f
    after_request-Authorizes (inspect_request token) c d s n f =
        let kept = All-prune Fits s.tokens c.locked f in
        All-update Fits d c.locked s (inspecting (digest token) c.asked) f
          (inspected-Authorizes (prune s.tokens c.locked) _ kept)
    after_request-Authorizes (redeem_request token) c d s n f =
        let kept = All-prune Fits s.tokens c.locked f in
        All-update Fits d c.locked s (redeeming (digest token) c.asked) f
          (redeemed-Authorizes (digest token) c.asked (prune s.tokens c.locked) _ refl kept)
    after_request-Authorizes (revoke_request given) c d s n f =
        let id = map lower_byte (trim_space given) in
        let kept = All-prune Fits s.tokens c.locked f in
        let written =
          All-update Fits d c.locked s (revoking id c.asked) f
            (revoked-Authorizes id c.asked (prune s.tokens c.locked) _ refl kept) in
        ground (arith, written, f)
    after_request-Authorizes list_request c d s n f =
        All-update Fits d c.locked s listing f (All-prune Fits s.tokens c.locked f)

    -- As long as no token of digest `h` is minted, every entry of hash `h` keeps the name, the
    -- labels, the addresses and the times that it was minted with, whatever operations run.
    pub serve-Authorizes :
        (s : TokenStore) (evs : List Event)
        → mints digest encode h s evs ≡ 0
        → Authorizes h a s.tokens
        → Authorizes h a (serve digest encode s evs).tokens
    unfolding serve mints
    serve-Authorizes s [] n f = f
    serve-Authorizes s (ev ∷ evs) n f =
        serve-Authorizes (after_request digest encode ev.request ev.clock ev.disk s) evs
          (omega arith) (after_request-Authorizes ev.request ev.clock ev.disk s (omega arith) f)
