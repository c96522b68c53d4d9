-- ===== src/Enroll/Store/Entries.antt =====
-- What the searches of the token store find, and what a write through the found pointer changes.
use f1337_mcp.Enroll.Store.{ok, TokenError, matches}
use f1337_mcp.Prelude.{
  has_prefix, refl, Option, ℕ, zero, suc, ◌+◌, ◌≤◌, ◌≡◌, inl, inr, true, false, not, ◌&&◌, none,
  some, List, [], ◌∷◌, ◌++◌, arith, if◌then◌else◌, Bool-cases, get_elem?, set, Text, eq_text,
}
use f1337_mcp.Enroll.Token.{
  err, judged, one_further, Result, redeemable, TokenRecord, Entry, verdict, prune, retained,
}

-- 1 for an entry of this hash that nothing has spent yet.
abbrev pub live : Text → Entry → ℕ
live h e = if eq_text h e.hash && (not e.rec.used && not e.rec.revoked) then 1 else 0

abbrev pub unspent : Text → List Entry → ℕ
unspent h [] = 0
unspent h (e ∷ es) = live h e + unspent h es

pub unspent-append :
    (h : Text) (xs ys : List Entry) → unspent h (xs ++ ys) ≡ unspent h xs + unspent h ys
unspent-append h [] ys = omega arith
unspent-append h (x ∷ xs) ys = omega (arith, unspent-append h xs ys)

pub unspent-set :
    (h : Text) (es : List Entry) (i : ℕ) (e e' : Entry)
    → get_elem? es i ≡ some e
    → unspent h (set es i e') + live h e ≡ unspent h es + live h e'
unspent-set h [] i e e' p = cc
unspent-set h (x ∷ xs) zero e e' p = ground (arith, p)
unspent-set h (x ∷ xs) (suc i) e e' p = omega (arith, unspent-set h xs i e e' p)

pub unspent-prune-le :
    (h : Text) (es : List Entry) (now : ℕ) → unspent h (prune es now) ≤ unspent h es
unfolding prune
unspent-prune-le h [] now = omega arith
unspent-prune-le h (e ∷ es) now = elim (Bool-cases (retained now e)) [
  | inl k ↦ rw k (omega (arith, unspent-prune-le h es now))
  | inr k ↦ rw k (omega (arith, unspent-prune-le h es now))
]

-- What a successful search says of the entry that it found.
pub record IsFound (es : List Entry) (want : Text) (now i : ℕ) (e : Entry) : Type 0 where
  pub at : get_elem? es i ≡ some e
  pub hash : eq_text want e.hash ≡ true
  pub not_spent : (e.rec.used ≡ false) × (e.rec.revoked ≡ false)
  pub in_time : now ≤ e.rec.expires_at

pub verdict-none :
    (r : TokenRecord) (now : ℕ)
    → verdict r now ≡ none
    → ((r.used ≡ false) × (r.revoked ≡ false)) × (now ≤ r.expires_at)
unfolding verdict
verdict-none r now h = ground arith

judged_found :
    (x : Entry) (o : Option TokenError) {i : ℕ} {e : Entry}
    → judged x o ≡ ok (i, e)
    → (o ≡ none) × (i ≡ 0) × (e ≡ x)
judged_found x none h = ground arith
judged_found x (some y) h = cc

one_further_found :
    (r : Result (ℕ × Entry)) {i : ℕ} {e : Entry}
    → one_further r ≡ ok (i, e)
    → (j : ℕ) × (r ≡ ok (j, e)) × (i ≡ suc j)
one_further_found (ok (j, x)) h = (j, ground arith, ground arith)
one_further_found (err x) h = cc

pub redeemable-IsFound :
    (es : List Entry) (want : Text) (now i : ℕ) (e : Entry)
    → redeemable es want now ≡ ok (i, e)
    → IsFound es want now i e
unfolding redeemable
redeemable-IsFound [] want now i e h = cc
redeemable-IsFound (x ∷ xs) want now i e h = elim (Bool-cases (eq_text want x.hash)) [
  | inl same ↦ here same (judged_found x (verdict x.rec now) (rw same at h))
  | inr other ↦
      let (j, found, at_j) = one_further_found (redeemable xs want now) (rw other at h) in
      let tail = redeemable-IsFound xs want now j e found in
      rw at_j (record {
        at = tail.at;
        hash = tail.hash;
        not_spent = tail.not_spent;
        in_time = tail.in_time;
      })
]
  where
    here :
        eq_text want x.hash ≡ true
        → (verdict x.rec now ≡ none) × (i ≡ 0) × (e ≡ x)
        → IsFound (x ∷ xs) want now i e
    here same (fine, at_zero, is_x) =
        rw (at_zero, is_x)
          (record {
            at = refl;
            hash = same;
            not_spent = (verdict-none x.rec now fine).0;
            in_time = (verdict-none x.rec now fine).1;
          })

pub matches-get :
    (es : List Entry) (id : Text) (k i : ℕ) (e : Entry) (more : List (ℕ × Entry))
    → matches k id es ≡ (i, e) ∷ more
    → (j : ℕ) × (i ≡ k + j) × (get_elem? es j ≡ some e)
unfolding matches
matches-get [] id k i e more h = cc
matches-get (x ∷ xs) id k i e more h = elim (Bool-cases (has_prefix x.hash id)) [
  | inl same ↦ let first = rw same at h in (0, ground arith, ground arith)
  | inr other ↦
      let (j, at_j, found) = matches-get xs id (suc k) i e more (rw other at h) in
      (suc j, omega arith, found)
]
