-- ===== src/Enroll/RateLimit/Peers.antt =====
-- The lists and the map that the limiter sweeps.
use f1337_mcp.Prelude.{
  ℕ, ◌≤◌, ◌≡◌, refl, ◌∙◌, ◌⊎◌, inl, inr, true, false, List, [], ◌∷◌, ◌++◌, arith, if◌then◌else◌,
  Bool-cases, length, All, Text, eq_text, eq_text_iff,
}
use f1337_mcp.Enroll.RateLimit.{after, keep_peer, sweep, hits_at, put_hits}

pub after-append :
    (w now : ℕ) (xs ys : List ℕ) → after w now (xs ++ ys) ≡ after w now xs ++ after w now ys
unfolding after
after-append w now [] ys = refl
after-append w now (x ∷ xs) ys = ground (arith, after-append w now xs ys)

-- What one sweep keeps, a later sweep filters as if the first had not been.
pub after-after :
    (w now now' : ℕ) (xs : List ℕ) → now ≤ now' → after w now' (after w now xs) ≡ after w now' xs
unfolding after
after-after w now now' [] h = refl
after-after w now now' (x ∷ xs) h = ground (arith, after-after w now now' xs h)

pub length-after-le : (w now : ℕ) (xs : List ℕ) → length (after w now xs) ≤ length xs
unfolding after
length-after-le w now [] = omega arith
length-after-le w now (x ∷ xs) = ground (arith, length-after-le w now xs)

-- Each key stands once.
abbrev Absent : Text → List (Text × List ℕ) → Type 0
Absent k m = All (λ p. eq_text k p.0 ≡ false) m

abbrev pub UniqueKeys : List (Text × List ℕ) → Type 0
UniqueKeys [] = Unit
UniqueKeys ((k, v) ∷ m) = Absent k m × UniqueKeys m

hits_at-Absent : (k : Text) (m : List (Text × List ℕ)) → Absent k m → hits_at k m ≡ []
unfolding hits_at
hits_at-Absent k [] a = refl
hits_at-Absent k ((j, v) ∷ m) a = rw (a.0) (hits_at-Absent k m a.1)

Absent-keep_peer :
    (k j : Text) (v : List ℕ) (m : List (Text × List ℕ))
    → eq_text k j ≡ false
    → Absent k m
    → Absent k (keep_peer j v m)
Absent-keep_peer k j [] m n a = a
Absent-keep_peer k j (x ∷ v) m n a = (n, a)

Absent-sweep :
    (w now : ℕ) (k : Text) (m : List (Text × List ℕ)) → Absent k m → Absent k (sweep w now m)
unfolding sweep
Absent-sweep w now k [] a = tt
Absent-sweep w now k ((j, v) ∷ m) a =
    Absent-keep_peer k j (after w now v) (sweep w now m) a.0 (Absent-sweep w now k m a.1)

pub UniqueKeys-sweep :
    (w now : ℕ) (m : List (Text × List ℕ)) → UniqueKeys m → UniqueKeys (sweep w now m)
unfolding sweep
UniqueKeys-sweep w now [] u = tt
UniqueKeys-sweep w now ((k, v) ∷ m) u =
    go (after w now v) (Absent-sweep w now k m u.0) (UniqueKeys-sweep w now m u.1)
  where
    go :
        (hits : List ℕ)
        → Absent k (sweep w now m)
        → UniqueKeys (sweep w now m)
        → UniqueKeys (keep_peer k hits (sweep w now m))
    go [] a b = b
    go (t ∷ hits) a b = (a, b)

hits_at-keep_peer :
    (k j : Text) (v : List ℕ) (m : List (Text × List ℕ))
    → Absent j m
    → hits_at k (keep_peer j v m) ≡ (if eq_text k j then v else hits_at k m)
unfolding hits_at
hits_at-keep_peer k j [] m a = elim (Bool-cases (eq_text k j)) [
  | inl e ↦ let same : k ≡ j = (eq_text_iff k j).0 e in rw e (rw same (hits_at-Absent j m a))
  | inr e ↦ rw e
]
hits_at-keep_peer k j (x ∷ v) m a = refl

pub hits_at-sweep :
    (w now : ℕ) (k : Text) (m : List (Text × List ℕ))
    → UniqueKeys m
    → hits_at k (sweep w now m) ≡ after w now (hits_at k m)
unfolding sweep hits_at after
hits_at-sweep w now k [] u = refl
hits_at-sweep w now k ((j, v) ∷ m) u =
    hits_at-keep_peer k j (after w now v) (sweep w now m) (Absent-sweep w now j m u.0)
    ∙ split (Bool-cases (eq_text k j)) (hits_at-sweep w now k m u.1)
  where
    split :
        (eq_text k j ≡ true) ⊎ (eq_text k j ≡ false)
        → hits_at k (sweep w now m) ≡ after w now (hits_at k m)
        → (if eq_text k j then after w now v else hits_at k (sweep w now m))
          ≡ after w now (if eq_text k j then v else hits_at k m)
    split (inl e) ih = rw e
    split (inr e) ih = rw e ih

Absent-put_hits :
    (k j : Text) (v : List ℕ) (m : List (Text × List ℕ))
    → eq_text k j ≡ false
    → Absent k m
    → Absent k (put_hits j v m)
unfolding put_hits
Absent-put_hits k j v [] n a = (n, tt)
Absent-put_hits k j v ((i, u) ∷ m) n a = ground (arith, Absent-put_hits k j v m n)

pub UniqueKeys-put_hits :
    (j : Text) (v : List ℕ) (m : List (Text × List ℕ)) → UniqueKeys m → UniqueKeys (put_hits j v m)
unfolding put_hits
UniqueKeys-put_hits j v [] u = (tt, tt)
UniqueKeys-put_hits j v ((i, x) ∷ m) u = elim (Bool-cases (eq_text j i)) [
  | inl e ↦ rw e u
  | inr e ↦
      let differ : eq_text i j ≡ false = ground (arith, eq_text_iff i j, eq_text_iff j i) in
      rw e (Absent-put_hits i j v m differ u.0, UniqueKeys-put_hits j v m u.1)
]

pub hits_at-put_hits :
    (k j : Text) (v : List ℕ) (m : List (Text × List ℕ))
    → hits_at k (put_hits j v m) ≡ (if eq_text k j then v else hits_at k m)
unfolding hits_at put_hits
hits_at-put_hits k j v [] = refl
hits_at-put_hits k j v ((i, u) ∷ m) =
    ground (arith, hits_at-put_hits k j v m, eq_text_iff k j, eq_text_iff k i, eq_text_iff j i)
