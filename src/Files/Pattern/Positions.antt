-- ===== src/Files/Pattern/Positions.antt =====
-- Positions in a list and keys in the memo of internal/agent/fs/pattern.go.
use f1337_mcp.Prelude.{
  ℕ, zero, suc, ◌+◌, ◌-◌, ◌*◌, ◌≤◌, ◌<◌, ◌≡◌, refl, ap, ◌∙◌, Bool, true, false, ◌||◌, List, [], ◌∷◌,
  arith, ◌==◌, if◌then◌else◌, length, get_or, drop, replicate, Text,
}
use f1337_mcp.Files.Pattern.{key}
use f1337_mcp.Files.Pattern.Reference.{any_tail}

pub drop_cons {ℓ} :
    {A : Type ℓ} (d : A) (i : ℕ) (xs : List A)
    → i < length xs
    → drop i xs ≡ get_or xs i d ∷ drop (suc i) xs
drop_cons d i [] h = elim h [ ]
drop_cons d zero (x ∷ xs) h = refl
drop_cons d (suc i) (x ∷ xs) h = drop_cons d i xs (omega arith)

pub drop_all {ℓ} : {A : Type ℓ} (i : ℕ) (xs : List A) → length xs ≤ i → drop i xs ≡ []
drop_all zero [] h = refl
drop_all (suc i) [] h = refl
drop_all zero (x ∷ xs) h = elim h [ ]
drop_all (suc i) (x ∷ xs) h = drop_all i xs (omega arith)

pub seen_bit : (b : Bool) → ((if b then 1 else 2) == 1) ≡ b
seen_bit true = refl
seen_bit false = refl

pub get_or-replicate : (n i d : ℕ) → get_or (replicate n d) i d ≡ d
get_or-replicate zero i d = refl
get_or-replicate (suc n) zero d = refl
get_or-replicate (suc n) (suc i) d = get_or-replicate n i d

pub plus_one : (k : ℕ) → k + 1 ≡ suc k
plus_one k = omega arith

pub columns : (j n : ℕ) → j ≤ n → n + 1 - j ≡ suc (n - j)
columns j n h = omega arith

unfoldable pub any_from : (ℕ → Bool) → ℕ → ℕ → Bool
any_from f zero k = false
any_from f (suc n) k = f k || any_from f n (k + 1)

pub any_from_tail :
    (f : List Text → Bool) (xs : List Text) (n k : ℕ)
    → k + n ≡ length xs
    → any_from (λ j. f (drop j xs)) (suc n) k ≡ any_tail f (drop k xs)
unfolding any_from any_tail
any_from_tail f xs zero k h = rw (drop_all k xs (omega (arith, h))) (ground arith)
any_from_tail f xs (suc n) k h =
    rw (drop_cons [] k xs (omega (arith, h)), any_from)
      (ap (λ r. f (get_or xs k [] ∷ drop (suc k) xs) || r)
        (any_from_tail f xs n (k + 1) (omega (arith, h)) ∙ rw (plus_one k) refl))

below : (a b w : ℕ) → a < b → a * w + w ≤ b * w
below a b w h = grind arith

pub key_injective :
    (name : List Text) (i j a b : ℕ)
    → j ≤ length name
    → b ≤ length name
    → key name i j ≡ key name a b
    → (i ≡ a) × (j ≡ b)
unfolding key
key_injective name i j a b hj hb e =
    let lt : ¬ (i < a) = λ h. omega (arith, below i a (length name + 1) h) in
    let gt : ¬ (a < i) = λ h. omega (arith, below a i (length name + 1) h) in
    let same : i ≡ a = omega (arith, lt, gt) in
    (same, omega (arith, e, ap (λ r. r * (length name + 1)) same))

pub key_bound :
    (pat name : List Text) (i j : ℕ)
    → i ≤ length pat
    → j ≤ length name
    → key name i j < (length pat + 1) * (length name + 1)
unfolding key
key_bound pat name i j hi hj =
    omega (arith, below i (length pat + 1) (length name + 1) (omega (arith, hi)))
