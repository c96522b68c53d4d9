-- ===== src/Files/Edit/Search.antt =====
-- strings.Index, as internal/agent/fs/edit.go uses it: what it finds, and where.
use mathlib.Core.Option.{some-injective}
use mathlib.Core.Bool.{false≢true}
use f1337_mcp.Prelude.{
  some≢none, ℕ, zero, suc, ◌+◌, ◌≤◌, ◌≡◌, refl, sym, ap, ◌∙◌, inl, inr, true, Option, none, some,
  List, [], ◌∷◌, ◌++◌, arith, Bool-cases, length, take, drop, Text, eq_text, eq_text_iff,
  has_prefix,
}
use f1337_mcp.Files.Edit.{shifted, index}

zero_plus : (n : ℕ) → 0 + n ≡ n
zero_plus n = omega arith

suc_plus : (m n : ℕ) → suc m + n ≡ suc (m + n)
suc_plus m n = omega arith

has_prefix-length : (s p : Text) → has_prefix s p ≡ true → length p ≤ length s
unfolding has_prefix
has_prefix-length s [] h = omega arith
has_prefix-length [] (c ∷ p) h = absurd (false≢true h)
has_prefix-length (d ∷ s) (c ∷ p) h = ground (arith, has_prefix-length s p)

has_prefix_split : (s p : Text) → has_prefix s p ≡ true → s ≡ p ++ drop (length p) s
unfolding has_prefix
has_prefix_split s [] h = refl
has_prefix_split [] (c ∷ p) h = absurd (false≢true h)
has_prefix_split (d ∷ s) (c ∷ p) h = ground (arith, h, has_prefix_split s p)

shifted-some : (o : Option ℕ) (j : ℕ) → shifted o ≡ some j → (i : ℕ) × (o ≡ some i) × (j ≡ suc i)
shifted-some none j h = absurd (some≢none j (sym h))
shifted-some (some i) j h = (i, refl, sym (some-injective (suc i) j h))

pub index_bound : (sub s : Text) (j : ℕ) → index sub s ≡ some j → j + length sub ≤ length s
unfolding index
index_bound sub [] j h = elim (Bool-cases (eq_text sub [])) [
  | inl e ↦
      let z = some-injective 0 j (rw e at h) in
      let y = (eq_text_iff sub []).0 e in omega (arith, z, ap length y)
  | inr e ↦ absurd (some≢none j (sym h ∙ rw e refl))
]
index_bound sub (c ∷ s) j h = elim (Bool-cases (has_prefix (c ∷ s) sub)) [
  | inl e ↦
      let z = some-injective 0 j (rw e at h) in omega (arith, z, has_prefix-length (c ∷ s) sub e)
  | inr e ↦
      let (i, hit, z) = shifted-some (index sub s) j (rw e at h) in
      rw z (omega (arith, index_bound sub s i hit))
]

-- A text around the first occurrence.
pub index_split :
    (sub s : Text) (j : ℕ) → index sub s ≡ some j → s ≡ take j s ++ (sub ++ drop (j + length sub) s)
unfolding index
index_split sub [] j h = elim (Bool-cases (eq_text sub [])) [
  | inl e ↦
      let y : sub ≡ [] = (eq_text_iff sub []).0 e in
      let z : 0 ≡ j = some-injective 0 j (rw e at h) in rw (y, ← z) refl
  | inr e ↦ absurd (some≢none j (sym h ∙ rw e refl))
]
index_split sub (c ∷ s) j h = elim (Bool-cases (has_prefix (c ∷ s) sub)) [
  | inl e ↦
      let z : 0 ≡ j = some-injective 0 j (rw e at h) in
      rw (← z, zero_plus (length sub)) (has_prefix_split (c ∷ s) sub e)
  | inr e ↦
      let (i, hit, z) = shifted-some (index sub s) j (rw e at h) in
      rw (z, suc_plus i (length sub)) (ap (λ r. c ∷ r) (index_split sub s i hit))
]

drop_nil {ℓ} : {A : Type ℓ} (n : ℕ) → drop {A = A} n [] ≡ []
drop_nil zero = refl
drop_nil (suc n) = refl

pub drop_add {ℓ} : {A : Type ℓ} (m n : ℕ) (xs : List A) → drop (m + n) xs ≡ drop n (drop m xs)
drop_add zero n xs = rw (zero_plus n) refl
drop_add (suc m) n [] = rw (suc_plus m n) (sym (drop_nil n))
drop_add (suc m) n (x ∷ xs) = rw (suc_plus m n) (drop_add m n xs)
