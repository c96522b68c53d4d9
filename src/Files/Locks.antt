-- ===== src/Files/Locks.antt =====
-- internal/agent/fs/locks.go: the order in which an operation on two paths takes its locks. `folds` says whether the
-- platform's paths ignore case, and `to_lower` is strings.ToLower.
use mathlib.Core.Bool.{false≢true}
use f1337_mcp.Prelude.{
  ◌≡◌, refl, sym, ◌∙◌, inl, inr, Bool, true, false, [], ◌∷◌, arith, ltb, ◌==◌, if◌then◌else◌,
  Bool-cases, Text, eq_text,
}

-- `<` on strings
unfoldable pub less_text : Text → Text → Bool
less_text s [] = false
less_text [] (y ∷ t) = true
less_text (x ∷ s) (y ∷ t) = let rest = less_text s t in if x == y then rest else ltb x y

-- The locks that are taken: one, or the first and then the second.
pub data Locking : Type 0 where
  lock_one : Text → Locking
  lock_two : Text → Text → Locking

module _ (folds : Bool) (to_lower : Text → Text) where
  unfoldable pub lock_key : Text → Text
  lock_key path = if folds then to_lower path else path

  in_order : Text → Text → Locking
  unfolding lock_key
  in_order first second =
      if eq_text (lock_key first) (lock_key second) then lock_one first else lock_two first second

  unfoldable pub lock_both : Text → Text → Locking
  unfolding in_order less_text
  lock_both a b = if less_text (lock_key b) (lock_key a) then in_order b a else in_order a b

less_trans : (s t u : Text) → less_text s t ≡ true → less_text t u ≡ true → less_text s u ≡ true
unfolding less_text
less_trans s t [] h k = absurd (false≢true k)
less_trans s [] (z ∷ u) h k = absurd (false≢true h)
less_trans [] (y ∷ t) (z ∷ u) h k = refl
less_trans (x ∷ s) (y ∷ t) (z ∷ u) h k = ground (arith, h, k, less_trans s t u)

less_irrefl : (s : Text) → less_text s s ≡ false
unfolding less_text
less_irrefl [] = refl
less_irrefl (x ∷ s) = ground (arith, less_irrefl s)

less_total : (s t : Text) → less_text s t ≡ false → eq_text t s ≡ false → less_text t s ≡ true
unfolding less_text eq_text
less_total [] [] h k = absurd (false≢true (sym k))
less_total [] (y ∷ t) h k = absurd (false≢true (sym h))
less_total (x ∷ s) [] h k = refl
less_total (x ∷ s) (y ∷ t) h k = ground (arith, h, k, less_total s t)

less_asym : (s t : Text) → less_text s t ≡ true → less_text t s ≡ false
less_asym s t h = elim (Bool-cases (less_text t s)) [
  | inl k ↦ absurd (false≢true (sym (less_irrefl s) ∙ less_trans s t s h k))
  | inr k ↦ k
]

two_injective : (a b c d : Text) → Locking.lock_two a b ≡ Locking.lock_two c d → (a ≡ c) × (b ≡ d)
two_injective a b c d h = (cc, cc)

module _ (folds : Bool) (to_lower : Text → Text) where
  -- A caller of lockBoth that holds the lock of its first key and waits for the second.
  pub data Waits : Text → Text → Type 0 where
    waits :
        (a b first second : Text)
        → lock_both folds to_lower a b ≡ Locking.lock_two first second
        → Waits (lock_key folds to_lower first) (lock_key folds to_lower second)

  -- Callers each of which waits for the key that the next holds.
  pub data Chain : Text → Text → Type 0 where
    link : (held wanted : Text) → Waits held wanted → Chain held wanted
    queue : (held wanted end : Text) → Waits held wanted → Chain wanted end → Chain held end

  in_order_lem :
      (a b first second : Text)
      → less_text (lock_key folds to_lower b) (lock_key folds to_lower a) ≡ false
      → in_order folds to_lower a b ≡ Locking.lock_two first second
      → less_text (lock_key folds to_lower first) (lock_key folds to_lower second) ≡ true
  unfolding in_order
  in_order_lem a b first second h e =
      elim (Bool-cases (eq_text (lock_key folds to_lower a) (lock_key folds to_lower b))) [
        | inl same ↦ cc (rw (in_order, same) at e)
        | inr apart ↦
            let (fa, sb) = two_injective a b first second (rw (in_order, apart) at e) in
            rw (← fa, ← sb)
              (less_total (lock_key folds to_lower b) (lock_key folds to_lower a) h apart)
      ]

  Waits-less_text : (held wanted : Text) → Waits held wanted → less_text held wanted ≡ true
  unfolding lock_both
  Waits-less_text _ _ (waits a b first second e) =
      elim (Bool-cases (less_text (lock_key folds to_lower b) (lock_key folds to_lower a))) [
        | inl swap ↦
            in_order_lem b a first second
              (less_asym (lock_key folds to_lower b) (lock_key folds to_lower a) swap)
              (rw (lock_both, swap) at e)
        | inr stay ↦ in_order_lem a b first second stay (rw (lock_both, stay) at e)
      ]

  Chain-less_text : (held wanted : Text) → Chain held wanted → less_text held wanted ≡ true
  Chain-less_text _ _ (Chain.link held wanted w) = Waits-less_text held wanted w
  Chain-less_text _ _ (Chain.queue held wanted end w c) =
      less_trans held wanted end (Waits-less_text held wanted w) (Chain-less_text wanted end c)

  -- Callers that lock two paths never wait in a ring, each for the key that the next holds:
  -- every such wait goes up in the order of the keys.
  pub no_deadlock : (held : Text) → ¬ Chain held held
  no_deadlock held c = absurd (false≢true (sym (less_irrefl held) ∙ Chain-less_text held held c))
