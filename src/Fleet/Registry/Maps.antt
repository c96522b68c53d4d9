-- ===== src/Fleet/Registry/Maps.antt =====
-- Reads of the selection map after a write.
use mathlib.Core.Option.{some-injective}
use mathlib.Core.Bool.{false≢true}
use f1337_mcp.Prelude.{
  ◌≡◌, refl, sym, ◌∙◌, ◌≢◌, inl, inr, false, some, List, [], ◌∷◌, Bool-cases, Text, eq_text,
  eq_text_iff, eq_text_refl,
}
use f1337_mcp.Fleet.Registry.{put, lookup, delete, clear_pointing}

pub lookup-put : (k v : Text) (m : List (Text × Text)) → lookup k (put k v m) ≡ some v
unfolding lookup put
lookup-put k v [] = rw (eq_text_refl k) refl
lookup-put k v ((x, y) ∷ m) = elim (Bool-cases (eq_text x k)) [
  | inl e ↦ rw e (rw (eq_text_refl k) refl)
  | inr e ↦ rw e (rw e (lookup-put k v m))
]

pub lookup-put_ne :
    (k v k' : Text) (m : List (Text × Text))
    → eq_text k k' ≡ false
    → lookup k' (put k v m) ≡ lookup k' m
unfolding lookup put
lookup-put_ne k v k' [] h = rw h refl
lookup-put_ne k v k' ((x, y) ∷ m) h = elim (Bool-cases (eq_text x k)) [
  | inl e ↦ rw e (rw h (rw ((eq_text_iff x k).0 e) (rw h refl)))
  | inr e ↦ rw e (rw (lookup-put_ne k v k' m h) refl)
]

pub lookup-delete_ne :
    (k k' : Text) (m : List (Text × Text))
    → eq_text k k' ≡ false
    → lookup k' (delete k m) ≡ lookup k' m
unfolding lookup delete
lookup-delete_ne k k' [] h = refl
lookup-delete_ne k k' ((x, y) ∷ m) h = elim (Bool-cases (eq_text x k)) [
  | inl e ↦ rw e (rw ((eq_text_iff x k).0 e) (rw h (lookup-delete_ne k k' m h)))
  | inr e ↦ rw e (rw (lookup-delete_ne k k' m h) refl)
]

pub lookup-clear_pointing :
    (k name : Text) (m : List (Text × Text)) → lookup k (clear_pointing name m).1 ≢ some name
unfolding lookup clear_pointing
lookup-clear_pointing k name [] h = cc
lookup-clear_pointing k name ((x, y) ∷ m) h = elim (Bool-cases (eq_text y name)) [
  | inl e ↦ lookup-clear_pointing k name m (rw e at h)
  | inr e ↦ elim (Bool-cases (eq_text x k)) [
    | inl f ↦
        absurd
          (false≢true (sym e ∙ (eq_text_iff y name).1 (some-injective y name (rw (e, f) at h))))
    | inr f ↦ lookup-clear_pointing k name m (rw (e, f) at h)
  ]
]
