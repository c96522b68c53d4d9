-- ===== src/Fleet/Selection/Identity.antt =====
-- The identities that requests get, as keys of the registry file.
use mathlib.Core.Option.{some-injective}
use mathlib.Core.Bool.{false≢true}
use f1337_mcp.Prelude.{
  some≢none, ℕ, ◌+◌, ◌≤◌, ◌<◌, ◌≡◌, refl, sym, ◌∙◌, inl, inr, false, ◌||◌, Option, none, some, [],
  ◌∷◌, ◌++◌, arith, ltb, leb, Bool-cases, Option-cases, length, any, All, length-append, Text,
  codes, eq_text, eq_text_refl, is_space, trim_left, trim_space,
}
use mathlib.Core.List.{reverse, reverse_aux}
use f1337_mcp.Fleet.Registry.{check_client, is_control, max_client_id_length}
use f1337_mcp.Fleet.Selection.{
  Resolver, Caller, clean, sanitize_identity, namespaced, identity_for, max_identity_length,
}

-- Printable ASCII, the space included.
abbrev IsPlain : ℕ → Type 0
IsPlain c = (ltb c 32 || ltb 126 c) ≡ false

-- Plain, and no longer than `n`.
IsBounded : ℕ → Text → Type 0
IsBounded n s = All IsPlain s × (length s ≤ n)

All-snoc : (b : Text) (c : ℕ) → All IsPlain b → IsPlain c → All IsPlain (b ++ c ∷ [])
All-snoc [] c h p = (p, tt)
All-snoc (x ∷ b) c h p = (h.0, All-snoc b c h.1 p)

clean-IsBounded :
    (b s : Text)
    → All IsPlain b
    → length b < max_identity_length
    → IsBounded max_identity_length (clean b s)
unfolding clean IsBounded
clean-IsBounded b [] h n = (h, omega (arith, n))
clean-IsBounded b (c ∷ s) h n = elim (Bool-cases (ltb c 32 || ltb 126 c)) [
  | inl e ↦ rw e (clean-IsBounded b s h n)
  | inr e ↦
      let longer : length (b ++ c ∷ []) ≡ length b + 1 = length-append b (c ∷ []) in
      elim (Bool-cases (leb max_identity_length (length (b ++ c ∷ [])))) [
        | inl f ↦ rw (e, f) (All-snoc b c h e, omega (arith, longer, n))
        | inr f ↦ rw (e, f) (clean-IsBounded (b ++ c ∷ []) s (All-snoc b c h e) (ground (arith, f)))
      ]
]

trim_left-IsBounded : (n : ℕ) (s : Text) → IsBounded n s → IsBounded n (trim_left s)
unfolding trim_left IsBounded
trim_left-IsBounded n [] h = h
trim_left-IsBounded n (c ∷ s) h = elim (Bool-cases (is_space c)) [
  | inl e ↦ rw e (trim_left-IsBounded n s (h.0.1, omega (arith, h.1)))
  | inr e ↦ rw e h
]

reverse_aux-IsPlain :
    (s acc : Text) → All IsPlain s → All IsPlain acc → All IsPlain (reverse_aux s acc)
reverse_aux-IsPlain [] acc h k = k
reverse_aux-IsPlain (c ∷ s) acc h k = reverse_aux-IsPlain s (c ∷ acc) h.1 (h.0, k)

reverse_aux-length : (s acc : Text) → length (reverse_aux s acc) ≡ length s + length acc
reverse_aux-length [] acc = omega arith
reverse_aux-length (c ∷ s) acc = omega (arith, reverse_aux-length s (c ∷ acc))

reverse-IsBounded : (n : ℕ) (s : Text) → IsBounded n s → IsBounded n (reverse s)
unfolding IsBounded
reverse-IsBounded n s h =
    (reverse_aux-IsPlain s [] h.0 tt, omega (arith, reverse_aux-length s [], h.1))

sanitize_identity-IsBounded : (s : Text) → IsBounded max_identity_length (sanitize_identity s)
unfolding sanitize_identity trim_space IsBounded
sanitize_identity-IsBounded s = elim (Bool-cases (eq_text (trim_space s) [])) [
  | inl e ↦ rw e (tt, omega arith)
  | inr e ↦ rw e (
      reverse-IsBounded max_identity_length _ (
        trim_left-IsBounded max_identity_length _ (
          reverse-IsBounded max_identity_length _ (
            trim_left-IsBounded max_identity_length _
              (clean-IsBounded [] (trim_space s) tt (omega arith))))))
]

controls-none :
    (p s : Text) → any is_control p ≡ false → All IsPlain s → any is_control (p ++ s) ≡ false
controls-none [] [] h k = refl
controls-none [] (c ∷ s) h k = ground (arith, controls-none [] s h k.1, k.0)
controls-none (x ∷ p) s h k = ground (arith, controls-none p s, k)

-- A sanitized name after a short prefix without control characters is a key that is accepted.
check_client-prefix :
    (p s : Text)
    → eq_text (p ++ s) [] ≡ false
    → length p ≤ max_identity_length
    → any is_control p ≡ false
    → IsBounded max_identity_length s
    → check_client (p ++ s) ≡ none
unfolding check_client IsBounded
check_client-prefix p s named short plain h =
    let long : ltb max_client_id_length (length (p ++ s)) ≡ false =
      ground (arith, length-append p s, short, h.1) in
    rw (named, long, controls-none p s plain h.0) refl

namespaced-some :
    (x : ℕ) (p : Text) (o : Option Text) (id : Text)
    → length (x ∷ p) ≤ max_identity_length
    → any is_control (x ∷ p) ≡ false
    → namespaced (x ∷ p) o ≡ some id
    → check_client id ≡ none
unfolding namespaced eq_text
namespaced-some x p none id short plain h = absurd (some≢none id (sym h))
namespaced-some x p (some s) id short plain h =
    elim (Bool-cases (eq_text (sanitize_identity s) [])) [
      | inl e ↦ absurd (some≢none id (sym (rw e at h)))
      | inr e ↦ rw (sym (some-injective ((x ∷ p) ++ sanitize_identity s) id (rw e at h))) (
          check_client-prefix (x ∷ p) (sanitize_identity s) refl short plain
            (sanitize_identity-IsBounded s))
    ]

-- An identity that is derived from a request, and is not the fallback, is one under which the registry
-- records a selection: not empty, within the registry's bound, and without control characters.
pub identity_for_storable :
    (r : Resolver) (req : Caller)
    → eq_text (identity_for r req) r.fallback ≡ false
    → check_client (identity_for r req) ≡ none
unfolding identity_for
identity_for_storable r req h = elim (Option-cases (namespaced (codes "meta:") req.meta_id)) [
  | inr (id, e) ↦
      rw (e, identity_for) (namespaced-some 109 (codes "eta:") req.meta_id id (omega arith) refl e)
  | inl e ↦ elim (Option-cases (namespaced (codes "client:") req.client_name)) [
    | inr (id, f) ↦
        rw (e, f, identity_for)
          (namespaced-some 99 (codes "lient:") req.client_name id (omega arith) refl f)
    | inl f ↦ absurd (false≢true (sym (rw (e, f, identity_for) at h) ∙ eq_text_refl r.fallback))
  ]
]
