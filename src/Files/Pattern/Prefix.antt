-- ===== src/Files/Pattern/Prefix.antt =====
-- The early pruning of a walk (`prefixCanMatch` in internal/agent/fs/pattern.go) against the match.
use mathlib.Core.Bool.{false≢true}
use f1337_mcp.Prelude.{
  ℕ, ◌≡◌, refl, sym, ap, ◌∙◌, inl, inr, Bool, true, ◌||◌, Option, List, [], ◌∷◌, ◌++◌, map, arith,
  ◌==◌, ==_iff, Bool-cases, length, Text, codes, eq_text,
}
use f1337_mcp.Files.Pattern.{
  Pattern, slash, stars, forward, split_on, is_skipped, keep_parts, path_parts, seg_ok,
  pattern_segments, folded_path, prefix_match, prefix_can_match, match_path,
}
use f1337_mcp.Files.Pattern.Reference.{glob}
use f1337_mcp.Files.Pattern.Memo.{match_segments-glob}

map_append : (f : ℕ → ℕ) (s t : Text) → map f (s ++ t) ≡ map f s ++ map f t
map_append f [] t = refl
map_append f (c ∷ s) t = ap (λ r. f c ∷ r) (map_append f s t)

split_on_cons : (b : ℕ) (s : Text) → (t : Text) × (ts : List Text) × (split_on b s ≡ t ∷ ts)
unfolding split_on
split_on_cons b [] = ([], [], refl)
split_on_cons b (c ∷ s) = elim (Bool-cases (c == b)) [
  | inl e ↦ ([], split_on b s, rw e refl)
  | inr e ↦ let (t, ts, h) = split_on_cons b s in (c ∷ t, ts, rw (e, h) refl)
]

split_on-append : (b : ℕ) (s t : Text) → split_on b (s ++ b ∷ t) ≡ split_on b s ++ split_on b t
unfolding split_on
split_on-append b [] t = rw ((==_iff b b).1 refl) refl
split_on-append b (c ∷ s) t =
    let (u, us, h) = split_on_cons b s in
    elim (Bool-cases (c == b)) [
      | inl e ↦ rw e (ap (λ r. [] ∷ r) (split_on-append b s t))
      | inr e ↦ rw (e, split_on-append b s t, h) refl
    ]

keep_parts-append : (xs ys : List Text) → keep_parts (xs ++ ys) ≡ keep_parts xs ++ keep_parts ys
unfolding keep_parts
keep_parts-append [] ys = refl
keep_parts-append (x ∷ xs) ys = elim (Bool-cases (is_skipped x)) [
  | inl e ↦ rw e (keep_parts-append xs ys)
  | inr e ↦ rw e (ap (λ r. x ∷ r) (keep_parts-append xs ys))
]

path_parts-append : (s t : Text) → path_parts (s ++ slash ∷ t) ≡ path_parts s ++ path_parts t
unfolding path_parts
path_parts-append s t =
    ap keep_parts (split_on-append slash s t)
    ∙ keep_parts-append (split_on slash s) (split_on slash t)

folded_path-append :
    (to_lower : Text → Text)
    → ((s t : Text) → to_lower (s ++ slash ∷ t) ≡ to_lower s ++ slash ∷ to_lower t)
    → (p : Pattern) (s t : Text)
    → folded_path to_lower p (s ++ slash ∷ t)
      ≡ folded_path to_lower p s ++ slash ∷ folded_path to_lower p t
unfolding folded_path
folded_path-append to_lower lower p s t = elim (Bool-cases p.folding) [
  | inl e ↦ rw (e, map_append forward s (slash ∷ t)) (lower (map forward s) (map forward t))
  | inr e ↦ rw (e) (map_append forward s (slash ∷ t))
]

-- A match of a path goes with a match of every directory above it.
glob_prefix :
    (seg_match : Text → Text → Option Bool) (pat dir rest : List Text)
    → glob seg_match pat (dir ++ rest) ≡ true
    → prefix_match seg_match pat dir ≡ true
unfolding glob prefix_match
glob_prefix seg_match pat [] rest h = refl
glob_prefix seg_match [] (x ∷ xs) rest h =
    absurd (omega (arith, (==_iff (length (x ∷ (xs ++ rest))) 0).0 h))
glob_prefix seg_match (p ∷ ps) (x ∷ xs) rest h = elim (Bool-cases (eq_text p stars)) [
  | inl star ↦ rw star refl
  | inr plain ↦ elim (Bool-cases (seg_ok seg_match p x)) [
    | inl ok ↦ rw (plain, ok) (glob_prefix seg_match ps xs rest (sym (rw (plain, ok) refl) ∙ h))
    | inr bad ↦ absurd (false≢true (sym (rw (plain, bad) refl) ∙ h))
  ]
]

-- If lower-casing keeps the slashes apart from what surrounds them, no directory above a
-- matching path is pruned from a walk.
pub prefix_complete :
    (to_lower : Text → Text) (seg_match : Text → Text → Option Bool)
    → ((s t : Text) → to_lower (s ++ slash ∷ t) ≡ to_lower s ++ slash ∷ to_lower t)
    → (p : Pattern) (dir rest : Text) → match_path to_lower seg_match p (dir ++ slash ∷ rest) ≡ true
    → prefix_can_match to_lower seg_match p dir ≡ true
unfolding match_path prefix_can_match
prefix_complete to_lower seg_match lower p dir rest h =
    elim (Bool-cases (eq_text dir [] || eq_text dir (codes "."))) [
      | inl top ↦ rw top refl
      | inr deep ↦ rw deep (
          glob_prefix seg_match (pattern_segments to_lower p)
            (path_parts (folded_path to_lower p dir)) (path_parts (folded_path to_lower p rest))
            (ap (glob seg_match (pattern_segments to_lower p)) (
                sym (
                  ap path_parts (folded_path-append to_lower lower p dir rest)
                  ∙ path_parts-append (folded_path to_lower p dir) (folded_path to_lower p rest)))
              ∙ sym (
                  match_segments-glob seg_match (pattern_segments to_lower p)
                    (path_parts (folded_path to_lower p (dir ++ slash ∷ rest))))
              ∙ h))
    ]
