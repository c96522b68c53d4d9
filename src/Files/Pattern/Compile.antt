-- ===== src/Files/Pattern/Compile.antt =====
-- What `compilePattern` in internal/agent/fs/pattern.go lets through.
use mathlib.Core.Option.{some-injective}
use f1337_mcp.Prelude.{
  some≢none, ◌<◌, ◌≡◌, refl, sym, ap, ◌∙◌, inl, inr, Bool, true, false, not, ◌&&◌, ◌||◌, Option,
  none, some, List, [], ◌∷◌, ◌++◌, map, arith, Bool-cases, is_some, length, All, Text, eq_text,
  trim_space,
}
use f1337_mcp.Files.Pattern.{
  Pattern, slash, stars, forward, split_on, is_skipped, ends_in_stars, compile_segments, compiled,
  compile_pattern,
}

-- A segment that a pattern may have: not empty, and "**" or one that path.Match reads.
abbrev pub Allowed : (Text → Text → Option Bool) → Text → Type 0
Allowed seg_match s = (is_skipped s ≡ false) × (eq_text s stars || is_some (seg_match s []) ≡ true)

-- No "**" stands next to another.
unfoldable pub apart : List Text → Bool
apart [] = true
apart (s ∷ []) = true
apart (s ∷ t ∷ ss) = not (eq_text s stars && eq_text t stars) && apart (t ∷ ss)

apart_snoc :
    (acc : List Text) (s : Text)
    → apart acc ≡ true
    → eq_text s stars && ends_in_stars acc ≡ false
    → apart (acc ++ s ∷ []) ≡ true
unfolding apart ends_in_stars
apart_snoc [] s h n = refl
apart_snoc (a ∷ []) s h n = ground (arith, n)
apart_snoc (a ∷ b ∷ acc) s h n = ground (arith, apart_snoc (b ∷ acc) s)

All-snoc : (P : Text → Type 0) (xs : List Text) (x : Text) → All P xs → P x → All P (xs ++ x ∷ [])
All-snoc P [] x h p = (p, tt)
All-snoc P (y ∷ ys) x h p = (h.0, All-snoc P ys x h.1 p)

module _ (folds : Bool) (seg_match : Text → Text → Option Bool) where
  compile_segments_sound :
      (segs acc out : List Text)
      → All (Allowed seg_match) acc
      → apart acc ≡ true
      → compile_segments folds seg_match segs acc ≡ some out
      → All (Allowed seg_match) out × (apart out ≡ true)
  unfolding compile_segments
  compile_segments_sound [] acc out ok ap' h =
      let e = some-injective acc out h in rw (← e) (ok, ap')
  compile_segments_sound (seg ∷ segs) acc out ok ap' h = elim (Bool-cases (is_skipped seg)) [
    | inl skip ↦ compile_segments_sound segs acc out ok ap' (rw skip at h)
    | inr keep ↦ elim (Bool-cases (eq_text seg stars)) [
      | inl star ↦ elim (Bool-cases (ends_in_stars acc)) [
        | inl again ↦ compile_segments_sound segs acc out ok ap' (rw (keep, star, again) at h)
        | inr first ↦
            compile_segments_sound segs (acc ++ seg ∷ []) out
              (All-snoc (Allowed seg_match) acc seg ok (keep, rw star refl))
              (apart_snoc acc seg ap' (rw (star, first) refl)) (rw (keep, star, first) at h)
      ]
      | inr plain ↦ elim (Bool-cases (is_some (seg_match seg []))) [
        | inl good ↦
            compile_segments_sound segs (acc ++ seg ∷ []) out
              (All-snoc (Allowed seg_match) acc seg ok (keep, rw (plain, good) refl))
              (apart_snoc acc seg ap' (rw plain refl)) (rw (keep, plain, good) at h)
        | inr bad ↦ absurd (some≢none out (sym h ∙ rw (keep, plain, bad) refl))
      ]
    ]
  ]

  compiled_sound :
      (given : Option (List Text)) (p : Pattern)
      → compiled folds seg_match given ≡ some p
      → given ≡ some p.segments × (0 < length p.segments)
  unfolding compiled
  compiled_sound none p h = absurd (some≢none p (sym h))
  compiled_sound (some []) p h = absurd (some≢none p (sym h))
  compiled_sound (some (s ∷ ss)) p h =
      let e : s ∷ ss ≡ p.segments =
        ap (λ q. q.segments) (some-injective (record { segments = s ∷ ss; folding = folds }) p h) in
      (ap some e, rw (← e) (omega arith))

  -- A pattern that compiles has a segment; each is "**" or accepted by path.Match, none is empty
  -- or ".", and no two "**" stand together.
  pub compile_pattern_sound :
      (given : Text) (p : Pattern)
      → compile_pattern folds seg_match given ≡ some p
      → (0 < length p.segments) × All (Allowed seg_match) p.segments × (apart p.segments ≡ true)
  unfolding compile_pattern apart
  compile_pattern_sound given p h = elim (Bool-cases (eq_text (trim_space given) [])) [
    | inl blank ↦ absurd (some≢none p (sym h ∙ rw blank refl))
    | inr some_text ↦
        let (e, long) =
          compiled_sound
            (compile_segments folds seg_match (split_on slash (map forward (trim_space given))) [])
            p (rw some_text at h) in
        let (allowed, spaced) =
          compile_segments_sound (split_on slash (map forward (trim_space given))) [] p.segments tt
            refl e in
        (long, allowed, spaced)
  ]
