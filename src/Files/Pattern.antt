-- ===== src/Files/Pattern.antt =====
-- internal/agent/fs/pattern.go: globs with "**". `folds` says whether the platform's paths ignore case;
-- `seg_match` is path.Match, `none` for a pattern it refuses, and `to_lower` is strings.ToLower.
pub mod Reference
pub mod Positions
pub mod Memo
pub mod Prefix
pub mod Compile
use f1337_mcp.Prelude.{
  ℕ, zero, suc, ◌+◌, ◌-◌, ◌*◌, ◌/◌, ◌%◌, ◌^◌, ◌≤◌, ◌<◌, ◌≡◌, refl, sym, ap, ◌∙◌, ◌≢◌, ◌↔◌, ◌⊎◌, inl,
  inr, Bool, true, false, not, ◌&&◌, ◌||◌, Option, none, some, List, [], ◌∷◌, ◌++◌, map,
  append_assoc, append-nil, arith, ltb, leb, ◌==◌, if◌then◌else◌, ltb→lt, lt→ltb, ==_iff,
  Bool-cases, Option-cases, is_some, length, get_elem?, get_or, set, take, drop, replicate, any,
  all, All, length-append, length-set, length-replicate, length-take, length-drop, take-append-drop,
  get_or-set_self, get_or-set_ne, Text, codes, eq_text, eq_text_iff, eq_text_refl, has_prefix,
  is_space, trim_left, trim_space, contains_byte, lower_byte,
}

pub record Pattern : Type 0 where
  pub segments : List Text
  pub folding : Bool

abbrev pub slash : ℕ
slash = 47

abbrev pub stars : Text
stars = codes "**"

-- strings.ReplaceAll(p, "\\", "/")
abbrev pub forward : ℕ → ℕ
forward c = if c == 92 then slash else c

-- A byte before the first of the parts.
abbrev pub onto_first : ℕ → List Text → List Text
onto_first c [] = (c ∷ []) ∷ []
onto_first c (t ∷ ts) = (c ∷ t) ∷ ts

-- strings.Split at a byte
unfoldable pub split_on : ℕ → Text → List Text
split_on b [] = [] ∷ []
split_on b (c ∷ s) = let rest = split_on b s in if c == b then [] ∷ rest else onto_first c rest

abbrev pub is_skipped : Text → Bool
is_skipped seg = eq_text seg [] || eq_text seg (codes ".")

-- The loop of `match` and of `prefixCanMatch` over the parts of a path.
unfoldable pub keep_parts : List Text → List Text
keep_parts [] = []
keep_parts (seg ∷ segs) = let rest = keep_parts segs in if is_skipped seg then rest else seg ∷ rest

unfoldable pub ends_in_stars : List Text → Bool
ends_in_stars [] = false
ends_in_stars (s ∷ []) = eq_text s stars
ends_in_stars (s ∷ t ∷ ss) = ends_in_stars (t ∷ ss)

unfoldable pub path_parts : Text → List Text
unfolding keep_parts split_on
path_parts rel = keep_parts (split_on slash rel)

unfoldable pub seg_ok : (Text → Text → Option Bool) → Text → Text → Bool
seg_ok seg_match pat name = elim (seg_match pat name) [ none ↦ false | some b ↦ b ]

module _ (folds : Bool) (seg_match : Text → Text → Option Bool) where
  -- The loop of `compilePattern`, with the segments so far.
  unfoldable pub compile_segments : List Text → List Text → Option (List Text)
  unfolding ends_in_stars
  compile_segments [] acc = some acc
  compile_segments (seg ∷ segs) acc =
      let skip = compile_segments segs acc in
      let go = compile_segments segs (acc ++ seg ∷ []) in
      if is_skipped seg
      then skip
      else if eq_text seg stars
      then if ends_in_stars acc then skip else go
      else if is_some (seg_match seg [])
      then go
      else none

  compiled : Option (List Text) → Option Pattern
  compiled none = none
  compiled (some []) = none
  compiled (some (s ∷ ss)) = some (record { segments = s ∷ ss; folding = folds })

  unfoldable pub compile_pattern : Text → Option Pattern
  unfolding compile_segments compiled
  compile_pattern given =
      let p = trim_space given in
      if eq_text p [] then none else compiled (compile_segments (split_on slash (map forward p)) [])

module _ (to_lower : Text → Text) where
  unfoldable pub pattern_segments : Pattern → List Text
  pattern_segments p = if not p.folding then p.segments else map to_lower p.segments

  unfoldable pub folded_path : Pattern → Text → Text
  folded_path p rel = if p.folding then to_lower (map forward rel) else map forward rel

module _ (seg_match : Text → Text → Option Bool) where
  -- `prefixMatch`
  unfoldable pub prefix_match : List Text → List Text → Bool
  unfolding seg_ok
  prefix_match pat [] = true
  prefix_match [] (x ∷ xs) = false
  prefix_match (p ∷ ps) (x ∷ xs) =
      let rest = prefix_match ps xs in
      if eq_text p stars then true else if not (seg_ok seg_match p x) then false else rest

unfoldable pub prefix_can_match :
    (Text → Text) → (Text → Text → Option Bool) → Pattern → Text → Bool
unfolding prefix_match pattern_segments folded_path path_parts
prefix_can_match to_lower seg_match p rel_dir =
    if eq_text rel_dir [] || eq_text rel_dir (codes ".")
    then true
    else prefix_match seg_match (pattern_segments to_lower p)
        (path_parts (folded_path to_lower p rel_dir))

-- `matcher`: `go` is the match of the rest of the pattern at a position of the name, and the memo is
-- threaded through every call: 0 unknown, 1 true, 2 false.
unfoldable pub key : List Text → ℕ → ℕ → ℕ
key name i j = i * (length name + 1) + j

unfoldable pub scan : (ℕ → List ℕ → Bool × List ℕ) → ℕ → ℕ → List ℕ → Bool × List ℕ
scan go zero k seen = (false, seen)
scan go (suc n) k seen =
    let r = go k seen in let rest = scan go n (k + 1) r.1 in if r.0 then (true, r.1) else rest

unfoldable pub remember : ℕ → Bool × List ℕ → Bool × List ℕ
remember at (result, seen) = (result, set seen at (if result then 1 else 2))

unfoldable pub new_matcher : List Text → List Text → List ℕ
new_matcher pat name = replicate ((length pat + 1) * (length name + 1)) 0

module _ (seg_match : Text → Text → Option Bool) (pat name : List Text) where
  unfoldable pub compute : (ℕ → List ℕ → Bool × List ℕ) → ℕ → ℕ → List ℕ → Bool × List ℕ
  unfolding scan
  compute go i j seen =
      if i == length pat
      then (j == length name, seen)
      else if eq_text (get_or pat i []) stars
      then scan go (length name + 1 - j) j seen
      else if j == length name
      then (false, seen)
      else if not (seg_ok seg_match (get_or pat i []) (get_or name j []))
      then (false, seen)
      else go (j + 1) seen

  -- On fuel: one more than the segments of the pattern from `i` on is enough.
  unfoldable pub match_at : ℕ → ℕ → ℕ → List ℕ → Bool × List ℕ
  unfolding compute remember key
  match_at zero i j seen = (false, seen)
  match_at (suc n) i j seen =
      let answer = get_or seen (key name i j) 0 in
      let fresh = remember (key name i j) (compute (match_at n (i + 1)) i j seen) in
      if answer == 0 then fresh else (answer == 1, seen)

  unfoldable pub match_segments : Bool
  unfolding match_at new_matcher
  match_segments = (match_at (length pat + 1) 0 0 (new_matcher pat name)).0

unfoldable pub match_path : (Text → Text) → (Text → Text → Option Bool) → Pattern → Text → Bool
unfolding match_segments path_parts
match_path to_lower seg_match p rel =
    match_segments seg_match (pattern_segments to_lower p) (path_parts (folded_path to_lower p rel))
