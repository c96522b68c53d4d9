-- ===== src/Files/Ignore/Decides.antt =====
-- Which rule decides in internal/agent/fs/gitignore.go.
use mathlib.Core.Option.{some-injective}
use f1337_mcp.Prelude.{
  ℕ, ◌≡◌, refl, ap, ◌≢◌, inl, inr, Bool, true, false, not, Option, none, some, List, [], ◌∷◌, ◌++◌,
  arith, ◌==◌, if◌then◌else◌, Bool-cases, All, Text, codes, has_prefix,
}
use f1337_mcp.Files.Pattern.{Pattern}
use f1337_mcp.Files.Ignore.{IgnoreRule, IgnoreFile, applies, decide_by, decide_in, ignored}

-- The relative path of what is not below a directory: it is "..", or goes on behind "../".
pub data Outside (rel : Text) : Type 0 where
  up : rel ≡ codes ".." → Outside rel
  further : (rest : Text) → rel ≡ codes "../" ++ rest → Outside rel

-- A relative path whose first name begins with two dots and goes on, as "..cache" does.
pub record Dotted (rel : Text) : Type 0 where
  pub char : ℕ
  pub rest : Text
  pub not_slash : char ≢ 47
  pub spells : rel ≡ codes ".." ++ char ∷ rest

has_prefix-Outside : (rel : Text) → ¬ Dotted rel → has_prefix rel (codes "..") ≡ true → Outside rel
unfolding has_prefix
has_prefix-Outside [] n h = absurd (cc)
has_prefix-Outside (a ∷ []) n h = ground arith
has_prefix-Outside (a ∷ b ∷ []) n h = up (ground arith)
has_prefix-Outside (a ∷ b ∷ c ∷ rest) n h = elim (Bool-cases (c == 47)) [
  | inl e ↦ further rest (ground arith)
  | inr e ↦
      absurd (n (record { char = c; rest = rest; not_slash = ground arith; spells = ground arith }))
]

Outside-has_prefix : (rel : Text) → Outside rel → has_prefix rel (codes "..") ≡ true
unfolding has_prefix
Outside-has_prefix rel (up e) = rw e refl
Outside-has_prefix rel (further rest e) = rw e refl

module _ (matches_rule : Pattern → Text → Bool) (rel_of : Text → Text → Option Text) (path : Text)
    (is_dir : Bool) where
  -- A file has nothing to say of the path if the path is not below its directory or no rule applies.
  pub data Silent (file : IgnoreFile) : Type 0 where
    elsewhere : rel_of file.dir path ≡ none → Silent file
    above : (rel : Text) → rel_of file.dir path ≡ some rel → Outside rel → Silent file
    without_rule :
        (rel : Text)
        → rel_of file.dir path ≡ some rel
        → All (λ r. applies matches_rule rel is_dir r ≡ false) file.rules
        → Silent file

  -- The last rule of the file that applies.
  pub record Says (file : IgnoreFile) (rule : IgnoreRule) : Type 0 where
    pub rel : Text
    pub below : rel_of file.dir path ≡ some rel
    pub inside : ¬ Outside rel
    pub before : List IgnoreRule
    pub behind : List IgnoreRule
    pub splits : file.rules ≡ before ++ (rule ∷ behind)
    pub rule_applies : applies matches_rule rel is_dir rule ≡ true
    pub none_behind : All (λ r. applies matches_rule rel is_dir r ≡ false) behind

  -- The innermost file that has something to say decides, by its last rule that applies.
  pub data Decision : List IgnoreFile → Bool → Type 0 where
    no_file : Decision [] false
    skips :
        {file : IgnoreFile} {files : List IgnoreFile} {b : Bool}
        → Silent file
        → Decision files b
        → Decision (file ∷ files) b
    by_rule :
        {file : IgnoreFile} {files : List IgnoreFile} {b : Bool}
        → (rule : IgnoreRule) → Says file rule
        → b ≡ not rule.negate
        → Decision (file ∷ files) b

  -- What the loop over the rules ends with.
  data Last (rel : Text) (start : Option Bool) (rules : List IgnoreRule) (o : Option Bool)
      : Type 0 where
    unchanged :
        o ≡ start
        → All (λ r. applies matches_rule rel is_dir r ≡ false) rules
        → Last rel start rules o
    changed :
        (before : List IgnoreRule) (rule : IgnoreRule) (behind : List IgnoreRule)
        → rules ≡ before ++ (rule ∷ behind)
        → applies matches_rule rel is_dir rule ≡ true
        → All (λ r. applies matches_rule rel is_dir r ≡ false) behind
        → o ≡ some (not rule.negate)
        → Last rel start rules o

  one_more :
      (rel : Text) (start : Option Bool) (rule : IgnoreRule) (rules : List IgnoreRule)
      (o : Option Bool) (b : Bool)
      → applies matches_rule rel is_dir rule ≡ b
      → Last rel (if b then some (not rule.negate) else start) rules o
      → Last rel start (rule ∷ rules) o
  one_more rel start rule rules o b e (changed before r behind s a n k) =
      changed (rule ∷ before) r behind (ap (λ l. rule ∷ l) s) a n k
  one_more rel start rule rules o true e (unchanged k n) = changed [] rule rules refl e n k
  one_more rel start rule rules o false e (unchanged k n) = unchanged k (e, n)

  decide_by-Last :
      (rel : Text) (start : Option Bool) (rules : List IgnoreRule)
      → Last rel start rules (decide_by matches_rule rel is_dir start rules)
  unfolding decide_by
  decide_by-Last rel start [] = unchanged refl tt
  decide_by-Last rel start (rule ∷ rules) =
      one_more rel start rule rules _ (applies matches_rule rel is_dir rule) refl (
        decide_by-Last rel
          (if applies matches_rule rel is_dir rule then some (not rule.negate) else start) rules)

  -- What a file says.
  data Verdict (file : IgnoreFile) : Option Bool → Type 0 where
    quiet : {o : Option Bool} → o ≡ none → Silent file → Verdict file o
    ruled :
        {o : Option Bool}
        → (rule : IgnoreRule) → Says file rule
        → o ≡ some (not rule.negate)
        → Verdict file o

  Last-Verdict :
      (file : IgnoreFile) (rel : Text) (o : Option Bool)
      → rel_of file.dir path ≡ some rel
      → has_prefix rel (codes "..") ≡ false
      → Last rel none file.rules o
      → Verdict file o
  Last-Verdict file rel o e k (unchanged q n) = quiet q (without_rule rel e n)
  Last-Verdict file rel o e k (changed before rule behind s a n q) =
      ruled rule
        (record {
          rel = rel;
          below = e;
          inside = λ o. cc (k, Outside-has_prefix rel o);
          before = before;
          behind = behind;
          splits = s;
          rule_applies = a;
          none_behind = n;
        })
        q

  -- No name on the way from the file's directory to the path begins with two dots and goes on.
  abbrev pub IsUndotted : IgnoreFile → Type 0
  IsUndotted file = (rel : Text) → rel_of file.dir path ≡ some rel → ¬ Dotted rel

  decide_in-Verdict :
      (file : IgnoreFile) (o : Option Text)
      → IsUndotted file
      → rel_of file.dir path ≡ o
      → Verdict file (decide_in matches_rule file is_dir o)
  unfolding decide_in
  decide_in-Verdict file none u e = quiet refl (elsewhere e)
  decide_in-Verdict file (some rel) u e = elim (Bool-cases (has_prefix rel (codes ".."))) [
    | inl h ↦ rw h (quiet refl (above rel e (has_prefix-Outside rel (u rel e) h)))
    | inr inside ↦ rw inside (Last-Verdict file rel _ e inside (decide_by-Last rel none file.rules))
  ]

  next_file :
      (file : IgnoreFile) (files : List IgnoreFile) (o : Option Bool) (rest : Bool)
      → Verdict file o
      → Decision files rest
      → Decision (file ∷ files) (elim o [ some excluded ↦ excluded | none ↦ rest ])
  next_file file files none rest (quiet q s) d = skips s d
  next_file file files (some b) rest (quiet q s) d = absurd (cc)
  next_file file files none rest (ruled rule s q) d = absurd (cc)
  next_file file files (some b) rest (ruled rule s q) d = by_rule rule s (some-injective b _ q)

  -- Where no ignore file of the stack is above the path by a name that begins with two dots and
  -- goes on, such as "..cache" (the code takes these for paths outside the file's directory),
  -- whether a path is ignored is decided by the last rule that applies to it in the innermost
  -- ignore file above it that has such a rule: it is ignored unless the rule is negated, and if
  -- there is no such file it is not ignored. A file is above the path if filepath.Rel gives a
  -- relative path from its directory that is neither ".." nor begins with "../".
  pub ignored-Decision :
      (files : List IgnoreFile)
      → All IsUndotted files
      → Decision files (ignored matches_rule rel_of files path is_dir)
  unfolding ignored
  ignored-Decision [] u = no_file
  ignored-Decision (file ∷ files) u =
      next_file file files (decide_in matches_rule file is_dir (rel_of file.dir path)) _
        (decide_in-Verdict file (rel_of file.dir path) u.0 refl) (ignored-Decision files u.1)
