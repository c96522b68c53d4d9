-- ===== src/Policy/Evaluate.antt =====
-- internal/security/policy/policy.go: the verdict on a command. `folds` says whether the platform's
-- paths ignore case; `match_file` is filepath.Match, `none` for a pattern it refuses.
use f1337_mcp.Prelude.{
  Bool, true, false, Option, none, some, List, [], ◌∷◌, map, if◌then◌else◌, Text, eq_text,
  lower_byte,
}
use f1337_mcp.Policy.Command.{Command, names}

-- `reason` tells the sentences apart; their wording is not modelled.
pub data Reason : Type 0 where
  no_reason denied_by_rule not_allowed unevaluable_rule : Reason

pub record Decision : Type 0 where
  pub allowed : Bool
  pub rule : Text
  pub reason : Reason

pub record Rules : Type 0 where
  pub allow : List Text
  pub deny : List Text

pub data Match : Type 0 where
  hit : Text → Match
  miss : Match
  unmatchable : Text → Match

module _ (folds : Bool) (match_file : Text → Text → Option Bool) where
  unfoldable pub fold : Text → Text
  fold s = if folds then map lower_byte s else s

  unfoldable pub fold_all : List Text → List Text
  unfolding fold
  fold_all [] = []
  fold_all (name ∷ names) =
      let rest = fold_all names in if eq_text name [] then rest else fold name ∷ rest

  -- The answer of filepath.Match, before the loops go on to `rest`.
  unfoldable pub after_match : Text → Option Bool → Match → Match
  after_match rule none rest = unmatchable rule
  after_match rule (some true) rest = hit rule
  after_match rule (some false) rest = rest

  -- The loop over the names, for one rule; `rest` is what the further rules answer.
  unfoldable pub match_names : Text → List Text → Match → Match
  unfolding after_match fold
  match_names rule [] rest = rest
  match_names rule (candidate ∷ folded) rest =
      let later = match_names rule folded rest in
      if eq_text (fold rule) candidate
      then hit rule
      else after_match rule (match_file (fold rule) candidate) later

  unfoldable pub match_any : List Text → List Text → Match
  unfolding match_names
  match_any [] folded = miss
  match_any (rule ∷ rules) folded = match_names rule folded (match_any rules folded)

  abbrev pub unevaluable : Text → Decision
  unevaluable rule = record { allowed = false; rule = rule; reason = unevaluable_rule }

  unfoldable pub by_allow : Match → Decision
  by_allow (unmatchable rule) = unevaluable rule
  by_allow (hit rule) = record { allowed = true; rule = rule; reason = no_reason }
  by_allow miss = record { allowed = false; rule = []; reason = not_allowed }

  unfoldable pub admit_all : Decision
  admit_all = record { allowed = true; rule = []; reason = no_reason }

  unfoldable pub by_deny : List Text → List Text → Match → Decision
  unfolding by_allow match_any admit_all
  by_deny allow folded (unmatchable rule) = unevaluable rule
  by_deny allow folded (hit rule) = record { allowed = false; rule = rule; reason = denied_by_rule }
  by_deny [] folded miss = admit_all
  by_deny (rule ∷ rules) folded miss = by_allow (match_any (rule ∷ rules) folded)

  unfoldable pub evaluate : (Text → Text) → Rules → Command → Decision
  unfolding by_deny match_any fold_all
  evaluate file_base p cmd =
      let folded = fold_all (names file_base cmd) in
      by_deny p.allow folded (match_any p.deny folded)
