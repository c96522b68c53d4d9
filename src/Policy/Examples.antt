-- ===== src/Policy/Examples.antt =====
-- Verdicts and limits on concrete data. The pattern matcher of the examples matches nothing, and the base
-- name of a path is the path.
use f1337_mcp.Policy.Construct.{Config, Built, Checked, ConfigError, check_pattern, new_policy}
use f1337_mcp.Policy.Construct.Sound.{Enforceable, new_policy_sound}
use f1337_mcp.Policy.Limits.{Limited, is_negative, timeout}
use f1337_mcp.Prelude.{
  ℕ, ◌≡◌, refl, ◌≢◌, Bool, true, false, Option, none, some, List, [], ◌∷◌, map, All, Text, codes,
  eq_text, trim_space,
}
use f1337_mcp.Policy.Command.{Command, names, contains, spellings}
use f1337_mcp.Policy.Evaluate.{Rules, evaluate, fold_all}
use f1337_mcp.Policy.Verdict.{rules_cover, allow_admits, evaluate_sound, evaluate_denies-spelling}
use f1337_mcp.Policy.Limits.{pos, Caps, timeout, new_slots, is_positive, greater}
use f1337_mcp.Policy.Bounds.{SlotCall, acquiring, releasing}

abbrev match_nothing : Text → Text → Option Bool
match_nothing pattern name = some false

abbrev same_path : Text → Text
same_path path = path

abbrev shell : Command
shell = record {
  argv = codes "sh" ∷ codes "-c" ∷ [];
  requested = codes "sh";
  path = codes "/bin/sh";
  target = codes "/bin/dash";
}

abbrev rules : Rules
rules = record { allow = codes "sh" ∷ []; deny = codes "/bin/dash" ∷ [] }

abbrev open_rules : Rules
open_rules = record { allow = codes "sh -c" ∷ []; deny = codes "go" ∷ [] }

evaluate_sound_example :
    (rules_cover false match_nothing open_rules.deny
        (fold_all false match_nothing (names same_path shell))
      ≡ false)
    × (allow_admits false match_nothing open_rules.allow
          (fold_all false match_nothing (names same_path shell))
        ≡ true)
unfolding evaluate names eq_text
evaluate_sound_example = evaluate_sound false match_nothing same_path open_rules shell refl

evaluate_denies-spelling_example :
    (evaluate false match_nothing same_path rules shell).allowed ≡ false
unfolding contains eq_text spellings
evaluate_denies-spelling_example =
    evaluate_denies-spelling false match_nothing same_path rules shell (codes "/bin/dash")
      (codes "/bin/dash") refl refl refl refl

abbrev five_minutes : Caps
five_minutes = record {
  default_timeout = pos 60;
  max_timeout = pos 300;
  max_output_bytes = pos 0;
  max_concurrent = pos 2;
}

-- Two slots are taken, a third is asked for, and the first is released twice.
abbrev slot_history : List SlotCall
slot_history = acquiring ∷ acquiring ∷ acquiring ∷ releasing 0 ∷ releasing 0 ∷ []

-- Every byte as a rune: ASCII.
abbrev ascii : Text → ℕ
ascii s = 1

classes :
    (check_pattern true ascii (codes "r[a-c^]m") ≡ some true)
    × (check_pattern true ascii (codes "/usr/bin/*[") ≡ some false)
    × (check_pattern true ascii (codes "[]") ≡ some false)
    × (check_pattern true ascii (codes "a\\") ≡ some false)
unfolding check_pattern eq_text
classes = (refl, refl, refl, refl)

abbrev rm_denied : Config
rm_denied = record {
  allow_rules = [];
  deny_rules = codes " rm*" ∷ [];
  limits = record {
    default_timeout = pos 5;
    max_timeout = pos 9;
    max_output_bytes = pos 0;
    max_concurrent = pos 0;
  };
}

abbrev rm_policy : Built
rm_policy = record {
  allow_list = [];
  deny_list = codes "rm*" ∷ [];
  limits = rm_denied.limits;
  limiter = record { capacity = none; in_use = 0; released = [] };
}

new_policy_sound_example :
    (rm_policy.allow_list ≡ map trim_space [])
    × (rm_policy.deny_list ≡ map trim_space (codes " rm*" ∷ []))
    × All (Enforceable true ascii) rm_policy.allow_list
    × All (Enforceable true ascii) rm_policy.deny_list
    × (timeout rm_policy.limits (pos 0) ≢ Limited.timeout_too_long)
    × (is_negative rm_policy.limits.max_output_bytes ≡ false)
unfolding new_policy eq_text trim_space is_positive greater is_negative new_slots
new_policy_sound_example = new_policy_sound true ascii rm_denied rm_policy refl

-- A class must not end before it is closed.
refused_class :
    new_policy true ascii (record rm_denied { deny_rules = codes "rm[" ∷ [] })
    ≡ Checked.faulty ConfigError.bad_pattern
unfolding new_policy eq_text trim_space
refused_class = refl
