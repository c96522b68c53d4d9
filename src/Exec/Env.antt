-- ===== src/Exec/Env.antt =====
-- internal/agent/exec/env.go: the base environment and the entries that a request puts over it. The map of mergeEnv is an
-- association list. strings.ToUpper, os.Getenv and os.UserHomeDir are arguments.
pub mod Merged
pub mod Reading
pub mod Held
pub mod Latest
pub mod Allowed
use f1337_mcp.Prelude.{
  ℕ, zero, suc, ◌+◌, ◌-◌, ◌*◌, ◌/◌, ◌%◌, ◌^◌, ◌≤◌, ◌<◌, ◌≡◌, refl, sym, ap, ◌∙◌, ◌≢◌, ◌↔◌, ◌⊎◌, inl,
  inr, Bool, true, false, not, ◌&&◌, ◌||◌, Option, none, some, List, [], ◌∷◌, ◌++◌, map,
  append_assoc, append-nil, arith, ltb, leb, ◌==◌, if◌then◌else◌, ltb→lt, lt→ltb, ==_iff,
  Bool-cases, Option-cases, is_some, length, get_elem?, get_or, set, take, drop, replicate, any,
  all, All, length-append, length-set, length-replicate, length-take, length-drop, take-append-drop,
  get_or-set_self, get_or-set_ne, Text, codes, eq_text, eq_text_iff, eq_text_refl, has_prefix,
  is_space, trim_left, trim_space, contains_byte, lower_byte,
}

-- strings.Cut at the first "="
unfoldable pub cut_equals : Text → Option (Text × Text)
cut_equals [] = none
cut_equals (c ∷ s) =
    let rest = cut_equals s in
    if c == 61 then some ([], s) else elim rest [ none ↦ none | some (k, v) ↦ some (c ∷ k, v) ]

-- What strings.Cut answers as `before`, and as `after`.
unfoldable pub before_cut : Text → Option (Text × Text) → Text
before_cut s none = s
before_cut s (some (k, v)) = k

unfoldable pub after_cut : Option (Text × Text) → Text
after_cut none = []
after_cut (some (k, v)) = v

-- The constants that differ by platform.
pub record Platform : Type 0 where
  pub home_var : Text
  pub case_insensitive_env : Bool
  pub default_path : Text
  pub temp_vars : List Text
  pub passthrough : List Text

abbrev pub locale_vars : List Text
locale_vars = codes "LANG" ∷ codes "LC_ALL" ∷ codes "LC_CTYPE" ∷ codes "LC_MESSAGES" ∷ []

abbrev pub windows_passthrough : List Text
windows_passthrough =
    codes "SystemRoot"
    ∷ codes "SystemDrive"
    ∷ codes "windir"
    ∷ codes "COMSPEC"
    ∷ codes "PATHEXT"
    ∷ codes "APPDATA"
    ∷ codes "LOCALAPPDATA"
    ∷ codes "NUMBER_OF_PROCESSORS"
    ∷ codes "PROCESSOR_ARCHITECTURE"
    ∷ codes "PROCESSOR_IDENTIFIER"
    ∷ codes "ProgramData"
    ∷ codes "ProgramFiles"
    ∷ codes "ProgramFiles(x86)"
    ∷ codes "CommonProgramFiles"
    ∷ codes "PUBLIC"
    ∷ []

-- `passthroughFor`
unfoldable pub passthrough_for : Text → List Text
passthrough_for goos = if eq_text goos (codes "windows") then windows_passthrough else []

-- env_unix.go
abbrev pub unix_platform : Platform
unix_platform = record {
  home_var = codes "HOME";
  case_insensitive_env = false;
  default_path = codes "/usr/local/sbin:/usr/local/bin:/usr/sbin:/usr/bin:/sbin:/bin";
  temp_vars = codes "TMPDIR" ∷ [];
  passthrough = [];
}

-- env_windows.go
abbrev pub windows_platform : Platform
windows_platform = record {
  home_var = codes "USERPROFILE";
  case_insensitive_env = true;
  default_path = codes "C:\\Windows\\system32;C:\\Windows;C:\\Windows\\System32\\Wbem";
  temp_vars = codes "TEMP" ∷ codes "TMP" ∷ [];
  passthrough = windows_passthrough;
}

pub data EnvError : Type 0 where
  not_key_value : EnvError
  empty_name : EnvError
  nul_byte : EnvError

unfoldable pub check_cut : Text → Option (Text × Text) → Option EnvError
check_cut entry none = some not_key_value
check_cut entry (some (key, v)) =
    if eq_text key []
    then some empty_name
    else if contains_byte 0 entry
    then some nul_byte
    else none

unfoldable pub check_env_entry : Text → Option EnvError
unfolding check_cut cut_equals
check_env_entry entry = check_cut entry (cut_equals entry)

-- A map from keys to positions, the last entry for a key first.
unfoldable pub at_key : List (Text × ℕ) → Text → Option ℕ
at_key [] k = none
at_key ((k', i) ∷ m) k = let rest = at_key m k in if eq_text k' k then some i else rest

pub record Merging : Type 0 where
  pub merged : List Text
  pub index : List (Text × ℕ)

abbrev pub nothing_merged : Merging
nothing_merged = record { merged = []; index = [] }

-- Either the environment, or the error for an entry.
pub data MergedEnv : Type 0 where
  env : List Text → MergedEnv
  refused : EnvError → MergedEnv

pub env-injective : (a b : List Text) → MergedEnv.env a ≡ MergedEnv.env b → a ≡ b
env-injective a b h = cc

module _ (upper : Text → Text) (p : Platform) where
  -- `envKey`, and the same of a name that is looked for
  unfoldable pub folded_name : Text → Text
  folded_name name = if p.case_insensitive_env then upper name else name

  unfoldable pub env_key : Text → Text
  unfolding folded_name before_cut cut_equals
  env_key entry = folded_name (before_cut entry (cut_equals entry))

  unfoldable pub put_entry : Text → Option ℕ → Merging → Merging
  put_entry entry (some i) s = record s { merged = set s.merged i entry }
  put_entry entry none s = record {
    merged = s.merged ++ (entry ∷ []);
    index = (env_key entry, length s.merged) ∷ s.index;
  }

  -- `set` in mergeEnv
  unfoldable pub set_entry : Merging → Text → Merging
  unfolding put_entry
  set_entry s entry = put_entry entry (at_key s.index (env_key entry)) s

  unfoldable pub set_base : Merging → List Text → Merging
  unfolding set_entry
  set_base s [] = s
  set_base s (entry ∷ entries) = set_base (set_entry s entry) entries

  unfoldable pub set_overrides : Merging → List Text → MergedEnv
  unfolding set_entry check_env_entry
  set_overrides s [] = env s.merged
  set_overrides s (entry ∷ entries) =
      let rest = set_overrides (set_entry s entry) entries in
      elim (check_env_entry entry) [ some e ↦ refused e | none ↦ rest ]

  -- `mergeEnv`
  unfoldable pub merge_env : List Text → List Text → MergedEnv
  unfolding set_base set_overrides at_key
  merge_env base overrides = set_overrides (set_base nothing_merged base) overrides

  -- `envValue`: the loop over the first entries, from the last of them
  unfoldable pub value_below : List Text → Text → ℕ → Option Text
  unfolding env_key after_cut
  value_below entries want zero = none
  value_below entries want (suc i) =
      let rest = value_below entries want i in
      let entry = get_or entries i [] in
      if eq_text (env_key entry) want then some (after_cut (cut_equals entry)) else rest

  unfoldable pub env_value : List Text → Text → Option Text
  unfolding value_below folded_name
  env_value entries name = value_below entries (folded_name name) (length entries)

  module _ (get : Text → Text) (user_home_dir : Option Text) where
    unfoldable pub base_path : Text
    base_path = let path = get (codes "PATH") in if eq_text path [] then p.default_path else path

    unfoldable pub base_home : Text
    base_home =
        let home = get p.home_var in
        if not (eq_text home []) then home else elim user_home_dir [ some h ↦ h | none ↦ [] ]

    -- A loop of buildBaseEnv over names: the entries that it adds.
    unfoldable pub entries_for : List Text → List Text
    entries_for [] = []
    entries_for (name ∷ names) =
        let rest = entries_for names in
        if eq_text (get name) [] then rest else (name ++ (61 ∷ get name)) ∷ rest

    -- `buildBaseEnv`
    unfoldable pub build_base_env : List Text
    unfolding base_path base_home entries_for
    build_base_env =
        (codes "PATH" ++ (61 ∷ base_path))
        ∷ ((if eq_text base_home [] then [] else (p.home_var ++ (61 ∷ base_home)) ∷ [])
            ++ (entries_for p.temp_vars ++ (entries_for locale_vars ++ entries_for p.passthrough)))

    -- `Environment`
    unfoldable pub environment : List Text → MergedEnv
    unfolding build_base_env merge_env
    environment overrides = merge_env build_base_env overrides
