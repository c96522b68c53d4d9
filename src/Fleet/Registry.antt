-- ===== src/Fleet/Registry.antt =====
-- internal/registry/store.go and registry.go: the registry file and the operations on it. The lock, the
-- read and the write are arguments (`Access`), and so is the clock. A map is an association list.
pub mod Named
pub mod History
pub mod Maps
use f1337_mcp.Prelude.{
  ℕ, suc, Bool, true, false, not, ◌||◌, Option, none, some, List, [], ◌∷◌, ◌++◌, ltb, ◌==◌,
  if◌then◌else◌, length, any, Text, eq_text,
}

pub record Platform : Type 0 where
  pub os : Text
  pub arch : Text
  pub kernel_version : Text
  pub hostname : Text
  pub path_separator : Text

-- The zero time.Time is 0.
pub record Sandbox : Type 0 where
  pub name : Text
  pub address : Text
  pub labels : List (Text × Text)
  pub platform : Platform
  pub insecure : Bool
  pub enrolled_at : ℕ
  pub last_seen_at : ℕ
  pub agent_version : Text

pub record Stored : Type 0 where
  pub version : ℕ
  pub sandboxes : List Sandbox
  pub selections : List (Text × Text)

pub data RegistryError : Type 0 where
  not_found exists_already : RegistryError
  name_required client_required client_too_long client_control : RegistryError
  access_failed : RegistryError

pub data Answer {ℓ} (A : Type ℓ) : Type ℓ where
  done : A → Answer A
  failed : RegistryError → Answer A

-- What the file system answers to one operation: each flag is a failure.
pub record Access : Type 0 where
  pub lock_fails : Bool
  pub load_fails : Bool
  pub save_fails : Bool

abbrev pub schema_version : ℕ
schema_version = 1

-- A missing file and a blank one are `none`.
unfoldable pub load : Option Stored → Stored
load none = record { version = schema_version; sandboxes = []; selections = [] }
load (some s) = s

unfoldable pub save : Stored → Stored
save s = record s { version = if s.version == 0 then schema_version else s.version }

-- The end of `mutate`, from the callback's answer on.
unfoldable pub written :
    {A : Type 0} → Access → Option Stored → Answer (A × Stored) → Answer A × Option Stored
unfolding save
written d file (failed x) = (failed x, file)
written d file (done (a, s)) =
    if d.save_fails then (failed access_failed, file) else (done a, some (save s))

unfoldable pub mutate :
    {A : Type 0}
    → Access
    → Option Stored
    → (Stored → Answer (A × Stored))
    → Answer A × Option Stored
unfolding load written
mutate d file fn =
    if d.lock_fails || d.load_fails
    then (failed access_failed, file)
    else written d file (fn (load file))

unfoldable pub read : {A : Type 0} → Access → Option Stored → (Stored → Answer A) → Answer A
unfolding load
read d file fn = if d.lock_fails || d.load_fails then failed access_failed else fn (load file)

-- The loops that look a sandbox up by its name.
unfoldable pub find_named : Text → List Sandbox → Option Sandbox
find_named name [] = none
find_named name (sb ∷ sbs) =
    let rest = find_named name sbs in if eq_text sb.name name then some sb else rest

unfoldable pub adding : Sandbox → ℕ → Stored → Answer (Unit {0} × Stored)
unfolding find_named
adding sb now s = elim (find_named sb.name s.sandboxes) [
  | some _ ↦ failed exists_already
  | none ↦ done (
    tt,
    record s {
      sandboxes =
          s.sandboxes
          ++ record sb { enrolled_at = if sb.enrolled_at == 0 then now else sb.enrolled_at } ∷ [];
    },
  )
]

unfoldable pub add : Access → ℕ → Sandbox → Option Stored → Answer (Unit {0}) × Option Stored
unfolding adding mutate
add d now sb file =
    if eq_text sb.name [] then (failed name_required, file) else mutate d file (adding sb now)

unfoldable pub kept_before : Sandbox → Option (List Sandbox) → Option (List Sandbox)
kept_before sb none = none
kept_before sb (some sbs) = some (sb ∷ sbs)

-- The list without the first sandbox of that name; `none` if there is none.
unfoldable pub drop_named : Text → List Sandbox → Option (List Sandbox)
unfolding kept_before
drop_named name [] = none
drop_named name (sb ∷ sbs) =
    let rest = drop_named name sbs in if eq_text sb.name name then some sbs else kept_before sb rest

unfoldable pub removing : Text → Stored → Answer (Unit {0} × Stored)
unfolding drop_named
removing name s = elim (drop_named name s.sandboxes) [
  | some kept ↦ done (tt, record s { sandboxes = kept })
  | none ↦ failed not_found
]

unfoldable pub remove : Access → Text → Option Stored → Answer (Unit {0}) × Option Stored
unfolding removing mutate
remove d name file = mutate d file (removing name)

unfoldable pub getting : Text → Stored → Answer Sandbox
unfolding find_named
getting name s = elim (find_named name s.sandboxes) [ some sb ↦ done sb | none ↦ failed not_found ]

unfoldable pub get : Access → Text → Option Stored → Answer Sandbox
unfolding getting read
get d name file = read d file (getting name)

abbrev is_not_found : RegistryError → Bool
is_not_found not_found = true
is_not_found _ = false

-- `Exists`: a registry that cannot be read counts as "taken".
taken : Answer Sandbox → Bool
taken (done _) = true
taken (failed x) = not (is_not_found x)

unfoldable pub exists : Access → Text → Option Stored → Bool
unfolding get taken
exists d name file = taken (get d name file)

unfoldable pub list_all : Access → Option Stored → Answer (List Sandbox)
unfolding read
list_all d file = read d file (λ s. done s.sandboxes)

-- The first sandbox of that name, changed; `none` if there is none.
unfoldable pub change_named : (Sandbox → Sandbox) → Text → List Sandbox → Option (List Sandbox)
unfolding kept_before
change_named f name [] = none
change_named f name (sb ∷ sbs) =
    let rest = change_named f name sbs in
    if eq_text sb.name name then some (f sb ∷ sbs) else kept_before sb rest

unfoldable pub changing : (Sandbox → Sandbox) → Text → Stored → Answer (Unit {0} × Stored)
unfolding change_named
changing f name s = elim (change_named f name s.sandboxes) [
  | some sbs ↦ done (tt, record s { sandboxes = sbs })
  | none ↦ failed not_found
]

seen : ℕ → Sandbox → Sandbox
seen at sb = record sb { last_seen_at = at }

unfoldable pub update_last_seen :
    Access → Text → ℕ → Option Stored → Answer (Unit {0}) × Option Stored
unfolding changing mutate seen
update_last_seen d name at file = mutate d file (changing (seen at) name)

hosted : Platform → Text → Sandbox → Sandbox
hosted platform agent_version sb = record sb { platform = platform; agent_version = agent_version }

unfoldable pub update_host_info :
    Access → Text → Platform → Text → Option Stored → Answer (Unit {0}) × Option Stored
unfolding changing mutate hosted
update_host_info d name platform agent_version file =
    mutate d file (changing (hosted platform agent_version) name)

abbrev pub max_client_id_length : ℕ
max_client_id_length = 256

-- A control character, byte by byte: the bytes of a longer rune are none.
abbrev pub is_control : ℕ → Bool
is_control ch = ltb ch 32 || ch == 127

-- `m[key] = value`
unfoldable pub put : Text → Text → List (Text × Text) → List (Text × Text)
put key value [] = (key, value) ∷ []
put key value ((k, v) ∷ m) =
    let rest = put key value m in if eq_text k key then (key, value) ∷ m else (k, v) ∷ rest

-- `m[key]`
unfoldable pub lookup : Text → List (Text × Text) → Option Text
lookup key [] = none
lookup key ((k, v) ∷ m) = let rest = lookup key m in if eq_text k key then some v else rest

-- `delete(m, key)`
unfoldable pub delete : Text → List (Text × Text) → List (Text × Text)
delete key [] = []
delete key ((k, v) ∷ m) = let rest = delete key m in if eq_text k key then rest else (k, v) ∷ rest

unfoldable pub check_client : Text → Option RegistryError
check_client id =
    if eq_text id []
    then some client_required
    else if ltb max_client_id_length (length id)
    then some client_too_long
    else if any is_control id
    then some client_control
    else none

unfoldable pub setting : Text → Text → Stored → Answer (Unit {0} × Stored)
unfolding put
setting id name s = done (tt, record s { selections = put id name s.selections })

unfoldable pub set_selection :
    Access → Text → Text → Option Stored → Answer (Unit {0}) × Option Stored
unfolding check_client setting mutate
set_selection d id name file = elim (check_client id) [
  | some x ↦ (failed x, file)
  | none ↦ mutate d file (setting id name)
]

selecting : Text → Stored → Answer (Option Text)
unfolding lookup
selecting id s = done (lookup id s.selections)

-- `none` is the answer `"", false`.
unfoldable pub get_selection : Access → Text → Option Stored → Answer (Option Text)
unfolding selecting read
get_selection d id file = read d file (selecting id)

pub clearing : Text → Stored → Answer (Unit {0} × Stored)
unfolding delete
clearing id s = done (tt, record s { selections = delete id s.selections })

unfoldable pub clear_selection : Access → Text → Option Stored → Answer (Unit {0}) × Option Stored
unfolding clearing mutate
clear_selection d id file = mutate d file (clearing id)

-- The loop over the selections: how many point at the sandbox, and the ones that do not.
unfoldable pub clear_pointing : Text → List (Text × Text) → ℕ × List (Text × Text)
clear_pointing name [] = (0, [])
clear_pointing name ((k, v) ∷ m) =
    let rest = clear_pointing name m in
    if eq_text v name then (suc rest.0, rest.1) else (rest.0, (k, v) ∷ rest.1)

unfoldable pub clearing_for : Text → Stored → Answer (ℕ × Stored)
unfolding clear_pointing
clearing_for name s =
    let r = clear_pointing name s.selections in done (r.0, record s { selections = r.1 })

unfoldable pub clear_selections_for : Access → Text → Option Stored → Answer ℕ × Option Stored
unfolding clearing_for mutate
clear_selections_for d name file = mutate d file (clearing_for name)
