-- ===== src/Fleet/Selection.antt =====
-- internal/mcpserver/selection/selection.go: which sandbox a call acts on. The MCP request is the two
-- names that it may carry. `digest` is the hexadecimal form of the first eight bytes of SHA-256.
pub mod Argument
pub mod Sticky
pub mod Chosen
pub mod Identity
use f1337_mcp.Prelude.{
  ℕ, ◌+◌, not, ◌&&◌, ◌||◌, Option, none, some, List, [], ◌∷◌, ◌++◌, ltb, leb, if◌then◌else◌, length,
  Text, codes, eq_text, has_prefix, trim_space,
}
use f1337_mcp.Fleet.Registry.{
  get, not_found, find_named, Sandbox, Stored, Access, Answer, done, failed, RegistryError,
  list_all, get_selection, set_selection, clear_selection, clear_selections_for,
}

pub data Source : Type 0 where
  source_argument source_sticky : Source

pub record Target : Type 0 where
  pub sandbox : Sandbox
  pub handle : Text
  pub source : Source

pub data ResolveError : Type 0 where
  no_target : List Text → ResolveError
  unknown_sandbox : Text → List Text → ResolveError
  stale_selection : Text → List Text → ResolveError
  registry_error : RegistryError → ResolveError

pub data Resolved : Type 0 where
  found : Target → Resolved
  unresolved : ResolveError → Resolved

-- The registry file stands in the resolver: the code holds a pointer to it.
pub record Resolver : Type 0 where
  pub fleet : Option Stored
  pub fallback : Text
  pub ephemeral : Text

-- `asked` is the option's FallbackIdentity, empty if there are no options; `per_process` is the default.
unfoldable pub new_resolver : Text → Text → Option Stored → Resolver
new_resolver asked per_process fleet = record {
  fleet = fleet;
  fallback = if eq_text asked [] then per_process else asked;
  ephemeral = [];
}

abbrev pub max_identity_length : ℕ
max_identity_length = 128

-- The loop of `sanitizeIdentity` over bytes, with what the builder holds: a rune that is not ASCII is
-- skipped, and so are its bytes.
unfoldable pub clean : Text → Text → Text
clean b [] = b
clean b (c ∷ s) =
    let skip = clean b s in
    let go = clean (b ++ c ∷ []) s in
    if ltb c 32 || ltb 126 c
    then skip
    else if leb max_identity_length (length (b ++ c ∷ []))
    then b ++ c ∷ []
    else go

unfoldable pub sanitize_identity : Text → Text
unfolding clean
sanitize_identity s = let t = trim_space s in if eq_text t [] then [] else trim_space (clean [] t)

-- What `identityFor` reads of a request: the string under the _meta key, and the client's name.
pub record Caller : Type 0 where
  pub meta_id : Option Text
  pub client_name : Option Text

-- The sanitized name after its namespace, `none` if nothing is left of it.
unfoldable pub namespaced : Text → Option Text → Option Text
unfolding sanitize_identity
namespaced prefix none = none
namespaced prefix (some s) =
    let id = sanitize_identity s in if eq_text id [] then none else some (prefix ++ id)

unfoldable pub identity_for : Resolver → Caller → Text
unfolding namespaced
identity_for r req = elim (namespaced (codes "meta:") req.meta_id) [
  | some id ↦ id
  | none ↦ elim (namespaced (codes "client:") req.client_name) [ some id ↦ id | none ↦ r.fallback ]
]

abbrev pub names_of : List Sandbox → List Text
names_of [] = []
names_of (sb ∷ sbs) = sb.name ∷ names_of sbs

unfoldable pub names : Access → Resolver → Answer (List Text)
names d r = elim (list_all d r.fleet) [ done sbs ↦ done (names_of sbs) | failed x ↦ failed x ]

-- `getSelection` and `Selected`: `none` is the answer `"", false`.
unfoldable pub selected : Access → Text → Resolver → Answer (Option Text)
selected d id r =
    let held : Option Text = if eq_text r.ephemeral [] then none else some r.ephemeral in
    if eq_text id r.fallback then done held else get_selection d id r.fleet

unfoldable pub select_for : Access → Text → Text → Resolver → Answer (Unit {0}) × Resolver
select_for d id name r =
    let stored = set_selection d id name r.fleet in
    if eq_text id r.fallback
    then (done tt, record r { ephemeral = name })
    else (stored.0, record r { fleet = stored.1 })

unfoldable pub clear : Access → Text → Resolver → Answer (Unit {0}) × Resolver
clear d id r =
    let stored = clear_selection d id r.fleet in
    if eq_text id r.fallback
    then (done tt, record r { ephemeral = [] })
    else (stored.0, record r { fleet = stored.1 })

more_cleared : ℕ → Answer ℕ → Answer ℕ
more_cleared n (done k) = done (n + k)
more_cleared n (failed x) = failed x

-- `ClearSelectionsFor`: the in-memory selection goes first, and stays cleared if the registry fails.
unfoldable pub clear_for : Access → Text → Resolver → Answer ℕ × Resolver
unfolding more_cleared
clear_for d name r =
    let hit = not (eq_text r.ephemeral []) && eq_text r.ephemeral name in
    let stored = clear_selections_for d name r.fleet in
    (
      more_cleared (if hit then 1 else 0) stored.0,
      record r { ephemeral = if hit then [] else r.ephemeral; fleet = stored.1 },
    )

abbrev pub handle_prefix : Text
handle_prefix = codes "sbx_"

-- A registered sandbox, or why there is none.
pub data Looked : Type 0 where
  at : Sandbox → Looked
  lost : ResolveError → Looked

unfoldable pub first_of : Option Sandbox → Option Sandbox → Option Sandbox
first_of (some sb) other = some sb
first_of none other = other

unfoldable pub at_or_lost : Text → List Sandbox → Option Sandbox → Looked
at_or_lost ref sbs (some sb) = at sb
at_or_lost ref sbs none = lost (unknown_sandbox ref (names_of sbs))

module _ (digest : Text → Text) where
  unfoldable pub handle_for : Text → Text
  handle_for name = handle_prefix ++ digest (codes "fleet/handle/v1" ++ 0 ∷ name)

  unfoldable pub target_for : Sandbox → Source → Target
  unfolding handle_for
  target_for sb src = record { sandbox = sb; handle = handle_for sb.name; source = src }

  unfoldable pub find_handle : Text → List Sandbox → Option Sandbox
  unfolding handle_for
  find_handle ref [] = none
  find_handle ref (sb ∷ sbs) =
      let rest = find_handle ref sbs in if eq_text (handle_for sb.name) ref then some sb else rest

  -- The handles are searched first, if the reference looks like one.
  unfoldable pub find_ref : Text → List Sandbox → Option Sandbox
  unfolding find_handle first_of
  find_ref ref sbs =
      first_of (if has_prefix ref handle_prefix then find_handle ref sbs else none)
        (find_named ref sbs)

  unfoldable pub look_among : Text → Answer (List Sandbox) → Looked
  unfolding find_ref at_or_lost
  look_among ref (failed x) = lost (registry_error x)
  look_among ref (done sbs) = at_or_lost ref sbs (find_ref ref sbs)

  unfoldable pub look_up : Access → Text → Resolver → Looked
  unfolding look_among
  look_up d given r = look_among (trim_space given) (list_all d r.fleet)

  -- The answer of a call that names no sandbox.
  no_default : Answer (List Text) → Resolved
  no_default (done available) = unresolved (no_target available)
  no_default (failed x) = unresolved (registry_error x)

  stale : Text → Answer (List Text) → Resolved
  stale name (done available) = unresolved (stale_selection name available)
  stale name (failed x) = unresolved (registry_error x)

  -- The end of `ResolveFor`, for a selection of that name.
  by_name : Access → Resolver → Text → Answer Sandbox → Resolved
  unfolding target_for stale names
  by_name d r name (done sb) = found (target_for sb source_sticky)
  by_name d r name (failed not_found) = stale name (names d r)
  by_name d r name (failed x) = unresolved (registry_error x)

  by_selection : Access → Resolver → Answer (Option Text) → Resolved
  unfolding by_name no_default names
  by_selection d r (failed x) = unresolved (registry_error x)
  by_selection d r (done none) = no_default (names d r)
  by_selection d r (done (some name)) =
      if eq_text name [] then no_default (names d r) else by_name d r name (get d name r.fleet)

  by_argument : Looked → Resolved
  unfolding target_for
  by_argument (at sb) = found (target_for sb source_argument)
  by_argument (lost x) = unresolved x

  unfoldable pub resolve_for : Access → Text → Text → Resolver → Resolved
  unfolding look_up by_argument by_selection selected
  resolve_for d id explicit r =
      if eq_text (trim_space explicit) []
      then by_selection d r (selected d id r)
      else by_argument (look_up d (trim_space explicit) r)

  unfoldable pub resolve : Access → Caller → Text → Resolver → Resolved
  unfolding resolve_for identity_for
  resolve d req explicit r = resolve_for d (identity_for r req) explicit r

  recorded : Sandbox → Answer (Unit {0}) × Resolver → Resolved × Resolver
  unfolding target_for
  recorded sb (done _, r) = (found (target_for sb source_argument), r)
  recorded sb (failed x, r) = (unresolved (registry_error x), r)

  selecting : Access → Text → Looked → Resolver → Resolved × Resolver
  unfolding recorded select_for
  selecting d id (at sb) r = recorded sb (select_for d id sb.name r)
  selecting d id (lost x) r = (unresolved x, r)

  unfoldable pub select : Access → Text → Text → Resolver → Resolved × Resolver
  unfolding selecting look_up
  select d id name r = selecting d id (look_up d name r) r
