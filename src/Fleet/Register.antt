-- ===== src/Fleet/Register.antt =====
-- internal/registry/register.go: what may be written into the registry by hand. `split_host_port` is
-- net.SplitHostPort (`none` is its error), `atoi` strconv.Atoi (`none` is its error or a negative
-- number, which the code refuses alike) and `printable` says whether unicode.IsPrint holds of every rune.
-- The labels are in some order of the map.
pub mod Outcome
use f1337_mcp.Prelude.{
  ℕ, zero, suc, ◌+◌, ◌-◌, ◌*◌, ◌/◌, ◌%◌, ◌^◌, ◌≤◌, ◌<◌, ◌≡◌, refl, sym, ap, ◌∙◌, ◌≢◌, ◌↔◌, ◌⊎◌, inl,
  inr, Bool, true, false, not, ◌&&◌, ◌||◌, Option, none, some, List, [], ◌∷◌, ◌++◌, map,
  append_assoc, append-nil, arith, ltb, leb, ◌==◌, if◌then◌else◌, ltb→lt, lt→ltb, ==_iff,
  Bool-cases, Option-cases, is_some, length, get_elem?, get_or, set, take, drop, replicate, any,
  all, All, length-append, length-set, length-replicate, length-take, length-drop, take-append-drop,
  get_or-set_self, get_or-set_ne, Text, codes, eq_text, eq_text_iff, eq_text_refl, has_prefix,
  is_space, trim_left, trim_space, contains_byte, lower_byte,
}
use f1337_mcp.Fleet.Registry.{
  Sandbox, Stored, Access, Answer, done, failed, RegistryError, exists_already, add, get,
}

pub data Rejection : Type 0 where
  name_missing name_too_long name_characters name_handle : Rejection
  address_missing address_url address_split address_host address_host_characters address_port :
      Rejection
  labels_too_many label_key_missing label_key_too_long label_key_characters : Rejection
  label_value_too_long label_value_characters : Rejection

abbrev pub max_name_length : ℕ
max_name_length = 128

abbrev pub max_labels : ℕ
max_labels = 32

abbrev pub max_label_key_length : ℕ
max_label_key_length = 64

abbrev pub max_label_value_length : ℕ
max_label_value_length = 256

-- Not printable ASCII, byte by byte: every byte of a longer rune is above '~'.
abbrev pub is_odd : ℕ → Bool
is_odd c = leb c 32 || ltb 126 c

unfoldable pub check_name : Text → Option Rejection
check_name name =
    if eq_text name []
    then some name_missing
    else if ltb max_name_length (length name)
    then some name_too_long
    else if any is_odd name
    then some name_characters
    else if has_prefix name (codes "sbx_")
    then some name_handle
    else none

-- strings.Contains
unfoldable pub contains_text : Text → Text → Bool
contains_text [] needle = has_prefix [] needle
contains_text (c ∷ s) needle = has_prefix (c ∷ s) needle || contains_text s needle

-- The three bytes of `strings.ContainsAny(host, "/\\ ")`
abbrev pub bad_in_host : ℕ → Bool
bad_in_host c = c == 47 || (c == 92 || c == 32)

check_port : Option ℕ → Option Rejection
check_port none = some address_port
check_port (some n) = if ltb n 1 || ltb 65_535 n then some address_port else none

check_label : Bool → Text → Text → Option Rejection
check_label value_prints key value =
    if eq_text key []
    then some label_key_missing
    else if ltb max_label_key_length (length key)
    then some label_key_too_long
    else if any is_odd key
    then some label_key_characters
    else if ltb max_label_value_length (length value)
    then some label_value_too_long
    else if not value_prints
    then some label_value_characters
    else none

-- The first rejection of the two.
unfoldable pub or_else : Option Rejection → Option Rejection → Option Rejection
or_else (some x) y = some x
or_else none y = y

pub data Registered : Type 0 where
  -- The sandbox, and whether the note is the one for a registration without mTLS.
  registered : Sandbox → Bool → Registered
  rejected : Rejection → Registered
  duplicate : Text → Text → Registered
  registry_failed : RegistryError → Registered

-- What a name that is taken becomes, from the second read.
unfoldable pub taken_by : Sandbox → Answer Sandbox → Registered
taken_by sb (done existing) = duplicate sb.name existing.address
taken_by sb (failed x) = registry_failed exists_already

unfoldable pub concluded :
    Access → Sandbox → Answer (Unit {0}) × Option Stored → Registered × Option Stored
unfolding taken_by
concluded d sb (done _, file) = (registered sb sb.insecure, file)
concluded d sb (failed exists_already, file) = (taken_by sb (get d sb.name file), file)
concluded d sb (failed x, file) = (registry_failed x, file)

unfoldable pub trimmed : Sandbox → Sandbox
trimmed sb = record sb { name = trim_space sb.name; address = trim_space sb.address }

-- `d` answers the write, `d'` the read that follows a name that is taken.
unfoldable pub register_checked :
    Access → Access → ℕ → Sandbox → Option Rejection → Option Stored → Registered × Option Stored
unfolding concluded
register_checked d d' now sb (some x) file = (rejected x, file)
register_checked d d' now sb none file = concluded d' sb (add d now sb file)

module _ (split_host_port : Text → Option (Text × Text)) (atoi : Text → Option ℕ)
    (printable : Text → Bool) where
  check_host : Option (Text × Text) → Option Rejection
  unfolding check_port
  check_host none = some address_split
  check_host (some (host, port)) =
      if eq_text host []
      then some address_host
      else if any bad_in_host host
      then some address_host_characters
      else check_port (atoi port)

  unfoldable pub check_address : Text → Option Rejection
  unfolding check_host contains_text
  check_address address =
      if eq_text address []
      then some address_missing
      else if contains_text address (codes "://")
      then some address_url
      else check_host (split_host_port address)

  check_each : List (Text × Text) → Option Rejection
  unfolding check_label or_else
  check_each [] = none
  check_each ((key, value) ∷ labels) =
      or_else (check_label (printable value) key value) (check_each labels)

  unfoldable pub check_labels : List (Text × Text) → Option Rejection
  unfolding check_each
  check_labels labels =
      if ltb max_labels (length labels) then some labels_too_many else check_each labels

  unfoldable pub check_all : Sandbox → Option Rejection
  unfolding check_name check_address check_labels or_else
  check_all sb =
      or_else (check_name sb.name) (or_else (check_address sb.address) (check_labels sb.labels))

  unfoldable pub register :
      Access → Access → ℕ → Sandbox → Option Stored → Registered × Option Stored
  unfolding register_checked trimmed check_all
  register d d' now given file =
      let sb = trimmed given in register_checked d d' now sb (check_all sb) file
