-- ===== src/Fleet/Examples.antt =====
-- Runs of the registry and of the selection on concrete data. The digest of the examples is one digit.
use f1337_mcp.Prelude.{
  ℕ, ◌≡◌, refl, ◌≢◌, Bool, true, false, Option, none, some, List, [], ◌∷◌, Text, codes, eq_text,
  has_prefix, trim_space,
}
use f1337_mcp.Fleet.Registry.{
  check_client, add, set_selection, list_all, clear_selections_for, Platform, Sandbox, Stored,
  Access, done, find_named,
}
use f1337_mcp.Fleet.Registry.Named.{Named, IsFleet}
use f1337_mcp.Fleet.Registry.History.{
  Call, call_add, call_remove, call_seen, apply_calls, apply_calls-IsFleet,
}
use f1337_mcp.Fleet.Selection.{
  clean, sanitize_identity, namespaced, identity_for, Resolver, found, target_for, source_argument,
  select, resolve_for, selected, clear_for, handle_for, look_up, at,
}
use f1337_mcp.Fleet.Register.{register, trimmed}
use f1337_mcp.Fleet.Register.Outcome.{
  Wrote, is_registered, stamped, register_adds, register_resolves,
}
use f1337_mcp.Fleet.Selection.Identity.{identity_for_storable}
use f1337_mcp.Fleet.Selection.Argument.{IsHex, sandboxes, look_up-handle}
use f1337_mcp.Fleet.Selection.Sticky.{clear_for_complete}
use f1337_mcp.Fleet.Selection.Chosen.{resolve_for-select, as_sticky}

abbrev digit : Text → Text
digit s = codes "7"

abbrev sound : Access
sound = record { lock_fails = false; load_fails = false; save_fails = false }

abbrev locked_out : Access
locked_out = record { lock_fails = true; load_fails = false; save_fails = false }

abbrev no_platform : Platform
no_platform = record { os = []; arch = []; kernel_version = []; hostname = []; path_separator = [] }

abbrev box : Text → Sandbox
box name = record {
  name = name;
  address = codes "h:1";
  labels = [];
  platform = no_platform;
  insecure = false;
  enrolled_at = 0;
  last_seen_at = 0;
  agent_version = [];
}

abbrev two_boxes : Stored
two_boxes = record {
  version = 1;
  sandboxes = box (codes "a") ∷ box (codes "b") ∷ [];
  selections = (codes "client:x", codes "a") ∷ (codes "client:y", codes "b") ∷ [];
}

abbrev resolver : Resolver
resolver = record { fleet = some two_boxes; fallback = codes "process:1"; ephemeral = codes "a" }

abbrev calls : List (Access × Call)
calls =
    (sound, call_add 5 (box (codes "a")))
    ∷ (sound, call_add 6 (box (codes "a")))
    ∷ (locked_out, call_add 7 (box (codes "b")))
    ∷ (sound, call_seen (codes "a") 8)
    ∷ (sound, call_remove (codes "a"))
    ∷ []

apply_calls-IsFleet_example : IsFleet (apply_calls calls none)
unfolding IsFleet Named
apply_calls-IsFleet_example = apply_calls-IsFleet calls none tt

resolve_for-select_example :
    resolve_for digit sound
      (codes "client:x")
      []
      (select digit sound (codes "client:x") (codes "b") resolver).1
    ≡ found (as_sticky (target_for digit (box (codes "b")) source_argument))
unfolding IsFleet Named eq_text find_named select list_all has_prefix trim_space set_selection
resolve_for-select_example =
    resolve_for-select digit sound sound (codes "client:x") (codes "b") resolver
      (target_for digit (box (codes "b")) source_argument) (refl, refl, (refl, refl, tt)) refl refl

look_up-handle_example :
    (other : Sandbox) × (look_up digit sound (handle_for digit (codes "b")) resolver ≡ at other)
    × (handle_for digit other.name ≡ handle_for digit (codes "b"))
unfolding IsHex find_named sandboxes eq_text
look_up-handle_example =
    look_up-handle digit sound (codes "b") resolver (box (codes "b")) (λ s. (refl, tt)) refl refl

clear_for_complete_example :
    selected sound (codes "client:x") (clear_for sound (codes "a") resolver).1
    ≢ done (some (codes "a"))
unfolding clear_for clear_selections_for eq_text
clear_for_complete_example =
    clear_for_complete sound sound (codes "client:x") (codes "a") resolver 2 refl

abbrev host_and_port : Text → Option (Text × Text)
host_and_port a = some (codes "h", codes "1")

abbrev port_one : Text → Option ℕ
port_one p = some 1

abbrev prints : Text → Bool
prints v = true

register_adds_example :
    Wrote
      (is_registered
        (register host_and_port port_one prints sound sound 9
          (box (codes " c "))
          (some two_boxes)).0)
      9
      (trimmed (box (codes " c ")))
      (some two_boxes)
      (register host_and_port port_one prints sound sound 9 (box (codes " c ")) (some two_boxes)).1
register_adds_example =
    register_adds host_and_port port_one prints sound sound 9 (box (codes " c ")) (some two_boxes)

register_resolves_example :
    look_up digit sound (trimmed (box (codes " c "))).name (record resolver {
      fleet =
          (register host_and_port port_one prints sound sound 9
            (box (codes " c "))
            (some two_boxes)).1;
    })
    ≡ at (stamped 9 (trimmed (box (codes " c "))))
unfolding is_registered register eq_text trim_space has_prefix add
register_resolves_example =
    register_resolves host_and_port port_one prints digit sound sound sound 9 (box (codes " c "))
      resolver refl refl

identity_for_storable_example :
    check_client
      (identity_for resolver (record { meta_id = some (codes " x "); client_name = none }))
    ≡ none
unfolding identity_for namespaced sanitize_identity trim_space eq_text clean
identity_for_storable_example =
    identity_for_storable resolver (record { meta_id = some (codes " x "); client_name = none })
      refl
