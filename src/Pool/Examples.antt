-- ===== src/Pool/Examples.antt =====
-- The pool of internal/client/pool.go on concrete inputs.
use f1337_mcp.Prelude.{
  ◌≡◌, refl, true, false, ◌||◌, Option, some, List, [], ◌∷◌, Text, codes, eq_text,
}
use f1337_mcp.Pool.{
  without_channel, remove_locked, Target, Pooled, Channel, eq_target, new_pool, find_entry, conn,
}
use f1337_mcp.Pool.Entries.{IsPool}
use f1337_mcp.Pool.Calls.{Call, call, calls, calls-IsPool}
use f1337_mcp.Pool.Posture.{conn_posture}

abbrev no_port : Text → Option (Text × Text)
no_port address = some (address, codes "443")

abbrev web : Target
web = record { name = codes "web"; address = codes "h1"; insecure = false }

abbrev moved : Target
moved = record { name = codes "web"; address = codes "h2"; insecure = false }

abbrev script : List Call
script =
    Call.conn_to web true
    ∷ Call.conn_to web true
    ∷ Call.conn_to moved true
    ∷ Call.conn_to moved false
    ∷ []

redialed :
    ((calls no_port script (new_pool true)).opened ≡ 1 ∷ [])
    × ((calls no_port script (new_pool true)).dial_count ≡ 2)
unfolding calls call new_pool find_entry eq_text eq_target remove_locked without_channel
redialed = (refl, refl)

calls-IsPool_example : IsPool (calls no_port script (new_pool true))
calls-IsPool_example = calls-IsPool no_port true script

first_dial : conn no_port (λ t. true) web (new_pool true) ≡ (
  record {
    has_tls = true;
    entries = record { target = web; channel = 0 } ∷ [];
    is_closed = false;
    dial_count = 1;
    opened = 0 ∷ [];
    probing = 0 ∷ [];
  },
  Channel.got 0,
)
unfolding conn new_pool find_entry eq_text
first_dial = refl

conn_posture_example :
    ((new_pool true).is_closed ≡ false)
    × (false || (new_pool true).has_tls ≡ true)
    × ((e : Pooled) × (find_entry (codes "web") (record { target = web; channel = 0 } ∷ [])
          ≡ some e)
        × (e.channel ≡ 0)
        × (eq_target e.target web ≡ true))
conn_posture_example =
    conn_posture no_port (λ t. true) web (new_pool true)
      (record {
        has_tls = true;
        entries = record { target = web; channel = 0 } ∷ [];
        is_closed = false;
        dial_count = 1;
        opened = 0 ∷ [];
        probing = 0 ∷ [];
      })
      0 first_dial
