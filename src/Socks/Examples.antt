-- ===== src/Socks/Examples.antt =====
-- The SOCKS proxy of internal/socks on concrete inputs.
use f1337_mcp.Prelude.{
  ℕ, ◌≡◌, refl, Bool, true, false, Option, none, some, List, [], ◌∷◌, ◌++◌, map, arith, ◌==◌,
  length, All, Text, codes, eq_text, trim_space, contains_byte, lower_byte,
}
use f1337_mcp.Socks.{negotiate, Destination, judge, read_request, Conn}
use f1337_mcp.Socks.Request.{Address, encode_request, destination}
use f1337_mcp.Socks.Handle.{Attempt, handle}
use f1337_mcp.Socks.Replies.{client_bytes, answer, handle_answer}
use f1337_mcp.Socks.Allow.{Net, Rule, allows, parse_allow_list}
use f1337_mcp.Socks.Allow.Narrow.{Usable, parse_allow_list_sound}

abbrev shown : Text → Text
shown raw = raw

abbrev only_https : Option (Destination → Bool)
only_https = some (λ d. d.port == 443)

abbrev answers : Destination → Attempt
answers d = Attempt.opened (codes "hi") none

abbrev client_conn : Conn
client_conn = record {
  input = client_bytes (2 ∷ 0 ∷ []) 1 0 (Address.domain (codes "go.dev")) 443 [];
  output = [];
  broken = false;
}

-- A UDP ASSOCIATE with all zeros is answered about its command.
udp :
    (judge 3 (destination shown (Address.ipv4 0 0 0 0) 0))
    ≡ judge 3 (destination shown (Address.ipv4 1 1 1 1) 53)
unfolding judge destination
udp = refl

handle_answer_example :
    (handle shown only_https answers true true client_conn).1.output
    ≡ ([] ++ 5 ∷ 0 ∷ [])
      ++ answer answers only_https 1 (destination shown (Address.domain (codes "go.dev")) 443)
unfolding contains_byte
handle_answer_example =
    handle_answer shown only_https answers client_conn (2 ∷ 0 ∷ []) 1 0 443
      (Address.domain (codes "go.dev")) [] refl refl refl

served :
    (handle shown only_https answers true true client_conn).0
    ≡ some (record { host = codes "go.dev"; name = true; port = 443 })
unfolding handle negotiate contains_byte read_request encode_request judge eq_text
served = refl

-- A network without addresses: every entry is a name.
abbrev names_only : Net ℕ ℕ
names_only = record {
  split_host_port = λ s. none;
  atoi = λ s. none;
  parse_cidr = λ s. none;
  parse_ip = λ s. none;
  ip_equal = λ a b. a == b;
  block_contains = λ a b. a == b;
  to_lower = map lower_byte;
  equal_fold = λ s t. eq_text (map lower_byte s) (map lower_byte t);
}

lower_solid : (s : Text) → eq_text s [] ≡ false → eq_text (map lower_byte s) [] ≡ false
unfolding eq_text
lower_solid [] h = h
lower_solid (c ∷ s) h = refl

parse_allow_list_sound_example :
    (rules : List (Rule ℕ ℕ)) × (some (
        allows names_only
          (record { host = codes "go.dev"; block = none; ip = none; port = 0 } ∷ []))
      ≡ some (allows names_only rules))
    × (length rules ≡ 1)
    × All Usable rules
unfolding parse_allow_list eq_text trim_space contains_byte
parse_allow_list_sound_example =
    parse_allow_list_sound names_only lower_solid (codes " Go.dev" ∷ [])
      (some (
        allows names_only
          (record { host = codes "go.dev"; block = none; ip = none; port = 0 } ∷ [])))
      (omega arith) refl
