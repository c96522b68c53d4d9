-- ===== src/Socks/Request.antt =====
-- `readRequest` of internal/socks/socks.go on the bytes that a client sends.
use f1337_mcp.Prelude.{
  ℕ, ◌+◌, ◌*◌, ◌/◌, ◌%◌, ◌≤◌, ◌<◌, ◌≡◌, refl, sym, ap, ◌⊎◌, inl, inr, Bool, true, false, ◌&&◌,
  Option, none, some, [], ◌∷◌, ◌++◌, append_assoc, arith, ◌==◌, Bool-cases, length, get_or, Text,
  eq_text,
}
use f1337_mcp.Socks.{
  Read, Destination, read_full, judge, read_port, read_host, read_name, read_header, read_request,
  next_accept_backoff, min_accept_backoff, max_accept_backoff,
}

-- A destination as RFC 1928 puts it on the wire.
pub data Address : Type 0 where
  ipv4 : (a b c d : ℕ) → Address
  ipv6 : (raw : Text) → length raw ≡ 16 → Address
  domain : Text → Address

unfoldable pub address_type : Address → ℕ
address_type (ipv4 a b c d) = 1
address_type (ipv6 raw h) = 4
address_type (domain s) = 3

unfoldable pub address_bytes : Address → Text
address_bytes (ipv4 a b c d) = a ∷ b ∷ c ∷ d ∷ []
address_bytes (ipv6 raw h) = raw
address_bytes (domain s) = length s ∷ s

unfoldable pub encode_request : ℕ → ℕ → Address → ℕ → Text
unfolding address_type address_bytes
encode_request cmd reserved a port =
    5 ∷ cmd ∷ reserved ∷ address_type a ∷ (address_bytes a ++ port / 256 ∷ port % 256 ∷ [])

-- What the address means to the proxy.
unfoldable pub destination : (Text → Text) → Address → ℕ → Destination
destination ip_string (ipv4 a b c d) port = record {
  host = ip_string (a ∷ b ∷ c ∷ d ∷ []);
  name = false;
  port = port;
}
destination ip_string (ipv6 raw h) port = record { host = ip_string raw; name = false; port = port }
destination ip_string (domain s) port = record { host = s; name = true; port = port }

pub read_full-append : (s rest : Text) → read_full (length s) (s ++ rest) ≡ some (s, rest)
unfolding read_full
read_full-append [] rest = refl
read_full-append (c ∷ s) rest = rw (read_full-append s rest) refl

read_port_lem :
    (cmd port : ℕ) (host rest : Text) (name : Bool)
    → read_port cmd host name (read_full 2 (port / 256 ∷ port % 256 ∷ rest))
      ≡ (judge cmd (record { host = host; name = name; port = port }), rest)
unfolding read_port read_full
read_port_lem cmd port host rest name =
    ap (λ p. (judge cmd (record { host = host; name = name; port = p }), rest)) (omega arith)

read_host_lem :
    (cmd port : ℕ) (show : Text → Text) (raw rest : Text) (name : Bool) (n : ℕ)
    → n ≡ length raw
    → read_host cmd show name (read_full n ((raw ++ port / 256 ∷ port % 256 ∷ []) ++ rest))
      ≡ (judge cmd (record { host = show raw; name = name; port = port }), rest)
unfolding read_host
read_host_lem cmd port show raw rest name n h =
    rw
      (
        h,
        append_assoc raw (port / 256 ∷ port % 256 ∷ []) rest,
        read_full-append raw (port / 256 ∷ port % 256 ∷ rest),
      )
      (read_port_lem cmd port (show raw) rest name)

-- A request that is encoded as the protocol says is read whole, whatever its command and
-- destination, and judged by its command, name and port; what follows it stays unread.
pub read_request-encode_request :
    (ip_string : Text → Text) (cmd reserved port : ℕ) (a : Address) (rest : Text)
    → read_request ip_string (encode_request cmd reserved a port ++ rest)
      ≡ (judge cmd (destination ip_string a port), rest)
unfolding read_request encode_request destination read_header read_name
read_request-encode_request ip_string cmd reserved port (Address.ipv4 a b c d) rest =
    ap
      (λ p. (
        judge cmd (record { host = ip_string (a ∷ b ∷ c ∷ d ∷ []); name = false; port = p }),
        rest,
      ))
      (omega arith)
read_request-encode_request ip_string cmd reserved port (Address.ipv6 raw h) rest =
    read_host_lem cmd port ip_string raw rest false 16 (sym h)
read_request-encode_request ip_string cmd reserved port (Address.domain s) rest =
    read_host_lem cmd port (λ raw. raw) s rest true (length s) refl

-- What is asked of a destination that is served: a port, and no empty name.
abbrev pub Fine : Read → Type 0
Fine (Read.refused e) = Unit
Fine (Read.dest d) = (0 < d.port) × (d.name && eq_text d.host [] ≡ false)

judge-Fine : (cmd : ℕ) (dst : Destination) → Fine (judge cmd dst)
unfolding judge
judge-Fine cmd dst = elim (Bool-cases (cmd == 1)) [
  | inr k ↦ rw k tt
  | inl k ↦ elim (Bool-cases (dst.name && eq_text dst.host [])) [
    | inl m ↦ rw (k, m) tt
    | inr m ↦ elim (Bool-cases (dst.port == 0)) [
      | inl z ↦ rw (k, m, z) tt
      | inr z ↦ rw (k, m, z) (ground (arith, z), m)
    ]
  ]
]

read_port-Fine :
    (cmd : ℕ) (host : Text) (name : Bool) (o : Option (Text × Text))
    → Fine (read_port cmd host name o).0
unfolding read_port
read_port-Fine cmd host name none = tt
read_port-Fine cmd host name (some (port, rest)) =
    judge-Fine cmd
      (record { host = host; name = name; port = get_or port 0 0 * 256 + get_or port 1 0 })

read_host-Fine :
    (cmd : ℕ) (show : Text → Text) (name : Bool) (o : Option (Text × Text))
    → Fine (read_host cmd show name o).0
unfolding read_host
read_host-Fine cmd show name none = tt
read_host-Fine cmd show name (some (raw, rest)) =
    read_port-Fine cmd (show raw) name (read_full 2 rest)

read_name-Fine : (cmd : ℕ) (o : Option (Text × Text)) → Fine (read_name cmd o).0
unfolding read_name
read_name-Fine cmd none = tt
read_name-Fine cmd (some (size, rest)) =
    read_host-Fine cmd (λ raw. raw) true (read_full (get_or size 0 0) rest)

read_header-Fine :
    (ip_string : Text → Text) (o : Option (Text × Text)) → Fine (read_header ip_string o).0
unfolding read_header
read_header-Fine ip_string none = tt
read_header-Fine ip_string (some (header, rest)) = elim (Bool-cases (get_or header 0 0 == 5)) [
  | inr v ↦ rw v tt
  | inl v ↦ elim (Bool-cases (get_or header 3 0 == 1)) [
    | inl a ↦ rw (v, a) (read_host-Fine (get_or header 1 0) ip_string false (read_full 4 rest))
    | inr a ↦ elim (Bool-cases (get_or header 3 0 == 4)) [
      | inl b ↦
          rw (v, a, b) (read_host-Fine (get_or header 1 0) ip_string false (read_full 16 rest))
      | inr b ↦ elim (Bool-cases (get_or header 3 0 == 3)) [
        | inl d ↦ rw (v, a, b, d) (read_name-Fine (get_or header 1 0) (read_full 1 rest))
        | inr d ↦ rw (v, a, b, d) tt
      ]
    ]
  ]
]

pub read_request-Fine :
    (ip_string : Text → Text) (input : Text) → Fine (read_request ip_string input).0
unfolding read_request
read_request-Fine ip_string input = read_header-Fine ip_string (read_full 4 input)

-- From no delay, or one of at least the least, the next delay is between the least and the cap.
pub next_accept_backoff_bounds :
    (current : ℕ)
    → (current ≡ 0) ⊎ (min_accept_backoff ≤ current)
    → (min_accept_backoff ≤ next_accept_backoff current)
      × (next_accept_backoff current ≤ max_accept_backoff)
unfolding next_accept_backoff
next_accept_backoff_bounds current (inl h) = ground (arith, h)
next_accept_backoff_bounds current (inr h) = ground (arith, h)
