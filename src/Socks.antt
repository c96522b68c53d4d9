-- ===== src/Socks.antt =====
-- internal/socks: the SOCKS5 proxy's handshake (socks.go) and its reply codes (forward.go). A connection is the
-- bytes that the client has sent and those written to it; `ip_string` is net.IP.String.
pub mod Request
pub mod Handle
pub mod Replies
pub mod Allow
mod Examples
use f1337_mcp.Prelude.{
  ℕ, zero, suc, ◌+◌, ◌-◌, ◌*◌, ◌/◌, ◌%◌, ◌^◌, ◌≤◌, ◌<◌, ◌≡◌, refl, sym, ap, ◌∙◌, ◌≢◌, ◌↔◌, ◌⊎◌, inl,
  inr, Bool, true, false, not, ◌&&◌, ◌||◌, Option, none, some, List, [], ◌∷◌, ◌++◌, map,
  append_assoc, append-nil, arith, ltb, leb, ◌==◌, if◌then◌else◌, ltb→lt, lt→ltb, ==_iff,
  Bool-cases, Option-cases, is_some, length, get_elem?, get_or, set, take, drop, replicate, any,
  all, All, length-append, length-set, length-replicate, length-take, length-drop, take-append-drop,
  get_or-set_self, get_or-set_ne, Text, codes, eq_text, eq_text_iff, eq_text_refl, has_prefix,
  is_space, trim_left, trim_space, contains_byte, lower_byte,
}

pub record Destination : Type 0 where
  pub host : Text
  pub name : Bool
  pub port : ℕ

-- Why a request is not served: the connection failed or ended, or the request is answered with a code.
pub data RequestError : Type 0 where
  unreadable : RequestError
  request_error : ℕ → RequestError

pub data Read : Type 0 where
  dest : Destination → Read
  refused : RequestError → Read

-- io.ReadFull: the bytes read and those left; `none` if there are too few.
unfoldable pub read_full : ℕ → Text → Option (Text × Text)
read_full zero input = some ([], input)
read_full (suc n) [] = none
read_full (suc n) (c ∷ input) = elim (read_full n input) [
  | none ↦ none
  | some r ↦ some (c ∷ r.0, r.1)
]

-- What `readRequest` finds wrong with a request that it has read.
unfoldable pub judge : ℕ → Destination → Read
judge cmd dst =
    if not (cmd == 1)
    then refused (request_error 7)
    else if dst.name && eq_text dst.host []
    then refused (request_error 8)
    else if dst.port == 0
    then refused (request_error 1)
    else dest dst

unfoldable pub read_port : ℕ → Text → Bool → Option (Text × Text) → Read × Text
read_port cmd host name none = (refused unreadable, [])
read_port cmd host name (some (port, rest)) = (
  judge cmd (record { host = host; name = name; port = get_or port 0 0 * 256 + get_or port 1 0 }),
  rest,
)

-- The destination's port, after its host.
unfoldable pub read_host : ℕ → (Text → Text) → Bool → Option (Text × Text) → Read × Text
unfolding read_port
read_host cmd show name none = (refused unreadable, [])
read_host cmd show name (some (raw, rest)) = read_port cmd (show raw) name (read_full 2 rest)

unfoldable pub read_name : ℕ → Option (Text × Text) → Read × Text
unfolding read_host
read_name cmd none = (refused unreadable, [])
read_name cmd (some (size, rest)) =
    read_host cmd (λ raw. raw) true (read_full (get_or size 0 0) rest)

unfoldable pub read_header : (Text → Text) → Option (Text × Text) → Read × Text
unfolding read_name read_host
read_header ip_string none = (refused unreadable, [])
read_header ip_string (some (header, rest)) =
    let version = get_or header 0 0 in
    let cmd = get_or header 1 0 in
    let addr_type = get_or header 3 0 in
    if not (version == 5)
    then (refused (request_error 1), rest)
    else if addr_type == 1
    then read_host cmd ip_string false (read_full 4 rest)
    else if addr_type == 4
    then read_host cmd ip_string false (read_full 16 rest)
    else if addr_type == 3
    then read_name cmd (read_full 1 rest)
    else (refused (request_error 8), rest)

-- `readRequest`, with the bytes it leaves unread.
unfoldable pub read_request : (Text → Text) → Text → Read × Text
unfolding read_header read_full
read_request ip_string input = read_header ip_string (read_full 4 input)

pub record Conn : Type 0 where
  pub input : Text
  pub output : Text
  pub broken : Bool

-- A write, and whether it succeeded.
unfoldable pub write : Text → Conn → Conn × Bool
write bytes c = if c.broken then (c, false) else (record c { output = c.output ++ bytes }, true)

unfoldable pub write_method : ℕ → Conn → Conn × Bool
unfolding write
write_method method c = write (5 ∷ method ∷ []) c

unfoldable pub write_reply : ℕ → Conn → Conn × Bool
unfolding write
write_reply code c = write (5 ∷ code ∷ 0 ∷ 1 ∷ 0 ∷ 0 ∷ 0 ∷ 0 ∷ 0 ∷ 0 ∷ []) c

-- `negotiate` after its header and after the methods
unfoldable pub choose_method : Conn → Option (Text × Text) → Conn × Bool
unfolding write_method
choose_method c none = (record c { input = [] }, false)
choose_method c (some (methods, rest)) =
    let c' = record c { input = rest } in
    if contains_byte 0 methods then write_method 0 c' else ((write_method 255 c').0, false)

unfoldable pub offer : Conn → Option (Text × Text) → Conn × Bool
unfolding choose_method
offer c none = (record c { input = [] }, false)
offer c (some (header, rest)) =
    let c' = record c { input = rest } in
    if not (get_or header 0 0 == 5)
    then (c', false)
    else if get_or header 1 0 == 0
    then ((write_method 255 c').0, false)
    else choose_method c' (read_full (get_or header 1 0) rest)

unfoldable pub negotiate : Conn → Conn × Bool
unfolding offer read_full
negotiate c = offer c (read_full 2 c.input)

-- `nextAcceptBackoff`, in milliseconds
abbrev pub min_accept_backoff : ℕ
min_accept_backoff = 5

abbrev pub max_accept_backoff : ℕ
max_accept_backoff = 1000

unfoldable pub next_accept_backoff : ℕ → ℕ
next_accept_backoff current =
    if leb current 0
    then min_accept_backoff
    else if leb max_accept_backoff current
    then max_accept_backoff
    else if leb (current * 2) max_accept_backoff
    then current * 2
    else max_accept_backoff
