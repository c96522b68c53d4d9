-- ===== src/Socks/Handle.antt =====
-- `handle` of internal/socks/socks.go and `classify` of internal/socks/forward.go: which replies a client gets.
-- The connector is an argument: what it does to open and carry a connection.
use f1337_mcp.Prelude.{true, ℕ, Bool, not, Option, none, some, if◌then◌else◌, Text}
use f1337_mcp.Socks.{
  Destination, RequestError, Read, read_request, Conn, write, write_reply, negotiate,
}

-- tunnel.OpenError's kinds
pub data FailureKind : Type 0 where
  unknown : FailureKind
  denied : FailureKind
  unreachable : FailureKind
  refused_there : FailureKind
  transport : FailureKind

-- `replyForOpenError`
unfoldable pub reply_for_open_error : FailureKind → ℕ
reply_for_open_error FailureKind.denied = 2
reply_for_open_error FailureKind.unreachable = 4
reply_for_open_error FailureKind.refused_there = 5
reply_for_open_error FailureKind.transport = 1
reply_for_open_error FailureKind.unknown = 1

-- An error: the tunnel's OpenError in its chain if there is one, and the reply code that it carries.
pub record Failure : Type 0 where
  pub open_error : Option FailureKind
  pub code : Option ℕ

-- `classify` of an error
unfoldable pub classify : Failure → Failure
unfolding reply_for_open_error
classify e = elim e.open_error [
  | none ↦ e
  | some k ↦ record e { code = some (reply_for_open_error k) }
]

-- `ReplyCode`
unfoldable pub reply_code : Failure → ℕ
reply_code e = elim e.code [ none ↦ 1 | some c ↦ c ]

-- What a connector does: it fails before it has called `accepted`, or calls it, carries bytes to the client if that
-- succeeds, and then ends.
pub data Attempt : Type 0 where
  not_opened : Option Failure → Attempt
  opened : Text → Option Failure → Attempt

-- How a connection ended.
pub data Ending : Type 0 where
  no_deadline : Ending
  no_method : Ending
  bad_request : RequestError → Ending
  not_allowed : Ending
  carried : Ending
  broken_off : Ending
  unopened : Failure → Ending

-- `s.opts.Allow == nil || s.opts.Allow(dst)`
abbrev pub permits : Option (Destination → Bool) → Destination → Bool
permits none dst = true
permits (some f) dst = f dst

module _ (ip_string : Text → Text) (allow : Option (Destination → Bool))
    (connect : Destination → Attempt) where
  unfoldable pub finish : Conn → Attempt → Conn × Ending
  finish c (not_opened none) = (c, Ending.carried)
  finish c (not_opened (some e)) = ((write_reply (reply_code e) c).0, Ending.unopened e)
  finish c (opened bytes e) =
      let (c', done) = write_reply 0 c in
      if not done
      then (c', Ending.broken_off)
      else ((write bytes c').0, elim e [ none ↦ Ending.carried | some f ↦ Ending.broken_off ])

  -- The destination that the connector is called with, if it is, and the connection.
  unfoldable pub serve_request : Conn → Bool → Read → Option Destination × Conn × Ending
  unfolding finish
  serve_request c clears (Read.refused RequestError.unreadable) =
      (none, c, Ending.bad_request RequestError.unreadable)
  serve_request c clears (Read.refused (RequestError.request_error code)) =
      (none, (write_reply code c).0, Ending.bad_request (RequestError.request_error code))
  serve_request c clears (Read.dest dst) =
      if not (permits allow dst)
      then (none, (write_reply 2 c).0, Ending.not_allowed)
      else if not clears
      then (none, c, Ending.no_deadline)
      else let (c', e) = finish c (connect dst) in (some dst, c', e)

  unfoldable pub handle : Bool → Bool → Conn → Option Destination × Conn × Ending
  unfolding serve_request
  handle sets clears c =
      let (c', ok) = negotiate c in
      let (read, rest) = read_request ip_string c'.input in
      if not sets
      then (none, c, Ending.no_deadline)
      else if not ok
      then (none, c', Ending.no_method)
      else serve_request (record c' { input = rest }) clears read
