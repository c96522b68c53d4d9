-- ===== src/Socks/Replies.antt =====
-- Which reply a client of internal/socks gets, and which destinations a connector sees.
use mathlib.Core.Path.{subst}
use mathlib.Core.Option.{some-injective}
use mathlib.Core.Bool.{false≢true}
use f1337_mcp.Prelude.{
  some≢none, ℕ, suc, ◌<◌, ◌≡◌, refl, sym, ap, ◌∙◌, ◌↔◌, inl, inr, Bool, true, false, not, ◌&&◌,
  Option, none, some, [], ◌∷◌, ◌++◌, append_assoc, append-nil, arith, ◌==◌, if◌then◌else◌,
  Bool-cases, length, Text, eq_text, contains_byte,
}
use f1337_mcp.Socks.{
  Destination, RequestError, Read, read_full, judge, read_request, Conn, write, write_method,
  write_reply, choose_method, offer, negotiate,
}
use f1337_mcp.Socks.Request.{
  Fine, read_request-Fine, Address, encode_request, destination, read_request-encode_request,
  read_full-append,
}
use f1337_mcp.Socks.Handle.{
  FailureKind, Failure, classify, reply_code, Attempt, finish, serve_request, handle, permits,
}

-- The bytes of a reply.
abbrev pub reply : ℕ → Text
reply code = 5 ∷ code ∷ 0 ∷ 1 ∷ 0 ∷ 0 ∷ 0 ∷ 0 ∷ 0 ∷ 0 ∷ []

-- What a client is answered after an attempt to open its connection.
abbrev pub attempt_answer : Attempt → Text
attempt_answer (Attempt.not_opened none) = []
attempt_answer (Attempt.not_opened (some e)) = reply (reply_code e)
attempt_answer (Attempt.opened bytes e) = reply 0 ++ bytes

-- The first objection to a request decides its answer.
abbrev pub answer : (Destination → Attempt) → Option (Destination → Bool) → ℕ → Destination → Text
answer connect allow cmd dst =
    if not (cmd == 1)
    then reply 7
    else if dst.name && eq_text dst.host []
    then reply 8
    else if dst.port == 0
    then reply 1
    else if not (permits allow dst)
    then reply 2
    else attempt_answer (connect dst)

-- What a client that speaks the protocol sends: its methods and a request, and then anything.
abbrev pub client_bytes : Text → ℕ → ℕ → Address → ℕ → Text → Text
client_bytes methods cmd reserved a port rest =
    5 ∷ length methods ∷ (methods ++ (encode_request cmd reserved a port ++ rest))

reply_written :
    (code : ℕ) (c : Conn)
    → c.broken ≡ false
    → write_reply code c ≡ (record c { output = c.output ++ reply code }, true)
unfolding write_reply
reply_written code c h = rw (write, h) refl

positive : (n : ℕ) → (suc n == 0) ≡ false
positive n = ground arith

header_read :
    (c : Conn) (n : ℕ) (s : Text) → c.input ≡ 5 ∷ n ∷ s → read_full 2 c.input ≡ some (5 ∷ n ∷ [], s)
unfolding read_full
header_read c n s h = rw h refl

choose_lem :
    (c : Conn) (methods rest : Text)
    → c.broken ≡ false
    → contains_byte 0 methods ≡ true
    → choose_method c (some (methods, rest))
      ≡ (record c { input = rest; output = c.output ++ 5 ∷ 0 ∷ [] }, true)
unfolding choose_method write_method write
choose_lem c methods rest fine h = rw (h, fine) refl

negotiate_lem :
    (c : Conn) (methods rest : Text)
    → c.input ≡ 5 ∷ length methods ∷ (methods ++ rest)
    → c.broken ≡ false
    → contains_byte 0 methods ≡ true
    → negotiate c ≡ (record c { input = rest; output = c.output ++ 5 ∷ 0 ∷ [] }, true)
unfolding negotiate offer contains_byte
negotiate_lem c [] rest h fine none_too = absurd (false≢true (none_too))
negotiate_lem c (m ∷ ms) rest h fine none_too =
    rw
      (negotiate, header_read c (length (m ∷ ms)) ((m ∷ ms) ++ rest) h, offer, positive (length ms))
      (rw (read_full-append (m ∷ ms) rest)
        (choose_lem (record c { input = (m ∷ ms) ++ rest }) (m ∷ ms) rest fine none_too))

module _ (ip_string : Text → Text) (allow : Option (Destination → Bool))
    (connect : Destination → Attempt) where
  finish_lem :
      (c : Conn) (a : Attempt)
      → c.broken ≡ false
      → (finish ip_string allow connect c a).0.output ≡ c.output ++ attempt_answer a
  unfolding finish write_reply
  finish_lem c (Attempt.not_opened none) h = sym (append-nil c.output)
  finish_lem c (Attempt.not_opened (some e)) h = rw (reply_written (reply_code e) c h) refl
  finish_lem c (Attempt.opened bytes e) h =
      rw (reply_written 0 c h) (rw (write, h) (append_assoc c.output (reply 0) bytes))

  serve_request_lem :
      (c : Conn) (cmd : ℕ) (dst : Destination)
      → c.broken ≡ false
      → (serve_request ip_string allow connect c true (judge cmd dst)).1.output
        ≡ c.output ++ answer connect allow cmd dst
  unfolding serve_request judge
  serve_request_lem c cmd dst h = elim (Bool-cases (cmd == 1)) [
    | inr k ↦ rw (k, reply_written 7 c h) refl
    | inl k ↦ elim (Bool-cases (dst.name && eq_text dst.host [])) [
      | inl m ↦ rw (k, m, reply_written 8 c h) refl
      | inr m ↦ elim (Bool-cases (dst.port == 0)) [
        | inl z ↦ rw (k, m, z, reply_written 1 c h) refl
        | inr z ↦ elim (Bool-cases (permits allow dst)) [
          | inr q ↦ rw (k, m, z, q, reply_written 2 c h) refl
          | inl q ↦ rw (k, m, z, q) (finish_lem c (connect dst) h)
        ]
      ]
    ]
  ]

  -- On a connection that takes deadlines and writes, a client that offers the method without
  -- authentication and sends a complete request is answered by the method and then once, for the
  -- first objection: the command, an empty name, port 0, the allow list, or how the opening of
  -- the connection went; the bytes carried come after a success.
  pub handle_answer :
      (c : Conn) (methods : Text) (cmd reserved port : ℕ) (a : Address) (rest : Text)
      → c.input ≡ client_bytes methods cmd reserved a port rest
      → c.broken ≡ false
      → contains_byte 0 methods ≡ true
      → (handle ip_string allow connect true true c).1.output
        ≡ (c.output ++ 5 ∷ 0 ∷ []) ++ answer connect allow cmd (destination ip_string a port)
  unfolding handle
  handle_answer c methods cmd reserved port a rest h fine offered =
      rw
        (
          negotiate_lem c methods (encode_request cmd reserved a port ++ rest) h fine offered,
          read_request-encode_request ip_string cmd reserved port a rest,
        )
        (serve_request_lem (record c { input = rest; output = c.output ++ 5 ∷ 0 ∷ [] }) cmd
          (destination ip_string a port) fine)

  serve_request_allowed :
      (c : Conn) (clears : Bool) (r : Read) (dst : Destination)
      → (serve_request ip_string allow connect c clears r).0 ≡ some dst
      → (r ≡ Read.dest dst) × (permits allow dst ≡ true)
  unfolding serve_request
  serve_request_allowed c clears (Read.refused RequestError.unreadable) dst h =
      absurd (some≢none dst (sym h))
  serve_request_allowed c clears (Read.refused (RequestError.request_error code)) dst h =
      absurd (some≢none dst (sym h))
  serve_request_allowed c clears (Read.dest d) dst h = elim (Bool-cases (permits allow d)) [
    | inr q ↦ absurd (some≢none dst (sym (rw q at h)))
    | inl q ↦ elim (Bool-cases clears) [
      | inr e ↦ absurd (some≢none dst (sym (rw (q, e) at h)))
      | inl e ↦
          let same = some-injective d dst (rw (q, e) at h) in
          (ap Read.dest same, ap (permits allow) (sym same) ∙ q)
    ]
  ]

  -- The connector is called only with a destination that the allow list permits, that has a port
  -- other than 0 and, where it is a name, a name that is not empty.
  pub handle_allowed :
      (c : Conn) (sets clears : Bool) (dst : Destination)
      → (handle ip_string allow connect sets clears c).0 ≡ some dst
      → (permits allow dst ≡ true) × (0 < dst.port) × (dst.name && eq_text dst.host [] ≡ false)
  unfolding handle
  handle_allowed c sets clears dst h = elim (Bool-cases sets) [
    | inr s ↦ absurd (some≢none dst (sym (rw s at h)))
    | inl s ↦ elim (Bool-cases (negotiate c).1) [
      | inr n ↦ absurd (some≢none dst (sym (rw (s, n) at h)))
      | inl n ↦
          let (r, allowed) =
            serve_request_allowed
              (record (negotiate c).0 { input = (read_request ip_string (negotiate c).0.input).1 })
              clears (read_request ip_string (negotiate c).0.input).0 dst (rw (s, n) at h) in
          let fine : Fine (Read.dest dst) =
            subst Fine r (read_request-Fine ip_string (negotiate c).0.input) in
          (allowed, fine.0, fine.1)
    ]
  ]

-- A failed open whose error carries no code of its own is answered "not allowed" just when its
-- kind is the refusal by policy.
pub reply_code-classify :
    (e : Failure)
    → e.code ≡ none
    → (reply_code (classify e) ≡ 2) ↔ (e.open_error ≡ some FailureKind.denied)
unfolding reply_code classify
reply_code-classify e h = ground (arith, h)
