-- ===== src/Lib.antt =====
-- fleet: an MCP server that runs commands on enrolled hosts, and the agent that runs on each of them.
--
-- The server keeps a registry of the hosts and the sandbox that each client has selected
-- (internal/registry, internal/mcpserver/selection); a host joins by an enrollment token
-- (internal/security/enroll); an agent judges each command by a policy (internal/security/policy),
-- runs it in an environment of its own (internal/agent/exec), supervises the processes that it starts,
-- with their logs (internal/agent/process), and searches and edits files (internal/agent/fs) within the
-- roots of a jail (internal/security/jail). A local SOCKS proxy carries connections to a host
-- (internal/socks), over the channels that a pool keeps (internal/client).
--
-- Enroll models internal/security/enroll. Enroll/Token.antt has the records, states and the test of
-- redeemability of token.go, Enroll/Store.antt the operations of TokenStore (NewTokenStore, Mint,
-- Inspect, Redeem, List, Revoke, update, prune), and Enroll/RateLimit.antt the limiter of
-- ratelimit.go. An operation takes the store to its result and the new store; the outcomes of lock,
-- read and write are arguments, and so are the clock readings. SHA-256 and base64url are parameters.
-- Enroll/Service.antt has the checks of an enrollment request and the hosts of its certificate, from
-- service.go, Enroll/Sans.antt the checks of those names by security/ca/sign.go, and
-- Enroll/Handler.antt the call Enroll itself, from the limiter to the signed leaf; the fleet is a port
-- with its own state, which Enroll/Recorder.antt fills by the registry as internal/cli/fleetctl/serve.go
-- does; package net, package unicode and crypto/x509 are parameters.
--
-- Jail models internal/security/jail and the paths of internal/platform. Jail/Paths.antt has the
-- kinds and prefixes of paths (paths.go, paths_unix.go, winpath.go), Jail.antt New, Resolve and
-- OpenFile up to the call that opens; package path/filepath and the file system are parameters.
--
-- Exec models of internal/agent/exec the environment of a command (Exec/Env.antt, from env.go and its
-- two platform files) and the capped stream of its output (Exec/Sink.antt, from stream.go).
--
-- Process models internal/agent/process. Process/State.antt is the table of state.go,
-- Process/Record.antt the moves of record.go with the record's slot of the agent-wide limit,
-- Process/Restart.antt the end of a run and the restart policy of supervisor.go and signal.go, and
-- Process/LogBuffer.antt the ring and the followers of logbuf.go. What can happen to one record is a
-- step relation, in Process/Slots.antt; Process/Outcome.antt and Process/Backoff.antt are about the end
-- of a run. What happens to a buffer and its followers is a list of turns, in
-- Process/LogBuffer/Followers.antt.
--
-- Fleet models the registry and the selection. Fleet/Registry.antt has the operations of
-- internal/registry/store.go on the registry file, Fleet/Register.antt the registration by hand of
-- register.go, and Fleet/Selection.antt the operations of
-- internal/mcpserver/selection/selection.go. net.SplitHostPort, strconv.Atoi and unicode.IsPrint are
-- parameters. The file stands in the resolver, as the code reads it anew for each operation. The
-- digest of HandleFor is a parameter.
--
-- Policy models internal/security/policy. Policy/Command.antt builds the names of a command
-- (lookup.go), Policy/Evaluate.antt compares them with the rules, and Policy/Limits.antt has the caps
-- on time, output and concurrency (policy.go); Policy/Construct.antt is New, with checkRules,
-- checkPattern, checkClass and classItem. filepath.Match, filepath.Base and
-- utf8.DecodeRuneInString are parameters.
--
-- Files models internal/agent/fs. Files/Pattern.antt has the globs of pattern.go: compilePattern,
-- match with its memo, and prefixCanMatch. Files/Edit.antt has replaceOccurrences and the checks of
-- edit.go, Files/Edit/Hints.antt what it tells about a text that it does not find, and
-- Files/Edit/Handler.antt loadForEdit and EditFile; what the file system answers is an
-- argument, and the write that is asked for is part of the answer. path.Match, strings.ToLower and
-- utf8.Valid are parameters. Files/Locks.antt has the order in which lockBoth of locks.go takes two
-- locks, Files/Diff.antt the lines, groups and caps of diff.go, without the hunks, and
-- Files/Ignore.antt the ignore files of gitignore.go with their stack.
--
-- Pool models internal/client/pool.go: Pool.antt has NewPool, Conn, dial, Remove and Close on the
-- entries, with the open channels and running health loops as part of the state. Calls run one after
-- another, as under the pool's mutex; Close takes the entries and then closes them, as one step.
--
-- Socks models internal/socks. Socks.antt has negotiate and readRequest on the bytes that a client
-- has sent, Socks/Handle.antt the handling of a connection and the reply codes of forward.go, with
-- the connector as an argument, and Socks/Allow.antt ParseAllowList, with the operations of the net
-- package as an interface.
--
-- Numbers. Times and durations are numbers of nanoseconds, sequence numbers and counters have no
-- upper bound: 2^63 nanoseconds and 2^64 lines are out of reach. The counters of the sink wrap at 2^64.
-- A string is the list of its bytes, and the white space that is trimmed is that of ASCII. Loops on fuel are those of splitLine and of
-- replaceOccurrences and strings.Count, each with the length of the text, and the matcher, with the
-- segments of the pattern, those of checkPattern and checkClass, with the bytes left, of
-- resolveAnchor, with the bytes of the path, and of the sink, with the bytes of the write; a
-- theorem shows for each that this is enough.
--
-- Mutexes are not modelled, but for the order in Files/Locks.antt: each operation runs as a whole
-- under its mutex, so a history is a list of operations. Effects on the host (files, processes,
-- signals, sockets), the wording of errors, the rotating log file, and the other packages of the
-- repository are not modelled.
pub mod Prelude
pub mod Enroll
pub mod Process
pub mod Fleet
pub mod Policy
pub mod Files
pub mod Socks
pub mod Pool
pub mod Exec
pub mod Jail
