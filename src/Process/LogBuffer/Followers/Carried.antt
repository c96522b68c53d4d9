-- ===== src/Process/LogBuffer/Followers/Carried.antt =====
-- What the deliveries of a follower carry, as `deliver` of internal/agent/process/logbuf.go adds to them.
use f1337_mcp.Prelude.{
  ℕ, ◌+◌, ◌≤◌, refl, ap, ◌∙◌, inl, inr, List, [], ◌∷◌, ◌++◌, append_assoc, arith, ltb, Bool-cases,
  length, length-append,
}
use f1337_mcp.Process.LogBuffer.{deliver, subscriber_queue, LogLine, Delivery, Subscriber}
use f1337_mcp.Process.LogBuffer.Followers.{Carries}

Carries-dropped :
    (lines : List LogLine) (ds : List Delivery) (pending : ℕ) (line : LogLine)
    → Carries lines ds pending
    → Carries (lines ++ line ∷ []) ds (pending + 1)
unfolding Carries
Carries-dropped lines [] pending line h = rw length-append (omega (arith, h))
Carries-dropped lines (d ∷ ds) pending line (skipped, rest, e, n, c) = (
  skipped,
  rest ++ line ∷ [],
  ap (λ l. l ++ line ∷ []) e ∙ append_assoc skipped (d.line ∷ rest) (line ∷ []),
  n,
  Carries-dropped rest ds pending line c,
)

Carries-sent :
    (lines : List LogLine) (ds : List Delivery) (pending : ℕ) (line : LogLine)
    → Carries lines ds pending
    → Carries (lines ++ line ∷ []) (ds ++ record { line = line; dropped = pending } ∷ []) 0
unfolding Carries
Carries-sent lines [] pending line h = (lines, [], refl, h, refl)
Carries-sent lines (d ∷ ds) pending line (skipped, rest, e, n, c) = (
  skipped,
  rest ++ line ∷ [],
  ap (λ l. l ++ line ∷ []) e ∙ append_assoc skipped (d.line ∷ rest) (line ∷ []),
  n,
  Carries-sent rest ds pending line c,
)

pub deliver-Follows :
    (key : ℕ) (lines : List LogLine) (seen : List Delivery) (line : LogLine) (s : Subscriber)
    → Carries lines (seen ++ s.queue) s.pending
    → length s.queue ≤ subscriber_queue
    → Carries (lines ++ line ∷ []) (seen ++ (deliver line s).queue) (deliver line s).pending
      × (length (deliver line s).queue ≤ subscriber_queue)
unfolding deliver
deliver-Follows key lines seen line s c h =
    elim (Bool-cases (ltb (length s.queue) subscriber_queue)) [
      | inl e ↦ rw e (
        rw (← append_assoc seen s.queue (record { line = line; dropped = s.pending } ∷ []))
            (Carries-sent lines (seen ++ s.queue) s.pending line c),
        rw length-append (ground (arith, e)),
      )
      | inr e ↦ rw e (Carries-dropped lines (seen ++ s.queue) s.pending line c, h)
    ]
