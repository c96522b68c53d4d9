-- ===== src/Pool/Calls.antt =====
-- The channels of internal/client/pool.go over any calls.
use mathlib.Core.Bool.{false≢true}
use mathlib.Core.Path.{ap₂}
use f1337_mcp.Prelude.{
  ℕ, ◌<◌, ◌≡◌, refl, sym, ap, ◌∙◌, inl, inr, Bool, true, false, not, ◌&&◌, Option, none, some, List,
  [], ◌∷◌, arith, ==_iff, Bool-cases, Option-cases, All, Text, eq_text,
}
use f1337_mcp.Pool.{
  new_pool, Channel, eq_target, dial, conn, tear_down_all, pooled_or_dial, remove_pooled,
  close_pool, Target, Pooled, Pool, find_entry, delete_entry, without_channel, tear_down, evict,
  remove_locked, dial_host,
}
use f1337_mcp.Pool.Entries.{
  All-delete_entry, All-map, AllApart, AllApart-delete_entry, Apart, IsPool, channels,
  channels-delete_entry, delete_entry-gone, find_entry-absent, pick, without_absent,
}

remove_locked-IsPool :
    (n : Text) (p : Pool)
    → IsPool p
    → IsPool (remove_locked n p)
      × All (λ f. eq_text f.target.name n ≡ false) (remove_locked n p).entries
      × ((remove_locked n p).dial_count ≡ p.dial_count)
      × ((remove_locked n p).is_closed ≡ p.is_closed)
unfolding remove_locked evict tear_down delete_entry
remove_locked-IsPool n p v = elim (Option-cases (find_entry n p.entries)) [
  | inl e ↦ rw (remove_locked, e) (v, find_entry-absent n p.entries e, refl, refl)
  | inr (d, e) ↦
      rw (remove_locked, e)
        (
          record {
            kept =
                ap (without_channel d.channel) v.kept
                ∙ sym (channels-delete_entry n p.entries d v.apart e);
            watched =
                ap (without_channel d.channel) v.watched
                ∙ sym (channels-delete_entry n p.entries d v.apart e);
            apart = AllApart-delete_entry n p.entries v.apart;
            dialed = All-delete_entry (λ x. x.channel < p.dial_count) n p.entries v.dialed;
            ended = λ c. ap (delete_entry n) (v.ended c);
          },
          delete_entry-gone n p.entries,
          refl,
          refl,
        )
]

fresh :
    (n : ℕ) (t : Target) (es : List Pooled)
    → All (λ e. e.channel < n) es
    → All (λ f. eq_text f.target.name t.name ≡ false) es
    → All (Apart (record { target = t; channel = n })) es
fresh n t [] h k = tt
fresh n t (e ∷ es) h k = ((k.0, ground (arith, h)), fresh n t es h.1 k.1)

module _ (split_host_port : Text → Option (Text × Text)) (new_client : Target → Bool) where
  dial_host-IsPool :
      (t : Target) (o : Option (Text × Text)) (p : Pool)
      → IsPool p
      → p.is_closed ≡ false
      → All (λ f. eq_text f.target.name t.name ≡ false) p.entries
      → IsPool (dial_host split_host_port new_client t o p).0
  unfolding dial_host
  dial_host-IsPool t none p v run gone = v
  dial_host-IsPool t (some (host, port)) p v run gone = elim (Bool-cases (eq_text host [])) [
    | inl e ↦ rw e v
    | inr e ↦ elim (Bool-cases (new_client t)) [
      | inr k ↦
          rw (e, k)
            (record {
              kept = v.kept;
              watched = v.watched;
              apart = v.apart;
              dialed = All-map p.entries (λ x l. omega (arith, l)) v.dialed;
              ended = v.ended;
            })
      | inl k ↦
          rw (e, k)
            (record {
              kept = ap (λ r. p.dial_count ∷ r) v.kept;
              watched = ap (λ r. p.dial_count ∷ r) v.watched;
              apart = (fresh p.dial_count t p.entries v.dialed gone, v.apart);
              dialed = (omega arith, All-map p.entries (λ x l. omega (arith, l)) v.dialed);
              ended = λ c. absurd (false≢true (sym run ∙ c));
            })
    ]
  ]

  pooled_or_dial-IsPool :
      (t : Target) (o : Option Pooled) (p : Pool)
      → find_entry t.name p.entries ≡ o
      → IsPool p
      → p.is_closed ≡ false
      → IsPool (pooled_or_dial split_host_port new_client t o p).0
  unfolding pooled_or_dial dial
  pooled_or_dial-IsPool t none p absent v run =
      dial_host-IsPool t (split_host_port t.address) p v run
        (find_entry-absent t.name p.entries absent)
  pooled_or_dial-IsPool t (some e) p there v run = elim (Bool-cases (eq_target e.target t)) [
    | inl k ↦ rw k v
    | inr k ↦
        let (v', gone, count, state) = remove_locked-IsPool t.name p v in
        rw k (
          dial_host-IsPool t (split_host_port t.address) (remove_locked t.name p) v' (state ∙ run)
            gone)
  ]

  conn-IsPool : (t : Target) (p : Pool) → IsPool p → IsPool (conn split_host_port new_client t p).0
  unfolding conn
  conn-IsPool t p v =
      pick (λ (r : Pool × Channel). IsPool r.0) p.is_closed _ _ (λ c. v)
        (λ c.
          pick (λ (r : Pool × Channel). IsPool r.0) (not t.insecure && not p.has_tls) _ _ (λ k. v)
            (λ k. pooled_or_dial-IsPool t (find_entry t.name p.entries) p refl v c))

tear_down_all_lem :
    (es : List Pooled) (p : Pool)
    → AllApart es
    → p.opened ≡ channels es
    → p.probing ≡ channels es
    → tear_down_all es p ≡ record p { opened = []; probing = [] }
unfolding tear_down_all tear_down without_channel
tear_down_all_lem [] p a o w = ap₂ (λ x y. record p { opened = x; probing = y }) o w
tear_down_all_lem (e ∷ es) p a o w =
    let rest : without_channel e.channel (channels (e ∷ es)) ≡ channels es =
      rw ((==_iff e.channel e.channel).1 refl)
        (without_absent e.channel es (All-map es (λ f k. k.1) a.0)) in
    tear_down_all_lem es (tear_down e.channel p) a.1 (ap (without_channel e.channel) o ∙ rest)
      (ap (without_channel e.channel) w ∙ rest)

close_pool_lem : (p : Pool) → IsPool p → IsPool (close_pool p) × ((close_pool p).is_closed ≡ true)
unfolding close_pool
close_pool_lem p v =
    pick (λ (r : Pool). IsPool r × (r.is_closed ≡ true)) p.is_closed _ _ (λ c. (v, c))
      (λ c.
        rw
          (tear_down_all_lem p.entries (record p { is_closed = true; entries = [] }) v.apart v.kept
            v.watched)
          (
            record { kept = refl; watched = refl; apart = tt; dialed = tt; ended = λ k. refl },
            refl,
          ))

-- A call of the pool; `dialed` is what grpc.NewClient answers.
pub data Call : Type 0 where
  conn_to : Target → (dialed : Bool) → Call
  remove_name : Text → Call
  close_all : Call

evict-is_closed : (n : Text) (o : Option Pooled) (p : Pool) → (evict n o p).is_closed ≡ p.is_closed
unfolding evict tear_down
evict-is_closed n none p = refl
evict-is_closed n (some e) p = refl

new_pool-IsPool : (has_tls : Bool) → IsPool (new_pool has_tls)
unfolding new_pool
new_pool-IsPool has_tls = record {
  kept = refl;
  watched = refl;
  apart = tt;
  dialed = tt;
  ended = λ c. refl;
}

module _ (split_host_port : Text → Option (Text × Text)) where
  unfoldable pub call : Call → Pool → Pool
  unfolding conn
  call (conn_to t dialed) p = (conn split_host_port (λ x. dialed) t p).0
  call (remove_name n) p = remove_pooled n p
  call close_all p = close_pool p

  unfoldable pub calls : List Call → Pool → Pool
  calls [] p = p
  calls (c ∷ cs) p = calls cs (call c p)

  call-IsPool : (c : Call) (p : Pool) → IsPool p → IsPool (call c p)
  unfolding call remove_pooled
  call-IsPool (conn_to t dialed) p v = conn-IsPool split_host_port (λ x. dialed) t p v
  call-IsPool (remove_name n) p v = (remove_locked-IsPool n p v).0
  call-IsPool close_all p v = (close_pool_lem p v).0

  calls_keep : (cs : List Call) (p : Pool) → IsPool p → IsPool (calls cs p)
  unfolding calls
  calls_keep [] p v = v
  calls_keep (c ∷ cs) p v = calls_keep cs (call c p) (call-IsPool c p v)

  -- Over any calls of a new pool, whatever the dials answer, the channels that are open and
  -- those whose health loop runs are just those of its entries, of which there is one for a
  -- name, and a closed pool has none.
  pub calls-IsPool : (has_tls : Bool) (cs : List Call) → IsPool (calls cs (new_pool has_tls))
  calls-IsPool has_tls cs = calls_keep cs (new_pool has_tls) (new_pool-IsPool has_tls)

  closed_stays : (c : Call) (p : Pool) → p.is_closed ≡ true → (call c p).is_closed ≡ true
  unfolding call remove_pooled conn remove_locked evict close_pool
  closed_stays (conn_to t dialed) p h = rw (conn, h) refl
  closed_stays (remove_name n) p h = evict-is_closed n (find_entry n p.entries) p ∙ h
  closed_stays close_all p h = rw (close_pool, h) refl

  calls_closed : (cs : List Call) (p : Pool) → p.is_closed ≡ true → (calls cs p).is_closed ≡ true
  unfolding calls
  calls_closed [] p h = h
  calls_closed (c ∷ cs) p h = calls_closed cs (call c p) (closed_stays c p h)

  -- After Close no channel is open and no health loop runs, whatever is called then.
  pub close_pool_final :
      (has_tls : Bool) (before after : List Call)
      → ((calls after (close_pool (calls before (new_pool has_tls)))).opened ≡ [])
        × ((calls after (close_pool (calls before (new_pool has_tls)))).probing ≡ [])
  close_pool_final has_tls before after =
      let (v, c) = close_pool_lem (calls before (new_pool has_tls)) (calls-IsPool has_tls before) in
      let p = calls after (close_pool (calls before (new_pool has_tls))) in
      let v' = calls_keep after (close_pool (calls before (new_pool has_tls))) v in
      let none_left =
        v'.ended (calls_closed after (close_pool (calls before (new_pool has_tls))) c) in
      (v'.kept ∙ ap channels none_left, v'.watched ∙ ap channels none_left)
