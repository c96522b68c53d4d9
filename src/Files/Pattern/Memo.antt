-- ===== src/Files/Pattern/Memo.antt =====
-- The memoised matcher of internal/agent/fs/pattern.go against the reference.
use f1337_mcp.Prelude.{
  ==-false, ℕ, zero, suc, ◌+◌, ◌-◌, ◌*◌, ◌≤◌, ◌<◌, ◌≡◌, refl, sym, ap, ◌∙◌, ◌≢◌, inl, inr, Bool,
  true, false, Option, List, [], arith, ◌==◌, if◌then◌else◌, ==_iff, Bool-cases, length, get_or,
  set, drop, length-set, length-replicate, length-drop, get_or-set_self, get_or-set_ne, Text,
  eq_text,
}
use f1337_mcp.Files.Pattern.{
  stars, seg_ok, key, scan, remember, new_matcher, compute, match_at, match_segments,
}
use f1337_mcp.Files.Pattern.Reference.{glob}
use f1337_mcp.Files.Pattern.Positions.{
  drop_cons, drop_all, seen_bit, get_or-replicate, plus_one, columns, any_from, any_from_tail,
  key_injective, key_bound,
}

module _ (seg_match : Text → Text → Option Bool) (pat name : List Text) where
  -- What `go(i, j)` is to answer.
  answer_at : ℕ → ℕ → Bool
  answer_at i j = glob seg_match (drop i pat) (drop j name)

  -- What the memo knows is right.
  record IsMemo (seen : List ℕ) : Type 0 where
    sized : length seen ≡ (length pat + 1) * (length name + 1)
    right :
        (i j : ℕ)
        → i ≤ length pat
        → j ≤ length name
        → get_or seen (key name i j) 0 ≢ 0
        → (get_or seen (key name i j) 0 == 1) ≡ answer_at i j

  -- A step that answers for the row `i` and keeps the memo.
  abbrev Answers : ℕ → (ℕ → List ℕ → Bool × List ℕ) → Type 0
  Answers i go =
      (j : ℕ) (seen : List ℕ)
      → j ≤ length name
      → IsMemo seen
      → ((go j seen).0 ≡ answer_at i j) × IsMemo (go j seen).1

  scan_lem :
      (i : ℕ) (go : ℕ → List ℕ → Bool × List ℕ)
      → Answers i go
      → (n k : ℕ) (seen : List ℕ) → k + n ≡ length name + 1
      → IsMemo seen
      → ((scan go n k seen).0 ≡ any_from (answer_at i) n k) × IsMemo (scan go n k seen).1
  unfolding scan any_from Answers
  scan_lem i go step zero k seen h m = (refl, m)
  scan_lem i go step (suc n) k seen h m =
      let (e, m') = step k seen (omega (arith, h)) m in
      let (e', m'') = scan_lem i go step n (k + 1) (go k seen).1 (omega (arith, h)) m' in
      elim (Bool-cases (go k seen).0) [
        | inl hit ↦ rw hit (rw (sym e ∙ hit) refl, m')
        | inr miss ↦ rw miss (rw (sym e ∙ miss) e', m'')
      ]

  answer_last : (j : ℕ) → j ≤ length name → answer_at (length pat) j ≡ (j == length name)
  unfolding answer_at glob
  answer_last j h =
      rw (drop_all (length pat) pat (omega arith)) (ground (arith, length-drop j name))

  answer_star :
      (i j : ℕ)
      → i < length pat
      → j ≤ length name
      → eq_text (get_or pat i []) stars ≡ true
      → answer_at i j ≡ any_from (answer_at (i + 1)) (length name + 1 - j) j
  unfolding answer_at glob
  answer_star i j hi hj star =
      rw (plus_one i, drop_cons [] i pat hi, star)
        (rw (columns j (length name) hj) (
          sym (
            any_from_tail (glob seg_match (drop (suc i) pat)) name (length name - j) j
              (omega arith))))

  answer_end :
      (i : ℕ)
      → i < length pat
      → eq_text (get_or pat i []) stars ≡ false
      → answer_at i (length name) ≡ false
  unfolding answer_at glob
  answer_end i hi plain =
      rw (drop_cons [] i pat hi, drop_all (length name) name (omega arith), plain) refl

  answer_seg :
      (i j : ℕ)
      → i < length pat
      → j < length name
      → eq_text (get_or pat i []) stars ≡ false
      → answer_at i j ≡ (
          if seg_ok seg_match (get_or pat i []) (get_or name j [])
          then answer_at (i + 1) (j + 1)
          else false)
  unfolding answer_at glob
  answer_seg i j hi hj plain =
      rw (drop_cons [] i pat hi, drop_cons [] j name hj, plain) (rw (plus_one i, plus_one j) refl)

  compute_lem :
      (i j : ℕ) (go : ℕ → List ℕ → Bool × List ℕ)
      → (i < length pat → Answers (i + 1) go)
      → (seen : List ℕ) → i ≤ length pat
      → j ≤ length name
      → IsMemo seen
      → ((compute seg_match pat name go i j seen).0 ≡ answer_at i j)
        × IsMemo (compute seg_match pat name go i j seen).1
  unfolding compute answer_at Answers
  compute_lem i j go step seen hi hj m = elim (Bool-cases (i == length pat)) [
    | inl last ↦
        rw last
          (sym (ap (λ k. answer_at k j) ((==_iff i (length pat)).0 last) ∙ answer_last j hj), m)
    | inr more ↦
        let hi' : i < length pat = ground (arith, more, hi) in
        elim (Bool-cases (eq_text (get_or pat i []) stars)) [
          | inl star ↦
              rw (more, star)
                (let (e, m') =
                    scan_lem (i + 1) go (step hi') (length name + 1 - j) j seen (omega arith) m in
                  (e ∙ sym (answer_star i j hi' hj star), m'))
          | inr plain ↦ elim (Bool-cases (j == length name)) [
            | inl at_end ↦
                rw (more, plain, at_end)
                  (
                    sym (
                        ap (answer_at i) ((==_iff j (length name)).0 at_end)
                        ∙ answer_end i hi' plain),
                    m,
                  )
            | inr inside ↦
                elim (Bool-cases (seg_ok seg_match (get_or pat i []) (get_or name j []))) [
                  | inl ok ↦
                      rw (more, plain, inside, ok)
                        (let (e, m') = step hi' (j + 1) seen (ground (arith, inside)) m in
                          (
                            e
                                ∙ sym (
                                    answer_seg i j hi' (ground (arith, inside)) plain ∙ rw ok refl),
                            m',
                          ))
                  | inr bad ↦
                      rw (more, plain, inside, bad)
                        (sym (answer_seg i j hi' (ground (arith, inside)) plain ∙ rw bad refl), m)
                ]
          ]
        ]
  ]

  still_right :
      (i j : ℕ) (b : Bool) (seen : List ℕ)
      → i ≤ length pat
      → j ≤ length name
      → b ≡ answer_at i j
      → IsMemo seen
      → (a c : ℕ) → a ≤ length pat
      → c ≤ length name
      → get_or (set seen (key name i j) (if b then 1 else 2)) (key name a c) 0 ≢ 0
      → (get_or (set seen (key name i j) (if b then 1 else 2)) (key name a c) 0 == 1)
        ≡ answer_at a c
  still_right i j b seen hi hj e m a c ha hc ne = elim (Bool-cases (key name i j == key name a c)) [
    | inl same ↦
        (let at = (==_iff (key name i j) (key name a c)).0 same in
          let (ia, jc) = key_injective name i j a c hj hc at in
          let stored =
            get_or-set_self seen (key name i j) (if b then 1 else 2) 0
              (rw (m.sized) (key_bound pat name i j hi hj)) in
          rw (← at, stored) (seen_bit b ∙ e ∙ ap (λ r. answer_at r j) ia ∙ ap (answer_at a) jc))
    | inr other ↦
        (let apart =
            get_or-set_ne seen (if b then 1 else 2) 0
              (==-false (key name i j) (key name a c) other) in
          rw apart (m.right a c ha hc (λ z. ne (apart ∙ z))))
  ]

  remember_lem :
      (i j : ℕ) (r : Bool × List ℕ)
      → i ≤ length pat
      → j ≤ length name
      → (r.0 ≡ answer_at i j)
      → IsMemo r.1
      → ((remember (key name i j) r).0 ≡ answer_at i j) × IsMemo (remember (key name i j) r).1
  unfolding remember
  remember_lem i j (b, seen) hi hj e m = (
    e,
    record {
      sized = length-set seen (key name i j) (if b then 1 else 2) ∙ m.sized;
      right = still_right i j b seen hi hj e m;
    },
  )

  match_at_lem :
      (n i : ℕ)
      → i + n ≡ length pat + 1
      → i ≤ length pat
      → Answers i (match_at seg_match pat name n i)
  unfolding match_at
  match_at_lem zero i h hi j seen hj m = absurd (omega arith)
  match_at_lem (suc n) i h hi j seen hj m =
      let r =
        compute_lem i j (match_at seg_match pat name n (i + 1))
          (λ q. match_at_lem n (i + 1) (omega arith) (omega arith)) seen hi hj m in
      elim (Bool-cases (get_or seen (key name i j) 0 == 0)) [
        | inl unknown ↦
            rw (unknown, key)
              (remember_lem i j
                (compute seg_match pat name (match_at seg_match pat name n (i + 1)) i j seen) hi hj
                r.0 r.1)
        | inr known ↦ rw (known, key) (m.right i j hi hj (==-false _ 0 known), m)
      ]

  new_matcher-IsMemo : IsMemo (new_matcher pat name)
  unfolding new_matcher
  new_matcher-IsMemo = record {
    sized = length-replicate _ 0;
    right = λ i j hi hj ne. absurd (ne (get_or-replicate _ (key name i j) 0));
  }

  -- The memoised matcher, with the fuel it is given, answers what the plain recursion answers:
  -- "**" stands for any number of parts and every other segment for one that path.Match accepts.
  pub match_segments-glob : match_segments seg_match pat name ≡ glob seg_match pat name
  unfolding match_segments answer_at Answers
  match_segments-glob =
      (match_at_lem (length pat + 1) 0 (omega arith) (omega arith) 0 (new_matcher pat name)
        (omega arith) new_matcher-IsMemo).0
