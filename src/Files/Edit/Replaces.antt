-- ===== src/Files/Edit/Replaces.antt =====
-- What the loop of `replaceOccurrences` in internal/agent/fs/edit.go computes.
use mathlib.Core.Path.{subst, ap₂}
use f1337_mcp.Prelude.{
  ℕ, zero, suc, ◌+◌, ◌-◌, ◌≤◌, ◌<◌, ◌≡◌, sym, ap, ◌∙◌, inl, inr, Bool, true, false, none, some,
  List, [], ◌∷◌, ◌++◌, append_assoc, append-nil, arith, Bool-cases, Option-cases, length, take,
  drop, length-append, length-take, length-drop, Text,
}
use f1337_mcp.Files.Edit.{index, Occurrence, replace_from, replace_occurrences}
use f1337_mcp.Files.Edit.Search.{index_bound, drop_add}

-- The text `s`, read from byte `a` and written from byte `b` on, with `old` replaced by `new`: the leftmost
-- occurrence, and after it the next if `every` says so.
pub data Replaces (old new : Text) (every : Bool)
    : ℕ → ℕ → Text → Text → List Occurrence → Type 0 where
  absent : (a b : ℕ) (s : Text) → index old s ≡ none → Replaces old new every a b s s []
  once :
      (a b j : ℕ) (s : Text)
      → index old s ≡ some j
      → every ≡ false
      → Replaces old new every a b s (take j s ++ new ++ drop (j + length old) s) (
          record {
            old_start = a + j;
            old_end = a + j + length old;
            new_start = b + j;
            new_end = b + j + length new;
          }
          ∷ [])
  more :
      (a b j : ℕ) (s t : Text) (occs : List Occurrence)
      → index old s ≡ some j
      → every ≡ true
      → Replaces old new every
          (a + j + length old)
          (b + j + length new)
          (drop (j + length old) s)
          t
          occs
      → Replaces old new every a b s (take j s ++ new ++ t) (
          record {
            old_start = a + j;
            old_end = a + j + length old;
            new_start = b + j;
            new_end = b + j + length new;
          }
          ∷ occs)

regroup : (out kept new t : Text) → ((out ++ kept) ++ new) ++ t ≡ out ++ (kept ++ new ++ t)
regroup out kept new t = simp append_assoc

more_at :
    (old new : Text) (every : Bool) (a b j : ℕ) (s t : Text) (occs : List Occurrence)
    → index old s ≡ some j
    → every ≡ true
    → (b' : ℕ) (s' : Text) → b' ≡ b + j + length new
    → s' ≡ drop (j + length old) s
    → Replaces old new every (a + j + length old) b' s' t occs
    → Replaces old new every a b s (take j s ++ new ++ t) (
        record {
          old_start = a + j;
          old_end = a + j + length old;
          new_start = b + j;
          new_end = b + j + length new;
        }
        ∷ occs)
more_at old new every a b j s t occs hit all' b' s' eb es r =
    Replaces.more a b j s t occs hit all' (
      subst (λ x. Replaces old new every (a + j + length old) x (drop (j + length old) s) t occs) eb
        (subst (λ y. Replaces old new every (a + j + length old) b' y t occs) es r))

module _ (content old new : Text) (every : Bool) (solid : 0 < length old) where
  replace_step :
      (n i j : ℕ) (out t : Text) (occs found : List Occurrence)
      → index old (drop i content) ≡ some j
      → every ≡ true
      → i + j - i ≡ j
      → length (out ++ take j (drop i content)) ≡ length out + j
      → length ((out ++ take j (drop i content)) ++ new) ≡ length out + j + length new
      → replace_from content old new every n
          (i + j + length old)
          (i + j + length old)
          ((out ++ take j (drop i content)) ++ new)
          (occs
            ++ record {
              old_start = i + j;
              old_end = i + j + length old;
              new_start = length out + j;
              new_end = length out + j + length new;
            }
              ∷ [])
        ≡ (
          ((out ++ take j (drop i content)) ++ new) ++ t,
          (occs
                ++ record {
                  old_start = i + j;
                  old_end = i + j + length old;
                  new_start = length out + j;
                  new_end = length out + j + length new;
                }
                  ∷ [])
              ++ found,
        )
      → replace_from content old new every (suc n) i i out occs ≡ (
        out ++ (take j (drop i content) ++ new ++ t),
        occs
            ++ record {
              old_start = i + j;
              old_end = i + j + length old;
              new_start = length out + j;
              new_end = length out + j + length new;
            }
              ∷ found,
      )
  unfolding replace_from
  replace_step n i j out t occs found hit all' here copied written e =
      rw (replace_from, hit, all', here, copied, written)
        (e
          ∙ ap₂ (λ x y. (x, y)) (regroup out (take j (drop i content)) new t)
              (append_assoc occs
                (record {
                  old_start = i + j;
                  old_end = i + j + length old;
                  new_start = length out + j;
                  new_end = length out + j + length new;
                }
                  ∷ [])
                found))

  replace_from_lem :
      (n i : ℕ) (out : Text) (occs : List Occurrence)
      → length content < n + i
      → i ≤ length content
      → (t : Text) × (found : List Occurrence) × Replaces old new every i
          (length out)
          (drop i content)
          t
          found
        × (replace_from content old new every n i i out occs ≡ (out ++ t, occs ++ found))
  unfolding replace_from
  replace_from_lem zero i out occs h hi = absurd (omega arith)
  replace_from_lem (suc n) i out occs h hi = elim (Option-cases (index old (drop i content))) [
    | inl gone ↦ (
      drop i content,
      [],
      Replaces.absent i (length out) (drop i content) gone,
      rw (replace_from, gone) (ap (λ r. (out ++ drop i content, r)) (sym (append-nil occs))),
    )
    | inr (j, hit) ↦
        let fits = index_bound old (drop i content) j hit in
        let next_le : i + j + length old ≤ length content =
          omega (arith, fits, length-drop i content) in
        let here : i + j - i ≡ j = omega arith in
        let copied : length (out ++ take j (drop i content)) ≡ length out + j = omega (
          arith,
          length-append out (take j (drop i content)),
          length-take j (drop i content),
          fits,
        ) in
        let written : length ((out ++ take j (drop i content)) ++ new)
            ≡ length out + j + length new =
          omega (arith, copied, length-append (out ++ take j (drop i content)) new) in
        let rest : drop (i + j + length old) content ≡ drop (j + length old) (drop i content) =
          ap (λ k. drop k content) (omega arith) ∙ drop_add i (j + length old) content in
        elim (Bool-cases every) [
          | inl all' ↦
              let out' : Text = (out ++ take j (drop i content)) ++ new in
              let occ : Occurrence = record {
                old_start = i + j;
                old_end = i + j + length old;
                new_start = length out + j;
                new_end = length out + j + length new;
              } in
              let (t, found, r, e) =
                replace_from_lem n (i + j + length old) out' (occs ++ occ ∷ []) (omega (arith, h))
                  next_le in
              (
                take j (drop i content) ++ new ++ t,
                occ ∷ found,
                more_at old new every i (length out) j (drop i content) t found hit all' _ _ written
                    rest r,
                replace_step n i j out t occs found hit all' here copied written e,
              )
          | inr one ↦ (
            take j (drop i content) ++ new ++ drop (j + length old) (drop i content),
            record {
              old_start = i + j;
              old_end = i + j + length old;
              new_start = length out + j;
              new_end = length out + j + length new;
            }
                ∷ [],
            Replaces.once i (length out) j (drop i content) hit one,
            rw (replace_from, hit, one, here, copied, written, rest)
                (ap
                  (λ x. (
                    x,
                    occs
                        ++ record {
                          old_start = i + j;
                          old_end = i + j + length old;
                          new_start = length out + j;
                          new_end = length out + j + length new;
                        }
                          ∷ [],
                  ))
                  (regroup out (take j (drop i content)) new
                    (drop (j + length old) (drop i content)))),
          )
        ]
  ]

-- With the fuel it is given and a text to find that is not empty, the loop of
-- replaceOccurrences ends by finding no further occurrence, or after the first unless every
-- one is asked for: it replaces the leftmost occurrence and goes on behind it, and records
-- where each stood and stands.
pub replace_occurrences-Replaces :
    (content old new : Text) (every : Bool)
    → 0 < length old
    → Replaces old new every 0 0 content
        (replace_occurrences content old new every).0
        (replace_occurrences content old new every).1
unfolding replace_occurrences
replace_occurrences-Replaces content old new every solid =
    let (t, found, r, e) =
      replace_from_lem content old new every solid (length content + 1) 0 [] [] (omega arith)
        (omega arith) in
    rw e r
