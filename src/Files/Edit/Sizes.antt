-- ===== src/Files/Edit/Sizes.antt =====
-- The size of an edit's result and the places of its replacements (internal/agent/fs/edit.go).
use f1337_mcp.Prelude.{
  ℕ, zero, suc, ◌+◌, ◌*◌, ◌≤◌, ◌<◌, ◌≡◌, refl, ap, ◌∙◌, inl, inr, Bool, true, none, some, List,
  ◌++◌, arith, if◌then◌else◌, Bool-cases, Option-cases, length, take, drop, length-append,
  length-take, length-drop, Text,
}
use f1337_mcp.Files.Edit.{
  index, occurs, Occurrence, count_from, count_of, replace_occurrences, check_result_size,
}
use f1337_mcp.Files.Edit.Search.{index_bound}
use f1337_mcp.Files.Edit.Replaces.{Replaces, replace_occurrences-Replaces}

pieces :
    (j : ℕ) (s new t : Text)
    → j ≤ length s
    → length (take j s ++ new ++ t) ≡ j + length new + length t
pieces j s new t h =
    omega (arith, length-append (take j s ++ new) t, length-append (take j s) new, length-take j s)

plus_one : (n : ℕ) → n + 1 ≡ suc n
plus_one n = omega arith

one_more : (n k : ℕ) → suc n * k ≡ k + n * k
one_more n k = grind arith

uncounted :
    (old content : Text) (n : ℕ) → index old content ≡ none → count_from (suc n) old content ≡ 0
unfolding count_from
uncounted old content n e = rw (count_from, e) refl

counted_more :
    (old s : Text) (j n : ℕ)
    → index old s ≡ some j
    → count_from (suc n) old s ≡ 1 + count_from n old (drop (j + length old) s)
unfolding count_from
counted_more old s j n hit = rw (count_from, hit) refl

module _ (old new : Text) (every : Bool) where
  Replaces-sizes :
      (a b : ℕ) (s t : Text) (occs : List Occurrence)
      → Replaces old new every a b s t occs
      → length t + length occs * length old ≡ length s + length occs * length new
  Replaces-sizes _ _ _ _ _ (Replaces.absent a b s gone) = omega arith
  Replaces-sizes _ _ _ _ _ (Replaces.once a b j s hit one) = omega (
    arith,
    pieces j s new (drop (j + length old) s) (omega (arith, index_bound old s j hit)),
    length-drop (j + length old) s,
    index_bound old s j hit,
  )
  Replaces-sizes _ _ _ _ _ (Replaces.more a b j s t occs hit all' r) = omega (
    arith,
    pieces j s new t (omega (arith, index_bound old s j hit)),
    one_more (length occs) (length old),
    one_more (length occs) (length new),
    Replaces-sizes _ _ _ _ _ r,
    length-drop (j + length old) s,
    index_bound old s j hit,
  )

  Replaces-count_of :
      (a b : ℕ) (s t : Text) (occs : List Occurrence)
      → Replaces old new every a b s t occs
      → (n : ℕ) → length s < n
      → 0 < length old
      → length occs ≡ (if every then count_from n old s else if occurs old s then 1 else 0)
  Replaces-count_of _ _ _ _ _ (Replaces.absent a b s gone) zero h solid = absurd (omega (arith, h))
  Replaces-count_of _ _ _ _ _ (Replaces.once a b j s hit one) zero h solid =
      absurd (omega (arith, h))
  Replaces-count_of _ _ _ _ _ (Replaces.more a b j s t occs hit all' r) zero h solid =
      absurd (omega (arith, h))
  Replaces-count_of _ _ _ _ _ (Replaces.absent a b s gone) (suc n) h solid =
      elim (Bool-cases every) [
        | inl e ↦ rw (e, uncounted old s n gone) refl
        | inr e ↦ rw (e, gone) refl
      ]
  Replaces-count_of _ _ _ _ _ (Replaces.once a b j s hit one) (suc n) h solid =
      ground (arith, one, hit)
  Replaces-count_of _ _ _ _ _ (Replaces.more a b j s t occs hit all' r) (suc n) h solid =
      let shorter : length (drop (j + length old) s) < n =
        omega (arith, h, solid, length-drop (j + length old) s, index_bound old s j hit) in
      let rest = Replaces-count_of _ _ _ _ _ r n shorter solid in
      rw (all', counted_more old s j n hit) (omega (arith, rw all' at rest))

-- The result of replacing a text that is not empty is as long as the contents and the
-- difference of the two texts for each replacement, and there are as many replacements as
-- strings.Count counts, or one at most where not all are replaced.
pub result_size :
    (content old new : Text) (every : Bool)
    → 0 < length old
    → (length (replace_occurrences content old new every).0
          + length (replace_occurrences content old new every).1 * length old
        ≡ length content + length (replace_occurrences content old new every).1 * length new)
      × (length (replace_occurrences content old new every).1
          ≡ (if every then count_of old content else if occurs old content then 1 else 0))
unfolding count_of
result_size content old new every solid =
    let r = replace_occurrences-Replaces content old new every solid in
    (
      Replaces-sizes old new every 0 0 content _ _ r,
      Replaces-count_of old new every 0 0 content _ _ r (length content + 1) (omega arith) solid,
    )

pub count_of-occurs : (old content : Text) → 0 < count_of old content → occurs old content ≡ true
unfolding count_of count_from
count_of-occurs old content h = elim (Option-cases (index old content)) [
  | inl e ↦
      let zero_found : count_from (length content + 1) old content ≡ 0 =
        rw (plus_one (length content)) (uncounted old content (length content) e) in
      absurd (omega (arith, zero_found, h))
  | inr (j, e) ↦ rw e refl
]

-- The check of the size bounds the result.
pub check_result_size_sound :
    (max_edit_bytes : ℕ) (content old new : Text) (every : Bool)
    → 0 < length old
    → 0 < count_of old content
    → check_result_size max_edit_bytes (length content) (count_of old content) old new every ≡ true
    → length (replace_occurrences content old new every).0 ≤ max_edit_bytes
unfolding check_result_size
check_result_size_sound max_edit_bytes content old new every solid found h =
    let (size, count) = result_size content old new every solid in
    let here = count_of-occurs old content found in
    elim (Bool-cases every) [
      | inl e ↦
          let some_all : length (replace_occurrences content old new every).1
              ≡ count_of old content =
            count ∙ rw e refl in
          let same = ap (λ k. k * length new) some_all in
          let same' = ap (λ k. k * length old) some_all in
          let bound = rw (check_result_size, e) at h in ground (arith, size, same, same', bound)
      | inr e ↦
          let just : length (replace_occurrences content old new every).1 ≡ 1 =
            count ∙ rw (e, here) refl in
          let bound = rw (check_result_size, e) at h in
          let size' = rw just at size in ground (arith, size', bound)
    ]
