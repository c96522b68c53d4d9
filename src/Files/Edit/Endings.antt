-- ===== src/Files/Edit/Endings.antt =====
-- The line endings of an edit's result (internal/agent/fs/edit.go).
use f1337_mcp.Prelude.{
  ℕ, ◌+◌, ◌≤◌, ◌<◌, ◌≡◌, refl, ap, ◌∙◌, inl, inr, Bool, true, false, some, List, [], ◌∷◌, ◌++◌,
  arith, ◌==◌, Bool-cases, length, take, drop, Text, contains_byte,
}
use f1337_mcp.Files.Edit.{
  index, Occurrence, replace_occurrences, count_endings, count_line_endings, check_new_line_endings,
}
use f1337_mcp.Files.Edit.Search.{index_split}
use f1337_mcp.Files.Edit.Replaces.{Replaces, replace_occurrences-Replaces}

-- Whether the last byte is CR, after one that was or was not.
ends_cr : Bool → Text → Bool
ends_cr cr [] = cr
ends_cr cr (c ∷ s) = ends_cr (c == 13) s

-- The bare LF in a text.
abbrev pub bare_lf : Bool → Text → ℕ
bare_lf cr s = (count_endings cr s).1

bare_lf-append :
    (cr : Bool) (s t : Text) → bare_lf cr (s ++ t) ≡ bare_lf cr s + bare_lf (ends_cr cr s) t
unfolding count_endings ends_cr
bare_lf-append cr [] t = omega arith
bare_lf-append cr (c ∷ s) t = ground (arith, bare_lf-append (c == 13) s t)

bare_lf_after_cr : (cr : Bool) (s : Text) → bare_lf true s ≤ bare_lf cr s
unfolding count_endings
bare_lf_after_cr cr [] = omega arith
bare_lf_after_cr cr (c ∷ s) = ground arith

tail_free : (c : ℕ) (s : Text) → contains_byte 13 (c ∷ s) ≡ false → contains_byte 13 s ≡ false
unfolding contains_byte
tail_free c s h = ground (arith, h)

no_cr_end :
    (s : Text) → contains_byte 13 s ≡ false → 0 < length s → (cr : Bool) → ends_cr cr s ≡ false
unfolding ends_cr contains_byte
no_cr_end [] h solid cr = absurd (omega (arith, solid))
no_cr_end (c ∷ []) h solid cr = ground (arith, h)
no_cr_end (c ∷ d ∷ s) h solid cr = no_cr_end (d ∷ s) (tail_free c (d ∷ s) h) (omega arith) (c == 13)

at_most : (cr : Bool) (s : Text) → bare_lf cr s ≤ bare_lf false s
at_most true s = bare_lf_after_cr false s
at_most false s = omega arith

no_lf : (cr : Bool) (s : Text) → contains_byte 10 s ≡ false → bare_lf cr s ≡ 0
unfolding count_endings contains_byte
no_lf cr [] h = refl
no_lf cr (c ∷ s) h = ground (arith, h, no_lf (c == 13) s)

module _ (old new : Text) (every : Bool) (solid : 0 < length old)
    (clean : contains_byte 13 old ≡ false) (fits : bare_lf false new ≡ 0) where
  joined :
      (j : ℕ) (s t : Text)
      → index old s ≡ some j
      → bare_lf false s ≡ 0
      → (bare_lf false (drop (j + length old) s) ≡ 0)
        × (bare_lf false t ≡ 0 → bare_lf false (take j s ++ new ++ t) ≡ 0)
  joined j s t hit h =
      let cr = ends_cr false (take j s) in
      let rest = drop (j + length old) s in
      let spread : bare_lf false s
          ≡ bare_lf false (take j s) + (bare_lf cr old + bare_lf false rest) =
        ap (bare_lf false) (index_split old s j hit)
        ∙ bare_lf-append false (take j s) (old ++ rest)
        ∙ ap (λ r. bare_lf false (take j s) + r)
            (bare_lf-append cr old rest ∙ rw (no_cr_end old clean solid cr) refl) in
      let cr' = ends_cr false (take j s ++ new) in
      (
        omega (arith, spread, h),
        λ none_left. omega (
          arith,
          spread,
          h,
          fits,
          none_left,
          bare_lf-append false (take j s ++ new) t,
          bare_lf-append false (take j s) new,
          at_most cr new,
          at_most cr' t,
        ),
      )

  Replaces-bare_lf :
      (a b : ℕ) (s t : Text) (occs : List Occurrence)
      → Replaces old new every a b s t occs
      → bare_lf false s ≡ 0
      → bare_lf false t ≡ 0
  Replaces-bare_lf _ _ _ _ _ (Replaces.absent a b s gone) h = h
  Replaces-bare_lf _ _ _ _ _ (Replaces.once a b j s hit one) h =
      let (rest, whole) = joined j s (drop (j + length old) s) hit h in whole rest
  Replaces-bare_lf _ _ _ _ _ (Replaces.more a b j s t occs hit all' r) h =
      let (rest, whole) = joined j s t hit h in whole (Replaces-bare_lf _ _ _ _ _ r rest)

-- In a file that has line endings, all CRLF, replacing a text that is not empty and has no CR
-- by one that passes the line-ending check leaves only CRLF endings.
pub replace_occurrences-endings :
    (content old new : Text) (every : Bool)
    → 0 < length old
    → contains_byte 13 old ≡ false
    → 0 < (count_line_endings content).0
    → (count_line_endings content).1 ≡ 0
    → check_new_line_endings content new ≡ true
    → (count_line_endings (replace_occurrences content old new every).0).1 ≡ 0
unfolding count_line_endings check_new_line_endings
replace_occurrences-endings content old new every solid clean crlf lf checked =
    elim (Bool-cases (contains_byte 10 new)) [
      | inl breaks ↦
          Replaces-bare_lf old new every solid clean ground (arith, lf, crlf, checked, breaks) 0 0
            content _ _ (replace_occurrences-Replaces content old new every solid) lf
      | inr flat ↦
          Replaces-bare_lf old new every solid clean (no_lf false new flat) 0 0 content _ _
            (replace_occurrences-Replaces content old new every solid) lf
    ]
