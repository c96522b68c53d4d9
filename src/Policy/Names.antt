-- ===== src/Policy/Names.antt =====
-- Every spelling of a command's executable is a name that rules see.
use Prim.Native.Nat.{min}
use mathlib.Core.Bool.{false≢true}
use f1337_mcp.Prelude.{
  ◌≡◌, refl, inl, inr, true, false, List, [], ◌∷◌, ◌++◌, arith, ltb, Bool-cases, length, take, drop,
  Text, eq_text, eq_text_iff, eq_text_refl,
}
use f1337_mcp.Policy.Command.{
  Command, contains, add_name, add_names, all_runs, join_space, whole_lines, spellings, heads,
  names, max_argv_prefixes,
}

contains-snoc :
    (ns : List Text) (s x : Text) → contains ns s ≡ true → contains (ns ++ x ∷ []) s ≡ true
unfolding contains
contains-snoc (v ∷ ns) s x h = ground (arith, contains-snoc ns s x)
contains-snoc [] s x h = ground arith

contains-last : (ns : List Text) (s : Text) → contains (ns ++ s ∷ []) s ≡ true
unfolding contains
contains-last [] s = rw (eq_text_refl s) refl
contains-last (v ∷ ns) s = ground (arith, contains-last ns s)

add_name_keeps :
    (x s : Text) (ns : List Text) → contains ns s ≡ true → contains (add_name x ns) s ≡ true
unfolding add_name
add_name_keeps x s ns h = ground (arith, contains-snoc ns s x)

add_name_adds :
    (s : Text) (ns : List Text) → eq_text s [] ≡ false → contains (add_name s ns) s ≡ true
unfolding add_name
add_name_adds s ns h = elim (Bool-cases (contains ns s)) [
  | inl e ↦ rw (h, e) e
  | inr e ↦ rw (h, e) (contains-last ns s)
]

add_names_keeps :
    (xs : List Text) (s : Text) (ns : List Text)
    → contains ns s ≡ true
    → contains (add_names xs ns) s ≡ true
unfolding add_names
add_names_keeps [] s ns h = h
add_names_keeps (x ∷ xs) s ns h = add_names_keeps xs s (add_name x ns) (add_name_keeps x s ns h)

add_names_adds :
    (xs : List Text) (s : Text) (ns : List Text)
    → eq_text s [] ≡ false
    → contains xs s ≡ true
    → contains (add_names xs ns) s ≡ true
unfolding add_names contains
add_names_adds [] s ns named h = absurd (false≢true h)
add_names_adds (x ∷ xs) s ns named h = elim (Bool-cases (eq_text x s)) [
  | inl e ↦
      add_names_keeps xs s (add_name x ns) (rw ((eq_text_iff x s).0 e) (add_name_adds s ns named))
  | inr e ↦ add_names_adds xs s (add_name x ns) named (rw e at h)
]

-- Every non-empty spelling is among the names: the first argument, the name as requested, the path it
-- resolved to, the path behind its links, and the base name of each path.
pub contains-names :
    (file_base : Text → Text) (c : Command) (s : Text)
    → eq_text s [] ≡ false
    → contains (spellings file_base c) s ≡ true
    → contains (names file_base c) s ≡ true
unfolding names heads
contains-names file_base c s named h =
    let head : contains (heads file_base c) s ≡ true =
      add_names_adds (spellings file_base c) s [] named h in
    let started : contains (add_names (heads file_base c) []) s ≡ true =
      add_names_adds (heads file_base c) s [] named head in
    let ran =
      add_names_keeps
        (all_runs (heads file_base c)
          (drop 1 (take (min (length c.argv) max_argv_prefixes) c.argv)))
        s (add_names (heads file_base c) []) started in
    elim (Bool-cases (ltb (length c.argv) 2)) [
      | inl e ↦ rw e started
      | inr e ↦ elim (Bool-cases (ltb max_argv_prefixes (length c.argv))) [
        | inl f ↦
            rw (e, f)
              (add_names_keeps (whole_lines (heads file_base c) (32 ∷ join_space (drop 1 c.argv))) s
                _ ran)
        | inr f ↦ rw (e, f) ran
      ]
    ]
