-- ===== src/Jail/Prefix.antt =====
-- HasPathPrefix of internal/platform/paths.go without its lengths and slices.
use mathlib.Core.List.{map-append}
use f1337_mcp.Prelude.{
  ℕ, zero, suc, ◌+◌, ◌<◌, ◌≡◌, refl, sym, ap, ◌∙◌, ◌≢◌, ◌↔◌, inl, inr, Bool, true, false, ◌&&◌,
  ◌||◌, [], ◌∷◌, ◌++◌, map, arith, leb, ◌==◌, Bool-cases, length, take, drop, length-append,
  length-drop, take-append-drop, Text, eq_text, eq_text_iff,
}
use f1337_mcp.Jail.Paths.{
  Filepath, fold_ascii, equal_folded, equal_path_bytes, ends_in_separator, with_separator,
  is_beneath, has_clean_prefix, has_path_prefix,
}

-- A text up to the ASCII case that the platform ignores.
abbrev pub in_case : Bool → Text → Text
in_case true t = map fold_ascii t
in_case false t = t

abbrev pub folded : Filepath → Text → Text
folded f t = in_case f.case_insensitive_paths t

-- The root as the directory that its entries go on behind: as it stands where it ends in the separator,
-- as `/` does, and with one separator more where it does not.
pub data Opens (sep : ℕ) (root dir : Text) : Type 0 where
  ending : (top : Text) → root ≡ top ++ (sep ∷ []) → dir ≡ root → Opens sep root dir
  closing :
      ((top : Text) → root ≢ top ++ (sep ∷ [])) → dir ≡ root ++ (sep ∷ []) → Opens sep root dir

-- The path is the root, or goes on behind the root and the separator.
pub data Beneath (f : Filepath) (path root : Text) : Type 0 where
  same : folded f (f.clean path) ≡ folded f (f.clean root) → Beneath f path root
  within :
      (dir rest : Text)
      → Opens f.separator (f.clean root) dir
      → 0 < length rest
      → folded f (f.clean path) ≡ folded f dir ++ rest
      → Beneath f path root

ends_in_separator-true :
    (f : Filepath) (p : Text)
    → ends_in_separator f p ≡ true
    → (top : Text) × (p ≡ top ++ (f.separator ∷ []))
unfolding ends_in_separator
ends_in_separator-true f [] h = absurd (cc)
ends_in_separator-true f (c ∷ []) h = ([], ground (arith, h))
ends_in_separator-true f (c ∷ d ∷ p) h =
    let (top, e) = ends_in_separator-true f (d ∷ p) h in (c ∷ top, ap (λ r. c ∷ r) e)

ends_in_separator-append :
    (f : Filepath) (top : Text) → ends_in_separator f (top ++ (f.separator ∷ [])) ≡ true
unfolding ends_in_separator
ends_in_separator-append f [] = ground arith
ends_in_separator-append f (c ∷ []) = ground arith
ends_in_separator-append f (c ∷ d ∷ top) = ends_in_separator-append f (d ∷ top)

with_separator-Opens : (f : Filepath) (root : Text) → Opens f.separator root (with_separator f root)
unfolding with_separator
with_separator-Opens f root = elim (Bool-cases (ends_in_separator f root)) [
  | inl e ↦ let (top, k) = ends_in_separator-true f root e in ending top k (rw e refl)
  | inr e ↦ closing (λ top k. cc (e, k, ends_in_separator-append f top)) (rw e refl)
]

Opens-with_separator :
    (f : Filepath) (root dir : Text) → Opens f.separator root dir → dir ≡ with_separator f root
unfolding with_separator
Opens-with_separator f root dir (ending top k e) =
    let ends : ends_in_separator f root ≡ true = rw k (ends_in_separator-append f top) in rw ends e
Opens-with_separator f root dir (closing n e) = elim (Bool-cases (ends_in_separator f root)) [
  | inl ends ↦ let (top, k) = ends_in_separator-true f root ends in absurd (n top k)
  | inr e' ↦ rw e' e
]

equal_folded_iff :
    (a b : Text)
    → (((length a == length b) && equal_folded a b) ≡ true) ↔ (map fold_ascii a ≡ map fold_ascii b)
unfolding equal_folded
equal_folded_iff [] [] = ground arith
equal_folded_iff [] (y ∷ b) = ground arith
equal_folded_iff (x ∷ a) [] = ground arith
equal_folded_iff (x ∷ a) (y ∷ b) = ground (arith, equal_folded_iff a b)

equal_path_bytes_iff :
    (f : Filepath) (a b : Text) → (equal_path_bytes f a b ≡ true) ↔ (folded f a ≡ folded f b)
unfolding equal_path_bytes
equal_path_bytes_iff f a b = elim (Bool-cases f.case_insensitive_paths) [
  | inl ci ↦ rw ci (ground (arith, equal_folded_iff a b))
  | inr cs ↦ rw cs (eq_text_iff a b)
]

in_case-append : (b : Bool) (s t : Text) → in_case b (s ++ t) ≡ in_case b s ++ in_case b t
in_case-append true s t = map-append fold_ascii s t
in_case-append false s t = refl

in_case-length : (b : Bool) (s : Text) → length (in_case b s) ≡ length s
in_case-length true [] = refl
in_case-length true (c ∷ s) = ap suc (in_case-length true s)
in_case-length false s = refl

module _ (f : Filepath) where
  is_beneath-rest :
      (path prefix : Text)
      → is_beneath f path prefix ≡ true
      → (rest : Text) × (0 < length rest) × (folded f path ≡ folded f prefix ++ rest)
  unfolding is_beneath
  is_beneath-rest path prefix h = elim (Bool-cases (leb (length path) (length prefix))) [
    | inl short ↦ absurd (cc (rw short at h))
    | inr long ↦
        let h' : equal_path_bytes f (take (length prefix) path) prefix ≡ true = rw long at h in
        let b = f.case_insensitive_paths in
        let n = length prefix in
        let split : in_case b (take n path) ++ in_case b (drop n path) ≡ in_case b path =
          sym (in_case-append b (take n path) (drop n path))
          ∙ ap (λ t. in_case b t) (take-append-drop n path) in
        let eq = (equal_path_bytes_iff f (take n path) prefix).0 h' in
        (
          in_case b (drop n path),
          ground (arith, in_case-length b (drop n path), length-drop n path),
          sym split ∙ ap (λ t. t ++ in_case b (drop n path)) eq,
        )
  ]

  pub has_path_prefix-Beneath :
      (path root : Text) → has_path_prefix f path root ≡ true → Beneath f path root
  unfolding has_path_prefix has_clean_prefix
  has_path_prefix-Beneath path root h = elim (Bool-cases (eq_text path [] || eq_text root [])) [
    | inl empty ↦ absurd (cc (rw empty at h))
    | inr _ ↦ elim (Bool-cases (equal_path_bytes f (f.clean path) (f.clean root))) [
      | inl equal ↦ same ((equal_path_bytes_iff f (f.clean path) (f.clean root)).0 equal)
      | inr other ↦
          let h' : is_beneath f (f.clean path) (with_separator f (f.clean root)) ≡ true =
            ground arith in
          let (rest, pos, eq) =
            is_beneath-rest (f.clean path) (with_separator f (f.clean root)) h' in
          within (with_separator f (f.clean root)) rest (with_separator-Opens f (f.clean root)) pos
            eq
    ]
  ]

in_case-take : (b : Bool) (n : ℕ) (s : Text) → in_case b (take n s) ≡ take n (in_case b s)
in_case-take false n s = refl
in_case-take true zero s = refl
in_case-take true (suc n) [] = refl
in_case-take true (suc n) (c ∷ s) = ap (λ r. fold_ascii c ∷ r) (in_case-take true n s)

take_exact : (n : ℕ) (xs ys : Text) → length xs ≡ n → take n (xs ++ ys) ≡ xs
take_exact zero [] ys h = refl
take_exact zero (x ∷ xs) ys h = absurd (omega (arith, h))
take_exact (suc n) [] ys h = absurd (omega (arith, h))
take_exact (suc n) (x ∷ xs) ys h = ap (λ r. x ∷ r) (take_exact n xs ys (omega (arith, h)))

module _ (f : Filepath) where
  rest-is_beneath :
      (path prefix rest : Text)
      → 0 < length rest
      → folded f path ≡ folded f prefix ++ rest
      → is_beneath f path prefix ≡ true
  unfolding is_beneath
  rest-is_beneath path prefix rest pos eq =
      let b = f.case_insensitive_paths in
      let n = length prefix in
      let sizes : length path ≡ n + length rest = omega (
        arith,
        in_case-length b path,
        in_case-length b prefix,
        ap length eq,
        length-append (in_case b prefix) rest,
      ) in
      let long : leb (length path) n ≡ false = ground (arith, sizes, pos) in
      let taken : in_case b (take n path) ≡ in_case b prefix =
        in_case-take b n path
        ∙ (ap (λ t. take n t) eq
            ∙ take_exact n (in_case b prefix) rest (in_case-length b prefix)) in
      rw long ((equal_path_bytes_iff f (take n path) prefix).1 taken)

  Beneath-has_clean_prefix :
      (path root : Text)
      → Beneath f path root
      → has_clean_prefix f (f.clean path) (f.clean root) ≡ true
  unfolding has_clean_prefix
  Beneath-has_clean_prefix path root (same e) =
      rw ((equal_path_bytes_iff f (f.clean path) (f.clean root)).1 e) refl
  Beneath-has_clean_prefix path root (within dir rest o pos e) =
      let e' = e ∙ ap (λ t. folded f t ++ rest) (Opens-with_separator f (f.clean root) dir o) in
      let beneath = rest-is_beneath (f.clean path) (with_separator f (f.clean root)) rest pos e' in
      ground (arith, beneath)

  -- HasPathPrefix holds of two paths that are not empty just if the cleaned path is the cleaned
  -- prefix, or goes on behind it and exactly one separator (the one that it ends in, or else one
  -- more), up to the ASCII case that the platform ignores.
  pub has_path_prefix_iff :
      (path root : Text)
      → path ≢ []
      → root ≢ []
      → (has_path_prefix f path root ≡ true) ↔ Beneath f path root
  unfolding has_path_prefix eq_text
  has_path_prefix_iff [] root h k = absurd (h refl)
  has_path_prefix_iff (c ∷ path) [] h k = absurd (k refl)
  has_path_prefix_iff (c ∷ path) (d ∷ root) h k = (
    has_path_prefix-Beneath f (c ∷ path) (d ∷ root),
    Beneath-has_clean_prefix (c ∷ path) (d ∷ root),
  )
