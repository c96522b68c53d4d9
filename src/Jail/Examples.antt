-- ===== src/Jail/Examples.antt =====
-- The jail of internal/security/jail on concrete paths, with a Unix package path/filepath for clean paths and a small disk.
use mathlib.Core.Option.{some-injective}
use f1337_mcp.Prelude.{
  suc, ◌<◌, ◌≡◌, refl, sym, ap, ◌∙◌, ◌↔◌, ◌⊎◌, inl, inr, true, false, ◌||◌, Option, none, some,
  List, [], ◌∷◌, ◌++◌, arith, ◌==◌, if◌then◌else◌, ==_iff, Bool-cases, length, drop, Text, codes,
  eq_text, has_prefix, contains_byte,
}
use f1337_mcp.Jail.Paths.{
  Filepath, classify_unix_path, classify_windows_path, has_path_prefix, normalize_path, path_local,
  path_device, path_unc, path_invalid, path_relative, is_local,
}
use f1337_mcp.Jail.Prefix.{Beneath, has_path_prefix_iff}
use f1337_mcp.Jail.Ends.{IsPathPackage, Stops, resolve_path-Stops}
use f1337_mcp.Jail.Opened.{IsAllowed, resolve_path-IsAllowed, open_file_confined}
use f1337_mcp.Jail.Roots.{Configured}
use f1337_mcp.Jail.{
  mode_confined, Config, Jail, FileSystem, present, absent, not_exist, reached, done, fails,
  new_jail, resolve_path, open_file, outside_jail, beneath,
}

before_last : Text → Option Text
before_last [] = none
before_last (c ∷ s) = elim (before_last s) [
  | some t ↦ some (c ∷ t)
  | none ↦ if c == 47 then some [] else none
]

after_last : Text → Text
after_last [] = []
after_last (c ∷ s) =
    let rest = after_last s in if contains_byte 47 s then rest else if c == 47 then s else c ∷ s

parent : Option Text → Text
parent none = 46 ∷ []
parent (some []) = 47 ∷ []
parent (some (c ∷ t)) = c ∷ t

joined_parts : List Text → Text
joined_parts [] = []
joined_parts (p ∷ []) = p
joined_parts (p ∷ q ∷ ps) = p ++ (47 ∷ joined_parts (q ∷ ps))

abbrev slashes : Filepath
slashes = record {
  clean = λ p. p;
  dir = λ p. parent (before_last p);
  base = after_last;
  join = joined_parts;
  abs = λ p. some (codes "/home/" ++ p);
  rel = λ root path. some (drop (suc (length root)) path);
  classify = classify_unix_path;
  separator = 47;
  case_insensitive_paths = false;
}

parent_of :
    (s : Text) (o : Option Text)
    → before_last s ≡ o
    → ((o ≡ none) ⊎ ((t : Text) × (o ≡ some t) × (length t < length s)))
unfolding before_last
parent_of [] none e = inl refl
parent_of [] (some t) e = absurd (cc)
parent_of (c ∷ s) o e = elim (parent_of s (before_last s) refl) [
  | inl above ↦ elim (Bool-cases (c == 47)) [
    | inl slash ↦ inr ([], sym e ∙ (rw (above, slash) refl), omega arith)
    | inr other ↦ inl (sym e ∙ (rw (above, other) refl))
  ]
  | inr (t, found, less) ↦ inr (c ∷ t, sym e ∙ (rw found refl), omega (arith, less))
]

before_last-slash :
    (s : Text)
    → (before_last (47 ∷ s) ≡ some [])
      ⊎ ((t : Text) × (before_last (47 ∷ s) ≡ some (47 ∷ t)) × (length t < length s))
unfolding before_last
before_last-slash s = elim (parent_of s (before_last s) refl) [
  | inl above ↦ inl (rw above refl)
  | inr (t, found, less) ↦ inr (t, rw found refl, less)
]

is_rooted : (p : Text) → is_local (classify_unix_path p) ≡ true → (s : Text) × (p ≡ 47 ∷ s)
unfolding classify_unix_path
is_rooted [] h = absurd (cc)
is_rooted (c ∷ s) h = elim (Bool-cases (c == 47)) [
  | inl slash ↦ (s, ap (λ d. d ∷ s) ((==_iff c 47).0 slash))
  | inr other ↦ absurd (cc (rw other at h))
]

rooted_join :
    (b p : Text)
    → is_local (classify_unix_path b) ≡ true
    → is_local (classify_unix_path (joined_parts (b ∷ p ∷ []))) ≡ true
unfolding classify_unix_path joined_parts
rooted_join [] p h = absurd (cc)
rooted_join (c ∷ b) p h = h

top_or_below : (s : Text) → (◌≡◌ {A = Text} (47 ∷ []) (47 ∷ s)) ⊎ (1 < length (47 ∷ s))
top_or_below [] = inl refl
top_or_below (c ∷ s) = inr (omega arith)

dir_of :
    (p : Text)
    → is_local (classify_unix_path p) ≡ true
    → (is_local (classify_unix_path (parent (before_last p))) ≡ true)
      × ((parent (before_last p) ≡ p) ⊎ (length (parent (before_last p)) < length p))
unfolding parent classify_unix_path
dir_of p h =
    let (s, e) = is_rooted p h in
    rw e (elim (before_last-slash s) [
      | inl top ↦ rw top (refl, top_or_below s)
      | inr (t, found, less) ↦ rw found (refl, inr (omega (arith, less)))
    ])

slashes-IsPathPackage : IsPathPackage slashes
unfolding classify_unix_path
slashes-IsPathPackage = record {
  clean_local = λ p h. (h, refl);
  abs_local = λ p a h. (rw (← some-injective (codes "/home/" ++ p) a h) refl, refl);
  join_local = λ b p h. (rooted_join b p h, refl);
  dir_local = λ p h. ((dir_of p h.0).0, refl);
  dir_shorter = λ p h. (dir_of p h.0).1;
}

abbrev disk : FileSystem
disk = record {
  lstat = λ p.
      if eq_text p (codes "/srv/jail")
        || (eq_text p (codes "/srv/jail/out") || eq_text p (codes "/"))
      then present false
      else absent not_exist;
  eval_symlinks =
      λ p. if eq_text p (codes "/srv/jail/out") then reached (codes "/etc") else reached p;
  stat_dir = λ p. some true;
}

abbrev one_root : Config
one_root = record { roots = codes "/srv/jail" ∷ []; working_dir = [] }

abbrev one_jail : Jail
one_jail = record {
  mode = mode_confined;
  roots = codes "/srv/jail" ∷ [];
  configured = codes "/srv/jail" ∷ [];
  working_dir = codes "/srv/jail";
}

built : new_jail slashes disk one_root ≡ done one_jail
unfolding new_jail classify_unix_path eq_text
built = refl

resolves : resolve_path slashes disk one_jail (codes "/srv/jail/a/b") ≡ done (codes "/srv/jail/a/b")
unfolding resolve_path eq_text normalize_path classify_unix_path parent before_last has_path_prefix
    joined_parts after_last contains_byte
resolves = refl

escapes : resolve_path slashes disk one_jail (codes "/srv/jail/out/x") ≡ fails outside_jail
unfolding resolve_path eq_text normalize_path classify_unix_path parent before_last has_path_prefix
escapes = refl

neighbour : resolve_path slashes disk one_jail (codes "/srv/jailed") ≡ fails outside_jail
unfolding resolve_path eq_text normalize_path classify_unix_path parent before_last has_path_prefix
neighbour = refl

opens :
    open_file slashes disk one_jail (codes "/srv/jail/a")
    ≡ done (beneath (codes "/srv/jail") (codes "a") (codes "/srv/jail/a"))
unfolding open_file resolve_path eq_text normalize_path classify_unix_path parent before_last
    has_path_prefix joined_parts after_last contains_byte
opens = refl

kinds :
    (classify_windows_path (codes "C:/x") ≡ path_local)
    × (classify_windows_path (codes "C:x") ≡ path_invalid)
    × (classify_windows_path (codes "//./pipe") ≡ path_device)
    × (classify_windows_path (codes "//host/share") ≡ path_unc)
    × (classify_windows_path (codes "/work") ≡ path_relative)
unfolding classify_windows_path eq_text has_prefix
kinds = (refl, refl, refl, refl, refl)

resolve_path-IsAllowed_example :
    (abs : Text) × (normalize_path slashes (codes "/srv/jail") (codes "/srv/jail/a/b") ≡ some abs)
    × IsAllowed slashes disk one_root abs (codes "/srv/jail/a/b")
resolve_path-IsAllowed_example =
    resolve_path-IsAllowed slashes disk one_root {j = one_jail} (codes "/srv/jail/a/b") built
      resolves

open_file_confined_example :
    (r : Text) × (root : Text) × (rel : Text) × (resolve_path slashes disk one_jail
        (codes "/srv/jail/a")
      ≡ done r)
    × (beneath (codes "/srv/jail") (codes "a") (codes "/srv/jail/a") ≡ beneath root rel r)
    × (some (drop (suc (length root)) r) ≡ some rel)
    × Configured slashes disk one_root root
    × Beneath slashes r root
open_file_confined_example =
    open_file_confined slashes disk one_root {j = one_jail} (codes "/srv/jail/a") built opens

resolve_path-Stops_example : Stops (resolve_path slashes disk one_jail (codes "/srv/jail/a/b"))
resolve_path-Stops_example =
    resolve_path-Stops slashes disk slashes-IsPathPackage one_jail (codes "/srv/jail/a/b")

has_path_prefix_iff_example :
    (has_path_prefix slashes (codes "/srv/jail") (codes "/srv") ≡ true)
    ↔ Beneath slashes (codes "/srv/jail") (codes "/srv")
has_path_prefix_iff_example =
    has_path_prefix_iff slashes (codes "/srv/jail") (codes "/srv") (λ e. cc) (λ e. cc)
