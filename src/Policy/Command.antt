-- ===== src/Policy/Command.antt =====
-- internal/security/policy/lookup.go: a command and the names that rules are compared with.
use Prim.Native.Nat.{min}
use f1337_mcp.Prelude.{
  ℕ, Bool, false, ◌||◌, List, [], ◌∷◌, ◌++◌, ltb, if◌then◌else◌, length, take, drop, Text, eq_text,
}

pub record Command : Type 0 where
  pub argv : List Text
  pub requested : Text
  pub path : Text
  pub target : Text

abbrev pub max_argv_prefixes : ℕ
max_argv_prefixes = 16

unfoldable pub contains : List Text → Text → Bool
contains [] s = false
contains (v ∷ vs) s = eq_text v s || contains vs s

-- The closure `add` of `names`, and the body of the loop of `heads`.
unfoldable pub add_name : Text → List Text → List Text
unfolding contains
add_name s names = if eq_text s [] || contains names s then names else names ++ s ∷ []

unfoldable pub add_names : List Text → List Text → List Text
unfolding add_name
add_names [] names = names
add_names (s ∷ ss) names = add_names ss (add_name s names)

abbrev pub first_arg : List Text → List Text
first_arg [] = []
first_arg (a ∷ argv) = a ∷ []

-- The runs of the argv that begin with `line`, one argument longer each.
unfoldable pub runs : Text → List Text → List Text
runs line [] = []
runs line (arg ∷ args) = (line ++ 32 ∷ arg) ∷ runs (line ++ 32 ∷ arg) args

unfoldable pub all_runs : List Text → List Text → List Text
unfolding runs
all_runs [] tail = []
all_runs (head ∷ heads) tail = runs head tail ++ all_runs heads tail

-- strings.Join with a space
unfoldable pub join_space : List Text → Text
join_space [] = []
join_space (s ∷ []) = s
join_space (s ∷ t ∷ ss) = s ++ 32 ∷ join_space (t ∷ ss)

unfoldable pub whole_lines : List Text → Text → List Text
whole_lines [] rest = []
whole_lines (head ∷ heads) rest = (head ++ rest) ∷ whole_lines heads rest

-- `file_base` is filepath.Base.
module _ (file_base : Text → Text) where
  unfoldable pub base : Text → Text
  base path = if eq_text path [] then [] else file_base path

  unfoldable pub spellings : Command → List Text
  unfolding base
  spellings c =
      first_arg c.argv ++ (c.requested ∷ c.path ∷ base c.path ∷ c.target ∷ base c.target ∷ [])

  unfoldable pub heads : Command → List Text
  unfolding spellings add_names
  heads c = add_names (spellings c) []

  -- The loops of `names` add to one list in this order.
  unfoldable pub names : Command → List Text
  unfolding heads add_names all_runs whole_lines
  names c =
      let hs = heads c in
      let n = length c.argv in
      let started = add_names hs [] in
      let tail = drop 1 (take (min n max_argv_prefixes) c.argv) in
      let ran = add_names (all_runs hs tail) started in
      if ltb n 2
      then started
      else if ltb max_argv_prefixes n
      then add_names (whole_lines hs (32 ∷ join_space (drop 1 c.argv))) ran
      else ran
