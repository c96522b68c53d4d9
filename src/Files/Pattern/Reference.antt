-- ===== src/Files/Pattern/Reference.antt =====
-- What a pattern of internal/agent/fs/pattern.go promises to match: "**" any number of parts, every
-- other segment one part.
use f1337_mcp.Prelude.{
  Bool, false, ◌||◌, Option, List, [], ◌∷◌, ◌==◌, if◌then◌else◌, length, Text, eq_text,
}
use f1337_mcp.Files.Pattern.{stars, seg_ok}

unfoldable pub any_tail : (List Text → Bool) → List Text → Bool
any_tail f [] = f []
any_tail f (x ∷ xs) = f (x ∷ xs) || any_tail f xs

module _ (seg_match : Text → Text → Option Bool) where
  unfoldable pub glob_one : Text → (List Text → Bool) → List Text → Bool
  glob_one seg f [] = false
  glob_one seg f (x ∷ xs) = if seg_ok seg_match seg x then f xs else false

  unfoldable pub glob : List Text → List Text → Bool
  unfolding any_tail glob_one
  glob [] name = length name == 0
  glob (seg ∷ segs) name =
      if eq_text seg stars then any_tail (glob segs) name else glob_one seg (glob segs) name
