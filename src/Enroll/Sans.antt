-- ===== src/Enroll/Sans.antt =====
-- internal/security/ca/sign.go: which names and addresses a certificate may carry. A text is read by bytes: a rune beyond
-- ASCII and each of its bytes are refused alike. net.IP.IsUnspecified is an argument.
use f1337_mcp.Prelude.{
  ℕ, ◌+◌, Bool, false, not, ◌&&◌, ◌||◌, List, [], ◌∷◌, ltb, leb, ◌==◌, if◌then◌else◌, length,
  get_or, all, Text, eq_text, contains_byte,
}
use f1337_mcp.Files.Pattern.{split_on}

-- `MaxSANs`
abbrev pub max_sans : ℕ
max_sans = 16

unfoldable pub is_label_byte : ℕ → Bool
is_label_byte c =
    (leb 97 c && leb c 122)
    || ((leb 65 c && leb c 90) || ((leb 48 c && leb c 57) || (c == 45 || c == 95)))

unfoldable pub last_byte : Text → ℕ
last_byte [] = 0
last_byte (c ∷ []) = c
last_byte (c ∷ d ∷ s) = last_byte (d ∷ s)

-- The checks of one label in checkDNSName.
unfoldable pub check_label : Text → Bool
unfolding is_label_byte last_byte
check_label label =
    if eq_text label [] || ltb 63 (length label)
    then false
    else if get_or label 0 0 == 45 || last_byte label == 45
    then false
    else all is_label_byte label

-- strings.TrimSuffix(name, ".")
unfoldable pub trim_dot : Text → Text
trim_dot [] = []
trim_dot (c ∷ []) = if c == 46 then [] else c ∷ []
trim_dot (c ∷ d ∷ s) = c ∷ trim_dot (d ∷ s)

-- `checkDNSName`
unfoldable pub check_dns_name : Text → Bool
unfolding check_label trim_dot
check_dns_name name =
    if eq_text name [] || ltb 253 (length name)
    then false
    else if contains_byte 42 name
    then false
    else all check_label (split_on 46 (trim_dot name))

-- `CheckSANs`
unfoldable pub check_sans : (Text → Bool) → List Text → List Text → Bool
unfolding check_dns_name
check_sans is_unspecified dns_names ips =
    if ltb max_sans (length dns_names + length ips)
    then false
    else if not (all check_dns_name dns_names)
    then false
    else all (λ ip. not (eq_text ip []) && not (is_unspecified ip)) ips
