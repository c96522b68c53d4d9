-- ===== src/Exec/Examples.antt =====
-- internal/agent/exec on concrete inputs.
use f1337_mcp.Files.Edit.Hints.{count_byte}
use f1337_mcp.Prelude.{
  ℕ, ◌-◌, ◌≡◌, refl, Bool, true, false, ◌&&◌, some, List, [], ◌∷◌, ◌++◌, map, arith, leb,
  if◌then◌else◌, All, Text, codes, eq_text, contains_byte,
}
use f1337_mcp.Exec.Env.{
  env_key, unix_platform, windows_platform, merge_env, env_value, environment, env, refused,
  not_key_value,
}
use f1337_mcp.Exec.Env.Latest.{Distinct, merge_env-Latest}
use f1337_mcp.Exec.Env.Allowed.{Origin, environment-Origin}
use f1337_mcp.Exec.Sink.{write, new_sink, truncation}
use f1337_mcp.Exec.Sink.Exact.{Exact, written, write_all, write_all-Exact}

abbrev capitals : Text → Text
capitals t = map (λ c. if leb 97 c && leb c 122 then c - 32 else c) t

abbrev base_entries : List Text
base_entries = codes "PATH=/bin" ∷ codes "HOME=/root" ∷ []

abbrev requested_entries : List Text
requested_entries = codes "Path=/opt" ∷ codes "A=1" ∷ codes "A=2=3" ∷ []

merges :
    merge_env capitals windows_platform base_entries requested_entries
    ≡ env (codes "Path=/opt" ∷ codes "HOME=/root" ∷ codes "A=2=3" ∷ [])
unfolding merge_env eq_text contains_byte env_key
merges = refl

keeps_case :
    merge_env capitals unix_platform base_entries (codes "Path=/opt" ∷ [])
    ≡ env (codes "PATH=/bin" ∷ codes "HOME=/root" ∷ codes "Path=/opt" ∷ [])
unfolding merge_env eq_text contains_byte env_key
keeps_case = refl

refuses : merge_env capitals unix_platform base_entries (codes "PATH" ∷ []) ≡ refused not_key_value
unfolding merge_env
refuses = refl

merge_env-Latest_example :
    Distinct capitals windows_platform (codes "Path=/opt" ∷ codes "HOME=/root" ∷ codes "A=2=3" ∷ [])
    × ((name : Text)
        → env_value capitals windows_platform
            (codes "Path=/opt" ∷ codes "HOME=/root" ∷ codes "A=2=3" ∷ [])
            name
          ≡ env_value capitals windows_platform (base_entries ++ requested_entries) name)
merge_env-Latest_example =
    merge_env-Latest capitals windows_platform base_entries requested_entries merges

abbrev daemon : Text → Text
daemon name =
    if eq_text name (codes "LANG")
    then codes "C"
    else if eq_text name (codes "GITHUB_TOKEN")
    then codes "secret"
    else []

scrubbed :
    environment capitals unix_platform daemon (some (codes "/root")) (codes "A=1" ∷ [])
    ≡ env (
        codes "PATH=/usr/local/sbin:/usr/local/bin:/usr/sbin:/usr/bin:/sbin:/bin"
        ∷ codes "HOME=/root"
        ∷ codes "LANG=C"
        ∷ codes "A=1"
        ∷ [])
unfolding environment eq_text contains_byte env_key
scrubbed = refl

environment-Origin_example :
    All (Origin capitals unix_platform daemon (some (codes "/root")) (codes "A=1" ∷ [])) (
      codes "PATH=/usr/local/sbin:/usr/local/bin:/usr/sbin:/usr/bin:/sbin:/bin"
      ∷ codes "HOME=/root"
      ∷ codes "LANG=C"
      ∷ codes "A=1"
      ∷ [])
environment-Origin_example =
    environment-Origin capitals unix_platform daemon (some (codes "/root")) (codes "A=1" ∷ [])
      scrubbed

abbrev all_taken : ℕ → Bool
all_taken n = true

abbrev two_writes : List (ℕ × Text)
two_writes = (1, codes "abc") ∷ (2, 100 ∷ 10 ∷ 101 ∷ 10 ∷ []) ∷ []

cut_off :
    truncation (write_all all_taken (new_sink 5) two_writes)
    ≡ record { truncated = true; bytes_omitted = 2; lines_omitted = 1 }
unfolding truncation write new_sink count_byte
cut_off = refl

works : (write_all all_taken (new_sink 5) two_writes).failed ≡ false
unfolding write new_sink
works = refl

write_all-Exact_example : Exact 5 (written two_writes) (write_all all_taken (new_sink 5) two_writes)
write_all-Exact_example = write_all-Exact all_taken 5 two_writes (omega arith) works
