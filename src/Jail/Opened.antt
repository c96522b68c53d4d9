-- ===== src/Jail/Opened.antt =====
-- What a jail that New built lets a caller reach.
use f1337_mcp.Prelude.{
  Has, All-has, ◌≡◌, refl, sym, ◌≢◌, inl, inr, Option, none, some, Bool-cases, Option-cases, All,
  Text,
}
use f1337_mcp.Jail.Paths.{Filepath, normalize_path}
use f1337_mcp.Jail.Prefix.{Beneath}
use f1337_mcp.Jail.Roots.{Configured, new_jail-Configured, done-injective}
use f1337_mcp.Jail.Confined.{IsAnchor, IsResolved, resolve_path-IsResolved, root_in-Beneath}
use f1337_mcp.Jail.{
  Mode, mode_unset, mode_confined, mode_unconfined, Config, Jail, FileSystem, Outcome, done, fails,
  Anchor, new_jail, root_in, root_for, resolve_path, joined, Opening, beneath, open_rel, open_under,
  open_resolved, open_file, is_configured,
}

confined_is : (m : Mode) → m ≡ mode_confined → m ≢ mode_unconfined
confined_is m e k = cc

module _ (f : Filepath) (fs : FileSystem) (cfg : Config) where
  -- A path that a jail with the configuration may answer for an absolute path.
  pub record IsAllowed (abs path : Text) : Type 0 where
    pub at_anchor : Anchor
    pub found : IsAnchor f fs abs at_anchor
    pub is_joined : path ≡ joined f fs at_anchor
    pub anchor_root : Text
    pub anchor_configured : Configured f fs cfg anchor_root
    pub anchor_beneath : Beneath f at_anchor.anchor anchor_root
    pub root : Text
    pub configured : Configured f fs cfg root
    pub is_beneath : Beneath f path root

  IsResolved-IsAllowed :
      (j : Jail) (abs path : Text)
      → All (Configured f fs cfg) j.roots
      → IsResolved f fs j abs path
      → IsAllowed abs path
  IsResolved-IsAllowed j abs path roots r =
      let (a, at_a, under_a) = r.anchor_within in
      let (b, at_b, under_b) = r.path_within in
      record {
        at_anchor = r.at_anchor;
        found = r.found;
        is_joined = r.is_joined;
        anchor_root = a;
        anchor_configured = All-has (Configured f fs cfg) j.roots a roots at_a;
        anchor_beneath = under_a;
        root = b;
        configured = All-has (Configured f fs cfg) j.roots b roots at_b;
        is_beneath = under_b;
      }

  -- A path that a jail built by New resolves is what an existing directory above the wanted path
  -- evaluates to, followed by the trimmed components, none of which Lstat found; and both that
  -- directory and the path lie beneath what a configured root resolves to, by whole components.
  pub resolve_path-IsAllowed :
      {j : Jail} (path : Text) {r : Text}
      → new_jail f fs cfg ≡ done j
      → resolve_path f fs j path ≡ done r
      → (abs : Text) × (normalize_path f j.working_dir path ≡ some abs) × IsAllowed abs r
  resolve_path-IsAllowed {j} path {r} built h =
      let (roots, confined) = new_jail-Configured f fs cfg built in
      let (abs, n, res) = resolve_path-IsResolved f fs j path (confined_is j.mode confined) h in
      (abs, n, IsResolved-IsAllowed j abs r roots res)

  open_under-done :
      (j : Jail) (r : Text) (o : Option Text) {w : Opening}
      → root_in f fs j.roots r ≡ o
      → open_under f fs r o ≡ done w
      → (root : Text) × (rel : Text) × (w ≡ beneath root rel r)
        × (f.rel root r ≡ some rel)
        × Has j.roots root
        × Beneath f r root
  unfolding open_under
  open_under-done j r none q h = absurd (cc)
  open_under-done j r (some root) q h = elim (Option-cases (f.rel root r)) [
    | inl no_rel ↦ absurd (cc (rw (open_rel, no_rel) at h))
    | inr (rel, is_rel) ↦
        let h' = done-injective (beneath root rel r) _ (rw (open_rel, is_rel) at h) in
        let (m, b) = root_in-Beneath f fs j.roots r q in (root, rel, sym h', is_rel, m, b)
  ]

  open_resolved-done :
      (j : Jail) (m : Mode) (o : Outcome Text) {w : Opening}
      → m ≡ mode_confined
      → open_resolved f fs j m o ≡ done w
      → (r : Text) × (o ≡ done r) × (open_under f fs r (root_in f fs j.roots r) ≡ done w)
  unfolding open_resolved root_for
  open_resolved-done j m (fails e) c h = absurd (cc)
  open_resolved-done j mode_unset (done r) c h = absurd (cc)
  open_resolved-done j mode_unconfined (done r) c h = absurd (cc)
  open_resolved-done j mode_confined (done r) c h = (r, refl, h)

  -- OpenFile of a jail built by New only ever opens beneath a directory that a configured root
  -- resolves to, and there the path that Resolve answers, which lies beneath it.
  pub open_file_confined :
      {j : Jail} (path : Text) {w : Opening}
      → new_jail f fs cfg ≡ done j
      → open_file f fs j path ≡ done w
      → (r : Text) × (root : Text) × (rel : Text) × (resolve_path f fs j path ≡ done r)
        × (w ≡ beneath root rel r)
        × (f.rel root r ≡ some rel)
        × Configured f fs cfg root
        × Beneath f r root
  unfolding open_file
  open_file_confined {j} path built h = elim (Bool-cases (is_configured j.mode)) [
    | inr unset ↦ absurd (cc (rw unset at h))
    | inl ok ↦
        let (roots, confined) = new_jail-Configured f fs cfg built in
        let (r, is_r, under) =
          open_resolved-done j j.mode (resolve_path f fs j path) confined (rw ok at h) in
        let (root, rel, is_w, is_rel, m, b) =
          open_under-done j r (root_in f fs j.roots r) refl under in
        (r, root, rel, is_r, is_w, is_rel, All-has (Configured f fs cfg) j.roots root roots m, b)
  ]
