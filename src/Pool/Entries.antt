-- ===== src/Pool/Entries.antt =====
-- The entries of internal/client/pool.go and their channels, as lists.
use mathlib.Core.Path.{subst}
use mathlib.Core.Option.{some-injective}
use f1337_mcp.Prelude.{
  some≢none, ℕ, ◌<◌, ◌≡◌, refl, sym, ap, ◌∙◌, inl, inr, Bool, true, false, none, some, List, [],
  ◌∷◌, arith, ◌==◌, if◌then◌else◌, ==_iff, Bool-cases, All, Text, eq_text, eq_text_iff,
}
use f1337_mcp.Pool.{Pooled, Pool, find_entry, delete_entry, without_channel}

abbrev pub channels : List Pooled → List ℕ
channels [] = []
channels (e ∷ es) = e.channel ∷ channels es

-- Entries whose names and channels all differ.
abbrev pub Apart : Pooled → Pooled → Type 0
Apart e f = (eq_text f.target.name e.target.name ≡ false) × ((f.channel == e.channel) ≡ false)

abbrev pub AllApart : List Pooled → Type 0
AllApart [] = Unit
AllApart (e ∷ es) = All (Apart e) es × AllApart es

pub record IsPool (p : Pool) : Type 0 where
  pub kept : p.opened ≡ channels p.entries
  pub watched : p.probing ≡ channels p.entries
  pub apart : AllApart p.entries
  pub dialed : All (λ e. e.channel < p.dial_count) p.entries
  pub ended : p.is_closed ≡ true → p.entries ≡ []

pub pick {ℓ κ} :
    {A : Type ℓ} (P : A → Type κ) (b : Bool) (x y : A)
    → (b ≡ true → P x)
    → (b ≡ false → P y)
    → P (if b then x else y)
pick P true x y f g = f refl
pick P false x y f g = g refl

delete_absent :
    (n : Text) (es : List Pooled)
    → All (λ f. eq_text f.target.name n ≡ false) es
    → delete_entry n es ≡ es
unfolding delete_entry
delete_absent n [] h = refl
delete_absent n (e ∷ es) h = rw (h.0) (ap (λ r. e ∷ r) (delete_absent n es h.1))

pub without_absent :
    (c : ℕ) (es : List Pooled)
    → All (λ f. (f.channel == c) ≡ false) es
    → without_channel c (channels es) ≡ channels es
unfolding without_channel
without_absent c [] h = refl
without_absent c (e ∷ es) h = rw (h.0) (ap (λ r. e.channel ∷ r) (without_absent c es h.1))

pub All-map :
    {P Q : Pooled → Type 0} (es : List Pooled) → ((e : Pooled) → P e → Q e) → All P es → All Q es
All-map [] f h = tt
All-map (e ∷ es) f h = (f e h.0, All-map es f h.1)

All-find_entry :
    (P : Pooled → Type 0) (n : Text) (es : List Pooled) (e : Pooled)
    → All P es
    → find_entry n es ≡ some e
    → P e × (eq_text e.target.name n ≡ true)
unfolding find_entry
All-find_entry P n [] e h f = absurd (some≢none e (sym f))
All-find_entry P n (d ∷ es) e h f = elim (Bool-cases (eq_text d.target.name n)) [
  | inl k ↦
      subst (λ x. P x × (eq_text x.target.name n ≡ true)) (some-injective d e (rw k at f)) (h.0, k)
  | inr k ↦ All-find_entry P n es e h.1 (rw k at f)
]

differ : (a b : ℕ) → (a == b) ≡ false → (b == a) ≡ false
differ a b h = ground (arith, h)

-- Evicting an entry removes just its channel.
pub channels-delete_entry :
    (n : Text) (es : List Pooled) (e : Pooled)
    → AllApart es
    → find_entry n es ≡ some e
    → channels (delete_entry n es) ≡ without_channel e.channel (channels es)
unfolding find_entry delete_entry without_channel
channels-delete_entry n [] e h f = refl
channels-delete_entry n (d ∷ es) e h f = elim (Bool-cases (eq_text d.target.name n)) [
  | inl k ↦
      let named : d.target.name ≡ n = (eq_text_iff d.target.name n).0 k in
      let others : All (λ f'. eq_text f'.target.name n ≡ false) es =
        All-map es (λ f' a. subst (λ m. eq_text f'.target.name m ≡ false) named a.0) h.0 in
      subst
        (λ x. channels (delete_entry n (d ∷ es)) ≡ without_channel x.channel (channels (d ∷ es)))
        (some-injective d e (rw k at f))
        (rw (k, (==_iff d.channel d.channel).1 refl)
          (ap channels (delete_absent n es others)
            ∙ sym (without_absent d.channel es (All-map es (λ f' a. a.1) h.0))))
  | inr k ↦
      let f' : find_entry n es ≡ some e = rw k at f in
      let far = (All-find_entry (Apart d) n es e h.0 f').0 in
      rw (k, differ e.channel d.channel far.1)
        (ap (λ r. d.channel ∷ r) (channels-delete_entry n es e h.1 f'))
]

pub All-delete_entry :
    (P : Pooled → Type 0) (n : Text) (es : List Pooled) → All P es → All P (delete_entry n es)
unfolding delete_entry
All-delete_entry P n [] h = tt
All-delete_entry P n (e ∷ es) h = elim (Bool-cases (eq_text e.target.name n)) [
  | inl k ↦ rw k (All-delete_entry P n es h.1)
  | inr k ↦ rw k (h.0, All-delete_entry P n es h.1)
]

pub AllApart-delete_entry :
    (n : Text) (es : List Pooled) → AllApart es → AllApart (delete_entry n es)
unfolding delete_entry
AllApart-delete_entry n [] h = tt
AllApart-delete_entry n (e ∷ es) h = elim (Bool-cases (eq_text e.target.name n)) [
  | inl k ↦ rw k (AllApart-delete_entry n es h.1)
  | inr k ↦ rw k (All-delete_entry (Apart e) n es h.0, AllApart-delete_entry n es h.1)
]

pub delete_entry-gone :
    (n : Text) (es : List Pooled) → All (λ f. eq_text f.target.name n ≡ false) (delete_entry n es)
unfolding delete_entry
delete_entry-gone n [] = tt
delete_entry-gone n (e ∷ es) = elim (Bool-cases (eq_text e.target.name n)) [
  | inl k ↦ rw k (delete_entry-gone n es)
  | inr k ↦ rw k (k, delete_entry-gone n es)
]

pub find_entry-absent :
    (n : Text) (es : List Pooled)
    → find_entry n es ≡ none
    → All (λ f. eq_text f.target.name n ≡ false) es
unfolding find_entry
find_entry-absent n [] h = tt
find_entry-absent n (e ∷ es) h = elim (Bool-cases (eq_text e.target.name n)) [
  | inl k ↦ absurd (some≢none e (rw k at h))
  | inr k ↦ (k, find_entry-absent n es (rw k at h))
]
