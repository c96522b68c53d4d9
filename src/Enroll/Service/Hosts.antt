-- ===== src/Enroll/Service/Hosts.antt =====
-- Which hosts the address checks and sanSet of internal/security/enroll/service.go let into a certificate.
use mathlib.Core.Option.{some-injective}
use f1337_mcp.Prelude.{
  All-both, Has, suc, ◌≡◌, refl, inl, inr, Bool, true, false, ◌||◌, Option, none, some, List, [],
  ◌∷◌, ◌++◌, if◌then◌else◌, Bool-cases, Option-cases, All, Text, eq_text,
}
use f1337_mcp.Files.Locks.{less_text}
use f1337_mcp.Enroll.Service.{
  Packages, has_text, add_text, insert_text, sort_texts, host_of, is_loopback_ip, add_hosts,
  request_hosts, name_set, check_requested_addresses, add_extra, dns_of, ips_of, san_hosts,
}

module _ (P : Text → Type 0) where
  add_text-All : (l : List Text) (t : Text) → All P l → P t → All P (add_text l t)
  unfolding add_text
  add_text-All l t h k = elim (Bool-cases (has_text l t)) [
    | inl old ↦ rw old h
    | inr new ↦ rw new (All-both P l (t ∷ []) h (k, tt))
  ]

  insert_text-All : (t : Text) (l : List Text) → P t → All P l → All P (insert_text t l)
  unfolding insert_text
  insert_text-All t [] h k = (h, tt)
  insert_text-All t (x ∷ l) h k = elim (Bool-cases (less_text x t)) [
    | inl less ↦ rw less (k.0, insert_text-All t l h k.1)
    | inr more ↦ rw more (h, k)
  ]

  pub sort_texts-All : (l : List Text) → All P l → All P (sort_texts l)
  unfolding sort_texts
  sort_texts-All [] h = tt
  sort_texts-All (t ∷ l) h = insert_text-All t (sort_texts l) h.0 (sort_texts-All l h.1)

module _ (p : Packages) (P : Text → Type 0) where
  kept_or_added :
      (b : Bool) (hosts : List Text) (host : Text)
      → All P hosts
      → P host
      → All P (if b then hosts else add_text hosts host)
  kept_or_added true hosts host h k = h
  kept_or_added false hosts host h k = add_text-All P hosts host h k

  named :
      (name : Text) (b : Bool)
      → eq_text name [] ≡ b
      → (eq_text name [] ≡ false → P name)
      → All P (name_set p name)
  unfolding name_set
  named name true e k = rw e tt
  named name false e k = rw e (k e, tt)

  add_hosts-All :
      (hosts addrs : List Text)
      → All P hosts
      → ((addr : Text) → Has addrs addr → P (host_of p addr))
      → All P (add_hosts p hosts addrs)
  unfolding add_hosts
  add_hosts-All hosts [] h k = h
  add_hosts-All hosts (addr ∷ addrs) h k =
      add_hosts-All (if eq_text (host_of p addr) [] then hosts else add_text hosts (host_of p addr))
        addrs
        (kept_or_added (eq_text (host_of p addr) []) hosts (host_of p addr) h (k addr (0, refl)))
        (λ a m. k a (suc m.0, m.1))

  add_extra-All : (l extra : List Text) → All P l → All P extra → All P (add_extra p l extra)
  unfolding add_extra
  add_extra-All l [] h k = h
  add_extra-All l (t ∷ extra) h k =
      add_extra-All (add_text l t) extra (add_text-All P l t h k.0) k.1

  request_hosts-All :
      (allowed extra addrs : List Text) {out : List Text}
      → All P extra
      → ((addr : Text)
          → Has addrs addr
          → is_loopback_ip p (p.parse_ip (host_of p addr)) ≡ true
          → P (host_of p addr))
      → request_hosts p allowed extra addrs ≡ some out
      → All P out
  unfolding request_hosts
  request_hosts-All allowed extra [] h k e = rw (← some-injective _ _ e) h
  request_hosts-All allowed extra (addr ∷ addrs) h k e =
      elim (Bool-cases (eq_text (host_of p addr) [] || has_text allowed (host_of p addr))) [
        | inl known ↦
            request_hosts-All allowed extra addrs h (λ a m l. k a (suc m.0, m.1) l)
              (rw (request_hosts, known) at e)
        | inr new ↦ elim (Bool-cases (is_loopback_ip p (p.parse_ip (host_of p addr)))) [
          | inr foreign ↦ absurd (cc (rw (request_hosts, new, foreign) at e))
          | inl loops ↦
              request_hosts-All (allowed ++ (host_of p addr ∷ [])) (extra ++ (host_of p addr ∷ []))
                addrs (All-both P extra (host_of p addr ∷ []) h (k addr (0, refl) loops, tt))
                (λ a m l. k a (suc m.0, m.1) l) (rw (request_hosts, new, loops) at e)
        ]
      ]

  pub san_hosts-All :
      (cert_name : Text) (authorized requested : List Text) {extra : List Text}
      → (eq_text cert_name [] ≡ false → P cert_name)
      → ((addr : Text) → Has authorized addr → P (host_of p addr))
      → ((addr : Text)
          → Has requested addr
          → is_loopback_ip p (p.parse_ip (host_of p addr)) ≡ true
          → P (host_of p addr))
      → (name : Text) → check_requested_addresses p name authorized requested ≡ some extra
      → All P (san_hosts p cert_name authorized extra)
  unfolding san_hosts check_requested_addresses
  san_hosts-All cert_name authorized requested {extra} by_name by_token by_loop name e =
      add_extra-All (add_hosts p (name_set p cert_name) authorized) extra
        (add_hosts-All (name_set p cert_name) authorized
          (named cert_name (eq_text cert_name []) refl by_name) by_token)
        (request_hosts-All (add_hosts p (name_set p name) authorized) [] requested tt by_loop e)

  pub dns_of-All :
      (hosts : List Text) → All P hosts → All (λ h. P h × (p.parse_ip h ≡ none)) (dns_of p hosts)
  unfolding dns_of
  dns_of-All [] k = tt
  dns_of-All (host ∷ hosts) k = elim (Option-cases (p.parse_ip host)) [
    | inl name ↦ rw name ((k.0, name), dns_of-All hosts k.1)
    | inr (ip, is_ip) ↦ rw is_ip (dns_of-All hosts k.1)
  ]

  -- The address is that of a host.
  abbrev pub IsHostIp : Text → Type 0
  IsHostIp ip = (h : Text) × P h × (p.parse_ip h ≡ some ip)

  one_ip :
      (host : Text) (o : Option Text) (rest : List Text)
      → p.parse_ip host ≡ o
      → P host
      → All IsHostIp rest
      → All IsHostIp (elim o [ some ip ↦ ip ∷ rest | none ↦ rest ])
  one_ip host none rest e h k = k
  one_ip host (some ip) rest e h k = ((host, h, e), k)

  pub ips_of-All : (hosts : List Text) → All P hosts → All IsHostIp (ips_of p hosts)
  unfolding ips_of
  ips_of-All [] k = tt
  ips_of-All (host ∷ hosts) k =
      one_ip host (p.parse_ip host) (ips_of p hosts) refl k.0 (ips_of-All hosts k.1)
