-- ===== src/Agent/Passing.antt =====
-- What each step of validateEgressTarget (cmd/node-agent/main.go) lets through, by the code's own tests.
use mathlib.Core.Bool.{false≢true}
use browser_use.Base.{
  String, ◌≡◌, refl, sym, ap, ◌∙◌, ◌↔◌, ◌≢◌, ◌⊎◌, inl, inr, Bool, true, false, not, ◌&&◌, none,
  some, List, [], ◌∷◌, arith, Bool-cases, Option-cases, All, is_empty, trim_space, Error, ok, err,
  Result-cases, is_ok,
}
use browser_use.Agent.Egress.{
  Net, EgressMode, open_mode, public_only, deny_all, host_allowed, is_local_hostname, is_nil,
  is_private_or_local_ip, check_addrs, check_public, check_mode, check_host, check_parsed,
  check_url,
}

listed_or_open :
    (allow_hosts : List String) (b : Bool)
    → (is_nil allow_hosts ≡ true) ⊎ (b ≡ true)
    → (not (is_nil allow_hosts) && not b) ≡ false
listed_or_open allow_hosts b h = ground (arith, h)

abbrev denies : EgressMode → Bool
denies deny_all = true
denies _ = false

open≢deny : open_mode ≢ deny_all
open≢deny h = false≢true (ap denies h)

public≢deny : public_only ≢ deny_all
public≢deny h = false≢true (ap denies h)

module _ {Addr : Type 0} (net : Net Addr) where
  abbrev pub IsPublicAddr : Addr → Type 0
  IsPublicAddr ip = is_private_or_local_ip net ip ≡ false

  -- The host is a public address, or a name all of whose addresses are.
  abbrev pub IsPublicHost : String → Type 0
  IsPublicHost host =
      ((ip : Addr) × (net.parse_addr host ≡ some ip) × IsPublicAddr ip)
      ⊎ ((net.parse_addr host ≡ none)
          × (addrs : List Addr) × (net.lookup_net_ip host ≡ ok addrs)
          × All IsPublicAddr addrs)

  check_addrs_iff :
      (host : String) (addrs : List Addr)
      → (check_addrs net host addrs ≡ ok tt) ↔ All IsPublicAddr addrs
  unfolding check_addrs
  check_addrs_iff host [] = ((λ h. tt), (λ h. refl))
  check_addrs_iff host (ip ∷ ips) = elim (Bool-cases (is_private_or_local_ip net ip)) [
    | inl e ↦
        (λ h. absurd (false≢true (ap is_ok (rw e at h))), λ h. absurd (false≢true (sym h.0 ∙ e)))
    | inr e ↦
        rw e (λ h. (refl, (check_addrs_iff host ips).0 h), λ h. (check_addrs_iff host ips).1 h.1)
  ]

  refused : {A : Type 0} {e : Error} {a : A} → err e ≡ ok a → ⊥
  refused h = false≢true (ap is_ok h)

  passes_public : (host : String) → check_public net host ≡ ok tt → IsPublicHost host
  unfolding check_public
  passes_public host h = elim (Bool-cases (is_local_hostname net.to_lower host)) [
    | inl e ↦ absurd (refused (rw (check_public, e) at h))
    | inr e ↦ elim (Option-cases (net.parse_addr host)) [
      | inr (ip, f) ↦ elim (Bool-cases (is_private_or_local_ip net ip)) [
        | inl p ↦ absurd (refused (rw (check_public, e, f, p) at h))
        | inr p ↦ inl (ip, f, p)
      ]
      | inl f ↦ elim (Result-cases (net.lookup_net_ip host)) [
        | inr (x, g) ↦ absurd (refused (rw (check_public, e, f, g) at h))
        | inl (addrs, g) ↦
            inr (f, addrs, g, (check_addrs_iff host addrs).0 (rw (check_public, e, f, g) at h))
      ]
    ]
  ]

  not_local :
      (host : String) → check_public net host ≡ ok tt → is_local_hostname net.to_lower host ≡ false
  unfolding check_public
  not_local host h = elim (Bool-cases (is_local_hostname net.to_lower host)) [
    | inl e ↦ absurd (refused (rw (check_public, e) at h))
    | inr e ↦ e
  ]

  public_passes :
      (host : String)
      → is_local_hostname net.to_lower host ≡ false
      → IsPublicHost host
      → check_public net host ≡ ok tt
  unfolding check_public
  public_passes host e (inl (ip, f, p)) = rw (check_public, e, f, p) refl
  public_passes host e (inr (f, addrs, g, a)) =
      rw (check_public, e, f, g) ((check_addrs_iff host addrs).1 a)

  -- What the mode asks of the host of a URL.
  abbrev pub Asked : EgressMode → String → Type 0
  Asked open_mode host = Unit
  Asked public_only host = (is_local_hostname net.to_lower host ≡ false) × IsPublicHost host
  Asked deny_all host = ⊥

  abbrev pub IsPermitted : EgressMode → String → List String → Type 0
  IsPermitted mode url allow_hosts =
      (name : String) × (net.hostname url ≡ ok name)
      × let host = net.to_lower (trim_space name) in
        (is_empty host ≡ false)
        × ((is_nil allow_hosts ≡ true) ⊎ (host_allowed net.to_lower host allow_hosts ≡ true))
        × Asked mode host

  Asked-of :
      (mode : EgressMode) (host : String)
      → mode ≢ deny_all
      → check_mode net mode host ≡ ok tt
      → Asked mode host
  Asked-of open_mode host d h = tt
  Asked-of public_only host d h = (not_local host h, passes_public host h)
  Asked-of deny_all host d h = d refl

  mode_passes :
      (mode : EgressMode) (host : String) → Asked mode host → check_mode net mode host ≡ ok tt
  mode_passes open_mode host a = refl
  mode_passes public_only host (e, p) = public_passes host e p
  mode_passes deny_all host a = absurd a

  check_host_passes :
      (mode : EgressMode) (url : String) (allow_hosts : List String) (host : String)
      → mode ≢ deny_all
      → check_host net mode url allow_hosts host ≡ ok tt
      → (is_empty host ≡ false)
        × ((is_nil allow_hosts ≡ true) ⊎ (host_allowed net.to_lower host allow_hosts ≡ true))
        × Asked mode host
  unfolding check_host
  check_host_passes mode url allow_hosts host d h = elim (Bool-cases (is_empty host)) [
    | inl e ↦ absurd (refused (rw (check_host, e) at h))
    | inr e ↦
        elim (Bool-cases
          (not (is_nil allow_hosts) && not (host_allowed net.to_lower host allow_hosts))) [
            | inl f ↦ absurd (refused (rw (check_host, e, f) at h))
            | inr f ↦ (e, ground (arith, f), Asked-of mode host d (rw (check_host, e, f) at h))
          ]
  ]

  IsPermitted-of :
      (mode : EgressMode) (url : String) (allow_hosts : List String)
      → mode ≢ deny_all
      → check_parsed net mode url allow_hosts ≡ ok tt
      → IsPermitted mode url allow_hosts
  unfolding check_parsed
  IsPermitted-of mode url allow_hosts d h = elim (Result-cases (net.hostname url)) [
    | inr (x, e) ↦ absurd (refused (rw (check_parsed, e) at h))
    | inl (name, e) ↦ (
      name,
      e,
      check_host_passes mode url allow_hosts (net.to_lower (trim_space name)) d
          (rw (check_parsed, e) at h),
    )
  ]

  IsPermitted-passes :
      (mode : EgressMode) (url : String) (allow_hosts : List String)
      → IsPermitted mode url allow_hosts
      → check_parsed net mode url allow_hosts ≡ ok tt
  unfolding check_parsed check_host
  IsPermitted-passes mode url allow_hosts (name, n, (e, l, a)) =
      rw (check_parsed, n, check_host, e)
        (rw
          (listed_or_open allow_hosts
            (host_allowed net.to_lower (net.to_lower (trim_space name)) allow_hosts) l)
          (mode_passes mode (net.to_lower (trim_space name)) a))

  pub check_url_passes :
      (mode : EgressMode) (url : String) (allow_hosts : List String)
      → (check_url net mode url allow_hosts ≡ ok tt) ↔ IsPermitted mode url allow_hosts
  unfolding check_url
  check_url_passes open_mode url allow_hosts = (
    IsPermitted-of open_mode url allow_hosts open≢deny,
    IsPermitted-passes open_mode url allow_hosts,
  )
  check_url_passes public_only url allow_hosts = (
    IsPermitted-of public_only url allow_hosts public≢deny,
    IsPermitted-passes public_only url allow_hosts,
  )
  check_url_passes deny_all url allow_hosts = (λ h. absurd (refused h), λ p. absurd p.2.2)
