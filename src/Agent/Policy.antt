-- ===== src/Agent/Policy.antt =====
-- What the egress policy (cmd/node-agent/main.go) lets through.
use mathlib.Core.Bool.{false≢true}
use browser_use.Base.{
  String, ◌≡◌, refl, sym, subst, ◌∙◌, ◌↔◌, ◌≢◌, ◌⊎◌, inl, inr, Bool, true, false, ◌||◌, none, some,
  List, [], ◌∷◌, arith, All, if◌then◌else◌, is_empty, trim_space, str_eq, str_eq_iff, is_one_of, ok,
}
use browser_use.Agent.Listing.{IsListed, host_allowed_lem}
use browser_use.Agent.Egress.{
  Net, EgressMode, open_mode, public_only, deny_all, normalize_egress_mode, host_allowed,
  is_local_hostname, is_nil, is_private_or_local_ip, check_url, validate_egress_target,
}
use browser_use.Agent.Passing.{IsPublicAddr, IsPublicHost, Asked, check_url_passes}

module _ {Addr : Type 0} (net : Net Addr) where
  -- One of the ranges that a node is not to reach, in the form without an IPv4 prefix: Go's private, loopback,
  -- link-local, multicast and unspecified addresses and the shared ones of a carrier.
  pub data IsInternal (ip : Addr) : Type 0 where
    private_range : net.is_private (net.unmap ip) ≡ true → IsInternal ip
    loopback : net.is_loopback (net.unmap ip) ≡ true → IsInternal ip
    link_local_multicast : net.is_link_local_multicast (net.unmap ip) ≡ true → IsInternal ip
    link_local_unicast : net.is_link_local_unicast (net.unmap ip) ≡ true → IsInternal ip
    multicast : net.is_multicast (net.unmap ip) ≡ true → IsInternal ip
    unspecified : net.is_unspecified (net.unmap ip) ≡ true → IsInternal ip
    shared : net.in_cgnat (net.unmap ip) ≡ true → IsInternal ip

  IsInternal-tested : (ip : Addr) → IsInternal ip → is_private_or_local_ip net ip ≡ true
  unfolding is_private_or_local_ip
  IsInternal-tested ip (private_range h) = ground (arith, h)
  IsInternal-tested ip (loopback h) = ground (arith, h)
  IsInternal-tested ip (link_local_multicast h) = ground (arith, h)
  IsInternal-tested ip (link_local_unicast h) = ground (arith, h)
  IsInternal-tested ip (multicast h) = ground (arith, h)
  IsInternal-tested ip (unspecified h) = ground (arith, h)
  IsInternal-tested ip (shared h) = ground (arith, h)

  -- An address that is in none of the ranges is let through.
  passes_all :
      (a b c d e f g : Bool)
      → a ≡ false
      → b ≡ false
      → c ≡ false
      → d ≡ false
      → e ≡ false
      → f ≡ false
      → g ≡ false
      → (if a || b || c || d || e || f then true else g) ≡ false
  passes_all a b c d e f g h i j k l m n = ground arith

  holds_not : (b : Bool) → (b ≡ true → ⊥) → b ≡ false
  holds_not true h = absurd (h refl)
  holds_not false h = refl

  public_iff : (ip : Addr) → IsPublicAddr net ip ↔ (¬ IsInternal ip)
  unfolding is_private_or_local_ip
  public_iff ip = (
    λ p i. false≢true (sym p ∙ IsInternal-tested ip i),
    λ n.
        passes_all _ _ _ _ _ _ _ (holds_not _ (λ h. n (private_range h)))
          (holds_not _ (λ h. n (loopback h))) (holds_not _ (λ h. n (link_local_multicast h)))
          (holds_not _ (λ h. n (link_local_unicast h))) (holds_not _ (λ h. n (multicast h)))
          (holds_not _ (λ h. n (unspecified h))) (holds_not _ (λ h. n (shared h))),
  )

  abbrev pub IsExternal : Addr → Type 0
  IsExternal ip = ¬ IsInternal ip

  All-map : (P Q : Addr → Type 0) → ((a : Addr) → P a → Q a) → (l : List Addr) → All P l → All Q l
  All-map P Q f [] h = tt
  All-map P Q f (a ∷ l) h = (f a h.0, All-map P Q f l h.1)

  -- The host is an address outside the ranges, or a name that resolves, to such addresses only.
  abbrev pub IsExternalHost : String → Type 0
  IsExternalHost host =
      ((ip : Addr) × (net.parse_addr host ≡ some ip) × IsExternal ip)
      ⊎ ((net.parse_addr host ≡ none)
          × (addrs : List Addr) × (net.lookup_net_ip host ≡ ok addrs)
          × All IsExternal addrs)

  IsExternalHost-of : (host : String) → IsPublicHost net host → IsExternalHost host
  IsExternalHost-of host (inl (ip, e, p)) = inl (ip, e, (public_iff ip).0 p)
  IsExternalHost-of host (inr (e, addrs, f, p)) =
      inr (e, addrs, f, All-map _ _ (λ a. (public_iff a).0) addrs p)

  IsPublicHost-of : (host : String) → IsExternalHost host → IsPublicHost net host
  IsPublicHost-of host (inl (ip, e, p)) = inl (ip, e, (public_iff ip).1 p)
  IsPublicHost-of host (inr (e, addrs, f, p)) =
      inr (e, addrs, f, All-map _ _ (λ a. (public_iff a).1) addrs p)

  -- A name of the node's own machine.
  abbrev pub IsLocalName : String → Type 0
  IsLocalName host =
      (net.to_lower (trim_space host) ≡ "localhost")
      ⊎ (net.to_lower (trim_space host) ≡ "localhost.localdomain")

  not_local_iff :
      (host : String) → (is_local_hostname net.to_lower host ≡ false) ↔ (¬ IsLocalName host)
  unfolding is_local_hostname is_one_of
  not_local_iff host =
      let l = net.to_lower (trim_space host) in
      (
        λ h i. elim i [
          | inl e ↦ ground (arith, h, (str_eq_iff l "localhost").1 e)
          | inr e ↦ ground (arith, h, (str_eq_iff l "localhost.localdomain").1 e)
        ],
        λ n.
            let a = holds_not (str_eq l "localhost") (λ h. n (inl ((str_eq_iff l _).0 h))) in
            let b =
              holds_not (str_eq l "localhost.localdomain") (λ h. n (inr ((str_eq_iff l _).0 h))) in
            rw (a, b) refl,
      )

  -- The URL has this host, in lower case, and the list allows it.
  abbrev pub Names : String → List String → String → Type 0
  Names url allow_hosts host =
      ((name : String) × (net.hostname url ≡ ok name) × (host ≡ net.to_lower (trim_space name)))
      × (is_empty host ≡ false)
      × ((is_nil allow_hosts ≡ true) ⊎ IsListed net.to_lower host allow_hosts)

  -- The same, with what the mode asks for.
  Permits : EgressMode → String → List String → Type 0
  Permits mode url allow_hosts = (host : String) × Names url allow_hosts host × Asked net mode host

  permitted_iff :
      (mode : EgressMode) (url : String) (allow_hosts : List String)
      → (check_url net mode url allow_hosts ≡ ok tt) ↔ Permits mode url allow_hosts
  unfolding Permits
  permitted_iff mode url allow_hosts = (
    λ h.
        let (name, n, (e, l, a)) = (check_url_passes net mode url allow_hosts).0 h in
        let host = net.to_lower (trim_space name) in
        let listed : (is_nil allow_hosts ≡ true) ⊎ IsListed net.to_lower host allow_hosts = elim l [
          | inl x ↦ inl x
          | inr x ↦ inr ((host_allowed_lem net.to_lower host allow_hosts).0 x)
        ] in
        (host, ((name, n, refl), e, listed), a),
    λ (host, ((name, n, q), e, l), a).
        let listed : (is_nil allow_hosts ≡ true)
            ⊎ (host_allowed net.to_lower host allow_hosts ≡ true) =
          elim l [
            | inl x ↦ inl x
            | inr x ↦ inr ((host_allowed_lem net.to_lower host allow_hosts).1 x)
          ] in
        (check_url_passes net mode url allow_hosts).1 (
          name,
          n,
          subst
              (λ (x : String).
                (is_empty x ≡ false)
                × ((is_nil allow_hosts ≡ true) ⊎ (host_allowed net.to_lower x allow_hosts ≡ true))
                × Asked net mode x)
              q (e, listed, a),
        ),
  )

  mode_read :
      (mode : String)
      → let m = net.to_lower (trim_space mode) in
        let r = normalize_egress_mode net.to_lower mode in
        (m ≡ "deny_all" → r ≡ deny_all)
        × (m ≡ "public_only" → r ≡ public_only)
        × (m ≢ "deny_all" → m ≢ "public_only" → r ≡ open_mode)
  unfolding normalize_egress_mode
  mode_read mode =
      let m = net.to_lower (trim_space mode) in
      (
        λ e. rw e refl,
        λ e. rw e refl,
        λ d p.
            let a = holds_not (str_eq m "public_only") (λ h. p ((str_eq_iff m _).0 h)) in
            let b = holds_not (str_eq m "deny_all") (λ h. d ((str_eq_iff m _).0 h)) in
            rw (a, b) refl,
      )

  -- A navigation to a URL that is not blank, by the mode once it is trimmed and in lower case. The mode
  -- "deny_all" lets none through. The mode "public_only" lets it through exactly when the URL has a host, the
  -- host is on the allow list or the list is empty, it is not a local name, and it is an address that is not
  -- private, loopback, link-local, multicast, unspecified or shared, or a name all of whose addresses are not.
  -- Any other mode lets it through exactly when the URL has a host and the list is empty or has it.
  pub validate_egress_target_lem :
      (raw_url mode : String) (allow_hosts : List String)
      → is_empty (trim_space raw_url) ≡ false
      → let m = net.to_lower (trim_space mode) in
        let passes = validate_egress_target net raw_url mode allow_hosts ≡ ok tt in
        (m ≡ "deny_all" → ¬ passes)
        × (m ≡ "public_only"
            → passes ↔ (
                (host : String) × Names (trim_space raw_url) allow_hosts host
                × (¬ IsLocalName host)
                × IsExternalHost host))
        × (m ≢ "deny_all"
            → m ≢ "public_only"
            → passes ↔ ((host : String) × Names (trim_space raw_url) allow_hosts host))
  unfolding validate_egress_target Permits
  validate_egress_target_lem raw_url mode allow_hosts h =
      let url = trim_space raw_url in
      let (denied, public, other) = mode_read mode in
      (
        λ e p.
            ((permitted_iff deny_all url allow_hosts).0
              (rw (validate_egress_target, h, denied e) at p)).2,
        λ e. (
          λ p.
              let (host, n, (l, x)) =
                (permitted_iff public_only url allow_hosts).0
                  (rw (validate_egress_target, h, public e) at p) in
              (host, n, (not_local_iff host).0 l, IsExternalHost-of host x),
          λ (host, n, l, x).
              rw (validate_egress_target, h, public e)
                ((permitted_iff public_only url allow_hosts).1
                  (host, n, ((not_local_iff host).1 l, IsPublicHost-of host x))),
        ),
        λ d q. (
          λ p.
              let (host, n, u) =
                (permitted_iff open_mode url allow_hosts).0
                  (rw (validate_egress_target, h, other d q) at p) in
              (host, n),
          λ (host, n).
              rw (validate_egress_target, h, other d q)
                ((permitted_iff open_mode url allow_hosts).1 (host, n, tt)),
        ),
      )
