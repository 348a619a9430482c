-- ===== src/Agent/Egress.antt =====
-- The egress policy of cmd/node-agent/main.go: normalizeEgressMode, validateEgressTarget, hostAllowed,
-- isLocalHostname, isPrivateOrLocalIP and parseCSV. Go's net/url, netip, resolver and strings.ToLower are the fields of `Net`; `lower` is the last where it stands alone.
use Prim.Native.String.{◌++◌}
use browser_use.Base.{
  String, Bool, true, false, not, ◌&&◌, ◌||◌, Option, none, some, List, [], ◌∷◌, if◌then◌else◌,
  str_eq, is_empty, trim_space, has_prefix, has_suffix, trim_prefix, split, is_one_of, plain,
  wrapped, error_text, Result, ok, err,
}

-- url.Parse with Hostname, netip.ParseAddr, LookupNetIP, the tests that isPrivateOrLocalIP makes of an unmapped
-- address, fmt's %q, and strings.ToLower, which knows all of Unicode.
pub record Net (Addr : Type 0) : Type 0 where
  pub hostname : String → Result String
  pub parse_addr : String → Option Addr
  pub lookup_net_ip : String → Result (List Addr)
  pub unmap : Addr → Addr
  pub is_private : Addr → Bool
  pub is_loopback : Addr → Bool
  pub is_link_local_multicast : Addr → Bool
  pub is_link_local_unicast : Addr → Bool
  pub is_multicast : Addr → Bool
  pub is_unspecified : Addr → Bool
  pub in_cgnat : Addr → Bool
  pub addr_text : Addr → String
  pub quote : String → String
  pub to_lower : String → String

pub data EgressMode : Type 0 where
  open_mode public_only deny_all : EgressMode

-- `lower` is strings.ToLower.
unfoldable pub normalize_egress_mode : (String → String) → String → EgressMode
normalize_egress_mode lower raw =
    let mode = lower (trim_space raw) in
    if str_eq mode "public_only"
    then public_only
    else if str_eq mode "deny_all"
    then deny_all
    else open_mode

-- An entry without a leading "*.".
unfoldable pub base_of : String → String
base_of candidate = if has_prefix candidate "*." then trim_prefix candidate "*." else candidate

unfoldable pub host_matches : String → String → Bool
unfolding base_of
host_matches target candidate =
    str_eq target (base_of candidate) || has_suffix target ("." ++ base_of candidate)

unfoldable pub host_allowed : (String → String) → String → List String → Bool
host_allowed lower host [] = false
host_allowed lower host (item ∷ items) =
    let rest = host_allowed lower host items in
    let candidate = lower (trim_space item) in
    if is_empty candidate
    then rest
    else if host_matches (lower (trim_space host)) candidate
    then true
    else rest

unfoldable pub is_local_hostname : (String → String) → String → Bool
is_local_hostname lower host =
    is_one_of (lower (trim_space host)) ("localhost" ∷ "localhost.localdomain" ∷ [])

abbrev pub is_nil {ℓ} : {A : Type ℓ} → List A → Bool
is_nil [] = true
is_nil (x ∷ xs) = false

unfoldable pub parse_csv : List String → List String
parse_csv [] = []
parse_csv (part ∷ parts) =
    let rest = parse_csv parts in
    if is_empty (trim_space part) then rest else trim_space part ∷ rest

-- parseCSV
unfoldable pub parse_list : String → List String
unfolding parse_csv
parse_list raw = parse_csv (split b',' raw)

module _ {Addr : Type 0} (net : Net Addr) where
  unfoldable pub is_private_or_local_ip : Addr → Bool
  is_private_or_local_ip ip =
      let addr = net.unmap ip in
      if net.is_private addr
        || net.is_loopback addr
        || net.is_link_local_multicast addr
        || net.is_link_local_unicast addr
        || net.is_multicast addr
        || net.is_unspecified addr
      then true
      else net.in_cgnat addr

  -- `for _, ip := range addrs { if isPrivateOrLocalIP(ip) { return … } }`
  unfoldable pub check_addrs : String → List Addr → Result (Unit {0})
  check_addrs host [] = ok tt
  check_addrs host (ip ∷ ips) =
      if is_private_or_local_ip ip
      then err (
          plain (
            "egress policy blocked host "
            ++ net.quote host
            ++ " resolved to local/private ip "
            ++ net.addr_text ip))
      else check_addrs host ips

  -- The part of validateEgressTarget behind the mode public_only.
  unfoldable pub check_public : String → Result (Unit {0})
  check_public host =
      if is_local_hostname net.to_lower host
      then err (plain ("egress policy blocked local/private host " ++ net.quote host))
      else elim (net.parse_addr host) [
        | some ip ↦
            if is_private_or_local_ip ip
            then err (plain ("egress policy blocked local/private ip " ++ net.quote host))
            else ok tt
        | none ↦ elim (net.lookup_net_ip host) [
          | err e ↦ err (
              plain (
                "egress policy blocked host "
                ++ net.quote host
                ++ " (dns lookup failed: "
                ++ error_text e
                ++ ")"))
          | ok addrs ↦ check_addrs host addrs
        ]
      ]

  abbrev pub check_mode : EgressMode → String → Result (Unit {0})
  check_mode public_only host = check_public host
  check_mode mode host = ok tt

  -- The part behind the URL's host.
  unfoldable pub check_host : EgressMode → String → List String → String → Result (Unit {0})
  check_host mode trimmed allow_hosts host =
      if is_empty host
      then err (plain ("egress policy blocked navigation: empty host in url " ++ net.quote trimmed))
      else if not (is_nil allow_hosts) && not (host_allowed net.to_lower host allow_hosts)
      then err (
          plain (
            "egress policy blocked host "
            ++ net.quote host
            ++ " (not in NODE_AGENT_EGRESS_ALLOW_HOSTS)"))
      else check_mode mode host

  unfoldable pub check_parsed : EgressMode → String → List String → Result (Unit {0})
  check_parsed mode trimmed allow_hosts = elim (net.hostname trimmed) [
    | err e ↦ err (wrapped ("invalid url " ++ net.quote trimmed) e)
    | ok name ↦ check_host mode trimmed allow_hosts (net.to_lower (trim_space name))
  ]

  unfoldable pub check_url : EgressMode → String → List String → Result (Unit {0})
  check_url deny_all trimmed allow_hosts =
      err (plain ("egress policy blocked navigation: mode=deny_all url=" ++ net.quote trimmed))
  check_url mode trimmed allow_hosts = check_parsed mode trimmed allow_hosts

  unfoldable pub validate_egress_target : String → String → List String → Result (Unit {0})
  validate_egress_target raw_url mode allow_hosts =
      if is_empty (trim_space raw_url)
      then ok tt
      else check_url (normalize_egress_mode net.to_lower mode) (trim_space raw_url) allow_hosts
