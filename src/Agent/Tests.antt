-- ===== src/Agent/Tests.antt =====
-- The node agent's policy, clean-up and goal loop at concrete inputs.
use browser_use.Base.{
  ℕ, ◌+◌, ◌≤◌, some, lookup, ◌≢◌, String, ◌≡◌, refl, ◌↔◌, true, false, none, List, [], ◌∷◌, pos,
  length, All, is_space, trim_space, to_lower, is_one_of, ok, err, plain, contains_any,
}
use browser_use.Runner.Domains.{Hosts, normalized_host, mark_domain_blocked}
use browser_use.Agent.Egress.{
  Net, host_allowed, validate_egress_target, normalize_egress_mode, check_url, check_parsed,
  check_host, check_public, is_local_hostname, check_addrs, is_private_or_local_ip,
}
use browser_use.Agent.Listing.{IsListed, host_allowed_lem}
use browser_use.Agent.Policy.{Names, IsLocalName, IsExternalHost, validate_egress_target_lem}
use browser_use.Agent.Blocker.{page_text, challenges, classify_blocker, cooldown_needs_challenge}
use browser_use.Agent.Actions.{ExecuteAction, sanitize_planned_actions}
use browser_use.Agent.Plans.{IsClean, AreNew, sanitize_planned_actions_lem}
use browser_use.Agent.Rounds.{Limits, Answers, acts, begin, play}
use browser_use.Agent.Loop.{EndsWell, IsOver, goal_loop_ends}

-- What the tests compute with.
program : Unit {0}
unfolding trim_space is_space to_lower is_one_of host_allowed normalized_host
program = tt

abbrev allow_list : List String
allow_list = " *.Example.com " ∷ "example.org" ∷ []

host_allowed_lem_example :
    (host_allowed to_lower "www.example.com" allow_list ≡ true)
    ↔ IsListed to_lower "www.example.com" allow_list
host_allowed_lem_example = host_allowed_lem to_lower "www.example.com" allow_list

-- A network in which every name resolves to the address 10, which is private.
abbrev net : Net ℕ
net = record {
  hostname = λ s. ok "example.com";
  parse_addr = λ s. none;
  lookup_net_ip = λ s. ok (10 ∷ []);
  unmap = λ a. a;
  is_private = λ a. true;
  is_loopback = λ a. false;
  is_link_local_multicast = λ a. false;
  is_link_local_unicast = λ a. false;
  is_multicast = λ a. false;
  is_unspecified = λ a. false;
  in_cgnat = λ a. false;
  addr_text = λ a. "10.0.0.1";
  quote = λ s. s;
  to_lower = to_lower;
}

private_is_blocked :
    validate_egress_target net "https://example.com" "Public_Only" []
    ≡ err (plain "egress policy blocked host example.com resolved to local/private ip 10.0.0.1")
unfolding program validate_egress_target check_url normalize_egress_mode check_parsed check_host
    check_public is_local_hostname check_addrs is_private_or_local_ip
private_is_blocked = refl

validate_egress_target_lem_example :
    let m = to_lower (trim_space "public_only") in
    let passes = validate_egress_target net "https://example.com" "public_only" [] ≡ ok tt in
    (m ≡ "deny_all" → ¬ passes)
    × (m ≡ "public_only"
        → passes ↔ (
            (host : String) × Names net (trim_space "https://example.com") [] host
            × (¬ IsLocalName net host)
            × IsExternalHost net host))
    × (m ≢ "deny_all"
        → m ≢ "public_only"
        → passes ↔ ((host : String) × Names net (trim_space "https://example.com") [] host))
unfolding program
validate_egress_target_lem_example =
    validate_egress_target_lem net "https://example.com" "public_only" [] refl

abbrev same_host : Hosts
same_host = record { hostname = λ s. some s; to_lower = to_lower }

cooldown_needs_challenge_example :
    let found = contains_any (page_text "https://a.test" "Access Denied" "") challenges in
    let kind = (classify_blocker "https://a.test" "Access Denied" "").0 in
    let n = mark_domain_blocked same_host 180 [] "a.test" kind 20 in
    (found ≡ true
      → (until : ℕ) × (lookup (normalized_host same_host "a.test") n ≡ some until)
        × (20 + 180 ≤ until))
    × (found ≡ false → n ≡ [])
unfolding program
cooldown_needs_challenge_example =
    cooldown_needs_challenge same_host 180 [] "a.test" 20 refl "https://a.test" "Access Denied" ""

abbrev click : ExecuteAction
click = record {
  kind = " Click ";
  selector = "#go";
  text = "";
  pixels = pos 0;
  timeout_ms = pos 90000;
  delay_ms = pos 0;
}

sanitize_planned_actions_lem_example :
    (length (sanitize_planned_actions (click ∷ click ∷ [])) ≤ 12)
    × All IsClean (sanitize_planned_actions (click ∷ click ∷ []))
    × AreNew [] (sanitize_planned_actions (click ∷ click ∷ []))
sanitize_planned_actions_lem_example = sanitize_planned_actions_lem (click ∷ click ∷ [])

abbrev limits : Limits
limits = record {
  max_steps = 3;
  max_failures = 1;
  max_repeat_actions = 2;
  max_repeat_snapshots = 2;
}

abbrev answer : Answers
answer = record {
  decision = ok (acts click);
  succeeds = true;
  is_blocked = false;
  snapshot = ok "p";
}

abbrev rounds : List Answers
rounds = answer ∷ record answer { decision = err (plain "busy") } ∷ answer ∷ []

goal_loop_ends_example :
    EndsWell limits 3 (play limits rounds (begin "p") 1) × IsOver (play limits rounds (begin "p") 1)
goal_loop_ends_example = goal_loop_ends limits rounds "p" refl
