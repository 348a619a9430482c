-- ===== src/Pool/Registry.antt =====
-- InMemoryRegistry (internal/pool/types.go, registry.go). `now` is the clock's reading, and the instant 0
-- is Go's zero time. A NodeState is one of the five that ParseNodeState lets through, and the empty
-- text, which the calls take for ready, is `none`.
use browser_use.Base.{
  ℕ, String, Bool, true, false, not, Option, none, some, List, [], ◌∷◌, ltb, if◌then◌else◌, time_or,
  is_zero, str_eq, is_empty, trim_space, to_lower, Dict, lookup, insert, sort_slice, plain,
  node_not_found, Result, ok, err, ◌>>◌, guard,
}

pub data NodeState : Type 0 where
  warming ready leased draining dead : NodeState

pub record Node : Type 0 where
  pub id : String
  pub address : String
  pub version : String
  pub state : NodeState
  pub booted_at : ℕ
  pub last_heartbeat : ℕ
  pub leased_until : ℕ
  pub created_at : ℕ
  pub updated_at : ℕ

pub record RegisterInput : Type 0 where
  pub node_id : String
  pub address : String
  pub version : String
  pub booted : ℕ

pub record HeartbeatInput : Type 0 where
  pub node_id : String
  pub state : Option NodeState
  pub at : ℕ
  pub leased_until : ℕ

-- InMemoryRegistry is its map of nodes.
abbrev pub Registry : Type 0
Registry = Dict Node

abbrev pub is_ready : NodeState → Bool
is_ready ready = true
is_ready _ = false

abbrev pub is_leased : NodeState → Bool
is_leased leased = true
is_leased _ = false

abbrev pub is_draining : NodeState → Bool
is_draining draining = true
is_draining _ = false

abbrev pub is_dead : NodeState → Bool
is_dead dead = true
is_dead _ = false

abbrev pub state_or_ready : Option NodeState → NodeState
state_or_ready none = ready
state_or_ready (some s) = s

-- `Node{ID: nodeID, CreatedAt: now}`, where there is no node yet.
abbrev pub known_node : Registry → String → ℕ → Node
known_node r id now = elim (lookup id r) [
  | some n ↦ n
  | none ↦ record {
    id = id;
    address = "";
    version = "";
    state = warming;
    booted_at = 0;
    last_heartbeat = 0;
    leased_until = 0;
    created_at = now;
    updated_at = 0;
  }
]

unfoldable pub registered : Node → RegisterInput → ℕ → Node
registered n input now = record n {
  address = trim_space input.address;
  version = trim_space input.version;
  booted_at = time_or input.booted now;
  state = ready;
  last_heartbeat = now;
  leased_until = 0;
  updated_at = now;
}

unfoldable pub register : Registry → RegisterInput → ℕ → Result (Registry × Node)
unfolding registered
register r input now = do
  let id = trim_space input.node_id
  guard (not (is_empty id)) (plain "node_id is required")
  guard (not (is_empty (trim_space input.address))) (plain "address is required")
  let n = registered (known_node r id now) input now
  ok (insert id n r, n)

-- The state that a heartbeat leaves: draining and dead outlast a report of ready.
unfoldable pub reported : NodeState → NodeState → NodeState
reported draining ready = draining
reported dead ready = dead
reported old new = new

-- The node after a heartbeat of state `s` at the instant `at`.
unfoldable pub beaten : Node → NodeState → ℕ → ℕ → Node
beaten n s at leased_until = record n {
  state = s;
  last_heartbeat = at;
  leased_until =
      if is_leased s then (if is_zero leased_until then n.leased_until else leased_until) else 0;
  updated_at = at;
}

unfoldable pub heartbeat : Registry → HeartbeatInput → ℕ → Result (Registry × Node)
unfolding reported beaten
heartbeat r input now = do
  let id = trim_space input.node_id
  guard (not (is_empty id)) (plain "node_id is required")
  elim (lookup id r) [
    | none ↦ err node_not_found
    | some old ↦
        let n =
          beaten old (reported old.state (state_or_ready input.state)) (time_or input.at now)
            input.leased_until in
        ok (insert id n r, n)
  ]

unfoldable pub set : Node → NodeState → ℕ → Node
set n s at = record n {
  state = s;
  last_heartbeat = at;
  leased_until = if is_leased s then n.leased_until else 0;
  updated_at = at;
}

unfoldable pub set_state : Registry → String → Option NodeState → ℕ → ℕ → Result (Registry × Node)
unfolding set
set_state r node_id state at now = do
  let id = trim_space node_id
  guard (not (is_empty id)) (plain "node_id is required")
  elim (lookup id r) [
    | none ↦ err node_not_found
    | some old ↦ let n = set old (state_or_ready state) (time_or at now) in ok (insert id n r, n)
  ]

abbrev pub earlier : Node → Node → Bool
earlier a b = ltb a.created_at b.created_at

-- `range` is the nodes of the map in the order in which Go ranges over them.
unfoldable pub list : List Node → List Node
list range = sort_slice earlier range

-- The empty text means ready.
unfoldable pub parse_node_state : String → Result NodeState
parse_node_state value =
    let raw = trim_space (to_lower value) in
    if is_empty raw
    then ok ready
    else if str_eq raw "warming"
    then ok warming
    else if str_eq raw "ready"
    then ok ready
    else if str_eq raw "leased"
    then ok leased
    else if str_eq raw "draining"
    then ok draining
    else if str_eq raw "dead"
    then ok dead
    else err (plain "invalid node state")

-- A history of calls: the registry's mutex makes each of them one step.
pub data Call : Type 0 where
  registers : RegisterInput → ℕ → Call
  beats : HeartbeatInput → ℕ → Call
  sets : String → Option NodeState → ℕ → ℕ → Call

abbrev pub after : Registry → Result (Registry × Node) → Registry
after r (ok (s, n)) = s
after r (err e) = r

unfoldable pub step : Registry → Call → Registry
step r (registers i now) = after r (register r i now)
step r (beats i now) = after r (heartbeat r i now)
step r (sets id s at now) = after r (set_state r id s at now)

unfoldable pub run : Registry → List Call → Registry
run r [] = r
run r (c ∷ cs) = run (step r c) cs
