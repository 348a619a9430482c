-- ===== src/Api/Nodes.antt =====
-- The node handlers of internal/api/nodes.go over the node registry. A request's decoded body is an argument, `none`
-- where the decoder fails; `parse_time` is time.Parse of RFC 3339, and `recycler` the answer of DestroyNode, `none`
-- where the server has no recycler. The registry is the in-memory one, which can set states.
use browser_use.Base.{
  ℕ, String, ◌||◌, Option, none, some, List, [], ◌∷◌, if◌then◌else◌, str_eq, is_empty, trim_space,
  trim_prefix, split, Error, error_text, is_node_not_found, Result, ok, err,
}
use browser_use.Pool.Registry.{
  Registry, Node, NodeState, ready, draining, dead, register, heartbeat, set_state, list,
  parse_node_state,
}

pub record RegisterNodeRequest : Type 0 where
  pub node_id : String
  pub address : String
  pub version : String
  pub booted : String

pub record HeartbeatNodeRequest : Type 0 where
  pub state : String
  pub heartbeat : String

pub data NodeReply : Type 0 where
  node_error : ℕ → String → String → NodeReply
  node_reply : ℕ → Node → NodeReply
  nodes_reply : List Node → NodeReply

abbrev pub only_method : String → String → Registry → Registry × NodeReply → Registry × NodeReply
only_method want method r answer =
    if str_eq method want
    then answer
    else (r, node_error 405 "method_not_allowed" "method not allowed")

abbrev pub bad_json : NodeReply
bad_json = node_error 400 "invalid_json" "request body must be valid JSON"

-- `range` is the nodes in the order in which the registry's map is ranged over.
unfoldable pub handle_nodes : Registry → String → List Node → Registry × NodeReply
handle_nodes r method range = only_method "GET" method r (r, nodes_reply (list range))

-- An error of the registry: 404 for an unknown node, or else 400 with the code.
abbrev pub not_found_or : String → Error → NodeReply
not_found_or kind e =
    if is_node_not_found e
    then node_error 404 "not_found" (error_text e)
    else node_error 400 kind (error_text e)

-- The registry and the answer after a call that returns a node.
abbrev pub answered :
    Registry → (Error → NodeReply) → ℕ → Result (Registry × Node) → Registry × NodeReply
answered r failing status (ok (next, node)) = (next, node_reply status node)
answered r failing status (err e) = (r, failing e)

unfoldable pub handle_node_set_state :
    Registry → String → String → NodeState → ℕ → Registry × NodeReply
handle_node_set_state r method node_id state now =
    only_method "POST" method r
      (answered r (not_found_or "set_state_failed") 200 (set_state r node_id (some state) now now))

-- The part of handleNodeRecycle behind the first SetState, for the registry as it is once DestroyNode answers.
unfoldable pub recycled : Registry → String → Result (Unit {0}) → ℕ → Registry × NodeReply
recycled r node_id (err e) now = (r, node_error 502 "destroy_failed" (error_text e))
recycled r node_id (ok u) now =
    answered r (not_found_or "set_state_failed") 200 (set_state r node_id (some dead) now now)

-- `meanwhile` is what other callers do to the registry while DestroyNode runs.
unfoldable pub handle_node_recycle :
    Registry
    → String
    → String
    → Option (Result (Unit {0}))
    → (Registry → Registry)
    → ℕ
    → Registry × NodeReply
handle_node_recycle r method node_id none meanwhile now =
    only_method "POST" method r
      (r, node_error 501 "unsupported_operation" "node recycle is not supported in this mode")
handle_node_recycle r method node_id (some destroyed) meanwhile now =
    only_method "POST" method r (elim (set_state r node_id (some draining) now now) [
      | ok (next, node) ↦ recycled (meanwhile next) node_id destroyed now
      | err e ↦
          if is_node_not_found e
          then recycled (meanwhile r) node_id destroyed now
          else (r, node_error 400 "set_state_failed" (error_text e))
    ])

module _ (parse_time : String → Option ℕ) where
  unfoldable pub parse_rfc3339 : String → Option ℕ
  parse_rfc3339 value =
      if is_empty (trim_space value) then some 0 else parse_time (trim_space value)

  unfoldable pub handle_node_register :
      Registry → String → Option RegisterNodeRequest → ℕ → Registry × NodeReply
  handle_node_register r method none now = only_method "POST" method r (r, bad_json)
  handle_node_register r method (some req) now =
      only_method "POST" method r (elim (parse_rfc3339 req.booted) [
        | none ↦ (r, node_error 400 "invalid_booted_at" "booted_at must be RFC3339")
        | some booted ↦
            answered r (λ e. node_error 400 "register_failed" (error_text e)) 201
              (register r
                (record {
                  node_id = trim_space req.node_id;
                  address = trim_space req.address;
                  version = trim_space req.version;
                  booted = booted;
                })
                now)
      ])

  unfoldable pub handle_node_heartbeat :
      Registry → String → String → Option HeartbeatNodeRequest → ℕ → Registry × NodeReply
  handle_node_heartbeat r method node_id none now = only_method "POST" method r (r, bad_json)
  handle_node_heartbeat r method node_id (some req) now =
      only_method "POST" method r (elim (parse_rfc3339 req.heartbeat) [
        | none ↦ (r, node_error 400 "invalid_heartbeat_at" "heartbeat_at must be RFC3339")
        | some at ↦ elim (parse_node_state req.state) [
          | err e ↦ (r, node_error 400 "invalid_state" (error_text e))
          | ok state ↦ answered r (not_found_or "heartbeat_failed") 200 (
              heartbeat r
                (record { node_id = node_id; state = some state; at = at; leased_until = 0 }) now)
        ]
      ])

  -- What a request under /v1/nodes/ carries beside its path.
  pub record NodeRequest : Type 0 where
    pub method : String
    pub body : Option HeartbeatNodeRequest
    pub recycler : Option (Result (Unit {0}))
    pub meanwhile : Registry → Registry

  unfoldable pub node_operation :
      Registry → NodeRequest → String → String → ℕ → Registry × NodeReply
  node_operation r q node_id action now =
      if str_eq action "heartbeat"
      then handle_node_heartbeat r q.method node_id q.body now
      else if str_eq action "drain"
      then handle_node_set_state r q.method node_id draining now
      else if str_eq action "activate"
      then handle_node_set_state r q.method node_id ready now
      else if str_eq action "recycle"
      then handle_node_recycle r q.method node_id q.recycler q.meanwhile now
      else (r, node_error 404 "not_found" "route not found")

  unfoldable pub by_node_parts : Registry → NodeRequest → List String → ℕ → Registry × NodeReply
  by_node_parts r q (id ∷ action ∷ []) now =
      if is_empty (trim_space id) || is_empty (trim_space action)
      then (
        r,
        node_error 400 "invalid_node_path"
            "expected /v1/nodes/{id}/{heartbeat|drain|activate|recycle}",
      )
      else node_operation r q (trim_space id) (trim_space action) now
  by_node_parts r q parts now = (
    r,
    node_error 400 "invalid_node_path" "expected /v1/nodes/{id}/{heartbeat|drain|activate|recycle}",
  )

  unfoldable pub handle_node_by_id : Registry → NodeRequest → String → ℕ → Registry × NodeReply
  handle_node_by_id r q path now =
      by_node_parts r q (split b'/' (trim_prefix path "/v1/nodes/")) now
