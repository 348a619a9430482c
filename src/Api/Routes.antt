-- ===== src/Api/Routes.antt =====
-- Where the task routes of internal/api/tasks.go lead: handleTasks, handleTaskAlias, handleTaskAliasByID and
-- handleTaskByID, with the session routes of internal/api/sessions.go. The handlers they call are in Api.Tasks.
use Prim.Native.String.{◌++◌}
use browser_use.Base.{
  ◌≡◌, ◌⊎◌, String, Bool, true, false, List, [], ◌∷◌, if◌then◌else◌, str_eq, is_empty, trim_space,
  contains, split, trim_prefix,
}

-- What a route calls, with the task or session id that it passes on.
pub data Target : Type 0 where
  lists_recent : Target
  creates_task : Bool → Target
  gets_task replays cancels lists_chain lists_replays : String → Target
  creates_session : Target
  deletes_session : String → Target
  bad_request not_found method_not_allowed : Target

-- `if r.Method != want { … method_not_allowed }`
abbrev pub only : String → String → Target → Target
only want method t = if str_eq method want then t else method_not_allowed

unfoldable pub handle_tasks : String → Target
handle_tasks method =
    if str_eq method "GET" then lists_recent else only "POST" method (creates_task false)

unfoldable pub handle_task_alias : String → Target
handle_task_alias method = only "POST" method (creates_task true)

unfoldable pub handle_task_alias_by_id : String → String → Target
handle_task_alias_by_id method path =
    let id = trim_space (trim_prefix path "/tasks/") in
    if is_empty id
    then bad_request
    else if contains id "/"
    then not_found
    else only "GET" method (gets_task id)

-- The part of handleTaskByID behind the id: the parts of the path after the first.
unfoldable pub task_operation : String → String → List String → Target
task_operation method id [] = only "GET" method (gets_task id)
task_operation method id (op ∷ []) =
    if str_eq op "replay"
    then only "POST" method (replays id)
    else if str_eq op "cancel"
    then only "POST" method (cancels id)
    else if str_eq op "replay_chain"
    then only "GET" method (lists_chain id)
    else if str_eq op "replays"
    then only "GET" method (lists_replays id)
    else not_found
task_operation method id (op ∷ more ∷ rest) = not_found

unfoldable pub by_parts : String → List String → Target
unfolding task_operation
by_parts method [] = bad_request
by_parts method (first ∷ rest) =
    if is_empty (trim_space first)
    then bad_request
    else task_operation method (trim_space first) rest

unfoldable pub handle_task_by_id : String → String → Target
unfolding by_parts
handle_task_by_id method path =
    if is_empty (trim_prefix path "/v1/tasks/")
    then bad_request
    else by_parts method (split b'/' (trim_prefix path "/v1/tasks/"))

unfoldable pub handle_sessions : String → Target
handle_sessions method = only "POST" method creates_session

unfoldable pub session_id_of : String → String
session_id_of path =
    if str_eq (trim_space (trim_prefix path "/v1/sessions/")) path
    then trim_space (trim_prefix path "/sessions/")
    else trim_space (trim_prefix path "/v1/sessions/")

unfoldable pub handle_session_by_id : String → String → Target
unfolding session_id_of
handle_session_by_id method path =
    if is_empty (session_id_of path)
    then bad_request
    else only "DELETE" method (deletes_session (session_id_of path))

-- The patterns of Server.Routes that lead to tasks and sessions.
pub data Route : Type 0 where
  sessions session_by_id task_alias task_alias_by_id tasks task_by_id : Route

-- The requests that a pattern of net/http's ServeMux selects: a path that is one of the pattern's texts, or
-- one that continues the pattern.
abbrev pub Selects : Route → String → Type 0
Selects sessions path = (path ≡ "/sessions") ⊎ (path ≡ "/v1/sessions")
Selects session_by_id path =
    (rest : String) × ((path ≡ "/sessions/" ++ rest) ⊎ (path ≡ "/v1/sessions/" ++ rest))
Selects task_alias path = path ≡ "/task"
Selects task_alias_by_id path = (rest : String) × (path ≡ "/tasks/" ++ rest)
Selects tasks path = path ≡ "/v1/tasks"
Selects task_by_id path = (rest : String) × (path ≡ "/v1/tasks/" ++ rest)

unfoldable pub dispatch : Route → String → String → Target
dispatch sessions method path = handle_sessions method
dispatch session_by_id method path = handle_session_by_id method path
dispatch task_alias method path = handle_task_alias method
dispatch task_alias_by_id method path = handle_task_alias_by_id method path
dispatch tasks method path = handle_tasks method
dispatch task_by_id method path = handle_task_by_id method path

-- Whether a target creates a session or a task, or cancels a task.
abbrev pub starts_or_stops : Target → Bool
starts_or_stops (creates_task wait) = true
starts_or_stops (replays id) = true
starts_or_stops (cancels id) = true
starts_or_stops creates_session = true
starts_or_stops _ = false
