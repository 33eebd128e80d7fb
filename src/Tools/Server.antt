-- ===== src/Tools/Server.antt =====
-- The tool server (`ToolRpcServer` in src/py_code_act/tools/server.py).
pub mod Guarded
pub mod Preserved
use py_code_act.Prelude.{
  ℕ, zero, suc, ◌+◌, ◌-◌, ◌≤◌, ◌<◌, String, ◌≡◌, refl, sym, ap, ◌∙◌, ◌≢◌, ◌↔◌, ◌⊎◌, inl, inr, Bool,
  true, false, not, ◌&&◌, ◌||◌, Option, none, some, List, [], ◌∷◌, ◌++◌, map, append-nil,
  append_assoc, arith, ltb, leb, ◌==◌, if◌then◌else◌, Bool-cases, Option-cases, is_some, ◌>>=◌,
  Text, codes, is_nil, length, length-append, eq_text, eq_text_iff, join, join-append,
}
use py_code_act.Domain.Json.{
  Json, null, bool, str, arr, obj, Items, nil, Fields, end, field, get, get_or,
}
use py_code_act.Dict.{Dict}
use py_code_act.Tools.Registry.{
  ToolError, error_of, Value, Outcome, returned, raised, then_value, jsonable, ToolNamespace,
  invoke,
}

-- The server with the calls of its trace. `port` is the port of `_server`, where it listens.
pub record ToolRpcServer : Type 0 where
  pub token : Text
  pub port : Option ℕ
  pub tracing : Bool
  pub traced : List (String × Fields)

-- `__init__`, with a new token
unfoldable pub new_server : Text → Bool → ToolRpcServer
new_server token tracing = record { token = token; port = none; tracing = tracing; traced = [] }

-- `rotate_token`, with a new token
unfoldable pub rotate_token : ToolRpcServer → Text → ToolRpcServer
rotate_token server token = record server { token = token }

-- `start`, which listens on a port that the system gives
unfoldable pub start : ToolRpcServer → ℕ → ToolRpcServer
start server port = elim server.port [ some p ↦ server | none ↦ record server { port = some port } ]

unfoldable pub close : ToolRpcServer → ToolRpcServer
close server = record server { port = none }

abbrev pub trace_call : ToolRpcServer → String → Fields → ToolRpcServer
trace_call server event payload =
    if server.tracing
    then record server { traced = server.traced ++ (event, payload) ∷ [] }
    else server

-- What `readline` and `json.loads` give, or their exception.
pub data Received : Type 0 where
  message : Json → Received
  unreadable : ToolError → Received

-- The library's functions: `secrets.compare_digest`, which refuses texts that are not ASCII with a
-- TypeError, and `repr`.
pub record Library : Type 0 where
  pub compare_digest : Text → Text → Outcome Bool
  pub compare_digest-returned : (a b : Text) → compare_digest a b ≡ returned true → a ≡ b
  pub repr : Text → Text

-- A dict with the request's id.
abbrev pub succeeded : Json → Json → Fields
succeeded id result = field "id" id (field "ok" (bool true) (field "result" result end))

abbrev pub failed : Json → ToolError → Fields
failed id error =
    let described = field "type" (str error.kind) (field "message" (str error.message) end) in
    field "id" id (field "ok" (bool false) (field "error" (obj described) end))

abbrev pub response_of : Json → Outcome Json → Fields
response_of id (returned result) = succeeded id result
response_of id (raised error) = failed id error

-- A request's server, services and response.
pub record Handled (S : Type 0) : Type 0 where
  pub server : ToolRpcServer
  pub services : S
  pub response : Fields

-- The method, the arguments and the keyword arguments.
pub record Fetched : Type 0 where
  pub method : Text
  pub args : Items
  pub kwargs : Fields

abbrev fetched : Json → Json → Json → Outcome Fetched
fetched (str method) (arr args) (obj kwargs) =
    returned (record { method = method; args = args; kwargs = kwargs })
fetched _ _ _ = raised (error_of "ValueError" (codes "invalid tool RPC request fields"))

abbrev pub request_fields : Fields → Outcome Fetched
request_fields raw =
    fetched (get_or "method" null raw) (get_or "args" (arr nil) raw) (get_or "kwargs" (obj end) raw)

-- What reaches a server: requests, and rotations to new tokens.
pub data ServerStep : Type 0 where
  request : Received → ServerStep
  rotation : Text → ServerStep

module _ (py : Library) where
  abbrev compared : Outcome Bool → Outcome Unit
  compared (returned true) = returned tt
  compared (returned false) = raised (error_of "PermissionError" (codes "invalid tool RPC token"))
  compared (raised error) = raised error

  abbrev pub check_token : ToolRpcServer → Option Json → Outcome Unit
  check_token server (some (str supplied)) = compared (py.compare_digest supplied server.token)
  check_token server _ = raised (error_of "PermissionError" (codes "invalid tool RPC token"))

  module _ {S : Type 0} (registry : Dict (ToolNamespace S)) where
    abbrev pub traced_request : ToolRpcServer → Json → Fetched → ToolRpcServer
    traced_request server id call = trace_call server "tools.rpc_request" (
        field "id" id (
          field "method" (str call.method)
            (field "args" (arr call.args) (field "kwargs" (obj call.kwargs) end))))

    abbrev pub answered : ToolRpcServer → S → Json → Outcome Json → Handled S
    answered server s id result =
        let response = response_of id result in
        record {
          server = trace_call server "tools.rpc_response" response;
          services = s;
          response = response;
        }

    -- The call of the registry, and its result as JSON.
    abbrev pub dispatch : ToolRpcServer → S → Json → Outcome Fetched → Handled S
    dispatch server s id (raised error) = answered server s id (raised error)
    dispatch server s id (returned call) =
        let (services, outcome) = invoke py.repr registry call.method call.args call.kwargs s in
        answered (traced_request server id call) services id (then_value outcome jsonable)

    abbrev pub authorised : ToolRpcServer → S → Json → Outcome Unit → Fields → Handled S
    authorised server s id (raised error) raw = answered server s id (raised error)
    authorised server s id (returned _) raw = dispatch server s id (request_fields raw)

    -- `_handle`, up to the write of the response
    unfoldable pub handle : ToolRpcServer → S → Received → Handled S
    handle server s (unreadable error) = answered server s null (raised error)
    handle server s (message (obj raw)) =
        authorised server s (get_or "id" null raw) (check_token server (get "token" raw)) raw
    handle server s (message _) =
        answered server s null (raised (error_of "ValueError" (codes "request must be an object")))

    abbrev pub step : Handled S → ServerStep → Handled S
    step h (request received) = handle h.server h.services received
    step h (rotation token) = record h { server = rotate_token h.server token }

    unfoldable pub steps : Handled S → List ServerStep → Handled S
    steps h [] = h
    steps h (x ∷ later) = steps (step h x) later
