-- ===== src/Tools/Server/Guarded.antt =====
-- Who can call a service (src/py_code_act/tools/server.py and namespace.py).
use py_code_act.Prelude.{
  String, ◌≡◌, refl, ap, ◌∙◌, ◌⊎◌, inl, inr, true, false, Option, none, some, List, [], ◌∷◌, arith,
  Bool-cases, Option-cases, Text,
}
use py_code_act.Domain.Json.{Json, null, bool, int, real, str, arr, obj, Fields, get, get_or}
use py_code_act.Dict.{Dict, lookup}
use py_code_act.Observability.{member}
use py_code_act.Tools.Registry.{
  ToolError, Value, Outcome, returned, raised, then_value, jsonable, ToolNamespace, split_dot,
  invoke,
}
use py_code_act.Tools.Server.{
  ToolRpcServer, rotate_token, trace_call, Received, message, unreadable, Library, response_of,
  Handled, Fetched, request_fields, check_token, answered, dispatch, traced_request, authorised,
  handle, ServerStep, request, rotation, step, steps,
}

Outcome-cases :
    {A : Type 0} (o : Outcome A) → ((a : A) × (o ≡ returned a)) ⊎ ((e : ToolError) × (o ≡ raised e))
Outcome-cases (returned a) = inl (a, refl)
Outcome-cases (raised e) = inr (e, refl)

-- What `invoke` does where it calls a method: the namespace is registered, it lists the method, and
-- the arguments bind.
pub record IsCall {S : Type 0} (registry : Dict (ToolNamespace S)) (call : Fetched) (s : S)
    (r : S × Outcome Value) : Type 0 where
  pub namespace_name : Text
  pub method : Text
  pub namespace : ToolNamespace S
  pub arguments : Fields
  pub dotted : split_dot call.method ≡ some (namespace_name, method)
  pub found : lookup namespace_name registry ≡ some namespace
  pub listed : member method namespace.methods ≡ true
  pub bound : namespace.bind method call.args call.kwargs ≡ returned arguments
  pub result : r ≡ namespace.call method arguments s

module _ (py : Library) {S : Type 0} (registry : Dict (ToolNamespace S)) where
  abbrev Raises : S → S × Outcome Value → Type 0
  Raises s r = (e : ToolError) × (r ≡ (s, raised e))

  invoke-cases :
      (call : Fetched) (s : S)
      → IsCall registry call s (invoke py.repr registry call.method call.args call.kwargs s)
        ⊎ Raises s (invoke py.repr registry call.method call.args call.kwargs s)
  unfolding invoke
  invoke-cases call s = elim (Option-cases (split_dot call.method)) [
    | inl e ↦ rw (invoke, e) (inr (_, refl))
    | inr ((name, method), e) ↦ elim (Option-cases (lookup name registry)) [
      | inl l ↦ rw (invoke, e, l) (inr (_, refl))
      | inr (namespace, l) ↦ elim (Bool-cases (member method namespace.methods)) [
        | inr m ↦ rw (invoke, e, l, m) (inr (_, refl))
        | inl m ↦ elim (Outcome-cases (namespace.bind method call.args call.kwargs)) [
          | inr (x, b) ↦ rw (invoke, e, l, m, b) (inr (_, refl))
          | inl (arguments, b) ↦
              rw (invoke, e, l, m, b)
                (inl (record {
                  namespace_name = name;
                  method = method;
                  namespace = namespace;
                  arguments = arguments;
                  dotted = e;
                  found = l;
                  listed = m;
                  bound = b;
                  result = refl;
                }))
        ]
      ]
    ]
  ]

  check_token-supplied :
      (server : ToolRpcServer) (o : Option Json)
      → check_token py server o ≡ returned tt
      → o ≡ some (str server.token)
  check_token-supplied server (some (str supplied)) h =
      elim (Outcome-cases (py.compare_digest supplied server.token)) [
        | inl (true, e) ↦
            ap (λ (t : Text). some (str t)) (py.compare_digest-returned supplied server.token e)
        | inl (false, e) ↦ absurd (ground arith)
        | inr (x, e) ↦ absurd (ground arith)
      ]
  check_token-supplied server none h = absurd (ground arith)
  check_token-supplied server (some v) h = absurd (ground arith)

  -- A request that presents the token.
  pub record Presents (token : Text) (received : Received) : Type 0 where
    pub raw : Fields
    pub is_object : received ≡ message (obj raw)
    pub supplied : get "token" raw ≡ some (str token)

  -- A request that called a method: it presents the token, its fields have their types, the call is
  -- one that the registry allows, and the services and the response are those of the method.
  pub record IsServed (server : ToolRpcServer) (s : S) (received : Received) (h : Handled S)
      : Type 0 where
    pub presents : Presents server.token received
    pub call : Fetched
    pub outcome : S × Outcome Value
    pub fields : request_fields presents.raw ≡ returned call
    pub called : IsCall registry call s outcome
    pub services : h.services ≡ outcome.0
    pub response :
        h.response ≡ response_of (get_or "id" null presents.raw) (then_value outcome.1 jsonable)

  -- A request that called none.
  pub record IsRefused (s : S) (h : Handled S) : Type 0 where
    pub unchanged : h.services ≡ s
    pub not_ok : get "ok" h.response ≡ some (bool false)

  answered-IsRefused :
      (server : ToolRpcServer) (s : S) (id : Json) (e : ToolError)
      → IsRefused s (answered py registry server s id (raised e))
  answered-IsRefused server s id e = record { unchanged = refl; not_ok = refl }

  dispatch-cases :
      (server : ToolRpcServer) (s : S) (raw : Fields) (asked : Outcome Fetched)
      → get "token" raw ≡ some (str server.token)
      → request_fields raw ≡ asked
      → IsServed server s
          (message (obj raw))
          (dispatch py registry server s (get_or "id" null raw) asked)
        ⊎ IsRefused s (dispatch py registry server s (get_or "id" null raw) asked)
  dispatch-cases server s raw (raised e) supplied f = inr (answered-IsRefused server s _ e)
  dispatch-cases server s raw (returned call) supplied f = elim (invoke-cases call s) [
    | inl called ↦ inl (record {
      presents = record { raw = raw; is_object = refl; supplied = supplied };
      call = call;
      outcome = invoke py.repr registry call.method call.args call.kwargs s;
      fields = f;
      called = called;
      services = refl;
      response = refl;
    })
    | inr (e, refused) ↦ inr (record {
      unchanged = ap (λ (r : S × Outcome Value). r.0) refused;
      not_ok =
          ap
            (λ (r : S × Outcome Value).
              get "ok" (response_of (get_or "id" null raw) (then_value r.1 jsonable)))
            refused;
    })
  ]

  authorised-cases :
      (server : ToolRpcServer) (s : S) (raw : Fields) (allowed : Outcome Unit)
      → check_token py server (get "token" raw) ≡ allowed
      → IsServed server s
          (message (obj raw))
          (authorised py registry server s (get_or "id" null raw) allowed raw)
        ⊎ IsRefused s (authorised py registry server s (get_or "id" null raw) allowed raw)
  authorised-cases server s raw (raised e) c = inr (answered-IsRefused server s _ e)
  authorised-cases server s raw (returned tt) c =
      dispatch-cases server s raw (request_fields raw)
        (check_token-supplied server (get "token" raw) c) refl

  -- A request either presents the server's token and calls a method that a registered namespace
  -- lists, on arguments that bind, with the services and the response that the method gives, or it
  -- leaves the services as they are and is answered with an error.
  pub handle-cases :
      (server : ToolRpcServer) (s : S) (received : Received)
      → IsServed server s received (handle py registry server s received)
        ⊎ IsRefused s (handle py registry server s received)
  unfolding handle
  handle-cases server s (unreadable e) = inr (answered-IsRefused server s null e)
  handle-cases server s (message (obj raw)) =
      authorised-cases server s raw (check_token py server (get "token" raw)) refl
  handle-cases server s (message null) = inr (answered-IsRefused server s null _)
  handle-cases server s (message (bool b)) = inr (answered-IsRefused server s null _)
  handle-cases server s (message (int n)) = inr (answered-IsRefused server s null _)
  handle-cases server s (message (real t)) = inr (answered-IsRefused server s null _)
  handle-cases server s (message (str t)) = inr (answered-IsRefused server s null _)
  handle-cases server s (message (arr xs)) = inr (answered-IsRefused server s null _)

  trace_call-token :
      (server : ToolRpcServer) (event : String) (payload : Fields)
      → (trace_call server event payload).token ≡ server.token
  trace_call-token server event payload = elim (Bool-cases server.tracing) [
    | inl e ↦ rw e refl
    | inr e ↦ rw e refl
  ]

  dispatch-token :
      (server : ToolRpcServer) (s : S) (id : Json) (asked : Outcome Fetched)
      → (dispatch py registry server s id asked).server.token ≡ server.token
  dispatch-token server s id (raised e) = trace_call-token server _ _
  dispatch-token server s id (returned call) =
      trace_call-token (traced_request py registry server id call) _ _ ∙ trace_call-token server _ _

  authorised-token :
      (server : ToolRpcServer) (s : S) (id : Json) (allowed : Outcome Unit) (raw : Fields)
      → (authorised py registry server s id allowed raw).server.token ≡ server.token
  authorised-token server s id (raised e) raw = trace_call-token server _ _
  authorised-token server s id (returned _) raw = dispatch-token server s id (request_fields raw)

  handle-token :
      (server : ToolRpcServer) (s : S) (received : Received)
      → (handle py registry server s received).server.token ≡ server.token
  unfolding handle
  handle-token server s (message (obj raw)) =
      authorised-token server s _ (check_token py server (get "token" raw)) raw
  handle-token server s (message null) = trace_call-token server _ _
  handle-token server s (message (bool b)) = trace_call-token server _ _
  handle-token server s (message (int n)) = trace_call-token server _ _
  handle-token server s (message (real t)) = trace_call-token server _ _
  handle-token server s (message (str t)) = trace_call-token server _ _
  handle-token server s (message (arr xs)) = trace_call-token server _ _
  handle-token server s (unreadable e) = trace_call-token server _ _

  -- No request presents the token that is valid when it arrives.
  abbrev pub NonePresents : Text → List ServerStep → Type 0
  NonePresents token [] = Unit
  NonePresents token (request received ∷ later) =
      (¬ Presents token received) × NonePresents token later
  NonePresents token (rotation new ∷ later) = NonePresents new later

  -- Requests that do not present the token of their time, as those of a kernel that was replaced,
  -- leave the services as they are, however many there are and however often the token is rotated.
  pub steps-NonePresents :
      (h : Handled S) (xs : List ServerStep)
      → NonePresents h.server.token xs
      → (steps py registry h xs).services ≡ h.services
  unfolding steps rotate_token
  steps-NonePresents h [] n = refl
  steps-NonePresents h (rotation new ∷ later) n =
      steps-NonePresents (step py registry h (rotation new)) later n
  steps-NonePresents h (request received ∷ later) n =
      let next = handle py registry h.server h.services received in
      steps-NonePresents next later (rw (handle-token h.server h.services received) n.1)
      ∙ elim (handle-cases h.server h.services received) [
        | inl served ↦ absurd (n.0 served.presents)
        | inr refused ↦ refused.unchanged
      ]
