-- ===== src/Tools/Server/Preserved.antt =====
-- What the services keep, the requests keep (src/py_code_act/tools/server.py and namespace.py).
use py_code_act.Prelude.{inl, inr, Option, none, some, List, [], ◌∷◌, Bool-cases, Text, eq_text}
use py_code_act.Domain.Json.{Fields}
use py_code_act.Dict.{Dict, set, lookup}
use py_code_act.Tools.Registry.{ToolNamespace, registry_onto, tool_registry}
use py_code_act.Tools.Server.{
  ToolRpcServer, Received, Library, Handled, handle, ServerStep, request, rotation, step, steps,
}
use py_code_act.Tools.Server.Guarded.{handle-cases}

module _ {S : Type 0} where
  abbrev pub AllNamespaces : (ToolNamespace S → Type 0) → List (ToolNamespace S) → Type 0
  AllNamespaces Q [] = Unit
  AllNamespaces Q (n ∷ ns) = Q n × AllNamespaces Q ns

  abbrev AllValues : (ToolNamespace S → Type 0) → Dict (ToolNamespace S) → Type 0
  AllValues Q [] = Unit
  AllValues Q ((k, n) ∷ d) = Q n × AllValues Q d

  AllValues-set :
      (Q : ToolNamespace S → Type 0) (k : Text) (n : ToolNamespace S) (d : Dict (ToolNamespace S))
      → Q n
      → AllValues Q d
      → AllValues Q (set k n d)
  unfolding set
  AllValues-set Q k n [] q a = (q, tt)
  AllValues-set Q k n ((j, m) ∷ d) q a = elim (Bool-cases (eq_text j k)) [
    | inl e ↦ rw e (q, a.1)
    | inr e ↦ rw e (a.0, AllValues-set Q k n d q a.1)
  ]

  AllValues-registry_onto :
      (Q : ToolNamespace S → Type 0) (d : Dict (ToolNamespace S)) (ns : List (ToolNamespace S))
      → AllValues Q d
      → AllNamespaces Q ns
      → AllValues Q (registry_onto d ns)
  unfolding registry_onto
  AllValues-registry_onto Q d [] a h = a
  AllValues-registry_onto Q d (n ∷ ns) a h =
      AllValues-registry_onto Q (set n.name n d) ns (AllValues-set Q n.name n d h.0 a) h.1

  abbrev OnSome : (ToolNamespace S → Type 0) → Option (ToolNamespace S) → Type 0
  OnSome Q none = Unit
  OnSome Q (some n) = Q n

  AllValues-lookup :
      (Q : ToolNamespace S → Type 0) (k : Text) (d : Dict (ToolNamespace S))
      → AllValues Q d
      → OnSome Q (lookup k d)
  unfolding lookup
  AllValues-lookup Q k [] a = tt
  AllValues-lookup Q k ((j, m) ∷ d) a = elim (Bool-cases (eq_text j k)) [
    | inl same ↦ rw same a.0
    | inr other ↦ rw other (AllValues-lookup Q k d a.1)
  ]

  -- Every method of a namespace keeps a property of the services.
  abbrev pub CallsKeep : (S → Type 0) → ToolNamespace S → Type 0
  CallsKeep P n =
      (method : Text) (arguments : Fields) (s : S) → P s → P (n.call method arguments s).0

  module _ (py : Library) (ns : List (ToolNamespace S)) (P : S → Type 0) where
    handle-CallsKeep :
        (server : ToolRpcServer) (s : S) (received : Received)
        → AllNamespaces (CallsKeep P) ns
        → P s
        → P (handle py (tool_registry ns) server s received).services
    handle-CallsKeep server s received keep p =
        elim (handle-cases py (tool_registry ns) server s received) [
          | inr refused ↦ rw refused.unchanged p
          | inl served ↦
              let c = served.called in
              let kept =
                AllValues-lookup (CallsKeep P) c.namespace_name (tool_registry ns)
                  (AllValues-registry_onto (CallsKeep P) [] ns tt keep) in
              let q : CallsKeep P c.namespace = rw c.found at kept in
              rw (served.services, c.result) (q c.method c.arguments s p)
        ]

    pub steps-CallsKeep :
        (h : Handled S) (xs : List ServerStep)
        → AllNamespaces (CallsKeep P) ns
        → P h.services
        → P (steps py (tool_registry ns) h xs).services
    unfolding steps
    steps-CallsKeep h [] keep p = p
    steps-CallsKeep h (rotation token ∷ later) keep p =
        steps-CallsKeep (step py (tool_registry ns) h (rotation token)) later keep p
    steps-CallsKeep h (request received ∷ later) keep p =
        steps-CallsKeep (handle py (tool_registry ns) h.server h.services received) later keep
          (handle-CallsKeep h.server h.services received keep p)
