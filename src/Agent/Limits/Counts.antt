-- ===== src/Agent/Limits/Counts.antt =====
-- What the actions of one step add to the cells, requests and protocol errors of a harness.
use py_code_act.Prelude.{
  ℕ, suc, ◌+◌, ◌≤◌, ◌≡◌, Bool, List, [], ◌∷◌, ◌++◌, arith, if◌then◌else◌, Text, length,
  length-append,
}
use py_code_act.Domain.Messages.{
  Message, assistant, protocol_error, ExecBlock, AssistantMessage, ProtocolErrorMessage,
}
use py_code_act.Domain.Events.{EventType, EventArgs, RuntimeEvent, exec_start}
use py_code_act.Agent.World.{World, RunConfig, ModelRequest}
use py_code_act.Agent.Monad.{draw, modify}
use py_code_act.Agent.Rules.{Keeps}
use py_code_act.Agent.Stream.{stream_assistant}
use py_code_act.Agent.Steady.Response.{Keeps-on_events, Keeps-on_end, Keeps-finish_message}
use py_code_act.Agent.Harness.{
  Harness, emit, append_message, ask_provider, run_cell, perform, keep_message,
}
use py_code_act.Agent.Execute.{execute, append_observation}
use py_code_act.Agent.Triples.{Leads, Leads-bind_keep, Leads-then_keep, Leads-then, Leads-bind}
use py_code_act.Agent.Steady.{
  Record, record_of, IsSteady, Holds, with_event, with_message, with_request, with_cell,
  Keeps-emit_of, Keeps-message_of, Keeps-perform, Keeps-new_id, Keeps-utc_now, starts_cell,
  is_protocol_error, primitive_rules, Keeps-set_state,
}
use py_code_act.Agent.Steady.Turns.{Keeps-append_observation, Keeps-on_cell_event}

abbrev pub count {ℓ} : {A : Type ℓ} → (A → Bool) → List A → ℕ
count p [] = 0
count p (x ∷ xs) = (if p x then 1 else 0) + count p xs

pub count-concat {ℓ} :
    {A : Type ℓ} (p : A → Bool) (xs : List A) (x : A)
    → count p (xs ++ x ∷ []) ≡ count p xs + (if p x then 1 else 0)
count-concat p [] x = omega arith
count-concat p (y ∷ xs) x = omega (arith, count-concat p xs x)

abbrev pub event_starts_cell : RuntimeEvent → Bool
event_starts_cell e = starts_cell e.type

-- At most so many runs of a cell, requests and protocol errors.
pub record Bounded (cells requests repairs : ℕ) (r : Record) : Type 0 where
  pub cells_within : length r.cells ≤ cells
  pub requests_within : length r.requests ≤ requests
  pub repairs_within : count is_protocol_error r.messages ≤ repairs

Bounded-event :
    (c a p : ℕ) (r : Record) (type : EventType) (args : EventArgs) (now : Text)
    → Bounded c a p r
    → Bounded c a p (with_event r type args now)
Bounded-event c a p r type args now h = record {
  cells_within = h.cells_within;
  requests_within = h.requests_within;
  repairs_within = h.repairs_within;
}

Bounded-message :
    (c a p : ℕ) (r : Record) (m : Message) (id now : Text)
    → Bounded c a p r
    → Bounded c a (p + (if is_protocol_error m then 1 else 0)) (with_message r m id now)
Bounded-message c a p r m id now h = record {
  cells_within = h.cells_within;
  requests_within = h.requests_within;
  repairs_within = omega (arith, count-concat is_protocol_error r.messages m);
}

Bounded-request :
    (c a p : ℕ) (r : Record) (q : ModelRequest)
    → Bounded c a p r
    → Bounded c (suc a) p (with_request r q)
Bounded-request c a p r q h = record {
  cells_within = h.cells_within;
  requests_within = omega (arith, h.requests_within, length-append r.requests (q ∷ []));
  repairs_within = h.repairs_within;
}

Bounded-cell :
    (c a p : ℕ) (r : Record) (code : Text)
    → Bounded c a p r
    → Bounded (suc c) a p (with_cell r code)
Bounded-cell c a p r code h = record {
  cells_within = omega (arith, h.cells_within, length-append r.cells (code ∷ []));
  requests_within = h.requests_within;
  repairs_within = h.repairs_within;
}

pub Bounded-weaken :
    {c a p c' a' p' : ℕ} (r : Record)
    → c ≤ c'
    → a ≤ a'
    → p ≤ p'
    → Bounded c a p r
    → Bounded c' a' p' r
Bounded-weaken r x y z h = omega arith

pub Bounded-IsSteady : (cells requests repairs : ℕ) → IsSteady (Bounded cells requests repairs)
Bounded-IsSteady c a p = record {
  event = λ r type args now other h. Bounded-event c a p r type args now h;
  entry = λ r payload id now h. record {
    cells_within = h.cells_within;
    requests_within = h.requests_within;
    repairs_within = h.repairs_within;
  };
  message = λ r m id now other h.
      Bounded-weaken _ (omega arith) (omega arith) (ground arith)
        (Bounded-message c a p r m id now h);
}

module _ {W : Type 0} where
  -- The harness is within these bounds.
  abbrev pub Within : ℕ → ℕ → ℕ → Harness W → Type 0
  Within c a p = Holds W (Bounded c a p)

module _ {W : Type 0} (world : World W) (config : RunConfig) where
  Keeps-start : (c a p : ℕ) (args : EventArgs) → Keeps (Within c a p) (emit world exec_start args)
  Keeps-start c a p args =
      Keeps-emit_of world exec_start args (λ r now h. Bounded-event c a p r exec_start args now h)

  pub Keeps-append_assistant :
      (c a p : ℕ) (m : AssistantMessage) → Keeps (Within c a p) (append_message world (assistant m))
  Keeps-append_assistant c a p m = Keeps-message_of world (assistant m) (λ r id now h.
      Bounded-weaken _ (omega arith) (omega arith) (omega arith)
        (Bounded-message c a p r (assistant m) id now h))

  Leads-ask_provider :
      (c a p : ℕ) (q : ModelRequest)
      → Leads (Within c a p) (Within c (suc a) p) (ask_provider world q)
  unfolding ask_provider draw
  Leads-ask_provider c a p q = record { at = λ h b. Bounded-request c a p (record_of h) q b }

  Leads-run_cell :
      (c a p : ℕ) (code : Text) → Leads (Within c a p) (Within (suc c) a p) (run_cell world code)
  unfolding run_cell draw
  Leads-run_cell c a p code = record { at = λ h b. Bounded-cell c a p (record_of h) code b }

  pub Leads-append_protocol_error :
      (c a p : ℕ) (m : ProtocolErrorMessage)
      → Leads (Within c a p) (Within c a (suc p)) (append_message world (protocol_error m))
  unfolding append_message keep_message modify
  Leads-append_protocol_error c a p m =
      let more : (h : Harness W) → Within c a p h → Within c a (suc p) h =
        λ h b. Bounded-weaken _ (omega arith) (omega arith) (omega arith) b in
      let steady = Bounded-IsSteady c a p in
      Leads-bind_keep _ _ more (Keeps-new_id world steady _) (λ id.
        Leads-bind_keep _ _ more (Keeps-utc_now world steady) (λ now.
          Leads-then_keep (perform world world.write_line)
            (keep_message world (protocol_error m) id now) more
            (Keeps-perform world steady world.write_line) (kept id now)))
    where
      kept :
          (id now : Text)
          → Leads (Within c a p) (Within c a (suc p)) (keep_message world (protocol_error m) id now)
      kept id now = record {
        at = λ h b.
            Bounded-weaken _ (omega arith) (omega arith) (omega arith)
              (Bounded-message c a p (record_of h) (protocol_error m) id now b);
      }

  ruleset leads_rules =
      (primitive_rules, Bounded-IsSteady, Leads-bind_keep, Leads-then_keep, Leads-then, Leads-bind)

  pub Leads-execute :
      (c a p : ℕ) (block : ExecBlock) (run_id turn_id : Text)
      → Leads (Within c a p) (Within (suc c) a p) (execute world block run_id turn_id)
  unfolding execute
  Leads-execute c a p block run_id turn_id =
      let more : (h : Harness W) → Within c a p h → Within (suc c) a p h =
        λ h b. Bounded-weaken _ (omega arith) (omega arith) (omega arith) b in
      let steady = Bounded-IsSteady c a p in
      let steady' = Bounded-IsSteady (suc c) a p in
      let start = Keeps-start c a p in
      search
        (
          leads_rules, more, start, Leads-run_cell, Keeps-set_state, Keeps-append_observation,
          Keeps-on_cell_event,
        )
        depth 24

  -- A response is one request, whatever comes of it.
  pub Leads-stream_assistant :
      (c a p : ℕ) (run_id turn_id : Text)
      → Leads (Within c a p) (Within c (suc a) p) (stream_assistant world config run_id turn_id)
  unfolding stream_assistant
  Leads-stream_assistant c a p run_id turn_id =
      let more : (h : Harness W) → Within c a p h → Within c (suc a) p h =
        λ h b. Bounded-weaken _ (omega arith) (omega arith) (omega arith) b in
      let steady = Bounded-IsSteady c a p in
      let steady' = Bounded-IsSteady c (suc a) p in
      search
        (
          leads_rules, more, Leads-ask_provider, Keeps-on_events, Keeps-on_end,
          Keeps-finish_message, Keeps-set_state,
        )
        depth 24

  pub Leads-append_observation :
      (c a p : ℕ) (m : ProtocolErrorMessage) (run_id turn_id role_name : Text)
      → Leads
          (Within c a p)
          (Within c a (suc p))
          (append_observation world (protocol_error m) run_id turn_id role_name)
  unfolding append_observation
  Leads-append_observation c a p m run_id turn_id role_name =
      let steady = Bounded-IsSteady c a (suc p) in search (leads_rules, Leads-append_protocol_error)
