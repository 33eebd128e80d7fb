-- ===== src/Agent/Safe.antt =====
-- When a response's code is run.
use py_code_act.Prelude.{
  ℕ, ◌<◌, ◌≡◌, refl, ◌∙◌, ◌⊎◌, inl, inr, Bool, true, false, Option, none, some, arith, leb,
  if◌then◌else◌, Bool-cases, Text,
}
use py_code_act.Domain.Messages.{Message, StopReason, stop, aborted, ExecBlock, AssistantMessage}
use py_code_act.Domain.Events.{create}
use py_code_act.Agent.Monad.{Action}
use py_code_act.Agent.World.{World, RunConfig}
use py_code_act.Agent.Harness.{Harness, append_message}
use py_code_act.Agent.Stream.{Streamed}
use py_code_act.Agent.Execute.{append_observation}
use py_code_act.Agent.Loop
use py_code_act.Agent.Loop.{Next, ProtocolFailure, is_failed, is_length, is_error, protocol_failure}
use py_code_act.Agent.Rules.{Keeps}
use py_code_act.Agent.Steady.{Record, IsSteady, Holds, Keeps-message_of, primitive_rules}
use py_code_act.Agent.Steady.Turns.{Keeps-end_turn, Keeps-final_turn, Keeps-failed_turn}
use py_code_act.Agent.Limits.{cells_started}
use py_code_act.Agent.Limits.Counts.{count, count-concat, event_starts_cell}

-- So many cells have been started.
abbrev HasStarted : ℕ → Record → Type 0
HasStarted c r = count event_starts_cell r.events ≡ c

HasStarted-IsSteady : (c : ℕ) → IsSteady (HasStarted c)
unfolding create
HasStarted-IsSteady c = record {
  event = λ r type args now other h.
      count-concat event_starts_cell r.events (create r.factory type args now).1
      ∙ rw (other, h) (omega arith);
  entry = λ r payload id now h. h;
  message = λ r m id now other h. h;
}

-- The response may be run: the provider finished it with `stop`, the parser has no error, there is
-- a block, and the run has executions left.
pub record MayRun (config : RunConfig) (s : Streamed) (executions : ℕ) : Type 0 where
  pub block : ExecBlock
  pub has_block : s.exec_block ≡ some block
  pub stop_reason : s.assistant.stop_reason ≡ stop
  pub no_error : is_error s.parser_error ≡ false
  pub has_room : executions < config.max_executions

is_stop : (r : StopReason) → is_failed r ≡ false → is_length r ≡ false → r ≡ stop
is_stop stop f l = refl
is_stop StopReason.length f l = ground arith
is_stop StopReason.error f l = ground arith
is_stop aborted f l = ground arith

no_failure :
    (r : StopReason) (e : Option Text) (b : Option ExecBlock)
    → protocol_failure r e b ≡ none
    → is_error e ≡ false
unfolding protocol_failure
no_failure r e b h = elim (Bool-cases (is_error e)) [ inl wrong ↦ ground arith | inr right ↦ right ]

module _ {W : Type 0} (world : World W) (config : RunConfig) (run_id turn_id : Text)
    (executions repairs : ℕ) where
  abbrev Quiet : Action (Harness W) Next → Type 0
  Quiet m = (c : ℕ) → Keeps (Holds W (HasStarted c)) m

  Keeps-message : (c : ℕ) (m : Message) → Keeps (Holds W (HasStarted c)) (append_message world m)
  Keeps-message c m = Keeps-message_of world {P = HasStarted c} m (λ r id now p. p)

  Quiet-repair_turn :
      (f : ProtocolFailure) (a : AssistantMessage)
      → Quiet (Loop.repair_turn world config f a run_id turn_id executions repairs)
  unfolding Loop.repair_turn Loop.after_repair Loop.too_many_repairs append_observation
  Quiet-repair_turn f a c =
      let steady = HasStarted-IsSteady c in
      search (primitive_rules, Keeps-message, Keeps-end_turn) depth 16

  Quiet-too_many_executions : Quiet (Loop.too_many_executions world config run_id turn_id)
  unfolding Loop.too_many_executions
  Quiet-too_many_executions c =
      let steady = HasStarted-IsSteady c in search (primitive_rules, Keeps-end_turn) depth 8

  -- The action starts no cell, unless `R` holds.
  abbrev QuietUnless : Type 0 → Action (Harness W) Next → Type 0
  QuietUnless R m = Quiet m ⊎ R

  QuietUnless-if :
      (R : Type 0) (b : Bool) (m n : Action (Harness W) Next)
      → Quiet m
      → (b ≡ false → QuietUnless R n)
      → QuietUnless R (if b then m else n)
  QuietUnless-if R true m n q k = inl q
  QuietUnless-if R false m n q k = k refl

  module _ (s : Streamed) (finished : is_failed s.assistant.stop_reason ≡ false) where
    QuietUnless-execute_turn :
        (block : ExecBlock)
        → s.exec_block ≡ some block
        → is_length s.assistant.stop_reason ≡ false
        → is_error s.parser_error ≡ false
        → QuietUnless
            (MayRun config s executions)
            (Loop.execute_turn world config block run_id turn_id executions repairs)
    unfolding Loop.execute_turn
    QuietUnless-execute_turn block e l n =
        QuietUnless-if _ (leb config.max_executions executions) _ _ Quiet-too_many_executions
          (λ room. inr (record {
            block = block;
            has_block = e;
            stop_reason = is_stop s.assistant.stop_reason finished l;
            no_error = n;
            has_room = ground arith;
          }))

    QuietUnless-act_on_block :
        (b : Option ExecBlock)
        → s.exec_block ≡ b
        → is_error s.parser_error ≡ false
        → QuietUnless (MayRun config s executions) (
            Loop.act_on_block world config b s.assistant.stop_reason run_id turn_id executions
              repairs)
    unfolding Loop.act_on_block
    QuietUnless-act_on_block none e n =
        inl (λ c. Keeps-final_turn world (HasStarted-IsSteady c) config _ run_id turn_id)
    QuietUnless-act_on_block (some block) e n =
        QuietUnless-if _ _ _ _
          (λ c. Keeps-final_turn world (HasStarted-IsSteady c) config _ run_id turn_id)
          (λ l. QuietUnless-execute_turn block e l n)

    QuietUnless-act_on :
        (f : Option ProtocolFailure)
        → protocol_failure s.assistant.stop_reason s.parser_error s.exec_block ≡ f
        → QuietUnless
            (MayRun config s executions)
            (Loop.act_on world config f s run_id turn_id executions repairs)
    unfolding Loop.act_on
    QuietUnless-act_on (some f) e = inl (Quiet-repair_turn f s.assistant)
    QuietUnless-act_on none e =
        QuietUnless-act_on_block s.exec_block refl
          (no_failure s.assistant.stop_reason s.parser_error s.exec_block e)

  QuietUnless-act :
      (s : Streamed)
      → QuietUnless
          (MayRun config s executions)
          (Loop.act world config s run_id turn_id executions repairs)
  unfolding Loop.act
  QuietUnless-act s =
      QuietUnless-if _ _ _ _
        (λ c. Keeps-failed_turn world (HasStarted-IsSteady c) config s.assistant run_id turn_id)
        (λ finished. QuietUnless-act_on s finished _ refl)

  -- What follows a response starts no cell, unless the provider finished the response with `stop`,
  -- the parser has no error, there is an execution block, and fewer cells than `max_executions`
  -- were started in this run. So a truncated, failed, cancelled or malformed response is not run.
  pub act-MayRun :
      (s : Streamed) (h : Harness W)
      → (cells_started (Loop.act world config s run_id turn_id executions repairs h).1
          ≡ cells_started h)
        ⊎ MayRun config s executions
  act-MayRun s h = elim (QuietUnless-act s) [
    | inl quiet ↦ inl ((quiet (cells_started h)).at h refl)
    | inr may ↦ inr may
  ]
