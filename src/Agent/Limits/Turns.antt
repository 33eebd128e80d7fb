-- ===== src/Agent/Limits/Turns.antt =====
-- What one turn adds to the cells, requests and protocol errors.
use py_code_act.Prelude.{ℕ, suc, ◌+◌, ◌≤◌, ◌<◌, refl, Option, none, some, arith, ltb, leb, Text}
use py_code_act.Domain.Messages.{StopReason, ExecBlock, AssistantMessage}
use py_code_act.Agent.Monad.{pure}
use py_code_act.Agent.World.{World, RunConfig}
use py_code_act.Agent.Harness.{Harness}
use py_code_act.Agent.Stream.{Streamed, stream_assistant}
use py_code_act.Agent.Loop
use py_code_act.Agent.Loop.{Next, leave, again}
use py_code_act.Agent.Triples.{
  Triple, Leads, Triple-bind, Triple-bind_keep, Triple-then_keep, Triple-then, Triple-pure,
  Triple-if, Triple-both,
}
use py_code_act.Agent.Steady.{
  primitive_rules, Keeps-emit, Keeps-new_id, Keeps-utc_now, Keeps-consume_restart,
}
use py_code_act.Agent.Steady.Turns.{Keeps-end_turn, Keeps-after_execution, Keeps-next_turn}
use py_code_act.Agent.Limits.Counts.{
  Bounded-weaken, Bounded-IsSteady, Within, Keeps-append_assistant, Leads-stream_assistant,
  Leads-execute, Leads-append_observation,
}

module _ {W : Type 0} (config : RunConfig) (c₀ a₀ p₀ : ℕ) where
  -- The bounds that the configuration sets, counted from the start of a run.
  abbrev pub Now : ℕ → ℕ → ℕ → Harness W → Type 0
  Now c a p = Within (c₀ + c) (a₀ + a) (p₀ + p)

  abbrev pub Most : ℕ → Harness W → Type 0
  Most a = Now config.max_executions a (config.max_protocol_repairs + 1)

  abbrev pub AfterTurn : ℕ → Next → Harness W → Type 0
  AfterTurn a leave h = Most a h
  AfterTurn a (again executions repairs) h =
      (executions ≤ config.max_executions)
      × (repairs ≤ config.max_protocol_repairs)
      × Now executions a repairs h

  abbrev pub AfterRound : ℕ → Next × Text → Harness W → Type 0
  AfterRound a (next, turn_id) h = AfterTurn (suc a) next h

module _ {W : Type 0} (world : World W) (config : RunConfig) where
  module _ (c₀ a₀ p₀ : ℕ) where
    module _ (executions repairs : ℕ) (e : executions ≤ config.max_executions)
        (r : repairs ≤ config.max_protocol_repairs) where
      pub limits_hold :
          (a : ℕ) (h : Harness W)
          → Now config c₀ a₀ p₀ executions a repairs h
          → Most config c₀ a₀ p₀ a h
      limits_hold a h b = Bounded-weaken _ (omega arith) (omega arith) (omega arith) b

      pub Triple-failed_turn :
          (a : ℕ) (m : AssistantMessage) (run_id turn_id : Text)
          → Triple
              (Now config c₀ a₀ p₀ executions a repairs)
              (Loop.failed_turn world config m run_id turn_id)
              (AfterTurn config c₀ a₀ p₀ a)
              (Most config c₀ a₀ p₀ a)
      unfolding Loop.failed_turn
      Triple-failed_turn a m run_id turn_id =
          let steady = Bounded-IsSteady (c₀ + executions) (a₀ + a) (p₀ + repairs) in
          search (primitive_rules, Triple-then_keep, Triple-pure, limits_hold, Keeps-end_turn) depth
            8

      pub Triple-final_turn :
          (a : ℕ) (s : StopReason) (run_id turn_id : Text)
          → Triple
              (Now config c₀ a₀ p₀ executions a repairs)
              (Loop.final_turn world config s run_id turn_id)
              (AfterTurn config c₀ a₀ p₀ a)
              (Most config c₀ a₀ p₀ a)
      unfolding Loop.final_turn
      Triple-final_turn a s run_id turn_id =
          let steady = Bounded-IsSteady (c₀ + executions) (a₀ + a) (p₀ + repairs) in
          search (primitive_rules, Triple-then_keep, Triple-pure, limits_hold, Keeps-end_turn) depth
            8

      -- One more repair than before this turn.
      abbrev pub Repaired : ℕ → Harness W → Type 0
      Repaired a = Within (c₀ + executions) (a₀ + a) (suc (p₀ + repairs))

      limits_hold_then : (a : ℕ) (h : Harness W) → Repaired a h → Most config c₀ a₀ p₀ a h
      limits_hold_then a h b = Bounded-weaken _ (omega arith) (omega arith) (omega arith) b

      -- One more cell than before this turn, which had room for it.
      abbrev pub Executed : ℕ → Harness W → Type 0
      Executed a = Within (suc (c₀ + executions)) (a₀ + a) (p₀ + repairs)

      limits_hold_next :
          (a : ℕ)
          → executions < config.max_executions
          → (h : Harness W) → Executed a h
          → Most config c₀ a₀ p₀ a h
      limits_hold_next a room h b = Bounded-weaken _ (omega arith) (omega arith) (omega arith) b

      pub Triple-after_repair :
          (a : ℕ)
          → Triple
              (Repaired a)
              (Loop.after_repair world config executions (repairs + 1))
              (AfterTurn config c₀ a₀ p₀ a)
              (Most config c₀ a₀ p₀ a)
      unfolding Loop.after_repair Loop.too_many_repairs
      Triple-after_repair a =
          let steady = Bounded-IsSteady (c₀ + executions) (a₀ + a) (suc (p₀ + repairs)) in
          Triple-if (ltb config.max_protocol_repairs (repairs + 1))
            (Loop.too_many_repairs world config) (pure (again executions (repairs + 1)))
            (λ over. search (primitive_rules, Triple-then_keep, Triple-pure, limits_hold_then))
            (λ under. Triple-pure _ (λ h b.
              (e, ground arith, Bounded-weaken _ (omega arith) (omega arith) (omega arith) b)))

      pub Triple-repair_turn :
          (a : ℕ) (f : Loop.ProtocolFailure) (m : AssistantMessage) (run_id turn_id : Text)
          → Triple
              (Now config c₀ a₀ p₀ executions a repairs)
              (Loop.repair_turn world config f m run_id turn_id executions repairs)
              (AfterTurn config c₀ a₀ p₀ a)
              (Most config c₀ a₀ p₀ a)
      unfolding Loop.repair_turn
      Triple-repair_turn a f m run_id turn_id =
          let steady = Bounded-IsSteady (c₀ + executions) (a₀ + a) (p₀ + repairs) in
          let steady' = Bounded-IsSteady (c₀ + executions) (a₀ + a) (suc (p₀ + repairs)) in
          Triple-bind_keep _ _ (limits_hold a) (Keeps-new_id world steady _) (λ id.
            Triple-bind_keep _ _ (limits_hold a) (Keeps-utc_now world steady) (λ now.
              Triple-then _ _ (Leads-append_observation world config _ _ _ _ _ _ _)
                (limits_hold_then a)
                (Triple-then_keep _ _ (limits_hold_then a)
                  (Keeps-end_turn world steady' config run_id turn_id) (Triple-after_repair a))))

      pub Triple-run_block :
          (a : ℕ) (block : ExecBlock) (run_id turn_id : Text)
          → executions < config.max_executions
          → Triple
              (Now config c₀ a₀ p₀ executions a repairs)
              (Loop.run_block world config block run_id turn_id (executions + 1) repairs)
              (AfterTurn config c₀ a₀ p₀ a)
              (Most config c₀ a₀ p₀ a)
      unfolding Loop.run_block
      Triple-run_block a block run_id turn_id room =
          let steady = Bounded-IsSteady (suc (c₀ + executions)) (a₀ + a) (p₀ + repairs) in
          let most = limits_hold_next a room in
          Triple-bind _ _
            (Triple-both _ most (Leads-execute world config _ _ _ block run_id turn_id))
            (λ result. Triple-bind_keep _ _ most (Keeps-consume_restart world steady) (λ asked.
              Triple-then_keep _ _ most
                (Keeps-after_execution world steady config result asked run_id turn_id)
                (Triple-then_keep _ _ most (Keeps-end_turn world steady config run_id turn_id) (
                  Triple-pure _ (λ h b. (
                    omega arith,
                    r,
                    Bounded-weaken _ (omega arith) (omega arith) (omega arith) b,
                  ))))))

      pub Triple-execute_turn :
          (a : ℕ) (block : ExecBlock) (run_id turn_id : Text)
          → Triple
              (Now config c₀ a₀ p₀ executions a repairs)
              (Loop.execute_turn world config block run_id turn_id executions repairs)
              (AfterTurn config c₀ a₀ p₀ a)
              (Most config c₀ a₀ p₀ a)
      unfolding Loop.execute_turn Loop.too_many_executions
      Triple-execute_turn a block run_id turn_id =
          let steady = Bounded-IsSteady (c₀ + executions) (a₀ + a) (p₀ + repairs) in
          Triple-if (leb config.max_executions executions)
            (Loop.too_many_executions world config run_id turn_id)
            (Loop.run_block world config block run_id turn_id (executions + 1) repairs)
            (λ full.
              search (primitive_rules, Triple-then_keep, Triple-pure, limits_hold, Keeps-end_turn)
                depth 8)
            (λ room. Triple-run_block a block run_id turn_id (ground arith))

      pub Triple-act_on_block :
          (a : ℕ) (block : Option ExecBlock) (s : StopReason) (run_id turn_id : Text)
          → Triple
              (Now config c₀ a₀ p₀ executions a repairs)
              (Loop.act_on_block world config block s run_id turn_id executions repairs)
              (AfterTurn config c₀ a₀ p₀ a)
              (Most config c₀ a₀ p₀ a)
      unfolding Loop.act_on_block
      Triple-act_on_block a none s run_id turn_id = Triple-final_turn a s run_id turn_id
      Triple-act_on_block a (some block) s run_id turn_id =
          Triple-if (Loop.is_length s) (Loop.final_turn world config s run_id turn_id)
            (Loop.execute_turn world config block run_id turn_id executions repairs)
            (λ _. Triple-final_turn a s run_id turn_id)
            (λ _. Triple-execute_turn a block run_id turn_id)

      pub Triple-act_on :
          (a : ℕ) (f : Option Loop.ProtocolFailure) (s : Streamed) (run_id turn_id : Text)
          → Triple
              (Now config c₀ a₀ p₀ executions a repairs)
              (Loop.act_on world config f s run_id turn_id executions repairs)
              (AfterTurn config c₀ a₀ p₀ a)
              (Most config c₀ a₀ p₀ a)
      unfolding Loop.act_on
      Triple-act_on a none s run_id turn_id =
          Triple-act_on_block a s.exec_block s.assistant.stop_reason run_id turn_id
      Triple-act_on a (some f) s run_id turn_id = Triple-repair_turn a f s.assistant run_id turn_id

      pub Triple-act :
          (a : ℕ) (s : Streamed) (run_id turn_id : Text)
          → Triple
              (Now config c₀ a₀ p₀ executions a repairs)
              (Loop.act world config s run_id turn_id executions repairs)
              (AfterTurn config c₀ a₀ p₀ a)
              (Most config c₀ a₀ p₀ a)
      unfolding Loop.act
      Triple-act a s run_id turn_id =
          let failure = Loop.protocol_failure s.assistant.stop_reason s.parser_error s.exec_block in
          Triple-if (Loop.is_failed s.assistant.stop_reason)
            (Loop.failed_turn world config s.assistant run_id turn_id)
            (Loop.act_on world config failure s run_id turn_id executions repairs)
            (λ _. Triple-failed_turn a s.assistant run_id turn_id)
            (λ _. Triple-act_on a failure s run_id turn_id)

      pub Triple-one_turn :
          (a n : ℕ) (run_id previous : Text)
          → Triple
              (Now config c₀ a₀ p₀ executions a repairs)
              (Loop.one_turn world config n run_id previous executions repairs)
              (AfterRound config c₀ a₀ p₀ a)
              (Most config c₀ a₀ p₀ (suc a))
      unfolding Loop.one_turn
      Triple-one_turn a n run_id previous =
          let steady = Bounded-IsSteady (c₀ + executions) (a₀ + a) (p₀ + repairs) in
          let steady' = Bounded-IsSteady (c₀ + executions) (a₀ + suc a) (p₀ + repairs) in
          let more : (h : Harness W)
              → Now config c₀ a₀ p₀ executions a repairs h
              → Most config c₀ a₀ p₀ (suc a) h =
            λ h b. Bounded-weaken _ (omega arith) (omega arith) (omega arith) b in
          Triple-bind_keep _ _ more (Keeps-next_turn world steady config n run_id previous)
            (λ turn_id.
              Triple-bind _ _ (Triple-both _ (limits_hold (suc a)) (asked a run_id turn_id)) (λ s.
                Triple-then_keep _ _ (limits_hold (suc a))
                  (Keeps-append_assistant world config _ _ _ s.assistant)
                  (Triple-then_keep _ _ (limits_hold (suc a)) (Keeps-emit world steady' _ _ refl) (
                    Triple-bind _ _ (Triple-act (suc a) s run_id turn_id)
                      (λ next. Triple-pure _ (λ h b. b))))))
        where
          asked :
              (a : ℕ) (run_id turn_id : Text)
              → Leads
                  (Now config c₀ a₀ p₀ executions a repairs)
                  (Now config c₀ a₀ p₀ executions (suc a) repairs)
                  (stream_assistant world config run_id turn_id)
          asked a run_id turn_id = record {
            at = λ h b.
                Bounded-weaken _ (omega arith) (omega arith) (omega arith)
                  ((Leads-stream_assistant world config _ _ _ run_id turn_id).at h b);
          }
