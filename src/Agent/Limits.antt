-- ===== src/Agent/Limits.antt =====
-- The limits of a run: cells, requests and repairs.
pub mod Counts
pub mod Turns
use py_code_act.Prelude.{
  ℕ, zero, suc, ◌+◌, ◌-◌, ◌≤◌, ◌<◌, String, ◌≡◌, refl, sym, ap, ◌∙◌, ◌≢◌, ◌↔◌, ◌⊎◌, inl, inr, Bool,
  true, false, not, ◌&&◌, ◌||◌, Option, none, some, List, [], ◌∷◌, ◌++◌, map, append-nil,
  append_assoc, arith, ltb, leb, ◌==◌, if◌then◌else◌, Bool-cases, Option-cases, is_some, Text,
  codes, is_nil, length, length-append, eq_text, eq_text_iff, join, join-append,
}
use py_code_act.Domain.Messages.{
  Message, assistant, protocol_error, user, execution, kernel_notice, StopReason, ExecBlock,
  AssistantMessage, ProtocolErrorMessage,
}
use py_code_act.Domain.Events.{EventType, EventArgs, RuntimeEvent, exec_start, create}
use py_code_act.Domain.Json.{Fields}
use py_code_act.Storage.Session
use py_code_act.Agent.Monad.{Action, Result, pure, finally, except_timeout, ◌>>=◌, ◌>>◌}
use py_code_act.Agent.World.{World, RunConfig}
use py_code_act.Agent.Harness.{Harness, emit, append_message, new_id, utc_now, set_last_error}
use py_code_act.Agent.Stream.{Streamed}
use py_code_act.Agent.Execute.{execute, append_observation}
use py_code_act.Agent.Loop
use py_code_act.Agent.Loop.{Next, leave, again}
use py_code_act.Agent.Rules.{Keeps, keeps_rules, Keeps-gets, Keeps-raise}
use py_code_act.Agent.Triples.{
  Triple, Leads, Leads-bind_keep, Leads-then_keep, Leads-then, Leads-bind, Triple-bind,
  Triple-bind_keep, Triple-then_keep, Triple-then, Triple-pure, Triple-if, Triple-weaken,
  Triple-both, Triple-relax, Leads-of_Triple, Leads-Keeps, Leads-finally, Leads-except_timeout,
  Leads-relax, Leads-if,
}
use py_code_act.Agent.Steady.{
  Record, record_of, IsSteady, IsOther, IsOtherMessage, Holds, with_event, with_entry, with_message,
  starts_cell, is_assistant, is_protocol_error, primitive_rules, Keeps-set_state,
  Keeps-set_last_error, Keeps-emit, Keeps-new_id, Keeps-utc_now, Keeps-consume_restart,
}
use py_code_act.Agent.Steady.Response.{Keeps-stream_assistant}
use py_code_act.Agent.Steady.Turns.{
  Keeps-append_observation, Keeps-on_cell_event, Keeps-end_turn, Keeps-after_execution,
  Keeps-final_turn, Keeps-failed_turn, Keeps-next_turn, Keeps-finish_run, Keeps-start_run,
}
use py_code_act.Agent.Limits.Counts.{
  count, event_starts_cell, Bounded, Bounded-weaken, Bounded-IsSteady, Within,
  Leads-append_protocol_error, Leads-execute, Leads-append_observation,
}
use py_code_act.Agent.Limits.Turns.{Now, Most, AfterTurn, AfterRound, Triple-one_turn}

module _ {W : Type 0} (world : World W) (config : RunConfig) where
  module _ (c₀ a₀ p₀ : ℕ) where
    grow : (a b : ℕ) → a ≤ b → (h : Harness W) → Most config c₀ a₀ p₀ a h → Most config c₀ a₀ p₀ b h
    grow a b le h m = Bounded-weaken _ (omega arith) (omega arith) (omega arith) m

    -- What follows a round, given what the later rounds do.
    Triple-round :
        (left a n : ℕ) (run_id : Text) (x : Next × Text)
        → ((turn_id : Text) (executions repairs : ℕ)
            → executions ≤ config.max_executions
            → repairs ≤ config.max_protocol_repairs
            → Leads
                (Now config c₀ a₀ p₀ executions (suc a) repairs)
                (Most config c₀ a₀ p₀ (left + suc a))
                (Loop.turns world config left n run_id turn_id executions repairs))
        → Triple
            (AfterRound config c₀ a₀ p₀ a x)
            (Loop.continue_with (Loop.turns world config left n run_id) x)
            (λ _. Most config c₀ a₀ p₀ (left + suc a))
            (Most config c₀ a₀ p₀ (left + suc a))
    unfolding Loop.continue_with
    Triple-round left a n run_id (leave, turn_id) rec =
        Triple-pure _ (grow (suc a) (left + suc a) (omega arith))
    Triple-round left a n run_id (again executions repairs, turn_id) rec = record {
      at = λ h (e, r, b). (Triple-both _ (λ s q. q) (rec turn_id executions repairs e r)).at h b;
    }

    Leads-turns :
        (left a n : ℕ) (run_id turn_id : Text) (executions repairs : ℕ)
        → executions ≤ config.max_executions
        → repairs ≤ config.max_protocol_repairs
        → Leads
            (Now config c₀ a₀ p₀ executions a repairs)
            (Most config c₀ a₀ p₀ (left + a))
            (Loop.turns world config left n run_id turn_id executions repairs)
    unfolding Loop.turns
    Leads-turns zero a n run_id turn_id executions repairs e r =
        Leads-Keeps _ (λ h b. Bounded-weaken _ (omega arith) (omega arith) (omega arith) b)
          (Keeps-set_last_error world (Bounded-IsSteady _ _ _) _)
    Leads-turns (suc left) a n run_id turn_id executions repairs e r =
        let rec = Leads-turns left (suc a) (suc n) run_id in
        let same : left + suc a ≡ suc left + a = omega arith in
        rw (← same) (
          Leads-of_Triple _ (
            Triple-bind _ _
              (Triple-relax _ (grow (suc a) (left + suc a) (omega arith))
                (Triple-one_turn world config c₀ a₀ p₀ executions repairs e r a n run_id turn_id))
              (λ x. Triple-round left a (suc n) run_id x rec)))

    limits_hold_first :
        (h : Harness W) → Now config c₀ a₀ p₀ 0 0 0 h → Most config c₀ a₀ p₀ config.max_turns h
    limits_hold_first h b = Bounded-weaken _ (omega arith) (omega arith) (omega arith) b

    Leads-run_once :
        (user_text : Text)
        → Leads
            (Now config c₀ a₀ p₀ 0 0 0)
            (Most config c₀ a₀ p₀ config.max_turns)
            (Loop.run_once world config user_text)
    unfolding Loop.run_once
    Leads-run_once user_text =
        Leads-bind_keep _ _ limits_hold_first
          (Keeps-start_run world (Bounded-IsSteady _ _ _) config user_text)
          (λ x.
            Leads-finally _ _
              (Leads-relax _ (grow (config.max_turns + 0) config.max_turns (omega arith))
                (Leads-turns config.max_turns 0 0 x.0 x.1 0 0 (omega arith) (omega arith)))
              (Keeps-finish_run world (Bounded-IsSteady _ _ _) config x.0))

    Leads-run :
        (user_text : Text)
        → Leads
            (Now config c₀ a₀ p₀ 0 0 0)
            (Most config c₀ a₀ p₀ config.max_turns)
            (Loop.run world config user_text)
    unfolding Loop.run
    Leads-run user_text =
        let once = Leads-run_once user_text in
        Leads-bind_keep _ _ limits_hold_first (Keeps-gets _) (λ running.
          Leads-if running _ _ (Leads-Keeps _ limits_hold_first (Keeps-raise _)) (
            Leads-if config.has_run_timeout _ _
              (Leads-except_timeout _ _ once
                (Keeps-set_last_error world (Bounded-IsSteady _ _ _) _))
              once))

-- What a harness has recorded so far: cells started and protocol errors.
module _ {W : Type 0} where
  abbrev pub cells_started : Harness W → ℕ
  cells_started h = count event_starts_cell h.events

  abbrev pub protocol_errors : Harness W → ℕ
  protocol_errors h = count is_protocol_error h.state.messages

-- A run gives at most `max_executions` cells to the kernel, sends at most `max_turns` requests to the
-- provider, whatever comes of them, and answers with at most `max_protocol_repairs + 1` protocol
-- errors, whatever the provider, the kernel, the ledger and the clock do, and whether it returns or
-- raises.
pub run_limits :
    {W : Type 0} (world : World W) (config : RunConfig) (user_text : Text) (h : Harness W)
    → let after = (Loop.run world config user_text h).1 in
      (length after.cells ≤ length h.cells + config.max_executions)
      × (length after.requests ≤ length h.requests + config.max_turns)
      × (protocol_errors after ≤ protocol_errors h + (config.max_protocol_repairs + 1))
run_limits world config user_text h =
    let b =
      (Leads-run world config (length h.cells) (length h.requests) (protocol_errors h) user_text).at
        h
        (record {
          cells_within = omega arith;
          requests_within = omega arith;
          repairs_within = omega arith;
        }) in
    (b.cells_within, b.requests_within, b.repairs_within)
