-- ===== src/Agent/Idle.antt =====
-- The state that a run leaves behind (`run` and the `finally` of `_run` in
-- src/py_code_act/agent/loop.py).
use py_code_act.Prelude.{
  ◌≡◌, refl, ◌⊎◌, inl, inr, Bool, true, false, Option, none, if◌then◌else◌, Text,
}
use py_code_act.Domain.Messages.{Message}
use py_code_act.Domain.Events.{EventType, EventArgs}
use py_code_act.Agent.Monad.{
  Failure, Result, ok, raised, timeout_error, other_error, Action, gets, modify, raise, finally,
  except_timeout, ◌>>=◌, ◌>>◌, caught, continue,
}
use py_code_act.Agent.World.{World, RunConfig}
use py_code_act.Agent.Harness.{
  Harness, AgentState, set_state, set_last_error, new_id, utc_now, emit, emit_background, perform,
  append_message, keep_message,
}
use py_code_act.Agent.Rules.{Keeps, Keeps-draw, Keeps-bind, Keeps-then, Keeps-lift, Keeps-pure}
use py_code_act.Agent.Triples.{Leads, Leads-then}
use py_code_act.Agent.Loop.{run, run_once, start_run, finish_run, turns}

-- No run is active, and nothing of one is left.
pub record IsIdleState (s : AgentState) : Type 0 where
  pub is_running : s.is_running ≡ false
  pub streaming_message_id : s.streaming_message_id ≡ none
  pub active_execution_id : s.active_execution_id ≡ none

abbrev pub IsIdle : {W : Type 0} → Harness W → Type 0
IsIdle h = IsIdleState h.state

-- A property of whether a run is active and of what is left of one.
abbrev Marks : Type 1
Marks = Bool → Option Text → Option Text → Type 0

abbrev Marked : {W : Type 0} → Marks → Harness W → Type 0
Marked P h = P h.state.is_running h.state.streaming_message_id h.state.active_execution_id

module _ {W : Type 0} (world : World W) (P : Marks) where
  Marked-new_id : (prefix : Text) → Keeps (Marked P) (new_id world prefix)
  unfolding new_id
  Marked-new_id prefix = Keeps-draw _ (λ h p. p)

  Marked-utc_now : Keeps (Marked P) (utc_now world)
  unfolding utc_now
  Marked-utc_now = Keeps-draw _ (λ h p. p)

  Marked-perform : (f : W → Result (Unit {0}) × W) → Keeps (Marked P) (perform world f)
  unfolding perform
  Marked-perform f = Keeps-bind _ _ (Keeps-draw _ (λ h p. p)) (λ r. Keeps-lift r)

  Marked-background :
      (type : EventType) (args : EventArgs) → Keeps (Marked P) (emit_background world type args)
  unfolding emit_background
  Marked-background type args = record { at = λ h p. p }

  Marked-emit : (type : EventType) (args : EventArgs) → Keeps (Marked P) (emit world type args)
  unfolding emit
  Marked-emit type args =
      Keeps-then _ _ (Marked-perform world.wait_until_idle)
        (Keeps-then _ _ (Marked-background type args) (Marked-perform world.deliver))

  Marked-message : (m : Message) → Keeps (Marked P) (append_message world m)
  unfolding append_message keep_message
  Marked-message m = Keeps-bind _ _ (Marked-new_id _) (λ id. Keeps-bind _ _ Marked-utc_now (λ now.
      Keeps-then (perform world world.write_line) (keep_message world m id now)
        (Marked-perform world.write_line) (kept id now)))
    where
      kept : (id now : Text) → Keeps (Marked P) (keep_message world m id now)
      kept id now = record { at = λ h p. p }

abbrev IsRunning : Marks
IsRunning running streaming active = running ≡ true

abbrev NothingLeft : Marks
NothingLeft running streaming active = (running ≡ false) × (streaming ≡ none) × (active ≡ none)

module _ {W : Type 0} (world : World W) (config : RunConfig) (user_text : Text) where
  finish_run-IsIdle : (run_id : Text) (h : Harness W) → IsIdle (finish_run world config run_id h).1
  unfolding finish_run set_state modify gets ◌>>=◌ ◌>>◌
  finish_run-IsIdle run_id h =
      let left = (Marked-emit world NothingLeft _ _).at _ (refl, refl, refl) in
      record { is_running = left.0; streaming_message_id = left.1; active_execution_id = left.2 }

  start_run-IsRunning :
      (h : Harness W) → (start_run world config user_text h).1.state.is_running ≡ true
  unfolding start_run set_state modify
  start_run-IsRunning h =
      let id = Marked-new_id world IsRunning in
      let now = Marked-utc_now world IsRunning in
      let sent = Marked-emit world IsRunning in
      let kept = Marked-message world IsRunning in
      (Leads-then {P = λ _. Unit {0}} {Q = Marked IsRunning} _ _ started (
          Keeps-bind _ _ (id _) (λ run_id. Keeps-bind _ _ (id _) (λ turn_id.
            Keeps-then _ _ (sent _ _) (
              Keeps-then _ _ (sent _ _) (
                Keeps-bind _ _ (id _) (λ message_id. Keeps-bind _ _ now (λ created_at.
                  Keeps-then _ _ (kept _) (
                    Keeps-then _ _ (sent _ _) (Keeps-then _ _ (sent _ _) (Keeps-pure _))))))))))).at
        h tt
    where
      started :
          Leads
            (λ _. Unit {0})
            (Marked IsRunning)
            (set_state {W = W} (λ s. record s { is_running = true; last_error = none }))
      started = record { at = λ h u. refl }

  set_last_error-IsIdle :
      (e : Option Text) (h : Harness W) → IsIdle h → IsIdle (set_last_error e h).1
  unfolding set_last_error set_state modify
  set_last_error-IsIdle e h i = record {
    is_running = i.is_running;
    streaming_message_id = i.streaming_message_id;
    active_execution_id = i.active_execution_id;
  }

  -- The start of the run raised, and the run stays active; or nothing is left of it.
  abbrev pub Ends : Harness W → Harness W → Type 0
  Ends h s =
      ((e : Failure) × ((start_run world config user_text h).0 ≡ raised e)
        × (s.state.is_running ≡ true))
      ⊎ IsIdle s

  run_once-Ends : (h : Harness W) → Ends h (run_once world config user_text h).1
  unfolding run_once finally ◌>>=◌
  run_once-Ends h = go (start_run world config user_text h).0 refl
    where
      go :
          (r : Result (Text × Text))
          → (start_run world config user_text h).0 ≡ r
          → Ends h
              (continue r
                (λ ids.
                  finally
                    (turns world config config.max_turns 0 ids.0 ids.1 0 0)
                    (finish_run world config ids.0))
                (start_run world config user_text h).1).1
      go (ok ids) e = inr (finish_run-IsIdle _ _)
      go (raised x) e = inl (x, e, start_run-IsRunning h)

  set_last_error-Ends :
      (e : Option Text) (h s : Harness W) → Ends h s → Ends h (set_last_error e s).1
  unfolding set_last_error set_state modify
  set_last_error-Ends e h s (inl (x, r, t)) = inl (x, r, t)
  set_last_error-Ends e h s (inr i) = inr (set_last_error-IsIdle e s i)

  caught-Ends :
      (r : Result Unit) (e : Option Text) (h s : Harness W)
      → Ends h s
      → Ends h (caught r (set_last_error e) s).1
  caught-Ends (ok a) e h s i = i
  caught-Ends (raised timeout_error) e h s i = set_last_error-Ends e h s i
  caught-Ends (raised other_error) e h s i = i

  if-Ends :
      (b : Bool) (m n : Action (Harness W) Unit) (h : Harness W)
      → Ends h (m h).1
      → Ends h (n h).1
      → Ends h ((if b then m else n) h).1
  if-Ends true m n h im in' = im
  if-Ends false m n h im in' = in'

  guarded-Ends :
      (b : Bool) (m : Action (Harness W) Unit) (h : Harness W)
      → Ends h (m h).1
      → ((b ≡ true) × ((if b then raise other_error else m) h ≡ (raised other_error, h)))
        ⊎ ((b ≡ false) × Ends h ((if b then raise other_error else m) h).1)
  unfolding raise
  guarded-Ends true m h i = inl (refl, refl)
  guarded-Ends false m h i = inr (refl, i)

  -- A run that is started during another one raises and changes nothing. Any other run, whether it
  -- returns or raises, leaves no run, no streamed message and no execution active, unless its start
  -- raised, in a write to the ledger or in the delivery of an event: then the run stays active.
  pub run-IsIdle :
      (h : Harness W)
      → ((h.state.is_running ≡ true) × (run world config user_text h ≡ (raised other_error, h)))
        ⊎ ((h.state.is_running ≡ false) × Ends h (run world config user_text h).1)
  unfolding run gets except_timeout ◌>>=◌
  run-IsIdle h = guarded-Ends h.state.is_running _ h (
      if-Ends config.has_run_timeout _ _ h (caught-Ends _ _ h _ (run_once-Ends h))
        (run_once-Ends h))
