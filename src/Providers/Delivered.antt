-- ===== src/Providers/Delivered.antt =====
-- What the loop reads of a provider's stream (`_stream_assistant` in src/py_code_act/agent/loop.py).
use py_code_act.Prelude.{
  ◌≡◌, refl, ap, ◌∙◌, Bool, true, false, ◌||◌, Option, none, some, List, [], ◌∷◌, ◌⊎◌, inl, inr,
  arith, if◌then◌else◌, Text,
}
use py_code_act.Domain.Json.{Json, Fields, Conversions}
use py_code_act.Domain.Events.{EventArgs}
use py_code_act.Agent.Monad.{Result, ok, raised, Action, ◌>>=◌, ◌>>◌, continue, pure, lift}
use py_code_act.Agent.World.{
  World, ProviderEvent, ProviderEventType, start, text_delta, reasoning_delta, reasoning_item, done,
  StreamEnd, finished, cancelled, failed,
}
use py_code_act.Agent.Harness.{Harness}
use py_code_act.Agent.Stream.{
  Streaming, streaming_start, on_events, on_event_of, on_text, on_end, add_item,
}
use py_code_act.Providers.OpenAi.{
  is_terminal, is_terminal_type, any_terminal, ClientEnd, openai_stream,
}
use py_code_act.Providers.Terminal.{HasEnd, by_cancellation, by_event, openai_stream-HasEnd}

-- What an action returns, if it returns.
abbrev pub Returns : {A : Type 0} → (A → Type 0) → Result A → Type 0
Returns P (ok a) = P a
Returns P (raised e) = Unit

-- Whatever state an action starts from, what it returns has the property.
pub record Returning {W A : Type 0} (P : A → Type 0) (m : Action (Harness W) A) : Type 0 where
  pub at : (h : Harness W) → Returns P (m h).0

module _ {W A B : Type 0} {Q : A → Type 0} {P : B → Type 0} where
  Returning-bind :
      (m : Action (Harness W) A) (f : A → Action (Harness W) B)
      → Returning Q m
      → ((a : A) → Q a → Returning P (f a))
      → Returning P (m >>= f)
  unfolding ◌>>=◌
  Returning-bind m f q k = record { at = λ h. go (m h).0 (m h).1 (q.at h) }
    where
      go : (r : Result A) (h : Harness W) → Returns Q r → Returns P (continue r f h).0
      go (ok a) h x = (k a x).at h
      go (raised e) h x = tt

module _ {W A B : Type 0} {P : B → Type 0} where
  Returning-then :
      (m : Action (Harness W) A) (k : Action (Harness W) B) → Returning P k → Returning P (m >> k)
  unfolding ◌>>◌ ◌>>=◌
  Returning-then m k p = record { at = λ h. go (m h).0 (m h).1 }
    where
      go : (r : Result A) (h : Harness W) → Returns P (continue r (λ _. k) h).0
      go (ok a) h = p.at h
      go (raised e) h = tt

Returning-any : {W A : Type 0} (m : Action (Harness W) A) → Returning (λ _. Unit {0}) m
Returning-any {A = A} m = record { at = λ h. go (m h).0 }
  where
    go : (r : Result A) → Returns (λ _. Unit {0}) r
    go (ok a) = tt
    go (raised e) = tt

or_false : (a : Bool) → a || false ≡ a
or_false a = ground arith

or_swap : (a b c : Bool) → b || (a || c) ≡ (a || b) || c
or_swap a b c = ground arith

module _ {W : Type 0} (world : World W) (args : EventArgs) where
  -- The stream's flag.
  abbrev pub IsMarked : Bool → Streaming → Type 0
  IsMarked terminal s = s.terminal ≡ terminal

  Returning-pure :
      (terminal : Bool) (s : Streaming)
      → s.terminal ≡ terminal
      → Returning (IsMarked terminal) (pure {S = Harness W} s)
  unfolding pure
  Returning-pure terminal s e = record { at = λ h. e }

  on_text-IsMarked :
      (chunk : Text) (s : Streaming) → Returning (IsMarked s.terminal) (on_text world args chunk s)
  unfolding on_text
  on_text-IsMarked chunk s =
      Returning-bind _ _ (Returning-any _)
        (λ x _. Returning-then _ _ (Returning-pure s.terminal _ refl))

  add_item-IsMarked : (o : Option Fields) (s : Streaming) → (add_item o s).terminal ≡ s.terminal
  add_item-IsMarked none s = refl
  add_item-IsMarked (some item) s = refl

  on_event-IsMarked :
      (type : ProviderEventType) (e : ProviderEvent) (s : Streaming)
      → Returning (IsMarked (is_terminal_type type || s.terminal)) (on_event_of world args type e s)
  unfolding on_event_of
  on_event-IsMarked start e s = Returning-pure s.terminal s refl
  on_event-IsMarked text_delta e s = on_text-IsMarked e.delta s
  on_event-IsMarked reasoning_delta e s = Returning-then _ _ (Returning-pure s.terminal _ refl)
  on_event-IsMarked reasoning_item e s =
      Returning-pure s.terminal _ (add_item-IsMarked e.reasoning_item s)
  on_event-IsMarked ProviderEventType.usage e s =
      Returning-then _ _ (Returning-pure s.terminal _ refl)
  on_event-IsMarked done e s = Returning-pure true _ refl
  on_event-IsMarked ProviderEventType.error e s = Returning-pure true _ refl

  on_events-IsMarked :
      (events : List ProviderEvent) (s : Streaming) (terminal : Bool)
      → any_terminal events || s.terminal ≡ terminal
      → Returning (IsMarked terminal) (on_events world args events s)
  unfolding on_events
  on_events-IsMarked [] s terminal e = Returning-pure terminal s e
  on_events-IsMarked (event ∷ events) s terminal e =
      Returning-bind _ _ (on_event-IsMarked event.type event s) (λ s' m.
        on_events-IsMarked events s' terminal (
          ap (λ (b : Bool). any_terminal events || b) m
          ∙ (or_swap (is_terminal event) (any_terminal events) s.terminal ∙ e)))

  if-IsMarked :
      (b : Bool) (s s' : Streaming)
      → b ≡ true
      → s.terminal ≡ true
      → (if b then s else s').terminal ≡ true
  if-IsMarked true s s' b t = t
  if-IsMarked false s s' b t = ground arith

  on_end-IsMarked :
      (r : List ProviderEvent × StreamEnd) (e : StreamEnd) (s : Streaming)
      → r.1 ≡ e
      → HasEnd false r
      → s.terminal ≡ any_terminal r.0 || false
      → Returning (IsMarked true) (on_end {W = W} e s)
  unfolding on_end pure lift
  on_end-IsMarked r cancelled s x y m = record { at = λ h. refl }
  on_end-IsMarked r finished s x (by_cancellation y) m = absurd (cc)
  on_end-IsMarked r finished s x (by_event y t) m = record {
    at = λ h. if-IsMarked s.terminal s _ (ground arith) (ground arith);
  }
  on_end-IsMarked r (failed f) s x y m = record { at = λ h. tt }

  HasEnd-cases :
      (r : List ProviderEvent × StreamEnd)
      → HasEnd false r
      → (r.1 ≡ cancelled) ⊎ ((r.1 ≡ finished) × (any_terminal r.0 ≡ true))
  HasEnd-cases r (by_cancellation e) = inl e
  HasEnd-cases r (by_event e t) = inr (e, t)

  -- Whatever the client of OpenAI's stream does, the iteration is cancelled, or it ends by itself
  -- and has given a done or error event. Where `_stream_assistant` has read the events without an
  -- exception, its mark `terminal` is set exactly if one of them is a done or error event, and after
  -- the end it is set, so that the message "provider stream ended without an authoritative terminal
  -- event" is never given.
  pub openai_stream-IsMarked :
      (py : Conversions) (invalid : Text) (raws : List Json) (e : ClientEnd)
      → let (events, stream_end) = openai_stream py invalid raws e in
        ((stream_end ≡ cancelled) ⊎ ((stream_end ≡ finished) × (any_terminal events ≡ true)))
        × Returning (IsMarked (any_terminal events)) (on_events world args events streaming_start)
        × Returning
            (IsMarked true)
            (on_events world args events streaming_start >>= on_end stream_end)
  openai_stream-IsMarked py invalid raws e =
      let r = openai_stream py invalid raws e in
      let ended = openai_stream-HasEnd py invalid raws e in
      (
        HasEnd-cases r ended,
        on_events-IsMarked r.0 streaming_start (any_terminal r.0) (or_false (any_terminal r.0)),
        Returning-bind _ _ (on_events-IsMarked r.0 streaming_start (any_terminal r.0 || false) refl)
            (λ s m. on_end-IsMarked r r.1 s refl ended m),
      )
