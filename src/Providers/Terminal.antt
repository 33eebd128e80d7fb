-- ===== src/Providers/Terminal.antt =====
-- Both providers' streams end with a terminal event, and the loop sees it.
use py_code_act.Prelude.{
  ◌≡◌, refl, Bool, true, false, ◌||◌, Option, none, some, List, [], ◌∷◌, ◌++◌, arith, Text,
}
use py_code_act.Domain.Json.{Json, Conversions}
use py_code_act.Agent.Monad.{other_error}
use py_code_act.Agent.World.{ProviderEvent, start, StreamEnd, finished, cancelled, failed}
use py_code_act.Providers.OpenAi
use py_code_act.Providers.OpenAi.{
  as_dict, is_terminal, is_terminal_type, any_terminal, normalize_openai_event, ClientEnd,
  or_invalid, ended, client_error, client_cancelled, read_raw, openai_stream,
}
use py_code_act.Providers.Codex
use py_code_act.Providers.Codex.{
  Answer, unsuccessful, success, read_lines, finish_lines, events_from_sse_data, and_then, data_of,
  push, codex_stream,
}

pub any_terminal-append :
    (a b : List ProviderEvent) → any_terminal (a ++ b) ≡ any_terminal a || any_terminal b
any_terminal-append [] b = refl
any_terminal-append (e ∷ a) b = ground (arith, any_terminal-append a b)

-- The iteration was cancelled, or it ended with a terminal event (counting one before it).
pub data HasEnd (terminal : Bool) (r : List ProviderEvent × StreamEnd) : Type 0 where
  by_cancellation : r.1 ≡ cancelled → HasEnd terminal r
  by_event : r.1 ≡ finished → terminal || any_terminal r.0 ≡ true → HasEnd terminal r

-- More events before the end.
HasEnd-before :
    (terminal : Bool) (events : List ProviderEvent) (r : List ProviderEvent × StreamEnd)
    → HasEnd (terminal || any_terminal events) r
    → HasEnd terminal (events ++ r.0, r.1)
HasEnd-before terminal events r (by_cancellation e) = by_cancellation e
HasEnd-before terminal events r (by_event e t) =
    by_event e (ground (arith, any_terminal-append events r.0))

HasEnd-end_events :
    (terminal : Bool) (e : ClientEnd) → HasEnd terminal (OpenAi.end_events terminal e)
unfolding OpenAi.end_events
HasEnd-end_events true ended = by_event refl refl
HasEnd-end_events false ended = by_event refl refl
HasEnd-end_events true (client_error m) = by_event refl refl
HasEnd-end_events false (client_error m) = by_event refl refl
HasEnd-end_events terminal client_cancelled = by_cancellation refl

HasEnd-or_invalid :
    (py : Conversions) (invalid : Text) (terminal : Bool) (o : Option (List ProviderEvent))
    (rest : List ProviderEvent → List ProviderEvent × StreamEnd)
    → ((events : List ProviderEvent) → HasEnd (terminal || any_terminal events) (rest events))
    → HasEnd terminal (or_invalid py invalid o rest)
HasEnd-or_invalid py invalid terminal none rest k = by_event refl (ground arith)
HasEnd-or_invalid py invalid terminal (some events) rest k =
    HasEnd-before terminal events (rest events) (k events)

HasEnd-read_raw :
    (py : Conversions) (invalid : Text) (terminal : Bool) (raws : List Json) (e : ClientEnd)
    → HasEnd terminal (read_raw py invalid terminal raws e)
unfolding read_raw
HasEnd-read_raw py invalid terminal [] e = HasEnd-end_events terminal e
HasEnd-read_raw py invalid terminal (raw ∷ raws) e =
    HasEnd-or_invalid py invalid terminal (normalize_openai_event py (as_dict raw)) _
      (λ events. HasEnd-read_raw py invalid (terminal || any_terminal events) raws e)

-- The iteration over Codex may also end by an exception.
pub data HasEndOrFails (terminal : Bool) (r : List ProviderEvent × StreamEnd) : Type 0 where
  ends : HasEnd terminal r → HasEndOrFails terminal r
  fails : r.1 ≡ failed other_error → HasEndOrFails terminal r

HasEndOrFails-and_then :
    (py : Conversions) (loads : Text → Option Json) (terminal : Bool)
    (o : Option (List ProviderEvent)) (rest : List ProviderEvent → List ProviderEvent × StreamEnd)
    → ((events : List ProviderEvent)
        → HasEndOrFails (terminal || any_terminal events) (rest events))
    → HasEndOrFails terminal (and_then py loads o rest)
HasEndOrFails-and_then py loads terminal none rest k = fails refl
HasEndOrFails-and_then py loads terminal (some events) rest k = elim (k events) [
  | ends h ↦ ends (HasEnd-before terminal events (rest events) h)
  | fails h ↦ fails h
]

HasEnd-codex_end : (terminal : Bool) (e : ClientEnd) → HasEnd terminal (Codex.end_events terminal e)
unfolding Codex.end_events
HasEnd-codex_end true ended = by_event refl refl
HasEnd-codex_end false ended = by_event refl refl
HasEnd-codex_end true (client_error m) = by_event refl refl
HasEnd-codex_end false (client_error m) = by_event refl refl
HasEnd-codex_end terminal client_cancelled = by_cancellation refl

HasEndOrFails-finish_lines :
    (py : Conversions) (loads : Text → Option Json) (terminal : Bool) (open_lines : List Text)
    (e : ClientEnd)
    → HasEndOrFails terminal (finish_lines py loads terminal open_lines e)
unfolding finish_lines
HasEndOrFails-finish_lines py loads terminal open_lines ended =
    HasEndOrFails-and_then py loads terminal (events_from_sse_data py loads open_lines) _
      (λ events. ends (HasEnd-codex_end (terminal || any_terminal events) ended))
HasEndOrFails-finish_lines py loads terminal open_lines (client_error m) =
    ends (HasEnd-codex_end terminal (client_error m))
HasEndOrFails-finish_lines py loads terminal open_lines client_cancelled =
    ends (HasEnd-codex_end terminal client_cancelled)

HasEndOrFails-read_lines :
    (py : Conversions) (loads : Text → Option Json) (terminal : Bool) (open_lines lines : List Text)
    (e : ClientEnd)
    → HasEndOrFails terminal (read_lines py loads terminal open_lines lines e)
unfolding read_lines
HasEndOrFails-read_lines py loads terminal open_lines [] e =
    HasEndOrFails-finish_lines py loads terminal open_lines e
HasEndOrFails-read_lines py loads terminal open_lines ([] ∷ lines) e =
    HasEndOrFails-and_then py loads terminal (events_from_sse_data py loads open_lines) _
      (λ events. HasEndOrFails-read_lines py loads (terminal || any_terminal events) [] lines e)
HasEndOrFails-read_lines py loads terminal open_lines ((c ∷ line) ∷ lines) e =
    HasEndOrFails-read_lines py loads terminal (push open_lines (data_of (c ∷ line))) lines e

module _ (py : Conversions) where
  pub openai_stream-HasEnd :
      (invalid : Text) (raws : List Json) (e : ClientEnd)
      → HasEnd false (openai_stream py invalid raws e)
  unfolding openai_stream
  openai_stream-HasEnd invalid raws e =
      HasEnd-before false (OpenAi.provider_event start ∷ []) _
        (HasEnd-read_raw py invalid false raws e)

  -- The same of Codex, where the iteration may also raise, at a malformed usage.
  pub codex_stream-HasEndOrFails :
      (loads : Text → Option Json) (a : Answer) → HasEndOrFails false (codex_stream py loads a)
  unfolding codex_stream
  codex_stream-HasEndOrFails loads (unsuccessful status detail) = ends (by_event refl refl)
  codex_stream-HasEndOrFails loads (success lines e) =
      elim (HasEndOrFails-read_lines py loads false [] lines e) [
        | ends h ↦ ends (HasEnd-before false (OpenAi.provider_event start ∷ []) _ h)
        | fails h ↦ fails h
      ]
