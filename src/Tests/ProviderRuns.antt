-- ===== src/Tests/ProviderRuns.antt =====
-- The providers on two raw events.
use py_code_act.Prelude.{
  ◌≡◌, refl, ◌⊎◌, true, false, Option, none, some, List, [], ◌∷◌, if◌then◌else◌, Text, codes,
  eq_text,
}
use py_code_act.Domain.Json.{Json, str, obj, end, field}
use py_code_act.Domain.Events.{no_args}
use py_code_act.Agent.World.{ProviderEvent, StreamEnd, start, finished, cancelled}
use py_code_act.Agent.Monad.{◌>>=◌}
use py_code_act.Agent.Stream.{streaming_start, on_events, on_end}
use py_code_act.Providers.OpenAi
use py_code_act.Providers.OpenAi.{
  ClientEnd, ended, openai_stream, provider_event, any_terminal, normalize_openai_event,
}
use py_code_act.Providers.Codex.{success, codex_stream}
use py_code_act.Providers.Terminal.{HasEndOrFails, codex_stream-HasEndOrFails}
use py_code_act.Providers.Delivered.{Returning, IsMarked, openai_stream-IsMarked}
use py_code_act.Providers.Agree.{AreJsonTexts, normalized, sse_lines, codex_stream-eq-openai_stream}
use py_code_act.Spaces.{lstrip_by}
use py_code_act.Tests.Sample

abbrev raw_delta : Json
raw_delta =
    obj (
      field "type" (str (codes "response.output_text.delta")) (field "delta" (str (codes "a")) end))

abbrev raw_completed : Json
raw_completed =
    obj (field "type" (str (codes "response.completed")) (field "response" (obj end) end))

abbrev raws : List Json
raws = raw_delta ∷ raw_completed ∷ []

abbrev texts : List (Text × Json)
texts = (codes "1", raw_delta) ∷ (codes "2", raw_completed) ∷ []

abbrev loads : Text → Option Json
loads t = if eq_text t (codes "1") then some raw_delta else some raw_completed

codex_stream-HasEndOrFails_example :
    HasEndOrFails false (codex_stream Sample.conversions loads (success (sse_lines texts) ended))
codex_stream-HasEndOrFails_example =
    codex_stream-HasEndOrFails Sample.conversions loads (success (sse_lines texts) ended)

abbrev read : List ProviderEvent × StreamEnd
read = openai_stream Sample.conversions (codes "bad") raws ended

openai_stream-IsMarked_example :
    ((read.1 ≡ cancelled) ⊎ ((read.1 ≡ finished) × (any_terminal read.0 ≡ true)))
    × Returning
        (IsMarked Sample.world no_args (any_terminal read.0))
        (on_events Sample.world no_args read.0 streaming_start)
    × Returning
        (IsMarked Sample.world no_args true)
        (on_events Sample.world no_args read.0 streaming_start >>= on_end read.1)
openai_stream-IsMarked_example =
    openai_stream-IsMarked Sample.world no_args Sample.conversions (codes "bad") raws ended

abbrev or_none : Option (List ProviderEvent) → List ProviderEvent
or_none none = []
or_none (some events) = events

abbrev events : List ProviderEvent
events = or_none (normalized Sample.conversions raws)

texts-AreJsonTexts : AreJsonTexts loads texts
unfolding codes eq_text lstrip_by
texts-AreJsonTexts = (
  record { loaded = refl; stripped = refl; unmarked = refl },
  (record { loaded = refl; stripped = refl; unmarked = refl }, tt),
)

events-normalized : normalized Sample.conversions raws ≡ some events
unfolding normalized normalize_openai_event codes eq_text OpenAi.final_events OpenAi.usage_of
events-normalized = refl

events-any_terminal : any_terminal events ≡ true
unfolding normalized normalize_openai_event codes eq_text OpenAi.final_events OpenAi.usage_of
events-any_terminal = refl

codex_stream-eq-openai_stream_example :
    (codex_stream Sample.conversions loads (success (sse_lines texts) ended)
      ≡ (provider_event start ∷ events, finished))
    × (openai_stream Sample.conversions (codes "bad") raws ended
        ≡ (provider_event start ∷ events, finished))
codex_stream-eq-openai_stream_example =
    codex_stream-eq-openai_stream Sample.conversions loads (codes "bad") texts events
      texts-AreJsonTexts events-normalized events-any_terminal
