-- ===== src/Providers/Agree.antt =====
-- The two providers read the same events in two forms (src/py_code_act/providers/openai.py and
-- src/py_code_act/providers/openai_codex.py).
use py_code_act.Prelude.{
  ◌≡◌, refl, ◌∙◌, Bool, true, false, ◌||◌, Option, none, some, List, [], ◌∷◌, ◌++◌, arith, ◌>>=◌,
  Text, codes, eq_text,
}
use py_code_act.Spaces.{lstrip, lstrip_by, starts_with, drop}
use py_code_act.Domain.Json.{Json, Conversions}
use py_code_act.Agent.World.{start, ProviderEvent, finished}
use py_code_act.Protocol.Observations.{join_lines}
use py_code_act.Providers.OpenAi
use py_code_act.Providers.OpenAi.{
  as_dict, normalize_openai_event, any_terminal, ended, read_raw, openai_stream, provider_event,
}
use py_code_act.Providers.Terminal.{any_terminal-append}
use py_code_act.Providers.Codex
use py_code_act.Providers.Codex.{
  success, read_lines, finish_lines, events_from_sse_data, and_then, codex_stream,
}

-- The lines of server-sent events with one data line each.
abbrev pub sse_lines : List (Text × Json) → List Text
sse_lines [] = []
sse_lines ((t, raw) ∷ texts) = (codes "data: " ++ t) ∷ [] ∷ sse_lines texts

abbrev pub raws_of : List (Text × Json) → List Json
raws_of [] = []
raws_of ((t, raw) ∷ texts) = raw ∷ raws_of texts

-- The text is the JSON text of the value, starts with no white space, and differs from the end mark of the stream.
pub record IsJsonText (loads : Text → Option Json) (t : Text) (raw : Json) : Type 0 where
  pub loaded : loads t ≡ some raw
  pub stripped : lstrip t ≡ t
  pub unmarked : eq_text t (codes "[DONE]") ≡ false

abbrev pub AreJsonTexts : (Text → Option Json) → List (Text × Json) → Type 0
AreJsonTexts loads [] = Unit
AreJsonTexts loads ((t, raw) ∷ texts) = IsJsonText loads t raw × AreJsonTexts loads texts

-- The provider events of raw events.
unfoldable pub normalized : Conversions → List Json → Option (List ProviderEvent)
normalized py [] = some []
normalized py (raw ∷ raws) = do
  events ← normalize_openai_event py (as_dict raw)
  later ← normalized py raws
  some (events ++ later)

-- Where a raw event and the later ones are normal.
normalized-cons :
    (py : Conversions) (raw : Json) (raws : List Json) (all : List ProviderEvent)
    → normalized py (raw ∷ raws) ≡ some all
    → (events : List ProviderEvent) × (later : List ProviderEvent) × (normalize_openai_event py
          (as_dict raw)
        ≡ some events)
      × (normalized py raws ≡ some later)
      × (all ≡ events ++ later)
unfolding normalized
normalized-cons py raw raws all h =
    go (normalize_openai_event py (as_dict raw)) (normalized py raws) refl refl h
  where
    go :
        (o : Option (List ProviderEvent)) (p : Option (List ProviderEvent))
        → normalize_openai_event py (as_dict raw) ≡ o
        → normalized py raws ≡ p
        → (do events ← o; later ← p; some (events ++ later)) ≡ some all
        → (events : List ProviderEvent) × (later : List ProviderEvent) × (normalize_openai_event py
              (as_dict raw)
            ≡ some events)
          × (normalized py raws ≡ some later)
          × (all ≡ events ++ later)
    go none p e f k = absurd (cc)
    go (some events) none e f k = absurd (cc)
    go (some events) (some later) e f k = (events, later, e, f, cc)

module _ (py : Conversions) (invalid : Text) where
  read_raw-normalized :
      (terminal : Bool) (raws : List Json) (events : List ProviderEvent)
      → normalized py raws ≡ some events
      → terminal || any_terminal events ≡ true
      → read_raw py invalid terminal raws ended ≡ (events, finished)
  unfolding read_raw OpenAi.end_events normalized
  read_raw-normalized terminal [] events n t = ground arith
  read_raw-normalized terminal (raw ∷ raws) all n t =
      let (events, later, now, then', e) = normalized-cons py raw raws all n in
      rw
        (
          now,
          read_raw-normalized (terminal || any_terminal events) raws later then'
              (ground (arith, any_terminal-append events later)),
          e,
        )
        refl

module _ (py : Conversions) (loads : Text → Option Json) where
  events_from_sse_data-IsJsonText :
      (t : Text) (raw : Json)
      → IsJsonText loads t raw
      → events_from_sse_data py loads (t ∷ []) ≡ normalize_openai_event py (as_dict raw)
  unfolding events_from_sse_data join_lines
  events_from_sse_data-IsJsonText t raw h = rw (h.unmarked, h.loaded) refl

  read_lines-sse :
      (terminal : Bool) (t : Text) (raw : Json) (lines : List Text)
      → IsJsonText loads t raw
      → read_lines py loads terminal [] ((codes "data: " ++ t) ∷ [] ∷ lines) ended
        ≡ and_then py loads
            (normalize_openai_event py (as_dict raw))
            (λ events. read_lines py loads (terminal || any_terminal events) [] lines ended)
  unfolding read_lines codes starts_with drop lstrip_by
  read_lines-sse terminal t raw lines h =
      rw (h.stripped, events_from_sse_data-IsJsonText t raw h) refl

  read_lines-normalized :
      (terminal : Bool) (texts : List (Text × Json)) (events : List ProviderEvent)
      → AreJsonTexts loads texts
      → normalized py (raws_of texts) ≡ some events
      → terminal || any_terminal events ≡ true
      → read_lines py loads terminal [] (sse_lines texts) ended ≡ (events, finished)
  unfolding read_lines finish_lines Codex.end_events normalized events_from_sse_data
  read_lines-normalized terminal [] events j n t = ground arith
  read_lines-normalized terminal ((text, raw) ∷ texts) all j n t =
      let (events, later, now, then', e) = normalized-cons py raw (raws_of texts) all n in
      let rest =
        read_lines-normalized (terminal || any_terminal events) texts later j.1 then'
          (ground (arith, any_terminal-append events later)) in
      read_lines-sse terminal text raw (sse_lines texts) j.0 ∙ rw (now, rest, e) refl

  -- Where raw events are well formed and one of them is terminal, both providers give the loop the
  -- same events: the start and the normalized events in order. Codex reads them from the lines of
  -- server-sent events, OpenAI from the SDK.
  pub codex_stream-eq-openai_stream :
      (invalid : Text) (texts : List (Text × Json)) (events : List ProviderEvent)
      → AreJsonTexts loads texts
      → normalized py (raws_of texts) ≡ some events
      → any_terminal events ≡ true
      → (codex_stream py loads (success (sse_lines texts) ended)
          ≡ (provider_event start ∷ events, finished))
        × (openai_stream py invalid (raws_of texts) ended
            ≡ (provider_event start ∷ events, finished))
  unfolding codex_stream openai_stream
  codex_stream-eq-openai_stream invalid texts events j n t = (
    rw (read_lines-normalized false texts events j n t) refl,
    rw (read_raw-normalized py invalid false (raws_of texts) events n t) refl,
  )
