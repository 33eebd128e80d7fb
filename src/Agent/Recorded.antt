-- ===== src/Agent/Recorded.antt =====
-- What a run leaves in the ledger and among the events.
use py_code_act.Prelude.{
  ℕ, suc, ◌+◌, ◌≡◌, refl, sym, ◌∙◌, some, List, [], ◌∷◌, ◌++◌, map, append-nil, append_assoc, arith,
  Text, codes, length, length-append, eq_text,
}
use mathlib.Core.List.{map-append}
use py_code_act.Domain.Json.{end, field, obj, Conversions}
use py_code_act.Domain.Messages.{Message}
use py_code_act.Domain.Events.{RuntimeEvent, create}
use py_code_act.Domain.Codec.Transcript.{message_to_dict, Fresh}
use py_code_act.Domain.Codec.RoundTrip.{HasIds, message_from_dict-message_to_dict}
use py_code_act.Storage.Session
use py_code_act.Storage.Session.{SessionEntry, raw_messages, read_messages, messages}
use py_code_act.Agent.World.{World, RunConfig}
use py_code_act.Agent.Harness.{Harness}
use py_code_act.Agent.Loop
use py_code_act.Agent.Steady.{Record, record_of}
use py_code_act.Agent.Stable.{IsStable, Keeps-run}

-- The events carry the numbers after `n`, in order.
abbrev pub Numbered : ℕ → List RuntimeEvent → Type 0
Numbered n [] = Unit
Numbered n (e ∷ events) = (e.sequence ≡ suc n) × Numbered (suc n) events

Numbered-concat :
    (n : ℕ) (events : List RuntimeEvent) (e : RuntimeEvent)
    → Numbered n events
    → e.sequence ≡ suc (n + length events)
    → Numbered n (events ++ e ∷ [])
Numbered-concat n [] e h k = omega arith
Numbered-concat n (d ∷ events) e h k = (h.0, Numbered-concat (suc n) events e h.1 (omega arith))

-- The events are numbered from 1 without a gap, and the factory goes on from the last.
pub record IsNumbered (r : Record) : Type 0 where
  pub numbered : Numbered 0 r.events
  pub last : r.factory.sequence ≡ length r.events

IsNumbered-IsStable : IsStable IsNumbered
unfolding create
IsNumbered-IsStable = record {
  event = λ r type args now h. record {
    numbered = Numbered-concat 0 r.events _ h.numbered (omega (arith, h.last));
    last = omega (arith, h.last, length-append r.events ((create r.factory type args now).1 ∷ []));
  };
  entry = λ r payload id now h. record { numbered = h.numbered; last = h.last };
  message = λ r m id now h. record { numbered = h.numbered; last = h.last };
  request = λ r q h. record { numbered = h.numbered; last = h.last };
  cell = λ r code h. record { numbered = h.numbered; last = h.last };
}

-- The ledger's messages are the transcript in its JSON form, in order.
abbrev pub IsRecorded : Record → Type 0
IsRecorded r = raw_messages r.ledger.entries ≡ map message_to_dict r.messages

raw_messages-append :
    (a b : List SessionEntry) → raw_messages (a ++ b) ≡ raw_messages a ++ raw_messages b
unfolding raw_messages
raw_messages-append [] b = refl
raw_messages-append (e ∷ a) b = ground (arith, raw_messages-append a b)

IsRecorded-IsStable : IsStable IsRecorded
unfolding Session.append Session.append_message raw_messages codes eq_text
IsRecorded-IsStable = record {
  event = λ r type args now h. h;
  entry = λ r payload id now h. raw_messages-append r.ledger.entries _ ∙ append-nil _ ∙ h;
  message = λ r m id now h. raw_messages-append r.ledger.entries _ ∙ rw (map-append, h);
  request = λ r q h. h;
  cell = λ r code h. h;
}

-- Entries, events and messages are only added at the end.
pub record Extends (before after : Record) : Type 0 where
  pub new_entries : List SessionEntry
  pub new_events : List RuntimeEvent
  pub new_messages : List Message
  pub entries : after.ledger.entries ≡ before.ledger.entries ++ new_entries
  pub events : after.events ≡ before.events ++ new_events
  pub messages : after.messages ≡ before.messages ++ new_messages

Extends-refl : (r : Record) → Extends r r
Extends-refl r = record {
  new_entries = [];
  new_events = [];
  new_messages = [];
  entries = sym (append-nil _);
  events = sym (append-nil _);
  messages = sym (append-nil _);
}

Extends-IsStable : (before : Record) → IsStable (Extends before)
unfolding create Session.append Session.append_message
Extends-IsStable before = record {
  event = λ r type args now h. record {
    new_entries = h.new_entries;
    new_events = h.new_events ++ (create r.factory type args now).1 ∷ [];
    new_messages = h.new_messages;
    entries = h.entries;
    events =
        rw h.events
          (append_assoc before.events h.new_events ((create r.factory type args now).1 ∷ []));
    messages = h.messages;
  };
  entry = λ r payload id now h. record {
    new_entries =
        h.new_entries ++ Session.new_entry r.ledger (codes "kernel_restart") payload id now ∷ [];
    new_events = h.new_events;
    new_messages = h.new_messages;
    entries = rw h.entries (
        append_assoc before.ledger.entries h.new_entries
          (Session.new_entry r.ledger (codes "kernel_restart") payload id now ∷ []));
    events = h.events;
    messages = h.messages;
  };
  message = λ r m id now h. record {
    new_entries =
        h.new_entries
        ++ Session.new_entry r.ledger (codes "message")
            (field "message" (obj (message_to_dict m)) end) id now
          ∷ [];
    new_events = h.new_events;
    new_messages = h.new_messages ++ m ∷ [];
    entries = rw h.entries (
        append_assoc before.ledger.entries h.new_entries (
          Session.new_entry r.ledger (codes "message")
            (field "message" (obj (message_to_dict m)) end) id now
          ∷ []));
    events = h.events;
    messages = rw h.messages (append_assoc before.messages h.new_messages (m ∷ []));
  };
  request = λ r q h. record {
    new_entries = h.new_entries;
    new_events = h.new_events;
    new_messages = h.new_messages;
    entries = h.entries;
    events = h.events;
    messages = h.messages;
  };
  cell = λ r code h. record {
    new_entries = h.new_entries;
    new_events = h.new_events;
    new_messages = h.new_messages;
    entries = h.entries;
    events = h.events;
    messages = h.messages;
  };
}

abbrev pub All {ℓ} : {A : Type ℓ} → (A → Type 0) → List A → Type 0
All P [] = Unit
All P (x ∷ xs) = P x × All P xs

read_messages-map :
    (py : Conversions) (fresh : ℕ → Fresh) (n : ℕ) (ms : List Message)
    → All HasIds ms
    → read_messages py fresh n (map message_to_dict ms) ≡ some ms
unfolding read_messages
read_messages-map py fresh n [] h = refl
read_messages-map py fresh n (m ∷ ms) h = rw (
  message_from_dict-message_to_dict py (fresh n) m h.0,
  read_messages-map py fresh (suc n) ms h.1,
)

module _ {W : Type 0} (world : World W) (config : RunConfig) (user_text : Text)
    (h : Harness W) where
  abbrev pub after_run : Harness W
  after_run = (Loop.run world config user_text h).1

  -- A run keeps the events numbered from 1 without a gap, in the order of their creation.
  pub run-IsNumbered : IsNumbered (record_of h) → IsNumbered (record_of after_run)
  run-IsNumbered n = (Keeps-run world IsNumbered-IsStable config user_text).at h n

  -- A run, whether it returns or raises, only adds to the ledger, to the events and to the
  -- transcript, and leaves what was there.
  pub run-Extends : Extends (record_of h) (record_of after_run)
  run-Extends =
      (Keeps-run world (Extends-IsStable (record_of h)) config user_text).at h (Extends-refl _)

  -- Where the ledger held the transcript before a run, and every message of the transcript after
  -- it has its ids, `SessionLedger.messages` reads the transcript back from the ledger, message by
  -- message, whatever new ids and times are at hand.
  pub messages-run :
      (py : Conversions) (fresh : ℕ → Fresh)
      → IsRecorded (record_of h)
      → All HasIds after_run.state.messages
      → messages py fresh after_run.ledger ≡ some after_run.state.messages
  unfolding messages
  messages-run py fresh r ids =
      rw ((Keeps-run world IsRecorded-IsStable config user_text).at h r)
        (read_messages-map py fresh 0 after_run.state.messages ids)
