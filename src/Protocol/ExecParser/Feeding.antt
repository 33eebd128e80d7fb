-- ===== src/Protocol/ExecParser/Feeding.antt =====
-- What a parser holds after each chunk that it is fed: the lines so far, read one by one.
use py_code_act.Prelude.{
  false, some, List, [], ◌∷◌, ◌++◌, ◌≡◌, ◌≢◌, refl, ap, sym, ◌∙◌, inl, inr, arith, append-nil,
  append_assoc, Text, join, join-append, is_nil, length, ◌⊎◌, suc,
}
use py_code_act.Protocol.ExecParser.{
  ExecParser, ParserState, ParserDelta, text, exec, after_exec, error, initial, process_line, feed,
  feed_all,
}
use py_code_act.Protocol.ExecParser.Lines.{
  split_lines, steps, split_lines-append, steps-append, with_input, steps-with_input, drain_lem,
}

pub ParserState-cases : (s : ParserState) → (s ≡ error) ⊎ (s ≢ error)
ParserState-cases error = inl refl
ParserState-cases text = inr (λ e. cc)
ParserState-cases exec = inr (λ e. cc)
ParserState-cases after_exec = inr (λ e. cc)

-- The parser that has read the complete lines of `t`, and the deltas that it gave.
abbrev pub read : Text → ExecParser × List ParserDelta
read t = steps initial (split_lines t).0

-- What a parser holds once it was fed `t`.
pub record Fed (t : Text) (p : ExecParser) : Type 0 where
  pub open_still : p.finalized ≡ false
  pub raw : join p.raw ≡ t
  pub core : with_input p [] [] ≡ with_input (read t).0 [] []
  pub pending : p.state ≢ error → p.pending ≡ (split_lines t).1

pub Fed-initial : Fed [] initial
unfolding split_lines steps join
Fed-initial = record { open_still = refl; raw = refl; core = refl; pending = λ h. refl }

pub steps-error : (p : ExecParser) (lines : List Text) → p.state ≡ error → steps p lines ≡ (p, [])
unfolding steps process_line
steps-error p [] h = refl
steps-error p (line ∷ lines) h = ground (arith, steps-error p lines h)

steps-finalized : (p : ExecParser) (lines : List Text) → (steps p lines).0.finalized ≡ p.finalized
unfolding steps process_line
steps-finalized p [] = refl
steps-finalized p (line ∷ lines) = ground (arith, steps-finalized (process_line p line).0 lines)

read-append :
    (t c : Text)
    → read (t ++ c) ≡ (
      (steps (read t).0 (split_lines ((split_lines t).1 ++ c)).0).0,
      (read t).1 ++ (steps (read t).0 (split_lines ((split_lines t).1 ++ c)).0).1,
    )
read-append t c = rw split_lines-append (steps-append initial _ _)

-- One `feed`, from a parser that was fed `t`.
record Feeds (t c : Text) (p : ExecParser) : Type 0 where
  next : ExecParser
  deltas : List ParserDelta
  fed : feed p c ≡ some (next, deltas)
  holds : Fed (t ++ c) next
  told : (read (t ++ c)).1 ≡ (read t).1 ++ deltas

feed-nil : (t : Text) (p : ExecParser) → Fed t p → Feeds t [] p
unfolding feed
feed-nil t p h = record {
  next = p;
  deltas = [];
  fed = ground (arith, h.open_still);
  holds = rw append-nil h;
  told = simp append-nil;
}

pub core-state : (t : Text) (p : ExecParser) → Fed t p → (read t).0.state ≡ p.state
unfolding with_input
core-state t p h = sym (ap (λ (q : ExecParser). q.state) h.core)

join-concat : (raw : List Text) (t c : Text) → join raw ≡ t → join (raw ++ c ∷ []) ≡ t ++ c
unfolding join
join-concat raw t c h = rw join-append (rw (h, append-nil))

feed-error :
    (t c : Text) (p : ExecParser) → p.state ≡ error → is_nil c ≡ false → Fed t p → Feeds t c p
unfolding feed with_input
feed-error t c p e n h =
    let quiet =
      steps-error (read t).0 (split_lines ((split_lines t).1 ++ c)).0 (core-state t p h ∙ e) in
    let same = rw quiet at (read-append t c) in
    record {
      next = record p { raw = p.raw ++ c ∷ [] };
      deltas = [];
      fed = ground (arith, h.open_still);
      holds = record {
        open_still = h.open_still;
        raw = join-concat p.raw t c h.raw;
        core = rw same h.core;
        pending = λ k. absurd (k e);
      };
      told = rw same;
    }

-- The lines that `feed` completes are read from where the parser stood.
feed-lines :
    (t c : Text) (p : ExecParser) → p.state ≢ error → is_nil c ≡ false → Fed t p → Feeds t c p
unfolding feed with_input
feed-lines t c p e n h =
    let pending = p.pending ++ c in
    let fed = record p { raw = p.raw ++ c ∷ []; pending = pending } in
    let lines = (split_lines pending).0 in
    let same : fed ≡ with_input (read t).0 pending fed.raw =
      ap (λ (q : ExecParser). with_input q pending fed.raw) h.core in
    let ran : steps fed lines
        ≡ (with_input (steps (read t).0 lines).0 pending fed.raw, (steps (read t).0 lines).1) =
      rw same (steps-with_input (read t).0 pending fed.raw lines) in
    let grown : read (t ++ c)
        ≡ ((steps (read t).0 lines).0, (read t).1 ++ (steps (read t).0 lines).1) =
      rw (h.pending e) (read-append t c) in
    record {
      next = with_input (steps fed lines).0 (split_lines pending).1 fed.raw;
      deltas = (steps fed lines).1;
      fed = ground (arith, h.open_still, drain_lem (suc (length pending)) fed);
      holds = record {
        open_still = steps-finalized fed lines ∙ h.open_still;
        raw = join-concat p.raw t c h.raw;
        core = rw (ran, grown);
        pending = λ k.
            rw (h.pending e) (ap (λ (q : List Text × Text). q.1) (sym (split_lines-append t c)));
      };
      told = rw (ran, grown);
    }

feed_lem : (t c : Text) (p : ExecParser) → Fed t p → Feeds t c p
feed_lem t [] p h = feed-nil t p h
feed_lem t (x ∷ c) p h = elim (ParserState-cases p.state) [
  | inl e ↦ feed-error t (x ∷ c) p e refl h
  | inr e ↦ feed-lines t (x ∷ c) p e refl h
]

-- Every chunk is fed to a parser that was fed `t`.
pub record FeedsAll (t : Text) (chunks : List Text) (p : ExecParser) : Type 0 where
  pub last : ExecParser
  pub deltas : List ParserDelta
  pub fed : feed_all p chunks ≡ some (last, deltas)
  pub holds : Fed (t ++ join chunks) last
  pub told : (read (t ++ join chunks)).1 ≡ (read t).1 ++ deltas

pub feed_all_lem : (t : Text) (chunks : List Text) (p : ExecParser) → Fed t p → FeedsAll t chunks p
unfolding feed_all join
feed_all_lem t [] p h = record {
  last = p;
  deltas = [];
  fed = refl;
  holds = rw append-nil h;
  told = simp append-nil;
}
feed_all_lem t (chunk ∷ chunks) p h =
    let f = feed_lem t chunk p h in
    let g = feed_all_lem (t ++ chunk) chunks f.next f.holds in
    let regroup = append_assoc t chunk (join chunks) in
    record {
      last = g.last;
      deltas = f.deltas ++ g.deltas;
      fed = rw (f.fed, g.fed);
      holds = rw regroup at g.holds;
      told = rw (← regroup, g.told, f.told, append_assoc);
    }
