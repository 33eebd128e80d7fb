-- ===== src/Observability/Secrets.antt =====
-- What the trace keeps secret (src/py_code_act/observability/redaction.py).
use py_code_act.Prelude.{
  String, ◌≡◌, refl, sym, ap, ◌∙◌, ◌↔◌, inl, inr, Bool, true, false, ◌&&◌, List, [], ◌∷◌, arith,
  if◌then◌else◌, Bool-cases, Text, codes, eq_text, eq_text_iff,
}
use py_code_act.Prelude.Int.{ℤ}
use py_code_act.Domain.Json.{
  Json, null, bool, int, real, str, arr, obj, Items, nil, cons, Fields, end, field,
}
use py_code_act.Observability.{
  is_sensitive, redact, redact_items, redact_fields, mask, TraceRecorder, Call, trace, traces,
}

abbrev pub is_mask : Json → Bool
is_mask (str t) = eq_text t (codes "[REDACTED]")
is_mask _ = false

module _ (lower : Text → Text) where
  -- Values that differ at most in what stands under sensitive keys.
  mutual
    pub data SamePublic : Json → Json → Type 0 where
      same_null : SamePublic null null
      same_bool : (b : Bool) → SamePublic (bool b) (bool b)
      same_int : (n : ℤ) → SamePublic (int n) (int n)
      same_real : (t : Text) → SamePublic (real t) (real t)
      same_str : (t : Text) → SamePublic (str t) (str t)
      same_arr : {xs ys : Items} → SameItems xs ys → SamePublic (arr xs) (arr ys)
      same_obj : {fs gs : Fields} → SameFields fs gs → SamePublic (obj fs) (obj gs)

    pub data SameItems : Items → Items → Type 0 where
      same_nil : SameItems nil nil
      same_cons :
          {v w : Json} {xs ys : Items}
          → SamePublic v w
          → SameItems xs ys
          → SameItems (cons v xs) (cons w ys)

    pub data SameFields : Fields → Fields → Type 0 where
      same_end : SameFields end end
      same_secret :
          {k : String} {v w : Json} {fs gs : Fields}
          → is_sensitive lower k ≡ true
          → SameFields fs gs
          → SameFields (field k v fs) (field k w gs)
      same_field :
          {k : String} {v w : Json} {fs gs : Fields}
          → SamePublic v w
          → SameFields fs gs
          → SameFields (field k v fs) (field k w gs)

  mutual
    unfolding redact redact_items redact_fields

    redact-SamePublic : {v w : Json} → SamePublic v w → redact lower v ≡ redact lower w
    redact-SamePublic same_null = refl
    redact-SamePublic (same_bool b) = refl
    redact-SamePublic (same_int n) = refl
    redact-SamePublic (same_real t) = refl
    redact-SamePublic (same_str t) = refl
    redact-SamePublic (same_arr s) = ap arr (redact_items-SameItems s)
    redact-SamePublic (same_obj s) = ap obj (redact_fields-SameFields s)

    redact_items-SameItems :
        {xs ys : Items} → SameItems xs ys → redact_items lower xs ≡ redact_items lower ys
    redact_items-SameItems same_nil = refl
    redact_items-SameItems (same_cons v s) = rw (redact-SamePublic v, redact_items-SameItems s) refl

    redact_fields-SameFields :
        {fs gs : Fields} → SameFields fs gs → redact_fields lower fs ≡ redact_fields lower gs
    redact_fields-SameFields same_end = refl
    redact_fields-SameFields (same_secret h s) = rw (h, redact_fields-SameFields s) refl
    redact_fields-SameFields (same_field v s) =
        rw (redact-SamePublic v, redact_fields-SameFields s) refl

  -- Calls that differ at most in such values.
  pub record SameCall (c d : Call) : Type 0 where
    pub event : c.event ≡ d.event
    pub payload : SamePublic c.payload d.payload
    pub correlation : SameFields c.correlation d.correlation
    pub timestamp : c.timestamp ≡ d.timestamp
    pub monotonic : c.monotonic ≡ d.monotonic
    pub writing : c.writing ≡ d.writing

  abbrev pub SameCalls : List Call → List Call → Type 0
  SameCalls [] [] = Unit
  SameCalls (c ∷ cs) (d ∷ ds) = SameCall c d × SameCalls cs ds
  SameCalls _ _ = ⊥

  trace-SameCall :
      (r : TraceRecorder) (c d : Call) → SameCall c d → trace lower r c ≡ trace lower r d
  unfolding trace
  trace-SameCall r c d s =
      rw
        (
          s.event,
          redact-SamePublic s.payload,
          redact_fields-SameFields s.correlation,
          s.timestamp,
          s.monotonic,
          s.writing,
        )
        refl

  -- Two sequences of calls whose values differ at most under sensitive keys leave the same trace:
  -- nothing of a value under such a key can be seen in the file, on stderr or in the recorder.
  pub traces-SameCalls :
      (r : TraceRecorder) (cs ds : List Call)
      → SameCalls cs ds
      → traces lower r cs ≡ traces lower r ds
  unfolding traces
  traces-SameCalls r [] [] s = refl
  traces-SameCalls r [] (d ∷ ds) s = absurd s
  traces-SameCalls r (c ∷ cs) [] s = absurd s
  traces-SameCalls r (c ∷ cs) (d ∷ ds) s =
      rw (trace-SameCall r c d s.0, traces-SameCalls (trace lower r d) cs ds s.1) refl

  -- Whether every value under a sensitive key is masked.
  unfoldable mutual
    pub is_clean : Json → Bool
    is_clean null = true
    is_clean (bool b) = true
    is_clean (int n) = true
    is_clean (real t) = true
    is_clean (str t) = true
    is_clean (arr items) = are_clean items
    is_clean (obj fields) = have_clean fields

    pub are_clean : Items → Bool
    are_clean nil = true
    are_clean (cons v items) = is_clean v && are_clean items

    pub have_clean : Fields → Bool
    have_clean end = true
    have_clean (field k v fields) =
        let inside = is_clean v in
        (if is_sensitive lower k then is_mask v else inside) && have_clean fields

  mutual
    unfolding redact is_clean

    is_clean-redact : (v : Json) → is_clean (redact lower v) ≡ true
    is_clean-redact null = refl
    is_clean-redact (bool b) = refl
    is_clean-redact (int n) = refl
    is_clean-redact (real t) = refl
    is_clean-redact (str t) = refl
    is_clean-redact (arr items) = are_clean-redact_items items
    is_clean-redact (obj fields) = have_clean-redact_fields fields

    are_clean-redact_items : (xs : Items) → are_clean (redact_items lower xs) ≡ true
    are_clean-redact_items nil = refl
    are_clean-redact_items (cons v xs) = rw (is_clean-redact v, are_clean-redact_items xs) refl

    have_clean-redact_fields : (fs : Fields) → have_clean (redact_fields lower fs) ≡ true
    have_clean-redact_fields end = refl
    have_clean-redact_fields (field k v fs) = elim (Bool-cases (is_sensitive lower k)) [
      | inl h ↦
          rw
            (
              h,
              have_clean-redact_fields fs,
              (eq_text_iff (codes "[REDACTED]") (codes "[REDACTED]")).1 refl,
            )
            refl
      | inr h ↦ rw (h, is_clean-redact v, have_clean-redact_fields fs) refl
    ]

  is_mask-eq : (v : Json) → is_mask v ≡ true → v ≡ mask
  is_mask-eq (str t) h = ap str ((eq_text_iff t (codes "[REDACTED]")).0 h)
  is_mask-eq null h = absurd (ground arith)
  is_mask-eq (bool b) h = absurd (ground arith)
  is_mask-eq (int n) h = absurd (ground arith)
  is_mask-eq (real t) h = absurd (ground arith)
  is_mask-eq (arr xs) h = absurd (ground arith)
  is_mask-eq (obj fs) h = absurd (ground arith)

  mutual
    unfolding redact is_clean

    redact-clean : (v : Json) → is_clean v ≡ true → redact lower v ≡ v
    redact-clean null h = refl
    redact-clean (bool b) h = refl
    redact-clean (int n) h = refl
    redact-clean (real t) h = refl
    redact-clean (str t) h = refl
    redact-clean (arr items) h = ap arr (redact_items-clean items h)
    redact-clean (obj fields) h = ap obj (redact_fields-clean fields h)

    redact_items-clean : (xs : Items) → are_clean xs ≡ true → redact_items lower xs ≡ xs
    redact_items-clean nil h = refl
    redact_items-clean (cons v xs) h =
        rw (redact-clean v (ground arith), redact_items-clean xs (ground arith)) refl

    redact_fields-clean : (fs : Fields) → have_clean fs ≡ true → redact_fields lower fs ≡ fs
    redact_fields-clean end h = refl
    redact_fields-clean (field k v fs) h = elim (Bool-cases (is_sensitive lower k)) [
      | inl s ↦
          rw (s, sym (is_mask-eq v (ground arith)), redact_fields-clean fs (ground arith)) refl
      | inr s ↦ rw (s, redact-clean v (ground arith), redact_fields-clean fs (ground arith)) refl
    ]

  -- Redaction masks every value under a sensitive key, at every depth, and it leaves a value as it is
  -- exactly where these are masked already, so that to redact twice is to redact once.
  pub redact_fixed_iff :
      (v : Json)
      → (is_clean (redact lower v) ≡ true)
        × ((redact lower v ≡ v) ↔ (is_clean v ≡ true))
        × (redact lower (redact lower v) ≡ redact lower v)
  redact_fixed_iff v = (
    is_clean-redact v,
    (λ e. ap is_clean (sym e) ∙ is_clean-redact v, redact-clean v),
    redact-clean (redact lower v) (is_clean-redact v),
  )
