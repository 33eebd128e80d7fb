-- ===== src/Tools/Skills/Discovery/Selection.antt =====
-- Which skills are selected (`discover_skills` in src/py_code_act/tools/skills.py).
use py_code_act.Prelude.{
  ◌≡◌, refl, sym, inl, inr, Bool, false, Option, none, some, List, [], ◌∷◌, ◌++◌, append-nil,
  append_assoc, Bool-cases, Option-cases, Text,
}
use py_code_act.Dict.{
  Dict, lookup, Unique, set-Unique, set_new, has-lookup, lookup-append, lookup-last,
}
use py_code_act.Files.{member_path, NoRepeat, FilePath, Node, FileSystem}
use py_code_act.Tools.Skills.{SkillSummary, SkillDiagnostic, SkillLibrary, Found}
use py_code_act.Tools.Skills.Scan.{Scanned, scanned, decode_error, and_then}
use py_code_act.Tools.Skills.Discovery.{
  Selected, nothing_selected, with_diagnostics, collision, with_skill, Source, sources, select,
  select_all, select_found, found_at, at_source, resolved_all, discover_from, discover_skills,
}

-- What holds of a result, where no ignore file stopped the discovery.
abbrev pub OnScanned {ℓ} : {A : Type 0} → (A → Type ℓ) → Scanned A → Type ℓ
OnScanned P (scanned a) = P a
OnScanned P (decode_error error) = Unit

OnScanned-and_then {ℓ} :
    {A B : Type 0} (P : A → Type ℓ) (Q : B → Type ℓ) (o : Scanned A) (f : A → Scanned B)
    → OnScanned P o
    → ((a : A) → P a → OnScanned Q (f a))
    → OnScanned Q (and_then o f)
OnScanned-and_then P Q (scanned a) f p k = k a p
OnScanned-and_then P Q (decode_error error) f p k = tt

OnScanned-weaken {ℓ} :
    {A : Type 0} (P Q : A → Type ℓ) (o : Scanned A)
    → ((a : A) → P a → Q a)
    → OnScanned P o
    → OnScanned Q o
OnScanned-weaken P Q (scanned a) f p = f a p
OnScanned-weaken P Q (decode_error error) f p = tt

always : {A : Type 0} (o : Scanned A) → OnScanned (λ a. Unit {0}) o
always (scanned a) = tt
always (decode_error error) = tt

-- Every skill stands under its own name.
abbrev pub Keyed : Dict SkillSummary → Type 0
Keyed [] = Unit
Keyed ((name, skill) ∷ d) = (name ≡ skill.name) × Keyed d

Keyed-append :
    (d : Dict SkillSummary) (skill : SkillSummary) → Keyed d → Keyed (d ++ (skill.name, skill) ∷ [])
Keyed-append [] skill k = (refl, tt)
Keyed-append ((name, s) ∷ d) skill k = (k.0, Keyed-append d skill k.1)

module _ (lib : SkillLibrary) (fs : FileSystem) where
  -- The resolved files of the skills, the last selected first.
  abbrev pub canonical_of : Dict SkillSummary → List FilePath
  canonical_of [] = []
  canonical_of ((name, skill) ∷ d) = canonical_of d ++ fs.resolve skill.file_path ∷ []

  canonical_of-append :
      (d : Dict SkillSummary) (skill : SkillSummary)
      → canonical_of (d ++ (skill.name, skill) ∷ []) ≡ fs.resolve skill.file_path ∷ canonical_of d
  canonical_of-append [] skill = refl
  canonical_of-append ((name, s) ∷ d) skill = rw (canonical_of-append d skill) refl

  -- The names differ, every skill stands under its name, and no file is selected twice.
  pub record IsSelection (s : Selected) : Type 0 where
    pub unique : Unique s.skills
    pub keyed : Keyed s.skills
    pub files : s.canonical_paths ≡ canonical_of s.skills
    pub different : NoRepeat s.canonical_paths

  -- Every name keeps its skill, and no diagnostic is lost.
  pub record IsKept (s t : Selected) : Type 0 where
    pub skills :
        (k : Text) (v : SkillSummary) → lookup k s.skills ≡ some v → lookup k t.skills ≡ some v
    pub more : List SkillDiagnostic
    pub diagnostics : t.diagnostics ≡ s.diagnostics ++ more

  IsKept-refl : (s : Selected) → IsKept s s
  IsKept-refl s = record {
    skills = λ k v e. e;
    more = [];
    diagnostics = sym (append-nil s.diagnostics);
  }

  IsKept-trans : (s t u : Selected) → IsKept s t → IsKept t u → IsKept s u
  IsKept-trans s t u a b = record {
    skills = λ k v e. b.skills k v (a.skills k v e);
    more = a.more ++ b.more;
    diagnostics = rw (b.diagnostics, a.diagnostics) (append_assoc s.diagnostics a.more b.more);
  }

  IsKept-with_diagnostics :
      (s : Selected) (more : List SkillDiagnostic) → IsKept s (with_diagnostics s more)
  IsKept-with_diagnostics s more = record { skills = λ k v e. e; more = more; diagnostics = refl }

  -- What `select` does: a file is known, a name is taken, or the skill is new.
  select-cases :
      (P : Selected → Type 0) (s : Selected) (skill : SkillSummary)
      → P s
      → ((existing : SkillSummary) → P (with_diagnostics s (collision skill existing ∷ [])))
      → (member_path (fs.resolve skill.file_path) s.canonical_paths ≡ false
          → lookup skill.name s.skills ≡ none
          → P (with_skill s (fs.resolve skill.file_path) skill))
      → P (select lib fs s skill)
  unfolding select
  select-cases P s skill known taken new =
      elim (Bool-cases (member_path (fs.resolve skill.file_path) s.canonical_paths)) [
        | inl m ↦ rw m known
        | inr m ↦ elim (Option-cases (lookup skill.name s.skills)) [
          | inl l ↦ rw (m, l) (new m l)
          | inr (existing, l) ↦ rw (m, l) (taken existing)
        ]
      ]

  with_skill-IsSelection :
      (s : Selected) (skill : SkillSummary)
      → IsSelection s
      → member_path (fs.resolve skill.file_path) s.canonical_paths ≡ false
      → lookup skill.name s.skills ≡ none
      → IsSelection (with_skill s (fs.resolve skill.file_path) skill)
  with_skill-IsSelection s skill h m l =
      let added = set_new skill.name skill s.skills (has-lookup skill.name s.skills l) in
      record {
        unique = set-Unique skill.name skill s.skills h.unique;
        keyed = rw added (Keyed-append s.skills skill h.keyed);
        files = rw (added, h.files) (sym (canonical_of-append s.skills skill));
        different = (m, h.different);
      }

  with_diagnostics-IsSelection :
      (s : Selected) (more : List SkillDiagnostic)
      → IsSelection s
      → IsSelection (with_diagnostics s more)
  with_diagnostics-IsSelection s more h = record {
    unique = h.unique;
    keyed = h.keyed;
    files = h.files;
    different = h.different;
  }

  with_skill-IsKept :
      (s : Selected) (skill : SkillSummary)
      → lookup skill.name s.skills ≡ none
      → IsKept s (with_skill s (fs.resolve skill.file_path) skill)
  with_skill-IsKept s skill l =
      let added = set_new skill.name skill s.skills (has-lookup skill.name s.skills l) in
      record {
        skills = λ k v e. rw added (lookup-append k s.skills _ v e);
        more = [];
        diagnostics = sym (append-nil s.diagnostics);
      }

  select_all-IsSelection :
      (s : Selected) (skills : List SkillSummary)
      → IsSelection s
      → IsSelection (select_all lib fs s skills)
  unfolding select_all
  select_all-IsSelection s [] h = h
  select_all-IsSelection s (skill ∷ skills) h =
      select_all-IsSelection (select lib fs s skill) skills (
        select-cases IsSelection s skill h (λ e. with_diagnostics-IsSelection s _ h)
          (with_skill-IsSelection s skill h))

  select_all-IsKept :
      (s : Selected) (skills : List SkillSummary) → IsKept s (select_all lib fs s skills)
  unfolding select_all
  select_all-IsKept s [] = IsKept-refl s
  select_all-IsKept s (skill ∷ skills) =
      IsKept-trans s (select lib fs s skill) _
        (select-cases (IsKept s) s skill (IsKept-refl s) (λ e. IsKept-with_diagnostics s _)
          (λ m. with_skill-IsKept s skill))
        (select_all-IsKept (select lib fs s skill) skills)

  select_all-append :
      (s : Selected) (a b : List SkillSummary)
      → select_all lib fs s (a ++ b) ≡ select_all lib fs (select_all lib fs s a) b
  unfolding select_all
  select_all-append s [] b = refl
  select_all-append s (skill ∷ a) b = select_all-append (select lib fs s skill) a b

  select_new_lem :
      (s : Selected) (skill : SkillSummary)
      → lookup skill.name s.skills ≡ none
      → member_path (fs.resolve skill.file_path) s.canonical_paths ≡ false
      → lookup skill.name (select lib fs s skill).skills ≡ some skill
  unfolding select
  select_new_lem s skill n m =
      rw (m, n, set_new skill.name skill s.skills (has-lookup skill.name s.skills n))
        (lookup-last skill.name s.skills skill n)

  -- A new skill keeps its name whatever comes after it.
  select_all-first :
      (s : Selected) (before after : List SkillSummary) (skill : SkillSummary)
      → lookup skill.name (select_all lib fs s before).skills ≡ none
      → member_path (fs.resolve skill.file_path) (select_all lib fs s before).canonical_paths
        ≡ false
      → lookup skill.name (select_all lib fs s (before ++ skill ∷ after)).skills ≡ some skill
  unfolding select_all
  select_all-first s before after skill n m =
      let t = select_all lib fs s before in
      rw (select_all-append s before (skill ∷ after)) (
        (select_all-IsKept (select lib fs t skill) after).skills skill.name skill
          (select_new_lem t skill n m))

  -- A step from a state to one that a relation allows.
  at_source-cases :
      (P : Selected → Type 0) (explicit : List FilePath) (s : Selected) (path : FilePath)
      (include : Bool) (o : Option Node)
      → P s
      → ((more : List SkillDiagnostic) → P (with_diagnostics s more))
      → ((f : Found) → P (select_found lib fs s f))
      → OnScanned P (at_source lib fs explicit s path include o)
  at_source-cases P explicit s path include none same more found =
      elim (Bool-cases (member_path path (resolved_all lib fs explicit))) [
        | inl e ↦ rw e (more _)
        | inr e ↦ rw e same
      ]
  at_source-cases P explicit s path include (some node) same more found =
      OnScanned-and_then (λ f. Unit {0}) P (found_at lib fs path include node) _
        (always (found_at lib fs path include node)) (λ f u. found f)

  discover_from-IsSelection :
      (explicit : List FilePath) (s : Selected) (later : List Source)
      → IsSelection s
      → OnScanned IsSelection (discover_from lib fs explicit s later)
  unfolding discover_from
  discover_from-IsSelection explicit s [] h = h
  discover_from-IsSelection explicit s ((path, include) ∷ later) h =
      OnScanned-and_then IsSelection IsSelection
        (at_source lib fs explicit s path include (fs.look path)) _
        (at_source-cases IsSelection explicit s path include (fs.look path) h
          (λ more. with_diagnostics-IsSelection s more h)
          (λ f. select_all-IsSelection _ f.skills (with_diagnostics-IsSelection s f.diagnostics h)))
        (λ next k. discover_from-IsSelection explicit next later k)

  discover_from-IsKept :
      (explicit : List FilePath) (s : Selected) (later : List Source)
      → OnScanned (IsKept s) (discover_from lib fs explicit s later)
  unfolding discover_from
  discover_from-IsKept explicit s [] = IsKept-refl s
  discover_from-IsKept explicit s ((path, include) ∷ later) =
      OnScanned-and_then (IsKept s) (IsKept s)
        (at_source lib fs explicit s path include (fs.look path)) _
        (at_source-cases (IsKept s) explicit s path include (fs.look path) (IsKept-refl s)
          (IsKept-with_diagnostics s)
          (λ f.
            IsKept-trans s _ _ (IsKept-with_diagnostics s f.diagnostics)
              (select_all-IsKept _ f.skills)))
        (λ next k.
          OnScanned-weaken (IsKept next) (IsKept s) _ (λ u b. IsKept-trans s next u k b)
            (discover_from-IsKept explicit next later))

  -- Whatever the file system holds, the skills that a discovery selects have different names and
  -- different files, each under its own name, unless an ignore file that is no UTF-8 stops it.
  pub discover_skills-IsSelection :
      (cwd : FilePath) (explicit : List FilePath)
      → OnScanned IsSelection (discover_skills lib fs cwd explicit)
  unfolding discover_skills
  discover_skills-IsSelection cwd explicit =
      discover_from-IsSelection explicit nothing_selected (sources lib fs cwd explicit)
        (record { unique = tt; keyed = tt; files = refl; different = tt })

  -- The first source wins: a skill that a source gives, whose name no skill before it has and whose
  -- file was not selected, has its name whatever the later sources give.
  pub discover_from-first :
      (explicit : List FilePath) (s : Selected) (path : FilePath) (include : Bool)
      (later : List Source) (node : Node) (f : Found) (before after : List SkillSummary)
      (skill : SkillSummary)
      → fs.look path ≡ some node
      → found_at lib fs path include node ≡ scanned f
      → f.skills ≡ before ++ skill ∷ after
      → lookup skill.name (select_all lib fs (with_diagnostics s f.diagnostics) before).skills
        ≡ none
      → member_path
          (fs.resolve skill.file_path)
          (select_all lib fs (with_diagnostics s f.diagnostics) before).canonical_paths
        ≡ false
      → OnScanned
          (λ (r : Selected). lookup skill.name r.skills ≡ some skill)
          (discover_from lib fs explicit s ((path, include) ∷ later))
  unfolding discover_from
  discover_from-first explicit s path include later node f before after skill l g e n m =
      rw (l, g)
        (OnScanned-weaken (IsKept (select_found lib fs s f))
          (λ r. lookup skill.name r.skills ≡ some skill) _
          (λ r k. k.skills skill.name skill (rw e (select_all-first _ before after skill n m)))
          (discover_from-IsKept explicit (select_found lib fs s f) later))
