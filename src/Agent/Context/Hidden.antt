-- ===== src/Agent/Context/Hidden.antt =====
-- Skills that the model is not told of (src/py_code_act/protocol/system_prompt.py and tools/skills.py).
use py_code_act.Prelude.{◌≡◌, refl, true, List, [], ◌∷◌, ◌++◌}
use py_code_act.Dict.{Dict}
use py_code_act.Tools.Registry.{ToolNamespace}
use py_code_act.Tools.Skills.{SkillSummary}
use py_code_act.Tools.Skills.Discovery.{visible, format_skills_for_prompt}
use py_code_act.Agent.Context.{ContextFile, build_system_prompt}

visible-hidden :
    (before after : List SkillSummary) (s : SkillSummary)
    → s.disable_model_invocation ≡ true
    → visible (before ++ s ∷ after) ≡ visible (before ++ after)
unfolding visible
visible-hidden [] after s h = rw h refl
visible-hidden (b ∷ before) after s h = rw (visible-hidden before after s h) refl

-- A skill that disables its invocation by the model leaves no trace in the system prompt, wherever it
-- stands among the skills.
pub build_system_prompt-hidden :
    {S : Type 0} (registry : Dict (ToolNamespace S)) (files : List ContextFile)
    (before after : List SkillSummary) (s : SkillSummary)
    → s.disable_model_invocation ≡ true
    → build_system_prompt registry (before ++ s ∷ after) files
      ≡ build_system_prompt registry (before ++ after) files
unfolding build_system_prompt format_skills_for_prompt
build_system_prompt-hidden registry files before after s h =
    rw (visible-hidden before after s h) refl
