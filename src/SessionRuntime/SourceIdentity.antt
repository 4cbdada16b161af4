-- ===== src/SessionRuntime/SourceIdentity.antt =====
-- SessionRuntimeStore.ts: which run, branch and agent run an operation starts from, given what is
-- known of the selected mainline (`resolveSessionRuntimeSourceIdentity`).
pub mod Soundness
mod Tests
use Prim.Native.Char.{code}
use Prim.Native.String
use labrastro_vscode_extensi.Base.{
  ℕ, String, Bool, true, false, not, ◌&&◌, ◌||◌, Option, none, some, if◌then◌else◌, ◌==◌, or_else,
  given, is_some, List, [], ◌∷◌, find,
}
use labrastro_vscode_extensi.Base.Units.{is_space}
use labrastro_vscode_extensi.Base.Dict.{lookup}
use labrastro_vscode_extensi.SessionRuntime.Model.{Value, string, View}

-- `"selected-visible" | "branch-local"`
pub data SourceScope : Type 0 where
  selected_visible branch_local : SourceScope

abbrev pub is_visible_scope : SourceScope → Bool
is_visible_scope selected_visible = true
is_visible_scope branch_local = false

pub record BranchIdentity : Type 0 where
  pub session_run_id : String
  pub branch_binding_id : String
  pub agent_run_id : String
  pub source_identity_revision : ℕ

pub record SelectedMainline : Type 0 where
  pub session_run_id : Option String
  pub session_id : Option String
  pub branch_binding_id : Option String
  pub agent_run_id : Option String
  pub branches : Option (List View)

pub record ResolvedIdentity : Type 0 where
  pub source : BranchIdentity
  pub target_branch_binding_id : String
  pub selected_branch : Bool
  pub scope : SourceScope
  pub emit_webview_operation : Bool
  pub can_patch_selected_run : Bool
  pub session_id : Option String

pub record RefusedIdentity : Type 0 where
  pub session_run_id : Option String
  pub source_branch_binding_id : Option String
  pub target_branch_binding_id : String
  pub message : String

pub data Resolution : Type 0 where
  proven : ResolvedIdentity → Resolution
  unproven : RefusedIdentity → Resolution

pub record IdentityInput : Type 0 where
  pub selected_mainline : Option SelectedMainline
  pub source_identity_revision : ℕ
  pub session_run_id : Option String
  pub branch_binding_id : Option String
  pub scope : SourceScope

-- `value.trim()`: white space lies in the basic plane, so characters do for code units.
unfoldable pub trim_start : String → String
trim_start String.[] = String.[]
trim_start (String.◌∷◌ c s) =
    let rest = trim_start s in if is_space (code c) then rest else String.◌∷◌ c s

unfoldable pub trim_end : String → String
trim_end String.[] = String.[]
trim_end (String.◌∷◌ c s) =
    let rest = trim_end s in
    if rest == "" && is_space (code c) then String.[] else String.◌∷◌ c rest

-- `stringValue(record[name])`
unfoldable pub string_at : String → View → Option String
string_at name view = elim (lookup name view) [
  | some (string s) ↦ given (some (trim_end (trim_start s)))
  | some _ ↦ none
  | none ↦ none
]

-- `a || b`
abbrev pub first_text : Option String → Option String → Option String
first_text (some s) b = some s
first_text none b = b

unfoldable pub branch_binding_key : View → String
branch_binding_key view =
    or_else
      (first_text (string_at "branch_binding_id" view) (
        first_text (string_at "branchBindingId" view)
          (first_text (string_at "binding_id" view) (string_at "bindingId" view))))
      ""

unfoldable pub branch_agent_run_id : Option (List View) → String → String
branch_agent_run_id branches id =
    elim (find (λ b. branch_binding_key b == id) (or_else branches [])) [
      | none ↦ ""
      | some branch ↦
          or_else (first_text (string_at "agent_run_id" branch) (string_at "agentRunId" branch)) ""
    ]

-- `value || ""`
abbrev pub text_of : Option String → String
text_of value = or_else (given value) ""

abbrev pub refusal : Option String → Option String → String → String → Resolution
refusal run source target message = unproven (record {
  session_run_id = run;
  source_branch_binding_id = source;
  target_branch_binding_id = target;
  message = message;
})

abbrev pub identity_for :
    IdentityInput → SelectedMainline → String → String → String → Bool → ResolvedIdentity
identity_for i mainline run target agent selected = record {
  source = record {
    session_run_id = run;
    branch_binding_id = target;
    agent_run_id = agent;
    source_identity_revision = if selected then i.source_identity_revision else 0;
  };
  target_branch_binding_id = target;
  selected_branch = selected;
  scope = i.scope;
  emit_webview_operation = is_visible_scope i.scope;
  can_patch_selected_run = selected;
  session_id = given mainline.session_id;
}

-- The end of the function: the run is that of the mainline.
unfoldable pub resolve_in_run : IdentityInput → SelectedMainline → String → String → Resolution
resolve_in_run i mainline run target =
    let active = text_of mainline.branch_binding_id in
    let selected = active == target in
    if is_visible_scope i.scope && not selected
    then refusal (some run) (some active) target "当前可见分支与操作目标分支不一致。"
    else elim (given (
        some (
          if selected
          then text_of mainline.agent_run_id
          else branch_agent_run_id mainline.branches target))) [
            | none ↦ refusal (some run) (some active) target "目标分支没有可证明的 AgentRun mainline。"
            | some agent ↦ proven (identity_for i mainline run target agent selected)
          ]

abbrev pub active_branch : Option SelectedMainline → Option String
active_branch none = none
active_branch (some mainline) = given mainline.branch_binding_id

-- The test on a branch-local operation without a run or a branch comes after those on the run and on
-- the branch, so that it refuses nothing more.
unfoldable pub resolve_source_identity : IdentityInput → Resolution
resolve_source_identity i = elim (given i.branch_binding_id) [
  | none ↦
      refusal (given i.session_run_id) (active_branch i.selected_mainline) "" "会话运行操作缺少明确的分支身份。"
  | some target ↦ elim (given i.session_run_id) [
    | none ↦ refusal none (active_branch i.selected_mainline) target "会话运行操作缺少明确的会话运行身份。"
    | some run ↦ elim i.selected_mainline [
      | none ↦ refusal (some run) none target "没有可操作的会话运行。"
      | some mainline ↦ elim (given mainline.session_run_id) [
        | none ↦ refusal (some run) none target "没有可操作的会话运行。"
        | some own ↦
            if own == run
            then resolve_in_run i mainline run target
            else refusal (some run) (some (text_of mainline.branch_binding_id)) target
                "目标会话运行已不是当前会话。"
      ]
    ]
  ]
]
