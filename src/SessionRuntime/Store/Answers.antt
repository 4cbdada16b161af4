-- ===== src/SessionRuntime/Store/Answers.antt =====
-- What the store has checked when it accepts the result of a control operation.
use labrastro_vscode_extensi.Base.{
  ℕ, String, true, Option, none, some, ◌≡◌, ◌⊎◌, ◌==◌, refl, arith, ◌∙◌, inl, inr, Option-cases,
  Bool-cases, ==_iff,
}
use labrastro_vscode_extensi.SessionRuntime.Model.{Kind, Operation, Model}
use labrastro_vscode_extensi.SessionRuntime.Store.{
  MainlineIdentity, Response, same_text, meets, find_operation,
}
use labrastro_vscode_extensi.SessionRuntime.Operations.{same_kind}
use labrastro_vscode_extensi.SessionRuntime.Store.Reachable.{found-meets}
use labrastro_vscode_extensi.SessionRuntime.Store.Settling.{
  named, source_still_current, response_matches_operation, accepts_control_success,
}

same_text-eq : (a b : Option String) → same_text a b ≡ true → a ≡ b
same_text-eq none none h = refl
same_text-eq (some a) (some b) h = ground (arith, h)
same_text-eq none (some b) h = absurd (cc)
same_text-eq (some a) none h = absurd (cc)

-- The operation is the only one that is found by this id and kind and is shown, it is shown and has the
-- kind, and it has the id unless the id is empty. It began from the mainline that is selected now, at the
-- present revision, and the response is about its run, its target branch and its agent run.
pub record IsCurrent (m : Model) (id : String) (kind : Kind) (mainline : Option MainlineIdentity)
    (revision : ℕ) (response : Response) : Type 0 where
  pub operation : Operation
  pub identity : MainlineIdentity
  pub found : find_operation m (named id kind true) ≡ some operation
  pub is_shown : operation.visible ≡ true
  pub has_kind : operation.kind ≡ kind
  pub has_id : (id ≡ "") ⊎ (operation.operation_id ≡ id)
  pub selected : mainline ≡ some identity
  pub same_revision : revision ≡ operation.source_identity_revision
  pub same_branch : identity.branch_binding_id ≡ operation.source_branch_binding_id
  pub same_run : identity.session_run_id ≡ response.session_run_id
  pub same_agent_run : identity.agent_run_id ≡ response.agent_run_id
  pub same_target : operation.target_branch_binding_id ≡ response.branch_binding_id

same_kind-eq : (a b : Kind) → same_kind a b ≡ true → a ≡ b
same_kind-eq a b h = ground (arith, h)

named-meets :
    (id : String) (kind : Kind) (o : Operation)
    → meets (named id kind true) o ≡ true
    → (o.visible ≡ true) × (o.kind ≡ kind) × ((id ≡ "") ⊎ (o.operation_id ≡ id))
unfolding meets
named-meets id kind o h = (
  ground (arith, h),
  same_kind-eq o.kind kind (ground (arith, h)),
  elim (Bool-cases (id == "")) [
    | inl e ↦ inl ((==_iff id "").0 e)
    | inr e ↦ inr (ground (arith, h, e))
  ],
)

current_source :
    (c : MainlineIdentity) (revision : ℕ) (o : Operation)
    → source_still_current (some c) revision o ≡ true
    → (revision ≡ o.source_identity_revision)
      × (same_text c.session_run_id o.source_session_run_id ≡ true)
      × (same_text c.branch_binding_id o.source_branch_binding_id ≡ true)
      × (same_text c.agent_run_id o.source_agent_run_id ≡ true)
unfolding source_still_current
current_source c revision o h = ground (arith, h)

no_mainline : (revision : ℕ) (o : Operation) → source_still_current none revision o ≡ true → ⊥
unfolding source_still_current
no_mainline revision o h = cc

matching_response :
    (r : Response) (o : Operation)
    → response_matches_operation r o ≡ true
    → (same_text o.source_session_run_id r.session_run_id ≡ true)
      × (same_text o.target_branch_binding_id r.branch_binding_id ≡ true)
      × (same_text o.source_agent_run_id r.agent_run_id ≡ true)
unfolding response_matches_operation
matching_response r o h = ground (arith, h)

-- If the store accepts the result of a control operation, there is exactly one shown operation of
-- this kind and of this id, unless the id is empty; a mainline is selected, and the operation began from its branch at the present
-- revision; and the response names the run and the agent run of that mainline and the target branch
-- of the operation.
pub accepts_control_success-IsCurrent :
    (m : Model) (id : String) (kind : Kind) (mainline : Option MainlineIdentity) (revision : ℕ)
    (response : Response)
    → (accepts_control_success m id kind mainline revision response).0 ≡ true
    → IsCurrent m id kind mainline revision response
unfolding accepts_control_success
accepts_control_success-IsCurrent m id kind mainline revision response h =
    elim (Option-cases (find_operation m (named id kind true))) [
      | inl e ↦ absurd (ground (arith, e, h))
      | inr (o, e) ↦
          let current : source_still_current mainline revision o ≡ true = ground (arith, e, h) in
          let matches : response_matches_operation response o ≡ true = ground (arith, e, h) in
          answer o e mainline refl current (matching_response response o matches)
    ]
  where
    answer :
        (o : Operation)
        → find_operation m (named id kind true) ≡ some o
        → (c : Option MainlineIdentity) → mainline ≡ c
        → source_still_current c revision o ≡ true
        → (same_text o.source_session_run_id response.session_run_id ≡ true)
          × (same_text o.target_branch_binding_id response.branch_binding_id ≡ true)
          × (same_text o.source_agent_run_id response.agent_run_id ≡ true)
        → IsCurrent m id kind mainline revision response
    answer o e none k current r = absurd (no_mainline revision o current)
    answer o e (some c) k current r =
        let s = current_source c revision o current in
        let shown = named-meets id kind o (found-meets m (named id kind true) o e) in
        record {
          operation = o;
          identity = c;
          found = e;
          is_shown = shown.0;
          has_kind = shown.1;
          has_id = shown.2;
          selected = k;
          same_revision = s.0;
          same_branch = same_text-eq c.branch_binding_id o.source_branch_binding_id s.2;
          same_run =
              same_text-eq c.session_run_id o.source_session_run_id s.1
              ∙ same_text-eq o.source_session_run_id response.session_run_id r.0;
          same_agent_run =
              same_text-eq c.agent_run_id o.source_agent_run_id s.3
              ∙ same_text-eq o.source_agent_run_id response.agent_run_id r.2;
          same_target = same_text-eq o.target_branch_binding_id response.branch_binding_id r.1;
        }
