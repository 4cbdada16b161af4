-- ===== src/Chat/Approvals/Requests.antt =====
-- What a status report requests, said without the tests of approval-state.ts.
use labrastro_vscode_extensi.Base.{
  String, true, false, Option, none, some, ◌≡◌, ◌≢◌, ◌⊎◌, ◌==◌, arith, List, [], ◌∷◌, inl, inr,
  refl, same, given, Bool-cases, sym, subst, ==_iff, ==_self,
}
use labrastro_vscode_extensi.Base.Dict.{lookup}
use labrastro_vscode_extensi.SessionRuntime.Model.{
  Value, null_value, boolean, number, string, array, object, View,
}
use labrastro_vscode_extensi.Chat.Approvals.{
  PendingApproval, is_decided, first_named, text_value, restored_approval,
}

-- No decision is reported: there is no state, an empty one, or the state `requested`.
pub data IsUndecided : Option Value → Type 0 where
  absent : IsUndecided none
  null : IsUndecided (some null_value)
  unset : IsUndecided (some (boolean false))
  zero_number : IsUndecided (some (number 0))
  empty : IsUndecided (some (string ""))
  requested : IsUndecided (some (string "requested"))

module _ (printed : Value → String) where
  -- The entry is of the branch: the first of its two fields that is not empty names the branch, or
  -- both are empty.
  pub data IsOwn (branch : String) (payload : View) : Type 0 where
    first : text_value printed (lookup "branch_binding_id" payload) ≡ branch → IsOwn branch payload
    second :
        text_value printed (lookup "branch_binding_id" payload) ≡ ""
        → text_value printed (lookup "branchBindingId" payload) ≡ branch
        → IsOwn branch payload
    neither :
        text_value printed (lookup "branch_binding_id" payload) ≡ ""
        → text_value printed (lookup "branchBindingId" payload) ≡ ""
        → IsOwn branch payload

  -- The entry requests an approval of the branch under this id.
  pub record Requests (branch id : String) (payload : View) : Type 0 where
    pub undecided : IsUndecided (lookup "state" payload)
    pub same_id : text_value printed (lookup "approval_id" payload) ≡ id
    pub non_empty : id ≢ ""
    pub own : IsOwn branch payload

  -- Some entry of the report requests it.
  abbrev pub IsRequested : String → String → List (Option View) → Type 0
  IsRequested branch id [] = ⊥
  IsRequested branch id (none ∷ raws) = IsRequested branch id raws
  IsRequested branch id (some payload ∷ raws) =
      Requests branch id payload ⊎ IsRequested branch id raws

is_decided-IsUndecided : (o : Option Value) → is_decided o ≡ false → IsUndecided o
is_decided-IsUndecided none h = absent
is_decided-IsUndecided (some null_value) h = null
is_decided-IsUndecided (some (boolean true)) h = absurd (cc)
is_decided-IsUndecided (some (boolean false)) h = unset
is_decided-IsUndecided (some (number n)) h =
    let e : n ≡ 0 = ground (arith, h) in
    subst (λ i. IsUndecided (some (number i))) (sym e) zero_number
is_decided-IsUndecided (some (string s)) h = elim (Bool-cases (s == "")) [
  | inl e ↦ subst (λ i. IsUndecided (some (string i))) (sym ((==_iff s "").0 e)) empty
  | inr e ↦
      let k : s ≡ "requested" = ground (arith, h, e) in
      subst (λ i. IsUndecided (some (string i))) (sym k) requested
]
is_decided-IsUndecided (some (array _)) h = absurd (cc)
is_decided-IsUndecided (some (object _)) h = absurd (cc)

is_decided_of_IsUndecided : (o : Option Value) → IsUndecided o → is_decided o ≡ false
unfolding same
is_decided_of_IsUndecided _ absent = refl
is_decided_of_IsUndecided _ null = refl
is_decided_of_IsUndecided _ unset = refl
is_decided_of_IsUndecided _ zero_number = refl
is_decided_of_IsUndecided _ empty = refl
is_decided_of_IsUndecided _ requested = refl

first_named-IsOwn :
    (printed : Value → String) (branch : String) (payload : View)
    → first_named
        (text_value printed (lookup "branch_binding_id" payload))
        (text_value printed (lookup "branchBindingId" payload))
        branch
      ≡ branch
    → IsOwn printed branch payload
first_named-IsOwn printed branch payload h =
    let a = text_value printed (lookup "branch_binding_id" payload) in
    let b = text_value printed (lookup "branchBindingId" payload) in
    elim (Bool-cases (a == "")) [
      | inr e ↦ first (ground (arith, h, e))
      | inl e ↦ elim (Bool-cases (b == "")) [
        | inr k ↦ second ((==_iff a "").0 e) (ground (arith, h, e, k))
        | inl k ↦ neither ((==_iff a "").0 e) ((==_iff b "").0 k)
      ]
    ]

IsOwn-first_named :
    (printed : Value → String) (branch : String) (payload : View)
    → branch ≢ ""
    → IsOwn printed branch payload
    → first_named
        (text_value printed (lookup "branch_binding_id" payload))
        (text_value printed (lookup "branchBindingId" payload))
        branch
      ≡ branch
IsOwn-first_named printed branch payload b (first e) = ground (arith, b, e)
IsOwn-first_named printed branch payload b (second e k) = ground (arith, b, e, k)
IsOwn-first_named printed branch payload b (neither e k) = ground (arith, b, e, k)

module _ (printed : Value → String) (run branch : String) where
  pub restored_approval-Requests :
      (payload : View) (x : PendingApproval)
      → restored_approval printed run branch payload ≡ some x
      → Requests printed branch x.approval_id payload
  unfolding restored_approval
  restored_approval-Requests payload x e =
      let undecided : is_decided (lookup "state" payload) ≡ false = ground (arith, e) in
      let named : first_named (text_value printed (lookup "branch_binding_id" payload))
            (text_value printed (lookup "branchBindingId" payload)) branch
          ≡ branch =
        ground (arith, e, undecided) in
      record {
        undecided = is_decided-IsUndecided (lookup "state" payload) undecided;
        same_id = ground (arith, e, undecided);
        non_empty = λ z. absurd (ground (arith, e, undecided, z));
        own = first_named-IsOwn printed branch payload named;
      }

  pub Requests-restored_approval :
      (payload : View) (id : String)
      → branch ≢ ""
      → Requests printed branch id payload
      → (x : PendingApproval) × (restored_approval printed run branch payload ≡ some x)
        × (x.approval_id ≡ id)
  unfolding restored_approval
  Requests-restored_approval payload id b r =
      let undecided = is_decided_of_IsUndecided (lookup "state" payload) r.undecided in
      let named = IsOwn-first_named printed branch payload b r.own in
      let same_id = r.same_id in
      let given_id : given (some (text_value printed (lookup "approval_id" payload))) ≡ some id =
        ground (arith, same_id, r.non_empty) in
      let whole : PendingApproval = record {
        approval_id = id;
        session_run_id = run;
        branch_binding_id = some branch;
        details = payload;
        submitted_decision = none;
        submission_state = none;
        submission_error = none;
      } in
      (whole, rw (undecided, given_id, named, ==_self branch) refl, refl)
