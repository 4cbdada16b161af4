-- ===== src/Chat/Approvals/Completeness.antt =====
-- What a status report requests is there afterwards, and nothing else of the branch is.
use labrastro_vscode_extensi.Base.{
  String, true, false, not, Option, none, some, ◌≡◌, ◌≢◌, ◌↔◌, ◌⊎◌, ◌==◌, refl, arith, List, [],
  ◌∷◌, keep, any, inl, inr, Option-cases, Bool-cases, subst, sym, ◌∙◌, ==_iff,
}
use labrastro_vscode_extensi.SessionRuntime.Model.{Value, View}
use labrastro_vscode_extensi.Chat.Approvals.{
  PendingApproval, approval_matches, is_of, put_approval, restored_approval, restore_one,
  restore_all, merge_status_approvals,
}
use labrastro_vscode_extensi.Chat.Approvals.Renewal.{
  has_id, IsFresh, restored-IsFresh, matches-eq, any-put_approval, merge-eq,
}
use labrastro_vscode_extensi.Chat.Approvals.Requests.{
  Requests, IsRequested, restored_approval-Requests, Requests-restored_approval,
}

module _ (run branch : String) where
  module _ (r : run ≢ "") (b : branch ≢ "") where
    -- An approval that is there stays there.
    any-put_approval_kept :
        (x : PendingApproval) (id : String) (ys : List PendingApproval)
        → IsFresh run branch x
        → any (has_id run branch id) ys ≡ true
        → any
            (has_id run branch id)
            (put_approval (λ y. approval_matches y x.approval_id (some run) (some branch)) x ys)
          ≡ true
    unfolding put_approval
    any-put_approval_kept x id [] f h = absurd (cc)
    any-put_approval_kept x id (y ∷ ys) f h =
        elim (Bool-cases (approval_matches y x.approval_id (some run) (some branch))) [
          | inl e ↦
              let q : has_id run branch x.approval_id y ≡ true =
                sym (matches-eq run branch r b y x.approval_id) ∙ e in
              let mine = f.mine in ground (arith, e, q, h, mine)
          | inr e ↦ ground (arith, e, h, any-put_approval_kept x id ys f)
        ]

    put_approval-there :
        (x : PendingApproval) (ys : List PendingApproval)
        → IsFresh run branch x
        → any
            (has_id run branch x.approval_id)
            (put_approval (λ y. approval_matches y x.approval_id (some run) (some branch)) x ys)
          ≡ true
    unfolding put_approval
    put_approval-there x [] f = let mine = f.mine in ground (arith, mine)
    put_approval-there x (y ∷ ys) f =
        elim (Bool-cases (approval_matches y x.approval_id (some run) (some branch))) [
          | inl e ↦ let mine = f.mine in ground (arith, e, mine)
          | inr e ↦ ground (arith, e, put_approval-there x ys f)
        ]

    restore_one-kept :
        (printed : Value → String) (next : List PendingApproval) (payload : View) (id : String)
        → any (has_id run branch id) next ≡ true
        → any (has_id run branch id) (restore_one printed run branch next payload) ≡ true
    restore_one-kept printed next payload id h =
        elim (Option-cases (restored_approval printed run branch payload)) [
          | inl e ↦ rw (e, restore_one) h
          | inr (x, e) ↦
              rw (e, restore_one)
                (any-put_approval_kept x id next (restored-IsFresh run branch printed payload x e)
                  h)
        ]

    restore_all-kept :
        (printed : Value → String) (next : List PendingApproval) (status : List (Option View))
        (id : String)
        → any (has_id run branch id) next ≡ true
        → any (has_id run branch id) (restore_all printed run branch next status) ≡ true
    unfolding restore_all
    restore_all-kept printed next [] id h = h
    restore_all-kept printed next (none ∷ raws) id h = restore_all-kept printed next raws id h
    restore_all-kept printed next (some payload ∷ raws) id h =
        restore_all-kept printed (restore_one printed run branch next payload) raws id
          (restore_one-kept printed next payload id h)

    restore_one-there :
        (printed : Value → String) (next : List PendingApproval) (payload : View)
        (x : PendingApproval)
        → restored_approval printed run branch payload ≡ some x
        → any (has_id run branch x.approval_id) (restore_one printed run branch next payload) ≡ true
    restore_one-there printed next payload x e =
        rw (e, restore_one)
          (put_approval-there x next (restored-IsFresh run branch printed payload x e))

    restore_all_complete :
        (printed : Value → String) (next : List PendingApproval) (status : List (Option View))
        (id : String)
        → IsRequested printed branch id status
        → any (has_id run branch id) (restore_all printed run branch next status) ≡ true
    unfolding restore_all
    restore_all_complete printed next [] id q = absurd q
    restore_all_complete printed next (none ∷ raws) id q =
        restore_all_complete printed next raws id q
    restore_all_complete printed next (some payload ∷ raws) id (inl q) =
        let (x, e, same_id) = Requests-restored_approval printed run branch payload id b q in
        restore_all-kept printed (restore_one printed run branch next payload) raws id (
          subst
            (λ i. any (has_id run branch i) (restore_one printed run branch next payload) ≡ true)
            same_id (restore_one-there printed next payload x e))
    restore_all_complete printed next (some payload ∷ raws) id (inr q) =
        restore_all_complete printed (restore_one printed run branch next payload) raws id q

    -- Putting an approval adds no other id to the branch.
    put_approval-origin :
        (x : PendingApproval) (id : String) (ys : List PendingApproval)
        → any
            (has_id run branch id)
            (put_approval (λ y. approval_matches y x.approval_id (some run) (some branch)) x ys)
          ≡ true
        → (x.approval_id ≡ id) ⊎ (any (has_id run branch id) ys ≡ true)
    put_approval-origin x id ys h = elim (Bool-cases (x.approval_id == id)) [
      | inl e ↦ inl ((==_iff x.approval_id id).0 e)
      | inr n ↦ elim (Bool-cases (any (has_id run branch id) ys)) [
        | inl k ↦ inr k
        | inr k ↦
            let apart : x.approval_id ≢ id = λ z. absurd (ground (arith, n, z)) in
            absurd (ground (arith, h, any-put_approval run branch r b x id ys apart k))
      ]
    ]

    restore_one-origin :
        (printed : Value → String) (next : List PendingApproval) (payload : View) (id : String)
        → any (has_id run branch id) (restore_one printed run branch next payload) ≡ true
        → Requests printed branch id payload ⊎ (any (has_id run branch id) next ≡ true)
    restore_one-origin printed next payload id =
        elim (Option-cases (restored_approval printed run branch payload)) [
          | inl e ↦ rw (e, restore_one) λ h. inr h
          | inr (x, e) ↦
              rw (e, restore_one)
                λ h. elim (put_approval-origin x id next h) [
                  | inl z ↦ inl (
                      subst (λ i. Requests printed branch i payload) z
                        (restored_approval-Requests printed run branch payload x e))
                  | inr k ↦ inr k
                ]
        ]

    restore_all-origin :
        (printed : Value → String) (next : List PendingApproval) (status : List (Option View))
        (id : String)
        → any (has_id run branch id) (restore_all printed run branch next status) ≡ true
        → IsRequested printed branch id status ⊎ (any (has_id run branch id) next ≡ true)
    unfolding restore_all
    restore_all-origin printed next [] id h = inr h
    restore_all-origin printed next (none ∷ raws) id h = restore_all-origin printed next raws id h
    restore_all-origin printed next (some payload ∷ raws) id h =
        elim (restore_all-origin printed (restore_one printed run branch next payload) raws id h) [
          | inl q ↦ inl (inr q)
          | inr k ↦ elim (restore_one-origin printed next payload id k) [
            | inl q ↦ inl (inl q)
            | inr j ↦ inr j
          ]
        ]

  -- The approvals that are kept for the merge are not of the branch.
  any-keep_others :
      (id : String) (items : List PendingApproval)
      → any (has_id run branch id) (keep (λ y. not (is_of run branch y)) items) ≡ false
  any-keep_others id [] = refl
  any-keep_others id (x ∷ xs) = elim (Bool-cases (is_of run branch x)) [
    | inl e ↦ ground (arith, e, any-keep_others id xs)
    | inr e ↦ ground (arith, e, any-keep_others id xs)
  ]

-- After a status report on a branch was taken in, an approval of the branch waits under an id exactly
-- when some entry of the report requests it: the state of the entry is missing, null, false, zero, an
-- empty text or `requested`; its approval id is this id and not empty; and the first of its two branch
-- fields that is not empty names the branch, or both are empty. The run and the branch are not empty.
pub merge_status_approvals_iff :
    (printed : Value → String) (items : List PendingApproval) (status : List (Option View))
    (run branch id : String)
    → run ≢ ""
    → branch ≢ ""
    → (any (has_id run branch id) (merge_status_approvals printed items status run (some branch))
        ≡ true)
      ↔ IsRequested printed branch id status
merge_status_approvals_iff printed items status run branch id r b =
    let others = keep (λ y. not (is_of run branch y)) items in
    subst
      (λ merged. (any (has_id run branch id) merged ≡ true) ↔ IsRequested printed branch id status)
      (sym (merge-eq printed items status run branch b))
      (
        λ h. elim (restore_all-origin run branch r b printed others status id h) [
          | inl q ↦ q
          | inr k ↦ absurd (ground (arith, k, any-keep_others run branch id items))
        ],
        restore_all_complete run branch r b printed others status id,
      )
