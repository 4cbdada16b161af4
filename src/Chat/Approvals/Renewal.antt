-- ===== src/Chat/Approvals/Renewal.antt =====
-- What a status report makes of the approvals that wait.
use labrastro_vscode_extensi.Base.{
  String, Bool, true, false, not, ◌&&◌, Option, none, some, ◌==◌, ◌≡◌, ◌≢◌, refl, arith, List, [],
  ◌∷◌, keep, any, inl, inr, Option-cases, Bool-cases, subst, sym, ◌∙◌,
}
use labrastro_vscode_extensi.SessionRuntime.Model.{Value, View}
use labrastro_vscode_extensi.Chat.Approvals.{
  PendingApproval, approval_matches, is_of, put_approval, restored_approval, restore_one,
  restore_all, merge_status_approvals,
}

-- The item is of the branch and has this id.
abbrev pub has_id : String → String → String → PendingApproval → Bool
has_id run branch id item = item.approval_id == id && is_of run branch item

-- The approvals of the branch have distinct ids, and none has been answered.
abbrev pub IsRenewed : String → String → List PendingApproval → Type 0
IsRenewed run branch [] = Unit {0}
IsRenewed run branch (x ∷ xs) =
    (is_of run branch x ≡ true
      → (any (has_id run branch x.approval_id) xs ≡ false)
        × (x.submitted_decision ≡ none)
        × (x.submission_state ≡ none)
        × (x.submission_error ≡ none))
    × IsRenewed run branch xs

keep-keep :
    (p : PendingApproval → Bool) (xs : List PendingApproval) → keep p (keep p xs) ≡ keep p xs
keep-keep p [] = refl
keep-keep p (x ∷ xs) = elim (Bool-cases (p x)) [
  | inl e ↦ ground (arith, e, keep-keep p xs)
  | inr e ↦ ground (arith, e, keep-keep p xs)
]

module _ (run branch : String) where
  -- What the report restores.
  pub record IsFresh (x : PendingApproval) : Type 0 where
    pub mine : is_of run branch x ≡ true
    pub undecided : x.submitted_decision ≡ none
    pub idle : x.submission_state ≡ none
    pub faultless : x.submission_error ≡ none

  pub restored-IsFresh :
      (printed : Value → String) (payload : View) (x : PendingApproval)
      → restored_approval printed run branch payload ≡ some x
      → IsFresh x
  unfolding restored_approval
  restored-IsFresh printed payload x e = record {
    mine = ground (arith, e);
    undecided = ground (arith, e);
    idle = ground (arith, e);
    faultless = ground (arith, e);
  }

  keep-put_approval :
      (p : PendingApproval → Bool) (x : PendingApproval) (ys : List PendingApproval)
      → is_of run branch x ≡ true
      → ((y : PendingApproval) → p y ≡ true → is_of run branch y ≡ true)
      → keep (λ y. not (is_of run branch y)) (put_approval p x ys)
        ≡ keep (λ y. not (is_of run branch y)) ys
  unfolding put_approval
  keep-put_approval p x [] h k = ground (arith, h)
  keep-put_approval p x (y ∷ ys) h k = elim (Bool-cases (p y)) [
    | inl e ↦ ground (arith, h, e, k y e)
    | inr e ↦ ground (arith, e, keep-put_approval p x ys h k)
  ]

  module _ (r : run ≢ "") (b : branch ≢ "") where
    pub matches-eq :
        (y : PendingApproval) (id : String)
        → approval_matches y id (some run) (some branch) ≡ has_id run branch id y
    unfolding approval_matches
    matches-eq y id = ground (arith, r, b)

    -- Putting an approval leaves other ids of the branch as they were.
    pub any-put_approval :
        (x : PendingApproval) (id : String) (ys : List PendingApproval)
        → x.approval_id ≢ id
        → any (has_id run branch id) ys ≡ false
        → any
            (has_id run branch id)
            (put_approval (λ y. approval_matches y x.approval_id (some run) (some branch)) x ys)
          ≡ false
    unfolding put_approval
    any-put_approval x id [] n h = ground (arith, n)
    any-put_approval x id (y ∷ ys) n h =
        elim (Bool-cases (approval_matches y x.approval_id (some run) (some branch))) [
          | inl e ↦ ground (arith, e, n, h)
          | inr e ↦ ground (arith, e, h, any-put_approval x id ys n)
        ]

    put_approval-IsRenewed :
        (x : PendingApproval) (ys : List PendingApproval)
        → IsFresh x
        → IsRenewed run branch ys
        → IsRenewed run branch
            (put_approval (λ y. approval_matches y x.approval_id (some run) (some branch)) x ys)
    unfolding put_approval
    put_approval-IsRenewed x [] f v = ((λ _. (refl, f.undecided, f.idle, f.faultless)), tt)
    put_approval-IsRenewed x (y ∷ ys) f (h, v) =
        elim (Bool-cases (approval_matches y x.approval_id (some run) (some branch))) [
          | inl e ↦
              let q : has_id run branch x.approval_id y ≡ true =
                sym (matches-eq y x.approval_id) ∙ e in
              let same_id : y.approval_id ≡ x.approval_id = ground (arith, q) in
              let own : is_of run branch y ≡ true = ground (arith, q) in
              rw e (
                (λ _. (
                  subst (λ i. any (has_id run branch i) ys ≡ false) same_id (h own).0,
                  f.undecided,
                  f.idle,
                  f.faultless,
                )),
                v,
              )
          | inr e ↦
              let q : has_id run branch x.approval_id y ≡ false =
                sym (matches-eq y x.approval_id) ∙ e in
              rw e (
                (λ own.
                    let (fresh, d, s, n) = h own in
                    (
                      any-put_approval x y.approval_id ys (λ z. absurd (ground (arith, q, own, z)))
                          fresh,
                      d,
                      s,
                      n,
                    )),
                put_approval-IsRenewed x ys f v,
              )
        ]

    keep-IsRenewed :
        (items : List PendingApproval)
        → IsRenewed run branch (keep (λ item. not (is_of run branch item)) items)
    keep-IsRenewed [] = tt
    keep-IsRenewed (x ∷ xs) = elim (Bool-cases (is_of run branch x)) [
      | inl e ↦ rw e (keep-IsRenewed xs)
      | inr e ↦ rw e ((λ own. let z : true ≡ false = sym own ∙ e in absurd (cc)), keep-IsRenewed xs)
    ]

    restore_one-IsRenewed :
        (printed : Value → String) (next : List PendingApproval) (payload : View)
        → IsRenewed run branch next
        → IsRenewed run branch (restore_one printed run branch next payload)
          × (keep (λ y. not (is_of run branch y)) (restore_one printed run branch next payload)
              ≡ keep (λ y. not (is_of run branch y)) next)
    restore_one-IsRenewed printed next payload v =
        elim (Option-cases (restored_approval printed run branch payload)) [
          | inl e ↦ rw (e, restore_one) (v, refl)
          | inr (x, e) ↦
              let f = restored-IsFresh printed payload x e in
              let p : PendingApproval → Bool =
                λ y. approval_matches y x.approval_id (some run) (some branch) in
              rw (e, restore_one)
                (
                  put_approval-IsRenewed x next f v,
                  keep-put_approval p x next f.mine
                      λ y h. let q = sym (matches-eq y x.approval_id) ∙ h in ground (arith, q),
                )
        ]

    restore_all-IsRenewed :
        (printed : Value → String) (next : List PendingApproval) (status : List (Option View))
        → IsRenewed run branch next
        → IsRenewed run branch (restore_all printed run branch next status)
          × (keep (λ y. not (is_of run branch y)) (restore_all printed run branch next status)
              ≡ keep (λ y. not (is_of run branch y)) next)
    unfolding restore_all
    restore_all-IsRenewed printed next [] v = (v, refl)
    restore_all-IsRenewed printed next (none ∷ raws) v = restore_all-IsRenewed printed next raws v
    restore_all-IsRenewed printed next (some payload ∷ raws) v =
        let (w, same_others) = restore_one-IsRenewed printed next payload v in
        let (u, kept) =
          restore_all-IsRenewed printed (restore_one printed run branch next payload) raws w in
        (u, kept ∙ same_others)

pub merge-eq :
    (printed : Value → String) (items : List PendingApproval) (status : List (Option View))
    (run branch : String)
    → branch ≢ ""
    → merge_status_approvals printed items status run (some branch)
      ≡ restore_all printed run branch (keep (λ y. not (is_of run branch y)) items) status
unfolding merge_status_approvals
merge-eq printed items status run branch b = ground (arith, b)

-- After a status report on a branch was taken in, the approvals of the branch have distinct ids and no
-- answer, and the approvals of other branches are what they were, in the same order. The run and the
-- branch are not empty.
pub merge_status_approvals-IsRenewed :
    (printed : Value → String) (items : List PendingApproval) (status : List (Option View))
    (run branch : String)
    → run ≢ ""
    → branch ≢ ""
    → let merged = merge_status_approvals printed items status run (some branch) in
      IsRenewed run branch merged
      × (keep (λ y. not (is_of run branch y)) merged ≡ keep (λ y. not (is_of run branch y)) items)
merge_status_approvals-IsRenewed printed items status run branch r b =
    let others = keep (λ y. not (is_of run branch y)) items in
    let (v, kept) =
      restore_all-IsRenewed run branch r b printed others status
        (keep-IsRenewed run branch r b items) in
    subst
      (λ merged.
        IsRenewed run branch merged
        × (keep (λ y. not (is_of run branch y)) merged
            ≡ keep (λ y. not (is_of run branch y)) items))
      (sym (merge-eq printed items status run branch b))
      (v, kept ∙ keep-keep (λ y. not (is_of run branch y)) items)
