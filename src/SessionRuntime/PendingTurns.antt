-- ===== src/SessionRuntime/PendingTurns.antt =====
-- `removePendingNextTurn`: at most one queued turn goes, the first that the removal matches.
use labrastro_vscode_extensi.Base.{
  true, false, ◌≡◌, arith, List, [], ◌∷◌, ◌++◌, inl, inr, Option-cases, Bool-cases, All, find_index,
  sym, subst,
}
use labrastro_vscode_extensi.SessionRuntime.Model.{View, Removal}
use labrastro_vscode_extensi.SessionRuntime.Scopes.{is_removed, remove_pending_next_turn}

abbrev pub NoneRemoved : Removal → List View → Type 0
NoneRemoved r = All (λ turn. is_removed r turn ≡ false)

-- `left` is `turns` without its first matching turn.
pub data RemovesFirst (r : Removal) : List View → List View → Type 0 where
  nothing : {turns : List View} → NoneRemoved r turns → RemovesFirst r turns turns
  first :
      (before : List View) (turn : View) (after : List View)
      → NoneRemoved r before
      → is_removed r turn ≡ true
      → RemovesFirst r (before ++ turn ∷ after) (before ++ after)

RemovesFirst-cons :
    (r : Removal) (turn : View) (turns left : List View)
    → is_removed r turn ≡ false
    → RemovesFirst r turns left
    → RemovesFirst r (turn ∷ turns) (turn ∷ left)
RemovesFirst-cons r turn turns left h (nothing n) = nothing (h, n)
RemovesFirst-cons r turn turns left h (first before x after n k) =
    first (turn ∷ before) x after (h, n) k

remove-cons :
    (r : Removal) (turn : View) (turns : List View)
    → is_removed r turn ≡ false
    → remove_pending_next_turn (turn ∷ turns) r ≡ turn ∷ remove_pending_next_turn turns r
unfolding remove_pending_next_turn
remove-cons r turn turns h = elim (Option-cases (find_index (is_removed r) turns)) [
  | inl e ↦ ground (arith, h, e)
  | inr (i, e) ↦ ground (arith, h, e)
]

remove-found :
    (r : Removal) (turn : View) (turns : List View)
    → is_removed r turn ≡ true
    → remove_pending_next_turn (turn ∷ turns) r ≡ turns
unfolding remove_pending_next_turn
remove-found r turn turns h = ground (arith, h)

-- The turns before the first match and those after it stay, in their order; without a match, all.
pub remove_pending_next_turn-RemovesFirst :
    (r : Removal) (turns : List View) → RemovesFirst r turns (remove_pending_next_turn turns r)
unfolding remove_pending_next_turn
remove_pending_next_turn-RemovesFirst r [] = nothing tt
remove_pending_next_turn-RemovesFirst r (x ∷ turns) = elim (Bool-cases (is_removed r x)) [
  | inl e ↦
      subst (RemovesFirst r (x ∷ turns)) (sym (remove-found r x turns e)) (first [] x turns tt e)
  | inr e ↦
      subst (RemovesFirst r (x ∷ turns)) (sym (remove-cons r x turns e))
        (RemovesFirst-cons r x turns _ e (remove_pending_next_turn-RemovesFirst r turns))
]
