-- ===== src/Base/DictKeys.antt =====
-- Dictionaries as sets of entries: distinct keys, predicates on all entries, and `find` on the
-- values.
use labrastro_vscode_extensi.Base.Dict.{
  Dict, lookup, insert, erase, values, lookup-insert, lookup-erase,
}
use labrastro_vscode_extensi.Base.Tests.{Bool-cases}
use labrastro_vscode_extensi.Base.Text.{same}
use labrastro_vscode_extensi.Base.Lists.{find, keep}
use Prim.Native.String.{String}
use mathlib.Core.Path.{◌≡◌, refl, subst, sym}
use mathlib.Core.Bool.{Bool, true}
use mathlib.Core.List.{List, [], ◌∷◌}
use mathlib.Core.Logic.{inl, inr}
use mathlib.Core.Option.{none, some}
use native.Mathlib.Omega.{arith}

module _ {ℓ} {V : Type ℓ} where
  abbrev pub Distinct : Dict V → Type ℓ
  Distinct [] = Unit
  Distinct ((k, v) ∷ d) = (lookup k d ≡ none) × Distinct d

  pub Distinct-insert : (k : String) (v : V) (d : Dict V) → Distinct d → Distinct (insert k v d)
  unfolding insert lookup
  Distinct-insert k v [] h = (refl, tt)
  Distinct-insert k v ((j, w) ∷ d) h = elim (same j k) [
    | yes p ↦ ground (arith, h.0, h.1)
    | no p ↦ ground (arith, lookup-insert k j v d, Distinct-insert k v d h.1)
  ]

  pub Distinct-erase : (k : String) (d : Dict V) → Distinct d → Distinct (erase k d)
  unfolding erase
  Distinct-erase k [] h = tt
  Distinct-erase k ((j, w) ∷ d) h = ground (arith, lookup-erase k j d, Distinct-erase k d h.1)

  abbrev pub Entries {κ} : (String → V → Type κ) → Dict V → Type κ
  Entries P [] = Unit
  Entries P ((k, v) ∷ d) = P k v × Entries P d

  pub Entries-insert {κ} :
      (P : String → V → Type κ) (k : String) (v : V) (d : Dict V)
      → P k v
      → Entries P d
      → Entries P (insert k v d)
  unfolding insert
  Entries-insert P k v [] p h = (p, tt)
  Entries-insert P k v ((j, w) ∷ d) p h =
      elim (same j k)
        as (λ t. Entries P (elim t [ yes _ ↦ (j, v) ∷ d | no _ ↦ (j, w) ∷ insert k v d ])) [
          | yes e ↦ (subst (λ i. P i v) (sym e) p, h.1)
          | no _ ↦ (h.0, Entries-insert P k v d p h.1)
        ]

  pub Entries-erase {κ} :
      (P : String → V → Type κ) (k : String) (d : Dict V) → Entries P d → Entries P (erase k d)
  unfolding erase
  Entries-erase P k [] h = tt
  Entries-erase P k ((j, w) ∷ d) h =
      elim (same j k)
        as (λ t. Entries P (elim t [ yes _ ↦ erase k d | no _ ↦ (j, w) ∷ erase k d ])) [
          | yes _ ↦ Entries-erase P k d h.1
          | no _ ↦ (h.0, Entries-erase P k d h.1)
        ]

  pub Entries-lookup {κ} :
      (P : String → V → Type κ) (k : String) (v : V) (d : Dict V)
      → Entries P d
      → lookup k d ≡ some v
      → P k v
  unfolding lookup
  Entries-lookup P k v [] h e = cc
  Entries-lookup P k v ((j, w) ∷ d) h e = elim (same j k) [
    | yes p ↦ let q : w ≡ v = ground arith in subst (λ i. P i v) p (subst (P j) q h.0)
    | no p ↦ Entries-lookup P k v d h.1 (ground arith)
  ]

  -- A value that `find` returns stands under some key, and passes the test.
  pub find-values :
      (p : V → Bool) (d : Dict V) (v : V)
      → Distinct d
      → find p (values d) ≡ some v
      → (k : String) × (lookup k d ≡ some v) × (p v ≡ true)
  unfolding lookup
  find-values p [] v h e = absurd (cc)
  find-values p ((j, w) ∷ d) v h e = elim (Bool-cases (p w)) [
    | inl t ↦ (j, ground arith, ground arith)
    | inr f ↦
        let (k, found, passes) = find-values p d v h.1 (ground arith) in
        (k, ground (arith, h.0, found), passes)
  ]

  -- A value that passes a test alone stands under some key.
  pub keep-values :
      (p : V → Bool) (d : Dict V) (v : V) (vs : List V)
      → Distinct d
      → keep p (values d) ≡ v ∷ vs
      → (k : String) × (lookup k d ≡ some v)
  unfolding lookup
  keep-values p [] v vs h e = absurd (cc)
  keep-values p ((j, w) ∷ d) v vs h e = elim (Bool-cases (p w)) [
    | inl t ↦ (j, ground (arith, e, t))
    | inr f ↦
        let (k, found) = keep-values p d v vs h.1 (ground (arith, e, f)) in
        (k, ground (arith, h.0, found))
  ]
