-- ===== src/Base/Text.antt =====
-- Texts are compared whole. `same` decides equality, so that a split on it hands over the equation.
use Prim.Native.String.{String}
use mathlib.Core.Path.{◌≡◌, refl}
use mathlib.Core.Logic.{◌↔◌, ◌≢◌}
use mathlib.Core.Bool.{Bool, true, false, not}
use mathlib.Core.Option.{Option, none, some}
use text.Mathlib.Text.{◌==◌ as str_eq}
use text.Mathlib.TextEquality.{eq_iff}
use native.Mathlib.Omega.{arith}

decide_by : {P : Type 0} (b : Bool) → ((b ≡ true) ↔ P) → Dec P
decide_by true h = yes (h.0 refl)
decide_by false h = no (λ p. let e : false ≡ true = h.1 p in cc)

unfoldable pub same : (s t : String) → Dec (s ≡ t)
unfolding decide_by
same s t = decide_by (str_eq s t) (eq_iff s t)

-- `s === t`
infix 50 ◌==◌
abbrev pub ◌==◌ : String → String → Bool
s == t = elim (same s t) [ yes _ ↦ true | no _ ↦ false ]

-- `o === t` where `o` may be undefined
abbrev pub holds_text : Option String → String → Bool
holds_text none t = false
holds_text (some s) t = s == t

-- A text that is used as a test: absent and empty texts are false.
abbrev pub given : Option String → Option String
given none = none
given (some s) = elim (same s "") [ yes _ ↦ none | no _ ↦ some s ]

-- `o && o !== t`
abbrev pub given_other : Option String → String → Bool
given_other o t = elim (given o) [ none ↦ false | some s ↦ not (s == t) ]

pub ==_iff : (s t : String) → ((s == t) ≡ true) ↔ (s ≡ t)
==_iff s t = ground arith

pub ==_self : (s : String) → (s == s) ≡ true
==_self s = (==_iff s s).1 refl

-- Two literals differ as the comparison of the library says.
pub ne_of_test : (s t : String) → str_eq s t ≡ false → s ≢ t
ne_of_test s t h e = let f : str_eq s t ≡ true = (eq_iff s t).1 e in ground (arith, h, f)
