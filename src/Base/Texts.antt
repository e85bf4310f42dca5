-- ===== src/Base/Texts.antt =====
-- Texts as keys: a decision of equality that runs, built on the library's test.
use Prim.Native.String.{String}
use mathlib.Core.Path.{◌≡◌, refl, ◌∙◌, sym}
use mathlib.Core.Bool.{Bool, true, false, false≢true}
use text.Mathlib.Text.{◌==◌}
use text.Mathlib.TextEquality.{eq_iff}

decided : (s t : String) (b : Bool) → (s == t) ≡ b → Dec (s ≡ t)
decided s t true e = yes ((eq_iff s t).0 e)
decided s t false e = no (λ p. false≢true (sym e ∙ (eq_iff s t).1 p))

unfoldable pub text_discrete : Discrete String
unfolding decided
text_discrete s t = decided s t (s == t) refl
