-- ===== src/Stream/Steps.antt =====
-- Induction on the runs of a stream.
use go_framework.Base.{Option, none, some, List, [], ◌∷◌}
use go_framework.Stream.{Event, System, step, steps}

module _ {M E : Type 0} (P : System M E → Type 0) where
  abbrev pub OnSome : Option (System M E) → Type 0
  OnSome none = Unit
  OnSome (some y) = P y

  -- What every event keeps holds after a run.
  pub steps-keeps :
      ((e : Event M E) (y : System M E) → P y → OnSome (step e y))
      → (es : List (Event M E)) (y : System M E) → P y
      → P (steps es y)
  unfolding steps
  steps-keeps keep [] y h = h
  steps-keeps keep (e ∷ es) y h = after (step e y) (keep e y h) (steps-keeps keep es)
    where
      after :
          (o : Option (System M E))
          → OnSome o
          → ((z : System M E) → P z → P (steps es z))
          → P (elim o [ none ↦ steps es y | some z ↦ steps es z ])
      after none k rest = rest y h
      after (some z) k rest = rest z k
