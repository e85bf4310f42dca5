-- ===== src/HttpServer/Permitted.antt =====
-- The origins that are allowed, by what the settings say: a text without a star permits itself, and one
-- with a star what encloses any text between the parts before and after its first star.
use mathlib.Core.Path.{subst}
use go_framework.Base.{
  ℕ, true, false, List, [], ◌∷◌, ◌++◌, Option, none, some, ◌==◌, Bytes, ◌≡◌, refl, sym, ap, ◌∙◌,
  arith, ◌⊎◌, ◌↔◌, inl, inr, Bool-cases, All, In,
}
use go_framework.HttpServer.{
  add_before, split_star, allows_none, lower_origins, new_cors_handler, has_origin, has_match,
  allows, is_origin_allowed,
}
use go_framework.HttpServer.Origins.{PermitsParts, PermitsCut, SomePermitsCut, add_origins-allows}

-- No byte is a star.
abbrev pub IsPlain : Bytes → Type 0
IsPlain o = All (λ b. (b == 42) ≡ false) o

abbrev pub Permits : Bytes → Bytes → Type 0
Permits o s =
    (IsPlain o × (o ≡ s))
    ⊎ ((p : Bytes) × (q : Bytes) × (mid : Bytes) × IsPlain p
        × (o ≡ p ++ 42 ∷ q)
        × (s ≡ p ++ (mid ++ q)))

-- One of the settings permits the origin, both in lower case.
abbrev pub SomePermits : (Bytes → Bytes) → List Bytes → Bytes → Type 0
SomePermits to_lower os s = (o : Bytes) × In o os × Permits (to_lower o) (to_lower s)

-- The parts before and after the first star.
abbrev IsCut : Option (Bytes × Bytes) → Bytes → Type 0
IsCut none o = IsPlain o
IsCut (some (p, q)) o = IsPlain p × (o ≡ p ++ 42 ∷ q)

add_before-IsCut :
    (b : ℕ) (c : Option (Bytes × Bytes)) (o : Bytes)
    → (b == 42) ≡ false
    → IsCut c o
    → IsCut (add_before b c) (b ∷ o)
unfolding add_before
add_before-IsCut b none o n h = (n, h)
add_before-IsCut b (some (p, q)) o n (h, e) = ((n, h), ap (λ r. b ∷ r) e)

split_star-IsCut : (o : Bytes) → IsCut (split_star o) o
unfolding split_star
split_star-IsCut [] = tt
split_star-IsCut (b ∷ o) = elim (Bool-cases (b == 42)) [
  | inl e ↦ let p : b ≡ 42 = ground arith in rw e (tt, ap (λ r. r ∷ o) p)
  | inr n ↦ rw n (add_before-IsCut b (split_star o) o n (split_star-IsCut o))
]

split_star-plain : (o : Bytes) → IsPlain o → split_star o ≡ none
unfolding split_star add_before
split_star-plain [] h = refl
split_star-plain (b ∷ o) h = rw (h.0, split_star-plain o h.1) refl

split_star-first : (p q : Bytes) → IsPlain p → split_star (p ++ 42 ∷ q) ≡ some (p, q)
unfolding split_star add_before
split_star-first [] q h = refl
split_star-first (b ∷ p) q h = rw (h.0, split_star-first p q h.1) refl

PermitsCut-Permits : (o s : Bytes) → PermitsCut o s ↔ Permits o s
PermitsCut-Permits o s = (
  (λ h. to (split_star o) (split_star-IsCut o) h),
  λ h. elim h [
    | inl (n, e) ↦ subst (λ c. PermitsParts c o s) (sym (split_star-plain o n)) e
    | inr (p, q, mid, n, e, f) ↦
        subst (λ c. PermitsParts c o s) (sym (ap split_star e ∙ split_star-first p q n)) (mid, f)
  ],
)
  where
    to : (c : Option (Bytes × Bytes)) → IsCut c o → PermitsParts c o s → Permits o s
    to none h e = inl (h, e)
    to (some (p, q)) (n, e) (mid, f) = inr (p, q, mid, n, e, f)

lower_origins-SomePermits :
    (to_lower : Bytes → Bytes) (os : List Bytes) (s : Bytes)
    → SomePermitsCut (lower_origins to_lower os) (to_lower s) ↔ SomePermits to_lower os s
unfolding lower_origins
lower_origins-SomePermits to_lower [] s = ((λ h. absurd h), λ (o, i, h). absurd i)
lower_origins-SomePermits to_lower (o ∷ os) s =
    let r = lower_origins-SomePermits to_lower os s in
    let c = PermitsCut-Permits (to_lower o) (to_lower s) in
    (
      (λ h. elim h [
        | inl p ↦ (o, inl refl, c.0 p)
        | inr q ↦ let (x, i, p) = r.0 q in (x, inr i, p)
      ]),
      λ (x, i, p). elim i [
        | inl e ↦ inl (c.1 (subst (λ y. Permits (to_lower y) (to_lower s)) (sym e) p))
        | inr j ↦ inr (r.1 (x, j, p))
      ],
    )

-- With origins in its settings the handler allows an origin exactly if one of them, in lower case,
-- permits the origin in lower case: a setting without a star permits its own text, and a setting with
-- one every text that encloses any text between the parts before and after its first star.
pub is_origin_allowed-SomePermits :
    (to_lower : Bytes → Bytes) (o : Bytes) (os : List Bytes) (s : Bytes)
    → is_origin_allowed to_lower (new_cors_handler to_lower (o ∷ os)) s ≡ true
      ↔ SomePermits to_lower (o ∷ os) s
unfolding is_origin_allowed new_cors_handler allows has_origin has_match
is_origin_allowed-SomePermits to_lower o os s =
    let r = add_origins-allows (lower_origins to_lower (o ∷ os)) allows_none (to_lower s) in
    let t = lower_origins-SomePermits to_lower (o ∷ os) s in
    ((λ x. elim (r.0 x) [ inl p ↦ absurd (cc) | inr q ↦ t.0 q ]), λ q. r.1 (inr (t.1 q)))
