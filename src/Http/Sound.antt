-- ===== src/Http/Sound.antt =====
-- What `matchInternal` finds is stored under a pattern that matches, and a pattern without wildcards is
-- found.
use go_framework.Base.{
  Bytes, same_bytes, same_bytes_refl, Bool, true, false, List, [], ◌∷◌, ◌++◌, Option, none, some,
  if◌then◌else◌, is_empty, ◌&&◌, ◌≡◌, refl, sym, ap, ◌∙◌, arith, inl, inr, ◌⊎◌,
}
use go_framework.Http.{
  Segment, node, Children, end, child, star, two_stars, own, first_found, has_child, no_children,
  skip_loop, match_internal, match_child, match_two_stars, add_components,
}
use go_framework.Http.Stored.{metas_at, metas_in, no_empty, same_path, add_components-metas_at}

-- A pattern and the components that it stands for: "*" stands for one, "**" for any number.
pub data Matches : List Bytes → List Bytes → Type 0 where
  nothing : Matches [] []
  literal : (c : Bytes) (ps cs : List Bytes) → Matches ps cs → Matches (c ∷ ps) (c ∷ cs)
  any_one : (c : Bytes) (ps cs : List Bytes) → Matches ps cs → Matches (star ∷ ps) (c ∷ cs)
  any_many :
      (skipped rest ps cs : List Bytes)
      → cs ≡ skipped ++ rest
      → Matches ps rest
      → Matches (two_stars ∷ ps) cs

append_nil {ℓ} : {A : Type ℓ} (xs : List A) → xs ≡ xs ++ []
append_nil [] = refl
append_nil (x ∷ xs) = ap (λ r. x ∷ r) (append_nil xs)

if_cases {ℓ} :
    {A : Type ℓ} (b : Bool) (x y z : A)
    → (if b then x else y) ≡ z
    → ((b ≡ true) × (x ≡ z)) ⊎ ((b ≡ false) × (y ≡ z))
if_cases true x y z e = inl (refl, e)
if_cases false x y z e = inr (refl, e)

same_path_refl : (ps : List Bytes) → same_path ps ps ≡ true
unfolding same_path
same_path_refl [] = refl
same_path_refl (p ∷ ps) = ground (arith, same_bytes_refl p, same_path_refl ps)

module _ {M : Type 0} where
  -- The metas are those of a pattern of the tree that matches.
  abbrev pub IsStored : Segment M → List Bytes → List M → Type 0
  IsStored s comps ms = (p : List Bytes) × (metas_at s p ≡ ms) × Matches p comps

  abbrev IsStoredIn : Children M → Bytes → List Bytes → List M → Type 0
  IsStoredIn cs key comps ms = (p : List Bytes) × (metas_in cs key p ≡ ms) × Matches p comps

  first_found-cases :
      (a b : Option (List M)) (ms : List M)
      → first_found a b ≡ some ms
      → (a ≡ some ms) ⊎ (b ≡ some ms)
  first_found-cases none b ms e = inr e
  first_found-cases (some a) b ms e = inl e

  own_eq : (metas ms : List M) → own metas ≡ some ms → metas ≡ ms
  own_eq [] ms e = absurd (ground arith)
  own_eq (m ∷ metas) ms e = cc

  round_cases :
      (b d : Bool) (x y later : Option (List M)) (ms : List M)
      → (if b then first_found x later else if d then first_found y later else later) ≡ some ms
      → (x ≡ some ms) ⊎ ((y ≡ some ms) ⊎ (later ≡ some ms))
  round_cases true d x y later ms e = elim (first_found-cases x later ms e) [
    | inl h ↦ inl h
    | inr h ↦ inr (inr h)
  ]
  round_cases false true x y later ms e = inr (first_found-cases y later ms e)
  round_cases false false x y later ms e = inr (inr e)

  -- A round of the loop below "**" stands for some components skipped.
  abbrev Skips : (List Bytes → Option (List M)) → List Bytes → List M → Type 0
  Skips match comps ms =
      (skipped : List Bytes) × (rest : List Bytes) × (comps ≡ skipped ++ rest)
      × (match rest ≡ some ms)

  Skips-next :
      (match : List Bytes → Option (List M)) (c : Bytes) (comps : List Bytes) (ms : List M)
      → Skips match comps ms
      → Skips match (c ∷ comps) ms
  Skips-next match c comps ms (skipped, rest, e, f) = (c ∷ skipped, rest, ap (λ r. c ∷ r) e, f)

  skip_loop-Skips :
      (match : List Bytes → Option (List M)) (cs : Children M) (comps : List Bytes) (ms : List M)
      → skip_loop match cs comps ≡ some ms
      → Skips match comps ms
  unfolding skip_loop
  skip_loop-Skips match cs [] ms e = absurd (ground arith)
  skip_loop-Skips match cs (c ∷ comps) ms e =
      elim (round_cases (has_child c cs) (has_child star cs) (match (c ∷ comps)) (match comps)
        (skip_loop match cs comps) ms e) [
          | inl h ↦ ([], c ∷ comps, refl, h)
          | inr (inl h) ↦ (c ∷ [], comps, refl, h)
          | inr (inr h) ↦ Skips-next match c comps ms (skip_loop-Skips match cs comps ms h)
        ]

  mutual
    unfolding match_internal metas_at

    match_internal-IsStored :
        (s : Segment M) (comps : List Bytes) (ms : List M)
        → match_internal s comps ≡ some ms
        → IsStored s comps ms
    match_internal-IsStored (node metas cs) [] ms e = ([], own_eq metas ms e, nothing)
    match_internal-IsStored (node metas cs) (c ∷ comps) ms e =
        elim (if_cases (is_empty c) none
          (first_found (match_child cs c comps)
            (first_found (match_child cs star comps) (match_two_stars cs (c ∷ comps))))
          (some ms) e) [
            | inl (_, h) ↦ absurd (ground arith)
            | inr (_, h) ↦ elim (first_found-cases (match_child cs c comps) _ ms h) [
              | inl k ↦
                  let (p, f, m) = match_child-IsStored cs c comps ms k in
                  (c ∷ p, f, literal c p comps m)
              | inr k ↦ elim (first_found-cases (match_child cs star comps) _ ms k) [
                | inl k' ↦
                    let (p, f, m) = match_child-IsStored cs star comps ms k' in
                    (star ∷ p, f, any_one c p comps m)
                | inr k' ↦
                    let (p, f, m) = match_two_stars-IsStored cs (c ∷ comps) ms k' in
                    (two_stars ∷ p, f, m)
              ]
            ]
          ]

    match_child-IsStored :
        (cs : Children M) (key : Bytes) (comps : List Bytes) (ms : List M)
        → match_child cs key comps ≡ some ms
        → IsStoredIn cs key comps ms
    match_child-IsStored end key comps ms e = absurd (ground arith)
    match_child-IsStored (child q s cs) key comps ms e =
        elim (if_cases (same_bytes q key) (match_internal s comps) (match_child cs key comps)
          (some ms) e) [
            | inl (b, h) ↦
                let (p, f, m) = match_internal-IsStored s comps ms h in
                (p, ap (λ t. if t then metas_at s p else metas_in cs key p) b ∙ f, m)
            | inr (b, h) ↦
                let (p, f, m) = match_child-IsStored cs key comps ms h in
                (p, ap (λ t. if t then metas_at s p else metas_in cs key p) b ∙ f, m)
          ]

    match_two_stars-IsStored :
        (cs : Children M) (comps : List Bytes) (ms : List M)
        → match_two_stars cs comps ≡ some ms
        → (p : List Bytes) × (metas_in cs two_stars p ≡ ms) × Matches (two_stars ∷ p) comps
    match_two_stars-IsStored end comps ms e = absurd (ground arith)
    match_two_stars-IsStored (child q (node metas ks) cs) comps ms e =
        let below =
          if no_children ks then none else skip_loop (match_internal (node metas ks)) ks comps in
        elim (if_cases (same_bytes q two_stars) (first_found below (own metas))
          (match_two_stars cs comps) (some ms) e) [
            | inl (b, h) ↦
                let at = λ (p : List Bytes).
                  ap (λ t. if t then metas_at (node metas ks) p else metas_in cs two_stars p) b in
                elim (first_found-cases below (own metas) ms h) [
                  | inl k ↦
                      elim (if_cases (no_children ks) none
                        (skip_loop (match_internal (node metas ks)) ks comps) (some ms) k) [
                          | inl (_, l) ↦ absurd (ground arith)
                          | inr (_, l) ↦
                              let (skipped, rest, f, g) =
                                skip_loop-Skips (match_internal (node metas ks)) ks comps ms l in
                              let (p, i, m) = match_internal-IsStored (node metas ks) rest ms g in
                              (p, at p ∙ i, any_many skipped rest p comps f m)
                        ]
                  | inr k ↦ (
                    [],
                    at [] ∙ own_eq metas ms k,
                    any_many comps [] [] comps (append_nil comps) nothing,
                  )
                ]
            | inr (b, h) ↦
                let (p, f, m) = match_two_stars-IsStored cs comps ms h in
                (
                  p,
                  ap (λ t. if t then metas_at (node metas ks) p else metas_in cs two_stars p) b ∙ f,
                  m,
                )
          ]

  -- What is found for the components of a path are the metas that the tree has under one pattern, and
  -- that pattern matches the components.
  pub match_internal-Matches :
      (s : Segment M) (comps : List Bytes) (ms : List M)
      → match_internal s comps ≡ some ms
      → IsStored s comps ms
  match_internal-Matches s comps ms e = match_internal-IsStored s comps ms e

  mutual
    unfolding match_internal metas_at no_empty

    -- Components that have metas of their own are found, before any pattern with wildcards.
    match_internal-own :
        (s : Segment M) (comps : List Bytes) (m : M) (ms : List M)
        → no_empty comps ≡ true
        → metas_at s comps ≡ m ∷ ms
        → match_internal s comps ≡ some (m ∷ ms)
    match_internal-own (node metas cs) [] m ms n e = ap own e
    match_internal-own (node metas cs) (c ∷ comps) m ms n e =
        ground (arith, match_child-own cs c comps m ms)

    match_child-own :
        (cs : Children M) (key : Bytes) (comps : List Bytes) (m : M) (ms : List M)
        → no_empty comps ≡ true
        → metas_in cs key comps ≡ m ∷ ms
        → match_child cs key comps ≡ some (m ∷ ms)
    match_child-own end key comps m ms n e = absurd (ground arith)
    match_child-own (child q s cs) key comps m ms n e =
        ground (arith, match_internal-own s comps m ms, match_child-own cs key comps m ms)

  append_cons : (ms : List M) (m : M) → (n : M) × (ns : List M) × (ms ++ m ∷ [] ≡ n ∷ ns)
  append_cons [] m = (m, [], refl)
  append_cons (n ∷ ms) m = (n, ms ++ m ∷ [], refl)

  -- After a pattern without empty components has been added, a path of these very components finds the
  -- metas that it had before and then the new one, whatever patterns with wildcards the tree has.
  pub match_internal-add_components :
      (ps : List Bytes) (m : M) (s : Segment M)
      → no_empty ps ≡ true
      → match_internal (add_components ps m s).0 ps ≡ some (metas_at s ps ++ m ∷ [])
  match_internal-add_components ps m s n =
      let (a, b) = add_components-metas_at ps m s ps in
      let stored : metas_at (add_components ps m s).0 ps ≡ metas_at s ps ++ m ∷ [] =
        b
        ∙ ap (λ t. if t && same_path ps ps then metas_at s ps ++ m ∷ [] else metas_at s ps) n
        ∙ ap (λ t. if t then metas_at s ps ++ m ∷ [] else metas_at s ps) (same_path_refl ps) in
      let (k, ks, e) = append_cons (metas_at s ps) m in
      match_internal-own (add_components ps m s).0 ps k ks n (stored ∙ e) ∙ ap some (sym e)
