-- ===== src/Discovery/ServedTree.antt =====
-- The tree of paths of registry/discovery.go has only rules whose pickers have all their addresses.
use mathlib.Core.Path.{subst}
use go_framework.Base.{
  ℕ, String, Bytes, GoMap, Bool, true, false, List, [], ◌∷◌, Option, none, some, if◌then◌else◌,
  ◌&&◌, ◌≡◌, refl, sym, All, All-append, All-In, In,
}
use go_framework.Http.{Segment, match_internal, add_components}
use go_framework.Http.Components.{Result, ok, err, components, add_pattern, Error, empty_component}
use go_framework.Http.Template.{template_convert}
use go_framework.Http.Stored.{metas_at, no_empty, same_path, add_components-metas_at}
use go_framework.Http.Sound.{match_internal-Matches}
use go_framework.Http.Headers.{
  Meta, accepted, match_metas, match_with_meta, Matched, matched, less, sorted_or_none, nil_meta,
  wrong_path, no_pattern,
}
use go_framework.Discovery.{AddressInfo}
use go_framework.Discovery.Rules.{HttpRule, Texts, as_meta, add_patterns, add_rules}
use go_framework.Discovery.Served.{IsServed, AreServed}

-- What sort.SliceStable gives was there before.
abbrev pub Sorts : {P : Type 0} → Texts P → Type 0
Sorts {P = P} texts =
    (lt : Meta (HttpRule P) → Meta (HttpRule P) → Bool) (ms : List (Meta (HttpRule P)))
    (m : Meta (HttpRule P))
    → In m (texts.sort_slice_stable lt ms)
    → In m ms

module _ {P : Type 0} (build : List AddressInfo → P) (Good : String → Type 0) where
  module _ (texts : Texts P) where
    -- Every meta that stands in the tree is that of a served rule.
    abbrev pub TreeIsServed : Segment (Meta (HttpRule P)) → Type 0
    TreeIsServed s = (path : List Bytes) → All (λ m. IsServed build Good m.value) (metas_at s path)

    abbrev FirstIsServed : Segment (Meta (HttpRule P)) × Option Error → Type 0
    FirstIsServed r = TreeIsServed r.0

    if-All :
        (b : Bool) (xs ys : List (Meta (HttpRule P)))
        → All (λ m. IsServed build Good m.value) xs
        → All (λ m. IsServed build Good m.value) ys
        → All (λ m. IsServed build Good m.value) (if b then xs else ys)
    if-All true xs ys h k = h
    if-All false xs ys h k = k

    add_components-TreeIsServed :
        (comps : List Bytes) (rule : HttpRule P) (s : Segment (Meta (HttpRule P)))
        → IsServed build Good rule
        → TreeIsServed s
        → TreeIsServed (add_components comps (as_meta rule) s).0
    add_components-TreeIsServed comps rule s h g path =
        let stored = (add_components-metas_at comps (as_meta rule) s path).1 in
        subst (λ l. All (λ m. IsServed build Good m.value) l) (sym stored)
          (if-All (no_empty comps && same_path comps path) _ _
            (All-append _ (metas_at s path) (as_meta rule ∷ []) (g path) (h, tt)) (g path))

    put_components-TreeIsServed :
        (o : Result (List Bytes)) (rule : HttpRule P) (s : Segment (Meta (HttpRule P)))
        → IsServed build Good rule
        → TreeIsServed s
        → FirstIsServed (elim o [
          | err e ↦ (s, some e)
          | ok comps ↦
              let (s', added) = add_components comps (as_meta rule) s in
              (s', if added then none else some empty_component)
        ])
    put_components-TreeIsServed (err e) rule s h g = g
    put_components-TreeIsServed (ok comps) rule s h g = add_components-TreeIsServed comps rule s h g

    put_pattern-TreeIsServed :
        (o : Result Bytes) (rule : HttpRule P) (s : Segment (Meta (HttpRule P)))
        → IsServed build Good rule
        → TreeIsServed s
        → FirstIsServed (elim o [
          | err e ↦ (s, some e)
          | ok converted ↦ elim (components texts.lower [] converted) [
            | err e ↦ (s, some e)
            | ok comps ↦
                let (s', added) = add_components comps (as_meta rule) s in
                (s', if added then none else some empty_component)
          ]
        ])
    put_pattern-TreeIsServed (err e) rule s h g = g
    put_pattern-TreeIsServed (ok converted) rule s h g =
        put_components-TreeIsServed (components texts.lower [] converted) rule s h g

    add_pattern-TreeIsServed :
        (pattern : Bytes) (rule : HttpRule P) (s : Segment (Meta (HttpRule P)))
        → IsServed build Good rule
        → TreeIsServed s
        → TreeIsServed (add_pattern texts.lower template_convert [] pattern (as_meta rule) s).0
    unfolding add_pattern
    add_pattern-TreeIsServed pattern rule s h g =
        put_pattern-TreeIsServed (template_convert pattern) rule s h g

    add_patterns-TreeIsServed :
        (ps : List Bytes) (rule : HttpRule P) (s : Segment (Meta (HttpRule P)))
        → IsServed build Good rule
        → TreeIsServed s
        → TreeIsServed (add_patterns texts ps rule s)
    unfolding add_patterns
    add_patterns-TreeIsServed [] rule s h g = g
    add_patterns-TreeIsServed (p ∷ ps) rule s h g =
        add_patterns-TreeIsServed ps rule _ h (add_pattern-TreeIsServed p rule s h g)

    pub add_rules-TreeIsServed :
        (rules : GoMap (HttpRule P)) (s : Segment (Meta (HttpRule P)))
        → AreServed build Good rules
        → TreeIsServed s
        → TreeIsServed (add_rules texts rules s)
    unfolding add_rules
    add_rules-TreeIsServed [] s h g = g
    add_rules-TreeIsServed ((k, rule) ∷ rules) s h g =
        add_rules-TreeIsServed rules _ h.1 (add_patterns-TreeIsServed rule.patterns rule s h.0 g)

    accepted-All :
        (estimate : Meta (HttpRule P) → ℕ → Bool) (count : ℕ) (ms : List (Meta (HttpRule P)))
        → All (λ m. IsServed build Good m.value) ms
        → All (λ m. IsServed build Good m.value) (accepted estimate count ms)
    unfolding accepted
    accepted-All estimate count [] h = h
    accepted-All estimate count (m ∷ ms) h =
        if-All (estimate m count) _ _ (h.0, accepted-All estimate count ms h.1)
          (accepted-All estimate count ms h.1)

    abbrev pub KeepsServed : Matched (HttpRule P) → Type 0
    KeepsServed (matched ms) = (m : Meta (HttpRule P)) → In m ms → IsServed build Good m.value
    KeepsServed _ = Unit

    sorted-KeepsServed :
        (ms : List (Meta (HttpRule P)))
        → Sorts texts
        → All (λ m. IsServed build Good m.value) ms
        → KeepsServed (sorted_or_none texts.sort_slice_stable ms)
    sorted-KeepsServed [] h g = tt
    sorted-KeepsServed (m ∷ ms) h g = λ n i. All-In _ (m ∷ ms) n g (h less (m ∷ ms) n i)

    counted-KeepsServed :
        (o : Option ℕ) (estimate : Meta (HttpRule P) → ℕ → Bool) (ms : List (Meta (HttpRule P)))
        → Sorts texts
        → All (λ m. IsServed build Good m.value) ms
        → KeepsServed (elim o [
          | none ↦ nil_meta
          | some count ↦ sorted_or_none texts.sort_slice_stable (accepted estimate count ms)
        ])
    counted-KeepsServed none estimate ms h g = tt
    counted-KeepsServed (some count) estimate ms h g =
        sorted-KeepsServed (accepted estimate count ms) h (accepted-All estimate count ms g)

    metas-KeepsServed :
        (o : Option (List (Meta (HttpRule P)))) (estimate : Meta (HttpRule P) → ℕ → Bool)
        → Sorts texts
        → ((ms : List (Meta (HttpRule P)))
            → o ≡ some ms
            → All (λ m. IsServed build Good m.value) ms)
        → KeepsServed (elim o [
          | none ↦ no_pattern
          | some metas ↦ match_metas texts.sort_slice_stable texts.sort_pairs estimate metas
        ])
    unfolding match_metas
    metas-KeepsServed none estimate h g = tt
    metas-KeepsServed (some ms) estimate h g = counted-KeepsServed _ estimate ms h (g ms refl)

    found-All :
        (s : Segment (Meta (HttpRule P))) (comps : List Bytes) (ms : List (Meta (HttpRule P)))
        → TreeIsServed s
        → match_internal s comps ≡ some ms
        → All (λ m. IsServed build Good m.value) ms
    found-All s comps ms g e =
        let (p, stored, _) = match_internal-Matches s comps ms e in
        subst (λ l. All (λ m. IsServed build Good m.value) l) stored (g p)

    components-KeepsServed :
        (o : Result (List Bytes)) (estimate : Meta (HttpRule P) → ℕ → Bool)
        (s : Segment (Meta (HttpRule P)))
        → Sorts texts
        → TreeIsServed s
        → KeepsServed (elim o [
          | err e ↦ wrong_path
          | ok comps ↦ elim (match_internal s comps) [
            | none ↦ no_pattern
            | some metas ↦ match_metas texts.sort_slice_stable texts.sort_pairs estimate metas
          ]
        ])
    components-KeepsServed (err e) estimate s h g = tt
    components-KeepsServed (ok comps) estimate s h g =
        metas-KeepsServed (match_internal s comps) estimate h (λ ms e. found-All s comps ms g e)

    pub match_with_meta-KeepsServed :
        (estimate : Meta (HttpRule P) → ℕ → Bool) (s : Segment (Meta (HttpRule P)))
        (method path : Bytes)
        → Sorts texts
        → TreeIsServed s
        → KeepsServed (
            match_with_meta texts.lower texts.sort_slice_stable texts.sort_pairs estimate s method
              path)
    unfolding match_with_meta
    match_with_meta-KeepsServed estimate s method path h g =
        components-KeepsServed (components texts.lower method path) estimate s h g
