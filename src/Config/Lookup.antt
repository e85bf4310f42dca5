-- ===== src/Config/Lookup.antt =====
-- What the filter of config/internal/filter.go finds under a key.
use mathlib.Core.Path.{subst}
use go_framework.Base.{
  ℕ, String, Bool, true, false, List, [], ◌∷◌, Option, none, some, ◌≡◌, refl, arith, if◌then◌else◌,
  All, In, inl, inr, ◌⊎◌, get_elem?, Bool-cases, lookup, Option-cases, zero, suc, ap, sym, ◌≤◌, ◌∙◌,
}
use go_framework.Config.{Found, ConfigImpl, SourceWrapper, ValueNode, get_raw, get}
use go_framework.Config.Filter.{Filter, get_prefix, above, decrypt, best, filter_get}

above_irrefl : (a : Option ℕ) → above a a ≡ false
above_irrefl none = refl
above_irrefl (some a) = ground arith

above_below : (a b c : Option ℕ) → above a c ≡ false → above b c ≡ true → above a b ≡ false
above_below none b c h k = refl
above_below (some a) none c h k = absurd (ground arith)
above_below (some a) (some b) none h k = absurd (ground arith)
above_below (some a) (some b) (some c) h k = ground arith

module _ {K : Type 0} (source_get : String → String → Bool → Found) where
  abbrev at_ns : Filter K → String → String → Found
  at_ns f k n = source_get k (get_prefix f n) false

  All-above_below :
      (f : Filter K) (k : String) (ns : List String) (b c : Option ℕ)
      → above b c ≡ true
      → All (λ n. above (at_ns f k n).1 c ≡ false) ns
      → All (λ n. above (at_ns f k n).1 b ≡ false) ns
  All-above_below f k [] b c h a = tt
  All-above_below f k (n ∷ ns) b c h a =
      (above_below (at_ns f k n).1 b c a.0 h, All-above_below f k ns b c h a.1)

  -- A value of the namespaces, or none, that is of the highest level.
  abbrev Highest : Filter K → String → List String → Found → Type 0
  Highest f k ns z =
      ((z ≡ ("", none)) ⊎ ((n : String) × In n ns × (z ≡ source_get k (get_prefix f n) false)))
      × All (λ n. above (source_get k (get_prefix f n) false).1 z.1 ≡ false) ns

  -- The loop of `Get` finds the value of one of the namespaces, or nothing, and no namespace has the
  -- key at a higher level than what it finds.
  best-highest :
      (f : Filter K) (k : String) (ns : List String)
      → ((best source_get f k ns ≡ ("", none))
          ⊎ ((n : String) × In n ns
              × (best source_get f k ns ≡ source_get k (get_prefix f n) false)))
        × All
            (λ n. above (source_get k (get_prefix f n) false).1 (best source_get f k ns).1 ≡ false)
            ns
  unfolding best
  best-highest f k [] = (inl refl, tt)
  best-highest f k (n ∷ ns) =
      let (h, a) = best-highest f k ns in
      let x = at_ns f k n in
      let r = best source_get f k ns in
      elim (Bool-cases (above x.1 r.1)) [
        | inl e ↦
            subst (Highest f k (n ∷ ns)) (sym (ap (λ b. if b then x else r) e))
              (inr (n, inl refl, refl), (above_irrefl x.1, All-above_below f k ns x.1 r.1 e a))
        | inr e ↦
            subst (Highest f k (n ∷ ns)) (sym (ap (λ b. if b then x else r) e))
              (elim h [ inl p ↦ inl p | inr (o, i, p) ↦ inr (o, inr i, p) ], (e, a))
      ]

-- No source ignores namespaces.
abbrev pub HasNamespaces : ConfigImpl → Type 0
HasNamespaces c = All (λ s. s.ignore_namespace ≡ false) c.source

ignores-not :
    (ss : List SourceWrapper) (i : ℕ) (s : SourceWrapper)
    → All (λ s. s.ignore_namespace ≡ false) ss
    → get_elem? ss i ≡ some s
    → s.ignore_namespace ≡ false
ignores-not [] i s h e = absurd (ground arith)
ignores-not (x ∷ ss) zero s h e = ground arith
ignores-not (x ∷ ss) (suc i) s h e = ignores-not ss i s h.1 e

get_raw-miss :
    (o : Option ValueNode) (ss : List SourceWrapper)
    → All (λ s. s.ignore_namespace ≡ false) ss
    → get_raw o ss ≡ ("", some 1)
unfolding get_raw
get_raw-miss none ss h = refl
get_raw-miss (some n) ss h = elim (Option-cases (get_elem? ss n.level)) [
  | inl e ↦ rw (e, get_raw) refl
  | inr (s, e) ↦ rw (e, get_raw) (rw (ignores-not ss n.level s h e) refl)
]

-- A missing raw value is taken for one at level 1.
filter_get-HasNamespaces :
    {K : Type 0} (to_lower : String → String) (has_empty is_encrypted : String → Bool)
    (try_decrypt : K → String → Option String) (default_key : K) (c : ConfigImpl) (f : Filter K)
    (k : String)
    → HasNamespaces c
    → let v = best (λ key prefix raw. get to_lower has_empty key prefix raw c) f k f.ns in
      filter_get
        (λ key prefix raw. get to_lower has_empty key prefix raw c)
        is_encrypted
        try_decrypt
        default_key
        f
        k
      ≡ some
          (decrypt is_encrypted try_decrypt default_key f (if above (some 1) v.1 then "" else v.0))
unfolding filter_get get
filter_get-HasNamespaces to_lower has_empty is_encrypted try_decrypt default_key c f k h =
    ground (arith, get_raw-miss (lookup (to_lower k) c.cache) c.source h)

-- A level that is at most the given one, where a missing key has none.
abbrev pub AtMost : Option ℕ → ℕ → Type 0
AtMost none l = Unit
AtMost (some a) l = a ≤ l

above-AtMost : (a : Option ℕ) (l : ℕ) → above a (some l) ≡ false → AtMost a l
above-AtMost none l h = tt
above-AtMost (some a) l h = ground arith

above-none-AtMost : (a : Option ℕ) (l : ℕ) → above a none ≡ false → AtMost a l
above-none-AtMost none l h = tt
above-none-AtMost (some a) l h = absurd (ground arith)

-- What the namespaces have under a key, read without the raw values.
abbrev pub found_in :
    {K : Type 0}
    → (String → String)
    → (String → Bool)
    → ConfigImpl
    → Filter K
    → String
    → String
    → Found
found_in to_lower has_empty c f k n = get to_lower has_empty k (get_prefix f n) false c

-- What the filter gives for texts before decryption: the empty text where no namespace has the key
-- above level 0, else a value that is of the highest level among the namespaces.
abbrev pub IsHighOrEmpty : {N : Type 0} → (N → Found) → List N → String → Type 0
IsHighOrEmpty {N = N} found ns v =
    (All (λ n. AtMost (found n).1 0) ns × (v ≡ ""))
    ⊎ ((n : N) × (l : ℕ) × In n ns
        × (found n ≡ (v, some (suc l)))
        × All (λ o. AtMost (found o).1 (suc l)) ns)

module _ {N : Type 0} (found : N → Found) where
  All-AtMost :
      (ns : List N) (b : Option ℕ) (l : ℕ)
      → ((a : Option ℕ) → above a b ≡ false → AtMost a l)
      → All (λ n. above (found n).1 b ≡ false) ns
      → All (λ n. AtMost (found n).1 l) ns
  All-AtMost [] b l h a = tt
  All-AtMost (n ∷ ns) b l h a = (h (found n).1 a.0, All-AtMost ns b l h a.1)

  best-IsHighOrEmpty :
      (ns : List N) (z : Found)
      → ((z ≡ ("", none)) ⊎ ((n : N) × In n ns × (z ≡ found n)))
      → All (λ n. above (found n).1 z.1 ≡ false) ns
      → IsHighOrEmpty found ns (if above (some 1) z.1 then "" else z.0)
  best-IsHighOrEmpty ns (v, none) h a =
      inl (All-AtMost ns none 0 (λ x. above-none-AtMost x 0) a, refl)
  best-IsHighOrEmpty ns (v, some zero) h a =
      inl (All-AtMost ns (some 0) 0 (λ x. above-AtMost x 0) a, ground arith)
  best-IsHighOrEmpty ns (v, some (suc l)) h a = elim h [
    | inl e ↦ absurd (ground (arith, ap (λ (z : Found). z.1) e))
    | inr (n, i, e) ↦ inr (
      n,
      l,
      i,
      sym e ∙ ap (λ t. (t, some (suc l))) (ground arith),
      All-AtMost ns (some (suc l)) (suc l) (λ x. above-AtMost x (suc l)) a,
    )
  ]

-- Without sources that ignore namespaces the filter finds every key, also one that no source has. It
-- gives the decrypted value of a namespace with the highest level, if that level is at least 1; where
-- no namespace has the key, or only at level 0, it gives the decrypted empty text.
pub filter_get-IsHighOrEmpty :
    {K : Type 0} (to_lower : String → String) (has_empty is_encrypted : String → Bool)
    (try_decrypt : K → String → Option String) (default_key : K) (c : ConfigImpl) (f : Filter K)
    (k : String)
    → HasNamespaces c
    → (v : String) × IsHighOrEmpty (found_in to_lower has_empty c f k) f.ns v
      × (filter_get
            (λ key prefix raw. get to_lower has_empty key prefix raw c)
            is_encrypted
            try_decrypt
            default_key
            f
            k
          ≡ some (decrypt is_encrypted try_decrypt default_key f v))
filter_get-IsHighOrEmpty to_lower has_empty is_encrypted try_decrypt default_key c f k h =
    let g : String → String → Bool → Found =
      λ key prefix raw. get to_lower has_empty key prefix raw c in
    let (p, a) = best-highest g f k f.ns in
    (
      _,
      best-IsHighOrEmpty (found_in to_lower has_empty c f k) f.ns (best g f k f.ns) p a,
      filter_get-HasNamespaces to_lower has_empty is_encrypted try_decrypt default_key c f k h,
    )
