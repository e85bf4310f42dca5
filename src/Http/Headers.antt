-- ===== src/Http/Headers.antt =====
-- MatchWithMeta of http/matcher.go and http/header.go: which of the metas that a path has take a
-- request, by their header rules. A rule is the list of its keys and values, and a regular expression
-- is its text. The tests of utils that match a rule with a request's headers, and sort.SliceStable, are
-- parameters.
use go_framework.Base.{
  ℕ, Bytes, same_bytes, Bool, true, false, List, [], ◌∷◌, ◌++◌, Option, none, some, if◌then◌else◌,
  is_empty, ◌==◌, ltb, ◌≡◌, ap, ◌∙◌, arith, length, ◌&&◌,
}
use go_framework.Http.{Segment, match_internal}
use go_framework.Http.Components.{components, ok, err}

abbrev pub Rule : Type 0
Rule = List (Bytes × Bytes)

-- A value that a path has. It implements EstimatableHeaderMeta if it has header rules, and EstimatableMetaPriority if it has
-- a priority.
pub record Meta (V : Type 0) : Type 0 where
  pub value : V
  pub header_rules : Option (List Rule × List Rule)
  pub priority : Option ℕ

unfoldable pub all_pairs : List Rule → Rule
all_pairs [] = []
all_pairs (r ∷ rs) = r ++ all_pairs rs

-- Each pair with a comma after the key and after the value.
unfoldable pub write_pairs : Rule → Bytes
write_pairs [] = []
write_pairs ((k, v) ∷ ps) = k ++ (44 ∷ v) ++ (44 ∷ write_pairs ps)

unfoldable pub is_known : Bytes → List Bytes → Bool
is_known key [] = false
is_known key (k ∷ ks) = if same_bytes k key then true else is_known key ks

module _ (sort_pairs : Rule → Rule) where
  unfoldable pub rule_key : List Rule → List Rule → Bytes
  rule_key headers regexes =
      write_pairs (sort_pairs (all_pairs headers))
      ++ (124 ∷ write_pairs (sort_pairs (all_pairs regexes)))

  -- The number of different header rules; none is the panic at a meta without header rules.
  unfoldable pub count_rules : {V : Type 0} → List (Meta V) → List Bytes → Option ℕ
  count_rules [] keys = some (length keys)
  count_rules (m ∷ ms) keys = elim m.header_rules [
    | none ↦ none
    | some (hs, rs) ↦
        count_rules ms (if is_known (rule_key hs rs) keys then keys else rule_key hs rs ∷ keys)
  ]

  unfoldable pub adjust_header_rule_count : {V : Type 0} → List (Meta V) → Option ℕ
  unfolding count_rules
  adjust_header_rule_count metas = count_rules metas []

-- `matches_string` and `matches_regex` are utils.MatchHeadersWithString and MatchHeadersWithRegex at
-- the request, whose host stands among its headers.
module _ (matches_string matches_regex : Rule → Bool) where
  abbrev pub any_rule : (Rule → Bool) → List Rule → Bool
  any_rule p [] = false
  any_rule p (r ∷ rs) = if p r then true else any_rule p rs

  -- True is no error.
  unfoldable pub estimate_header : {V : Type 0} → Meta V → ℕ → Bool
  estimate_header m count = elim m.header_rules [
    | none ↦ false
    | some (hs, rs) ↦
        if count == 1
        then true
        else if is_empty hs && is_empty rs
        then true
        else if any_rule matches_string hs
        then true
        else any_rule matches_regex rs
  ]

unfoldable pub estimate_meta_chain : {V : Type 0} → List (Meta V → ℕ → Bool) → Meta V → ℕ → Bool
estimate_meta_chain [] m count = true
estimate_meta_chain (e ∷ es) m count = if e m count then estimate_meta_chain es m count else false

-- The comparison reads the first entry in place of the second one too.
unfoldable pub less : {V : Type 0} → Meta V → Meta V → Bool
less i j = elim i.priority [ none ↦ false | some p ↦ ltb p p ]

unfoldable pub accepted : {V : Type 0} → (Meta V → ℕ → Bool) → ℕ → List (Meta V) → List (Meta V)
accepted estimate count [] = []
accepted estimate count (m ∷ ms) =
    let later = accepted estimate count ms in if estimate m count then m ∷ later else later

pub data Matched (V : Type 0) : Type 0 where
  matched : List (Meta V) → Matched V
  wrong_path no_pattern not_accepted : Matched V
  nil_meta : Matched V

abbrev pub sorted_or_none :
    {V : Type 0}
    → ((Meta V → Meta V → Bool) → List (Meta V) → List (Meta V))
    → List (Meta V)
    → Matched V
sorted_or_none sort [] = not_accepted
sorted_or_none sort (m ∷ ms) = matched (sort less (m ∷ ms))

-- `MatchWithMeta` after the path was found.
unfoldable pub match_metas :
    {V : Type 0}
    → ((Meta V → Meta V → Bool) → List (Meta V) → List (Meta V))
    → (Rule → Rule)
    → (Meta V → ℕ → Bool)
    → List (Meta V)
    → Matched V
match_metas sort sort_pairs estimate metas =
    elim (if ltb 1 (length metas)
      then adjust_header_rule_count sort_pairs metas
      else some (length metas)) [
        | none ↦ nil_meta
        | some count ↦ sorted_or_none sort (accepted estimate count metas)
      ]

unfoldable pub match_with_meta :
    {V : Type 0}
    → (Bytes → Bytes)
    → ((Meta V → Meta V → Bool) → List (Meta V) → List (Meta V))
    → (Rule → Rule)
    → (Meta V → ℕ → Bool)
    → Segment (Meta V)
    → Bytes
    → Bytes
    → Matched V
match_with_meta lower sort sort_pairs estimate root method path =
    elim (components lower method path) [
      | err e ↦ wrong_path
      | ok comps ↦ elim (match_internal root comps) [
        | none ↦ no_pattern
        | some metas ↦ match_metas sort sort_pairs estimate metas
      ]
    ]

-- The entries keep their order where none is less than another.
abbrev pub IsStable :
    {V : Type 0} → ((Meta V → Meta V → Bool) → List (Meta V) → List (Meta V)) → Type 0
IsStable {V = V} sort =
    (lt : Meta V → Meta V → Bool) (ms : List (Meta V))
    → ((a b : Meta V) → lt a b ≡ false)
    → sort lt ms ≡ ms

less-false : {V : Type 0} (a b : Meta V) → less a b ≡ false
unfolding less
less-false a b = ground arith

-- With a stable sort, and metas of the path that all have header rules, the metas that take the request
-- come in the order in which they were registered: their priorities change nothing.
pub match_with_meta-accepted :
    {V : Type 0} (lower : Bytes → Bytes)
    (sort : (Meta V → Meta V → Bool) → List (Meta V) → List (Meta V)) (sort_pairs : Rule → Rule)
    (estimate : Meta V → ℕ → Bool) (root : Segment (Meta V)) (method path : Bytes)
    (comps : List Bytes) (metas : List (Meta V)) (m : Meta V) (ms : List (Meta V)) (count : ℕ)
    → IsStable sort
    → components lower method path ≡ ok comps
    → match_internal root comps ≡ some metas
    → (if ltb 1 (length metas)
        then adjust_header_rule_count sort_pairs metas
        else some (length metas))
      ≡ some count
    → accepted estimate count metas ≡ m ∷ ms
    → match_with_meta lower sort sort_pairs estimate root method path ≡ matched (m ∷ ms)
unfolding match_with_meta match_metas
match_with_meta-accepted lower sort sort_pairs estimate root method path comps metas m ms count h p
      i c a =
    ap
      (λ r. elim r [
        | err e ↦ wrong_path
        | ok cs ↦ elim (match_internal root cs) [
          | none ↦ no_pattern
          | some xs ↦ match_metas sort sort_pairs estimate xs
        ]
      ])
      p
    ∙ ap (λ r. elim r [ none ↦ no_pattern | some xs ↦ match_metas sort sort_pairs estimate xs ]) i
    ∙ ap
        (λ r. elim r [ none ↦ nil_meta | some k ↦ sorted_or_none sort (accepted estimate k metas) ])
        c
    ∙ ap (sorted_or_none sort) a
    ∙ ap matched (h less (m ∷ ms) less-false)
