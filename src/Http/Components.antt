-- ===== src/Http/Components.antt =====
-- The components of a path in http/matcher.go. `lower` is strings.ToLower; a text is its bytes.
use go_framework.Base.{
  ℕ, zero, suc, Bytes, true, false, List, [], ◌∷◌, ◌++◌, Option, none, some, if◌then◌else◌,
  is_empty, ◌==◌, take, drop,
}
use go_framework.Http.{Segment, match_internal, add_components}

-- strings.Split at one byte: there is always one part at least. The first argument is the part that
-- is being read, in reverse order.
unfoldable pub split_from : Bytes → ℕ → Bytes → List Bytes
split_from part sep [] = part ∷ []
split_from part sep (b ∷ bs) =
    let next = split_from [] sep bs in
    let on = split_from (part ++ b ∷ []) sep bs in
    elim (b == sep) [ true ↦ part ∷ next | false ↦ on ]

abbrev pub split : ℕ → Bytes → List Bytes
split sep bs = split_from [] sep bs

-- strings.LastIndex of one byte.
unfoldable pub last_index : ℕ → Bytes → Option ℕ
last_index c [] = none
last_index c (b ∷ bs) = elim (last_index c bs) [
  | some i ↦ some (suc i)
  | none ↦ if b == c then some 0 else none
]

pub data Error : Type 0 where
  slice_out_of_range standalone_verb invalid_template empty_component no_match : Error

pub data Result (A : Type 0) : Type 0 where
  ok : A → Result A
  err : Error → Result A

-- The verb after the last colon of the last component stands as a component of its own.
unfoldable pub split_verb : List Bytes → Result (List Bytes)
split_verb [] = ok []
split_verb (c ∷ []) = elim (last_index 58 c) [
  | none ↦ ok (c ∷ [])
  | some zero ↦ err standalone_verb
  | some (suc i) ↦
      let verb = drop (suc (suc i)) c in
      ok (take (suc i) c ∷ (if is_empty verb then [] else (58 ∷ verb) ∷ []))
]
split_verb (c ∷ d ∷ ds) = elim (split_verb (d ∷ ds)) [ ok cs ↦ ok (c ∷ cs) | err e ↦ err e ]

-- An empty path is a panic.
unfoldable pub components : (Bytes → Bytes) → Bytes → Bytes → Result (List Bytes)
components lower method [] = err slice_out_of_range
components lower method (b ∷ path) =
    let parts = split 47 (lower path) in
    split_verb (if is_empty method then parts else lower method ∷ parts)

-- `Match`; none is its false.
unfoldable pub match_path :
    {M : Type 0} → (Bytes → Bytes) → Segment M → Bytes → Bytes → Option (List M)
match_path lower s method path = elim (components lower method path) [
  | err e ↦ none
  | ok comps ↦ match_internal s comps
]

-- `AddPattern`, on the tree and the error that it gives.
unfoldable pub add_pattern :
    {M : Type 0}
    → (Bytes → Bytes)
    → (Bytes → Result Bytes)
    → Bytes
    → Bytes
    → M
    → Segment M
    → Segment M × Option Error
add_pattern lower template_convert method pattern meta s = elim (template_convert pattern) [
  | err e ↦ (s, some e)
  | ok converted ↦ elim (components lower method converted) [
    | err e ↦ (s, some e)
    | ok comps ↦
        let (s', added) = add_components comps meta s in
        (s', if added then none else some empty_component)
  ]
]
