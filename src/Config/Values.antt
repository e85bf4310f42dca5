-- ===== src/Config/Values.antt =====
-- config/internal/value.go: the typed accessors over a getter. The parsers of numbers, durations and JSON
-- are parameters, with none as their error; a text is its bytes.
use go_framework.Base.{
  Bytes, same_bytes, Bool, true, List, [], ◌∷◌, Option, none, some, if◌then◌else◌, is_empty,
  is_some,
}
use go_framework.Http.Components.{split}

module _ (get : Bytes → Option Bytes) where
  abbrev pub value_or_empty : Option Bytes → Bytes
  value_or_empty none = []
  value_or_empty (some v) = v

  -- `String` and `Bytes`
  unfoldable pub string : Bytes → Bytes
  string key = value_or_empty (get key)

  unfoldable pub has : Bytes → Bool
  has key = is_some (get key)

  -- "true" and "1"
  unfoldable pub bool : (Bytes → Bytes) → Bytes → Bool
  bool lower key =
      let v = lower (string key) in
      if same_bytes v (116 ∷ 114 ∷ 117 ∷ 101 ∷ []) then true else same_bytes v (49 ∷ [])

  -- `Int`, `Uint`, `Int64`, `Uint64` and `Float64`, with the parser and the zero of each.
  unfoldable pub parsed_number : {A : Type 0} → (Bytes → Option A) → A → Bytes → A
  parsed_number parse zero_value key = elim (parse (string key)) [ none ↦ zero_value | some n ↦ n ]

  unfoldable pub duration : {A : Type 0} → (Bytes → Option A) → A → Bytes → A
  duration parse zero_value key =
      let parsed = parsed_number parse zero_value key in
      if is_empty (string key) then zero_value else parsed

  unfoldable pub trimmed_parts : (Bytes → Bytes) → List Bytes → List Bytes
  trimmed_parts trim [] = []
  trimmed_parts trim (p ∷ ps) =
      let rest = trimmed_parts trim ps in if is_empty (trim p) then rest else trim p ∷ rest

  unfoldable pub string_list : (Bytes → Bytes) → Bytes → List Bytes
  string_list trim key = trimmed_parts trim (split 44 (string key))

  unfoldable pub parsed_all : {A : Type 0} → (Bytes → Option A) → List Bytes → List A
  parsed_all parse [] = []
  parsed_all parse (p ∷ ps) =
      let rest = parsed_all parse ps in elim (parse p) [ none ↦ rest | some n ↦ n ∷ rest ]

  -- `IntList`, `UintList`, `Int64List` and `Uint64List`
  unfoldable pub number_list : {A : Type 0} → (Bytes → Option A) → (Bytes → Bytes) → Bytes → List A
  number_list parse trim key = parsed_all parse (string_list trim key)

  unfoldable pub string_map : (Bytes → Option (List (Bytes × Bytes))) → Bytes → List (Bytes × Bytes)
  string_map parse key = parsed_number parse [] key
