-- ===== src/Http/Template.antt =====
-- TemplateConvert of http/matcher.go: a variable `{name}` becomes "*", and `{name=value}` the value. The
-- pattern `(?U){(.+)}` finds the shortest variable after each brace, of one byte at least and of one
-- line.
use go_framework.Base.{
  ℕ, zero, suc, ◌<◌, Bytes, Bool, true, false, List, [], ◌∷◌, ◌++◌, Option, none, some,
  if◌then◌else◌, is_empty, ◌==◌, ◌≡◌, ◌≢◌, refl, ap, arith, length, Option-cases, inl, inr,
}
use go_framework.Http.Components.{split, invalid_template, Result, ok, err}

-- What stands before the first closing brace, and what stands after it.
unfoldable pub take_group : Bytes → Bytes → Option (Bytes × Bytes)
take_group group [] = none
take_group group (b ∷ bs) =
    let on = take_group (group ++ b ∷ []) bs in
    if b == 10
    then none
    else if b == 125
    then (if is_empty group then on else some (group, bs))
    else on

abbrev pub piece_of : List Bytes → Result Bytes
piece_of (name ∷ []) = ok (42 ∷ [])
piece_of (name ∷ value ∷ []) = ok value
piece_of _ = err invalid_template

unfoldable pub put_before : Bytes → Option (Result Bytes) → Option (Result Bytes)
put_before piece none = none
put_before piece (some (err e)) = some (err e)
put_before piece (some (ok text)) = some (ok (piece ++ text))

-- `FindAllStringSubmatchIndex` and the loop over what it finds, from left to right. The outer none is
-- the fuel running out.
unfoldable pub convert : ℕ → Bytes → Option (Result Bytes)
convert zero bs = none
convert (suc fuel) [] = some (ok [])
convert (suc fuel) (b ∷ bs) = elim (if b == 123 then take_group [] bs else none) [
  | none ↦ put_before (b ∷ []) (convert fuel bs)
  | some (group, rest) ↦ elim (piece_of (split 61 group)) [
    | err e ↦ some (err e)
    | ok piece ↦ put_before piece (convert fuel rest)
  ]
]

abbrev pub out_of_fuel : Option (Result Bytes) → Result Bytes
out_of_fuel none = err invalid_template
out_of_fuel (some r) = r

unfoldable pub template_convert : Bytes → Result Bytes
template_convert bs = out_of_fuel (convert (suc (length bs)) bs)

-- strings.TrimRight at "/".
unfoldable pub trim_right : Bytes → Bytes
trim_right [] = []
trim_right (b ∷ bs) =
    let rest = trim_right bs in if is_empty rest then (if b == 47 then [] else b ∷ []) else b ∷ rest

-- http/registry.go: each round of the loop over the methods sets the result again.
unfoldable pub registry_with_path : List Bytes → Bytes → List Bytes
registry_with_path [] path = (47 ∷ 42 ∷ trim_right path) ∷ []
registry_with_path (m ∷ []) path = (47 ∷ m ++ trim_right path) ∷ []
registry_with_path (m ∷ n ∷ ms) path = registry_with_path (n ∷ ms) path

unfoldable pub registry_with_grpc_pattern : Bytes → Result Bytes
registry_with_grpc_pattern pattern = elim (template_convert pattern) [
  | err e ↦ err e
  | ok converted ↦ ok (47 ∷ converted)
]

take_group-length :
    (group bs g rest : Bytes) → take_group group bs ≡ some (g, rest) → length rest < length bs
unfolding take_group
take_group-length group [] g rest e = absurd (ground arith)
take_group-length group (b ∷ bs) g rest e =
    ground (arith, take_group-length (group ++ b ∷ []) bs g rest)

put_before-none : (piece : Bytes) (r : Option (Result Bytes)) → r ≢ none → put_before piece r ≢ none
unfolding put_before
put_before-none piece none h = h
put_before-none piece (some (err e)) h = λ q. absurd (ground arith)
put_before-none piece (some (ok text)) h = λ q. absurd (ground arith)

abbrev next : Result Bytes → Option (Result Bytes) → Option (Result Bytes)
next p r = elim p [ err e ↦ some (err e) | ok piece ↦ put_before piece r ]

next-none : (p : Result Bytes) (r : Option (Result Bytes)) → r ≢ none → next p r ≢ none
next-none (err e) r h = λ q. absurd (ground arith)
next-none (ok piece) r h = put_before-none piece r h

-- One unit of fuel for each byte, and one more, is enough: the conversion of a pattern ends, with the
-- new pattern or with the error of a variable that has more than one equals sign.
pub convert-none : (fuel : ℕ) (bs : Bytes) → length bs < fuel → convert fuel bs ≢ none
unfolding convert
convert-none zero bs l = absurd (omega arith)
convert-none (suc fuel) [] l = λ q. absurd (ground arith)
convert-none (suc fuel) (b ∷ bs) l =
    elim (Option-cases (if b == 123 then take_group [] bs else none)) [
      | inl e ↦ rw (e, convert) (put_before-none (b ∷ []) _ (convert-none fuel bs (omega arith)))
      | inr ((group, rest), e) ↦
          let shorter : length rest < length bs =
            ground (arith, take_group-length [] bs group rest) in
          rw (e, convert)
            (next-none (piece_of (split 61 group)) (convert fuel rest)
              (convert-none fuel rest (omega arith)))
    ]

unfoldable pub has_no_brace : Bytes → Bool
has_no_brace [] = true
has_no_brace (b ∷ bs) = let later = has_no_brace bs in if b == 123 then false else later

convert_plain :
    (fuel : ℕ) (bs : Bytes)
    → length bs < fuel
    → has_no_brace bs ≡ true
    → convert fuel bs ≡ some (ok bs)
unfolding convert put_before has_no_brace
convert_plain zero bs l h = absurd (omega arith)
convert_plain (suc fuel) [] l h = refl
convert_plain (suc fuel) (b ∷ bs) l h = ground (arith, convert_plain fuel bs)

-- A pattern with no opening brace is as it was.
pub template_convert-has_no_brace :
    (bs : Bytes) → has_no_brace bs ≡ true → template_convert bs ≡ ok bs
unfolding template_convert
template_convert-has_no_brace bs h =
    ap out_of_fuel (convert_plain (suc (length bs)) bs (omega arith) h)
