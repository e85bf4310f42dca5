-- ===== src/Http/Tests.antt =====
-- A tree with the patterns /a/* and /a/b, and the theorems at it.
use go_framework.Base.{
  ℕ, if◌then◌else◌, ◌&&◌, Bytes, same_bytes, Bool, true, false, [], ◌∷◌, ◌++◌, none, some, ◌≡◌,
  refl,
}
use go_framework.Http.{
  Segment, node, end, child, star, new_path_segment, update_child, add_components, match_internal,
  match_child, match_two_stars, skip_loop, has_child,
}
use go_framework.Http.Stored.{metas_at, no_empty, same_path}
use go_framework.Http.Added.{add_pattern-metas_at}
use go_framework.Http.Sound.{IsStored, match_internal-Matches, match_internal-add_components}
use go_framework.Http.Components.{
  add_pattern, empty_component, components, split_from, split_verb, last_index, ok,
}
use go_framework.Http.Template.{
  convert, take_group, put_before, template_convert, has_no_brace, registry_with_path, trim_right,
}
use go_framework.Http.Headers.{
  Meta, adjust_header_rule_count, count_rules, rule_key, all_pairs, write_pairs, is_known, accepted,
  estimate_header,
}

abbrev a : Bytes
a = 97 ∷ []

abbrev b : Bytes
b = 98 ∷ []

abbrev tree : Segment ℕ
tree =
    node []
      (child a (node [] (child star (node (1 ∷ []) end) (child b (node (2 ∷ []) end) end))) end)

tree_added :
    (add_components (a ∷ b ∷ []) 2 (add_components (a ∷ star ∷ []) 1 new_path_segment).0).0 ≡ tree
unfolding add_components update_child same_bytes
tree_added = refl

wildcard : match_internal tree (a ∷ a ∷ []) ≡ some (1 ∷ [])
unfolding match_internal match_child match_two_stars skip_loop has_child same_bytes
wildcard = refl

match_internal-Matches_example : IsStored tree (a ∷ a ∷ []) (1 ∷ [])
match_internal-Matches_example = match_internal-Matches tree (a ∷ a ∷ []) (1 ∷ []) wildcard

no_empty_ab : no_empty (a ∷ b ∷ []) ≡ true
unfolding no_empty
no_empty_ab = refl

match_internal-add_components_example :
    match_internal (add_components (a ∷ b ∷ []) 3 tree).0 (a ∷ b ∷ [])
    ≡ some (metas_at tree (a ∷ b ∷ []) ++ 3 ∷ [])
match_internal-add_components_example =
    match_internal-add_components (a ∷ b ∷ []) 3 tree no_empty_ab

-- "/{x=b}/a:b"
abbrev pattern_bytes : Bytes
pattern_bytes = 47 ∷ 123 ∷ 97 ∷ 61 ∷ 98 ∷ 125 ∷ 47 ∷ 97 ∷ 58 ∷ 98 ∷ []

pattern_converted : template_convert pattern_bytes ≡ ok (47 ∷ 98 ∷ 47 ∷ 97 ∷ 58 ∷ 98 ∷ [])
unfolding template_convert convert put_before take_group split_from
pattern_converted = refl

verb_split : components (λ x. x) [] (47 ∷ 98 ∷ 47 ∷ 97 ∷ 58 ∷ 98 ∷ []) ≡ ok (b ∷ a ∷ (58 ∷ b) ∷ [])
unfolding components split_from split_verb last_index
verb_split = refl

-- "/{x=b}/a:b" is added to the two patterns.
add_pattern-metas_at_example :
    let (s', e) = add_pattern (λ x. x) template_convert [] pattern_bytes 3 tree in
    (e ≡ (if no_empty (b ∷ a ∷ (58 ∷ b) ∷ []) then none else some empty_component))
    × (metas_at s' (b ∷ a ∷ (58 ∷ b) ∷ []) ≡ (
        if no_empty (b ∷ a ∷ (58 ∷ b) ∷ [])
          && same_path (b ∷ a ∷ (58 ∷ b) ∷ []) (b ∷ a ∷ (58 ∷ b) ∷ [])
        then metas_at tree (b ∷ a ∷ (58 ∷ b) ∷ []) ++ 3 ∷ []
        else metas_at tree (b ∷ a ∷ (58 ∷ b) ∷ [])))
add_pattern-metas_at_example =
    add_pattern-metas_at (λ x. x) template_convert [] pattern_bytes
      (47 ∷ 98 ∷ 47 ∷ 97 ∷ 58 ∷ 98 ∷ []) 3 tree (b ∷ a ∷ (58 ∷ b) ∷ []) (b ∷ a ∷ (58 ∷ b) ∷ [])
      pattern_converted verb_split

last_method_only :
    registry_with_path (a ∷ b ∷ []) (47 ∷ 97 ∷ 47 ∷ []) ≡ (47 ∷ 98 ∷ 47 ∷ 97 ∷ []) ∷ []
unfolding registry_with_path trim_right
last_method_only = refl

plain_pattern : has_no_brace (47 ∷ 97 ∷ 47 ∷ 98 ∷ []) ≡ true
unfolding has_no_brace
plain_pattern = refl

abbrev late : Meta ℕ
late = record { value = 1; header_rules = some ((((a, b) ∷ []) ∷ []), []); priority = some 9 }

abbrev early : Meta ℕ
early = record { value = 2; header_rules = some ([], []); priority = some 1 }

abbrev routes : Segment (Meta ℕ)
routes = node [] (child a (node (late ∷ early ∷ []) end) end)

abbrev estimate : Meta ℕ → ℕ → Bool
estimate = estimate_header (λ r. true) (λ r. false)

routes-components : components (λ x. x) [] (47 ∷ a) ≡ ok (a ∷ [])
unfolding components split_from split_verb last_index
routes-components = refl

routes-match_internal : match_internal routes (a ∷ []) ≡ some (late ∷ early ∷ [])
unfolding match_internal match_child same_bytes
routes-match_internal = refl

two_rules : adjust_header_rule_count (λ ps. ps) (late ∷ early ∷ []) ≡ some 2
unfolding adjust_header_rule_count count_rules rule_key all_pairs write_pairs is_known same_bytes
two_rules = refl

both_accepted : accepted estimate 2 (late ∷ early ∷ []) ≡ late ∷ early ∷ []
unfolding accepted estimate_header
both_accepted = refl
