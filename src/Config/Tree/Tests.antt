-- ===== src/Config/Tree/Tests.antt =====
-- A tree with the keys a.b and a, and the theorems at it. Keys are split by a table.
use go_framework.Base.{
  ℕ, String, text_discrete, lookup, insert, delete, false, List, [], ◌∷◌, ◌++◌, none, some, ite,
  ◌≡◌, refl, arith, sym, ap, ◌∙◌,
}
use go_framework.Config.Tree.{
  new_prefix_tree, TreeOp, put_op, del_op, run_tree_op, run_tree_ops, put_key, del_key, get_key,
  put_path, put_child, find_node, del_path, change_child, is_empty_text,
}
use go_framework.Config.Tree.Refines.{
  IsInjective, latest, after, has_no_empty, run_tree_ops-get_key,
}
use go_framework.Config.Tree.Search.{path_name}

-- One part for each key, but for a.b.
abbrev parts_of : String → List String
parts_of key = ite (text_discrete key "a.b") ("a" ∷ "b" ∷ []) (key ∷ [])

abbrev dotted : String → String → String
dotted name part = "a.b"

abbrev first_part : List String → String
first_part [] = ""
first_part (p ∷ ps) = p

abbrev parts : List String → String
parts [] = ""
parts (p ∷ []) = p
parts (p ∷ q ∷ qs) = "a.b"

parts_of-parts : (key : String) → parts (parts_of key) ≡ key
parts_of-parts key = elim (text_discrete key "a.b") [ yes e ↦ ground arith | no n ↦ ground arith ]

parts_of-IsInjective : IsInjective parts_of
parts_of-IsInjective j k e = sym (parts_of-parts j) ∙ ap parts e ∙ parts_of-parts k

abbrev ops : List (TreeOp ℕ)
ops = put_op "a" 1 ∷ put_op "a.b" 2 ∷ put_op "" 3 ∷ del_op "a" ∷ []

latest_two : latest parts_of ops "a.b" none ≡ some 2
unfolding latest after has_no_empty text_discrete
latest_two = refl

run_tree_ops-get_key_example :
    get_key parts_of (run_tree_ops parts_of ops new_prefix_tree) "a.b"
    ≡ latest parts_of ops "a.b" (get_key parts_of (new_prefix_tree {V = ℕ}) "a.b")
run_tree_ops-get_key_example =
    run_tree_ops-get_key parts_of ops new_prefix_tree "a.b" parts_of-IsInjective

found_two : get_key parts_of (run_tree_ops parts_of ops new_prefix_tree) "a.b" ≡ some 2
unfolding get_key run_tree_ops run_tree_op put_key del_key put_path put_child find_node del_path
    change_child lookup insert delete text_discrete
found_two = refl

a_is_not_empty : is_empty_text "a" ≡ false
unfolding text_discrete
a_is_not_empty = refl

named_below : path_name dotted "a" ("b" ∷ []) ≡ "a.b"
unfolding text_discrete
named_below = refl

below_is_not_empty : is_empty_text (path_name dotted "a" ("b" ∷ [])) ≡ false
unfolding text_discrete
below_is_not_empty = refl

split_below : parts_of "a.b" ≡ parts_of "a" ++ "b" ∷ []
unfolding text_discrete
split_below = refl
