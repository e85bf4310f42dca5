-- ===== src/Config/Tree/Search.antt =====
-- SearchByPrefix of config/internal/prefix_tree.go finds every key below a prefix.
use mathlib.Core.Path.{subst}
use go_framework.Base.{
  String, text_discrete, lookup, Bool, false, List, [], ◌∷◌, ◌++◌, Option, none, some, if_pos,
  if_neg, if◌then◌else◌, ◌≡◌, refl, sym, ap, ◌∙◌, arith, In, In-append_left, In-append_right,
  Bool-cases, inl, inr,
}
use go_framework.Config.Tree.{
  PrefixTreeNode, new_node, Nodes, no_nodes, named, PrefixTree, is_empty_text, find_node, find_in,
  meta_of, get_key, child_name, own_meta, travel, travel_all, travel_found, search_by_prefix,
}

module _ {V : Type 0} where
  mutual
    unfolding find_node

    find_node-append :
        (ps qs : List String) (n : PrefixTreeNode V) (v : V)
        → meta_of (find_node n (ps ++ qs)) ≡ some v
        → (k : PrefixTreeNode V) × (find_node n ps ≡ some k) × (meta_of (find_node k qs) ≡ some v)
    find_node-append [] qs n v e = (n, refl, e)
    find_node-append (p ∷ ps) qs (new_node meta ns) v e = elim (Bool-cases (is_empty_text p)) [
      | inl b ↦
          let nothing : none ≡ some v =
            ap (λ t. meta_of (if t then none else find_in ns p (ps ++ qs))) (sym b) ∙ e in
          absurd (ground (arith, nothing))
      | inr b ↦
          let below : meta_of (find_in ns p (ps ++ qs)) ≡ some v =
            ap (λ t. meta_of (if t then none else find_in ns p (ps ++ qs))) (sym b) ∙ e in
          let (k, f, g) = find_in-append p ps qs ns v below in
          (k, ap (λ t. if t then none else find_in ns p ps) b ∙ f, g)
    ]

    find_in-append :
        (p : String) (ps qs : List String) (ns : Nodes V) (v : V)
        → meta_of (find_in ns p (ps ++ qs)) ≡ some v
        → (k : PrefixTreeNode V) × (find_in ns p ps ≡ some k) × (meta_of (find_node k qs) ≡ some v)
    find_in-append p ps qs no_nodes v e = absurd (ground arith)
    find_in-append p ps qs (named q n ns) v e = elim (text_discrete q p) [
      | yes g ↦
          let (k, f, h) =
            find_node-append ps qs n v
              (ap meta_of (sym (if_pos (text_discrete q p) g (find_node n (ps ++ qs)) _)) ∙ e) in
          (k, if_pos (text_discrete q p) g _ _ ∙ f, h)
      | no g ↦
          let (k, f, h) =
            find_in-append p ps qs ns v
              (ap meta_of (sym (if_neg (text_discrete q p) g _ (find_in ns p (ps ++ qs)))) ∙ e) in
          (k, if_neg (text_discrete q p) g _ _ ∙ f, h)
    ]

module _ {V : Type 0} where
  below_of :
      (p : String) (ps : List String) (meta : Option V) (ns : Nodes V) (v : V)
      → meta_of (find_node (new_node meta ns) (p ∷ ps)) ≡ some v
      → meta_of (find_in ns p ps) ≡ some v
  unfolding find_node
  below_of p ps meta ns v e = ground arith

  present :
      (o : Option Bool) (x : Option V) (v : V)
      → elim o [ none ↦ none | some _ ↦ x ] ≡ some v
      → x ≡ some v
  present none x v e = absurd (ground arith)
  present (some b) x v e = e

-- The name of a path below a name.
abbrev pub path_name : (String → String → String) → String → List String → String
path_name join name [] = name
path_name join name (p ∷ ps) = path_name join (child_name join name p) ps

module _ {V : Type 0} (join : String → String → String) where
  own_meta-In :
      (name : String) (meta : Option V) (v : V)
      → meta ≡ some v
      → is_empty_text name ≡ false
      → In (name, v) (own_meta name meta)
  own_meta-In name none v e h = absurd (ground arith)
  own_meta-In name (some w) v e h = let same : w ≡ v = cc in rw h (inl (ap (λ x. (name, x)) same))

  mutual
    unfolding travel find_node

    travel-In :
        (name : String) (n : PrefixTreeNode V) (ps : List String) (v : V)
        → meta_of (find_node n ps) ≡ some v
        → is_empty_text (path_name join name ps) ≡ false
        → In (path_name join name ps, v) (travel join name n)
    travel-In name (new_node meta ns) [] v e h =
        In-append_left _ (own_meta name meta) _ (own_meta-In name meta v e h)
    travel-In name (new_node meta ns) (p ∷ ps) v e h =
        In-append_right _ (own_meta name meta) _
          (travel_all-In name ns p ps v (below_of p ps meta ns v e) h)

    travel_all-In :
        (name : String) (ns : Nodes V) (p : String) (ps : List String) (v : V)
        → meta_of (find_in ns p ps) ≡ some v
        → is_empty_text (path_name join (child_name join name p) ps) ≡ false
        → In (path_name join (child_name join name p) ps, v) (travel_all join name ns)
    travel_all-In name no_nodes p ps v e h = absurd (ground arith)
    travel_all-In name (named q n ns) p ps v e h = elim (text_discrete q p) [
      | yes g ↦ In-append_left _ (travel join (child_name join name q) n) _ (
          subst
            (λ r.
              In (path_name join (child_name join name r) ps, v)
                (travel join (child_name join name q) n))
            g
            (travel-In (child_name join name q) n ps v
              (ap meta_of (sym (if_pos (text_discrete q p) g (find_node n ps) _)) ∙ e)
              (ap (λ r. is_empty_text (path_name join (child_name join name r) ps)) g ∙ h)))
      | no g ↦ In-append_right _ (travel join (child_name join name q) n) _ (
          travel_all-In name ns p ps v
            (ap meta_of (sym (if_neg (text_discrete q p) g _ (find_in ns p ps))) ∙ e) h)
    ]

  -- Every key that has a value and whose parts begin with those of a prefix is in what a search by the
  -- prefix gives, with its value, under the name that joins the prefix and the other parts.
  pub search_by_prefix-In :
      (split : String → List String) (s : PrefixTree V) (prefix key : String) (rest : List String)
      (v : V)
      → is_empty_text prefix ≡ false
      → is_empty_text (path_name join prefix rest) ≡ false
      → split key ≡ split prefix ++ rest
      → get_key split s key ≡ some v
      → In (path_name join prefix rest, v) (search_by_prefix join split s prefix)
  unfolding search_by_prefix get_key
  search_by_prefix-In split s prefix key rest v h k e g =
      let there : meta_of (find_node s.root (split key)) ≡ some v =
        present (lookup key s.m) _ v g in
      let (n, f, w) =
        find_node-append (split prefix) rest s.root v
          (ap (λ t. meta_of (find_node s.root t)) (sym e) ∙ there) in
      subst (λ l. In (path_name join prefix rest, v) l)
        (sym (
          ap
            (λ b.
              if b
              then travel join prefix s.root
              else travel_found join prefix (find_node s.root (split prefix)))
            h
          ∙ ap (travel_found join prefix) f))
        (travel-In prefix n rest v w k)
