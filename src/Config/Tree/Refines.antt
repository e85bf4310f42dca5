-- ===== src/Config/Tree/Refines.antt =====
-- The tree of config/internal/prefix_tree.go keeps, for each key, the value of the last operation on it.
use go_framework.Base.{
  String, text_discrete, lookup, lookup-insert, lookup-delete, Bool, true, false, not, ◌&&◌, List,
  [], ◌∷◌, Option, none, some, ite, if◌then◌else◌, ◌≡◌, refl, sym, ap, ◌∙◌, arith, if_pos, if_neg,
  Bool-cases, inl, inr,
}
use go_framework.Config.Tree.{
  PrefixTreeNode, new_node, Nodes, no_nodes, named, PrefixTree, is_empty_text, put_child, put_path,
  find_node, find_in, meta_of, change_child, del_path, put_key, get_key, del_key, TreeOp, put_op,
  del_op, clear_op, run_tree_op, run_tree_ops,
}

-- No part of a key is empty.
unfoldable pub has_no_empty : List String → Bool
has_no_empty [] = true
has_no_empty (p ∷ ps) = not (is_empty_text p) && has_no_empty ps

unfoldable pub same_parts : List String → List String → Bool
same_parts [] [] = true
same_parts (p ∷ ps) (q ∷ qs) = ite (text_discrete p q) true false && same_parts ps qs
same_parts _ _ = false

same_parts_eq : (ps qs : List String) → same_parts ps qs ≡ true → ps ≡ qs
unfolding same_parts
same_parts_eq [] [] e = refl
same_parts_eq [] (q ∷ qs) e = absurd (ground arith)
same_parts_eq (p ∷ ps) [] e = absurd (ground arith)
same_parts_eq (p ∷ ps) (q ∷ qs) e = elim (text_discrete p q) [
  | yes h ↦ ground (arith, same_parts_eq ps qs)
  | no h ↦ absurd (ground arith)
]

module _ {V : Type 0} where
  -- What `find_node` finds below the children of a node, or of a new one.
  abbrev child_or_new : String → Nodes V → PrefixTreeNode V
  child_or_new p no_nodes = new_node none no_nodes
  child_or_new p (named q n ns) = ite (text_discrete q p) n (child_or_new p ns)

  abbrev meta_at : PrefixTreeNode V → List String → Option V
  meta_at n ps = meta_of (find_node n ps)

  abbrev meta_in : Nodes V → String → List String → Option V
  meta_in ns p ps = meta_of (find_in ns p ps)

  meta_at-new : (qs : List String) → meta_at (new_node none no_nodes) qs ≡ none
  unfolding find_node
  meta_at-new [] = refl
  meta_at-new (q ∷ qs) = ground arith

  meta_at-child :
      (p : String) (ns : Nodes V) (qs : List String)
      → meta_at (child_or_new p ns) qs ≡ meta_in ns p qs
  unfolding find_node
  meta_at-child p no_nodes qs = meta_at-new qs
  meta_at-child p (named q n ns) qs = ground (arith, meta_at-child p ns qs)

  put_child-stored :
      (p : String) (f : PrefixTreeNode V → PrefixTreeNode V × Bool) (ns : Nodes V)
      → (put_child p f ns).1 ≡ (f (child_or_new p ns)).1
  unfolding put_child
  put_child-stored p f no_nodes = refl
  put_child-stored p f (named q n ns) = ground (arith, put_child-stored p f ns)

  put_child-find_in :
      (p : String) (f : PrefixTreeNode V → PrefixTreeNode V × Bool) (ns : Nodes V) (r : String)
      (rs : List String)
      → find_in (put_child p f ns).0 r rs
        ≡ ite (text_discrete p r) (find_node (f (child_or_new p ns)).0 rs) (find_in ns r rs)
  unfolding put_child find_in
  put_child-find_in p f no_nodes r rs = refl
  put_child-find_in p f (named q n ns) r rs = ground (arith, put_child-find_in p f ns r rs)

  put_path-stored :
      (ps : List String) (v : V) (n : PrefixTreeNode V) → (put_path ps v n).1 ≡ has_no_empty ps
  unfolding put_path has_no_empty
  put_path-stored [] v (new_node meta ns) = refl
  put_path-stored (p ∷ ps) v (new_node meta ns) =
      ground
        (arith, put_child-stored p (put_path ps v) ns, put_path-stored ps v (child_or_new p ns))

  put_path-meta_at :
      (ps : List String) (v : V) (n : PrefixTreeNode V) (qs : List String)
      → meta_at (put_path ps v n).0 qs
        ≡ (if has_no_empty ps && same_parts ps qs then some v else meta_at n qs)
  unfolding put_path find_node has_no_empty same_parts
  put_path-meta_at [] v (new_node meta ns) [] = refl
  put_path-meta_at [] v (new_node meta ns) (q ∷ qs) = refl
  put_path-meta_at (p ∷ ps) v (new_node meta ns) [] = ground arith
  put_path-meta_at (p ∷ ps) v (new_node meta ns) (q ∷ qs) =
      let ih = put_path-meta_at ps v (child_or_new p ns) qs in
      let below = put_child-find_in p (put_path ps v) ns q qs in
      let old = meta_at-child p ns qs in
      elim (text_discrete p "") [
        | yes e ↦ ground (arith, e)
        | no e ↦ elim (text_discrete q "") [
          | yes f ↦ ground arith
          | no f ↦ elim (text_discrete p q) [
            | yes g ↦ ground (
              arith,
              ap meta_of below ∙ ap meta_of (if_pos (text_discrete p q) g _ _),
              ih,
              old ∙ ap (λ t. meta_in ns t qs) g,
            )
            | no g ↦ ground (arith, below)
          ]
        ]
      ]

  change_child-find_in :
      (p : String) (f : PrefixTreeNode V → PrefixTreeNode V) (ns : Nodes V) (r : String)
      (rs : List String)
      → meta_at (f (new_node none no_nodes)) rs ≡ none
      → meta_in (change_child p f ns) r rs
        ≡ ite (text_discrete p r) (meta_at (f (child_or_new p ns)) rs) (meta_in ns r rs)
  unfolding change_child find_in
  change_child-find_in p f no_nodes r rs h = ground arith
  change_child-find_in p f (named q n ns) r rs h =
      ground (arith, change_child-find_in p f ns r rs h)

  del_path-new : (ps qs : List String) → meta_at (del_path ps (new_node none no_nodes)) qs ≡ none
  unfolding del_path change_child
  del_path-new [] qs = meta_at-new qs
  del_path-new (p ∷ ps) qs = ground (arith, meta_at-new qs)

  -- Only the value at the parts themselves can change.
  del_path-meta_at :
      (ps : List String) (n : PrefixTreeNode V) (qs : List String)
      → same_parts ps qs ≡ false
      → meta_at (del_path ps n) qs ≡ meta_at n qs
  unfolding del_path find_node same_parts
  del_path-meta_at [] (new_node meta ns) [] h = absurd (ground arith)
  del_path-meta_at [] (new_node meta ns) (q ∷ qs) h = refl
  del_path-meta_at (p ∷ ps) (new_node meta ns) [] h = ground arith
  del_path-meta_at (p ∷ ps) (new_node meta ns) (q ∷ qs) h =
      let below = change_child-find_in p (del_path ps) ns q qs (del_path-new ps qs) in
      let old = meta_at-child p ns qs in
      elim (text_discrete p "") [
        | yes e ↦ ground (arith, e)
        | no e ↦ elim (text_discrete q "") [
          | yes f ↦ ground arith
          | no f ↦ elim (text_discrete p q) [
            | yes g ↦ ground (
              arith,
              below ∙ if_pos (text_discrete p q) g _ _,
              del_path-meta_at ps (child_or_new p ns) qs,
              old ∙ ap (λ t. meta_in ns t qs) g,
            )
            | no g ↦ ground (arith, below)
          ]
        ]
      ]

-- No two keys have the same parts.
abbrev pub IsInjective : (String → List String) → Type 0
IsInjective split = (j k : String) → split j ≡ split k → j ≡ k

same_parts_refl : (ps : List String) → same_parts ps ps ≡ true
unfolding same_parts
same_parts_refl [] = refl
same_parts_refl (p ∷ ps) = ground (arith, same_parts_refl ps)

same_parts-split :
    (split : String → List String) (j k : String)
    → IsInjective split
    → same_parts (split j) (split k) ≡ ite (text_discrete j k) true false
same_parts-split split j k i = elim (text_discrete j k) [
  | yes e ↦
      ap (λ t. same_parts (split j) (split t)) (sym e)
      ∙ same_parts_refl (split j)
      ∙ sym (if_pos (text_discrete j k) e _ _)
  | no n ↦ elim (Bool-cases (same_parts (split j) (split k))) [
    | inl e ↦ absurd (n (i j k (same_parts_eq (split j) (split k) e)))
    | inr e ↦ e ∙ sym (if_neg (text_discrete j k) n _ _)
  ]
]

module _ {V : Type 0} (split : String → List String) where
  -- The value of a key after an operation, by the value before.
  unfoldable pub after : TreeOp V → String → Option V → Option V
  after (put_op key v) k before =
      if has_no_empty (split key) then ite (text_discrete key k) (some v) before else before
  after (del_op key) k before = ite (text_discrete key k) none before
  after clear_op k before = none

  unfoldable pub latest : List (TreeOp V) → String → Option V → Option V
  latest [] k before = before
  latest (o ∷ os) k before = latest os k (after o k before)

  put_key-get_key :
      (key : String) (v : V) (s : PrefixTree V) (k : String)
      → IsInjective split
      → get_key split (put_key split key v s) k ≡ after (put_op key v) k (get_key split s k)
  unfolding put_key get_key after
  put_key-get_key key v s k i = ground (
    arith,
    put_path-stored (split key) v s.root,
    put_path-meta_at (split key) v s.root (split k),
    lookup-insert key k true s.m,
    same_parts-split split key k i,
  )

  del_key-get_key :
      (key : String) (s : PrefixTree V) (k : String)
      → IsInjective split
      → get_key split (del_key split key s) k ≡ after (del_op key) k (get_key split s k)
  unfolding del_key get_key after
  del_key-get_key key s k i = ground (
    arith,
    del_path-meta_at (split key) s.root (split k),
    lookup-delete key k s.m,
    same_parts-split split key k i,
  )

  run_tree_op-get_key :
      (o : TreeOp V) (s : PrefixTree V) (k : String)
      → IsInjective split
      → get_key split (run_tree_op split o s) k ≡ after o k (get_key split s k)
  unfolding run_tree_op after get_key lookup
  run_tree_op-get_key (put_op key v) s k i = put_key-get_key key v s k i
  run_tree_op-get_key (del_op key) s k i = del_key-get_key key s k i
  run_tree_op-get_key clear_op s k i = refl

  -- If no two keys have the same parts, `Get` gives the value of the last `Put` of the key, and nothing
  -- after a `Del` of it or a `Clear`; a `Put` of a key with an empty part changes nothing.
  pub run_tree_ops-get_key :
      (os : List (TreeOp V)) (s : PrefixTree V) (k : String)
      → IsInjective split
      → get_key split (run_tree_ops split os s) k ≡ latest os k (get_key split s k)
  unfolding run_tree_ops latest
  run_tree_ops-get_key [] s k i = refl
  run_tree_ops-get_key (o ∷ os) s k i =
      run_tree_ops-get_key os (run_tree_op split o s) k i
      ∙ ap (latest os k) (run_tree_op-get_key o s k i)
