-- ===== src/Http.antt =====
-- http/matcher.go: the tree of path patterns. A text is the list of its bytes. The mutex makes each
-- operation one step; a segment is a node of the tree, with its children in a list.
pub mod Template
pub mod Components
pub mod Stored
pub mod Added
pub mod Sound
pub mod Headers
mod Tests
use go_framework.Base.{
  ℕ, Bytes, same_bytes, Bool, true, false, not, List, [], ◌∷◌, ◌++◌, Option, none, some,
  if◌then◌else◌, is_empty, is_some,
}

mutual
  pub data Segment (M : Type 0) : Type 0 where
    node : List M → Children M → Segment M

  pub data Children (M : Type 0) : Type 0 where
    end : Children M
    child : Bytes → Segment M → Children M → Children M

-- "*" and "**"
abbrev pub star : Bytes
star = 42 ∷ []

abbrev pub two_stars : Bytes
two_stars = 42 ∷ 42 ∷ []

module _ {M : Type 0} where
  abbrev pub new_path_segment : Segment M
  new_path_segment = node [] end

  -- The child with the name, made if there is none, is changed.
  unfoldable pub update_child :
      Bytes → (Segment M → Segment M × Bool) → Children M → Children M × Bool
  update_child p f end = let (s, added) = f new_path_segment in (child p s end, added)
  update_child p f (child q s cs) =
      let (s', added) = f s in
      let (cs', later) = update_child p f cs in
      if same_bytes q p then (child q s' cs, added) else (child q s cs', later)

  -- The loop of `AddPattern`; false is its error at an empty component, which leaves the segments that
  -- were made before it.
  unfoldable pub add_components : List Bytes → M → Segment M → Segment M × Bool
  add_components [] meta (node metas cs) = (node (metas ++ meta ∷ []) cs, true)
  add_components (p ∷ ps) meta (node metas cs) =
      if is_empty p
      then (node metas cs, false)
      else let (cs', added) = update_child p (add_components ps meta) cs in (node metas cs', added)

  -- The metas of a segment; an empty list is nil.
  abbrev pub own : List M → Option (List M)
  own [] = none
  own (m ∷ ms) = some (m ∷ ms)

  abbrev pub first_found : Option (List M) → Option (List M) → Option (List M)
  first_found none o = o
  first_found (some ms) o = some ms

  unfoldable pub has_child : Bytes → Children M → Bool
  has_child key end = false
  has_child key (child q s cs) = if same_bytes q key then true else has_child key cs

  abbrev pub no_children : Children M → Bool
  no_children end = true
  no_children (child q s cs) = false

  -- The loop below "**", from the first component on: `match` is `matchInternal` on its segment.
  unfoldable pub skip_loop :
      (List Bytes → Option (List M)) → Children M → List Bytes → Option (List M)
  skip_loop match cs [] = none
  skip_loop match cs (c ∷ comps) =
      let later = skip_loop match cs comps in
      if has_child c cs
      then first_found (match (c ∷ comps)) later
      else if has_child star cs
      then first_found (match comps) later
      else later

  -- `matchInternal`: the component itself, then "*", then "**".
  unfoldable mutual
    unfolding skip_loop

    pub match_internal : Segment M → List Bytes → Option (List M)
    match_internal (node metas cs) [] = own metas
    match_internal (node metas cs) (c ∷ comps) =
        if is_empty c
        then none
        else first_found (match_child cs c comps)
            (first_found (match_child cs star comps) (match_two_stars cs (c ∷ comps)))

    pub match_child : Children M → Bytes → List Bytes → Option (List M)
    match_child end key comps = none
    match_child (child q s cs) key comps =
        if same_bytes q key then match_internal s comps else match_child cs key comps

    pub match_two_stars : Children M → List Bytes → Option (List M)
    match_two_stars end comps = none
    match_two_stars (child q (node metas ks) cs) comps =
        if same_bytes q two_stars
        then first_found
            (if no_children ks then none else skip_loop (match_internal (node metas ks)) ks comps)
            (own metas)
        else match_two_stars cs comps
