-- ===== src/Http/Stored.antt =====
-- What is stored under each pattern of the tree.
use go_framework.Base.{
  Bytes, same_bytes, same_bytes_eq, same_bytes_refl, Bool, true, false, not, List, [], ◌∷◌, ◌++◌,
  if◌then◌else◌, is_empty, ◌&&◌, ◌≡◌, refl, sym, arith,
}
use go_framework.Http.{
  Segment, node, Children, end, child, new_path_segment, update_child, add_components,
}

unfoldable pub same_path : List Bytes → List Bytes → Bool
same_path [] [] = true
same_path (p ∷ ps) (q ∷ qs) = same_bytes p q && same_path ps qs
same_path _ _ = false

-- No component is empty.
unfoldable pub no_empty : List Bytes → Bool
no_empty [] = true
no_empty (p ∷ ps) = not (is_empty p) && no_empty ps

module _ {M : Type 0} where
  unfoldable mutual
    -- The metas of the segment that a path of components leads to.
    pub metas_at : Segment M → List Bytes → List M
    metas_at (node metas cs) [] = metas
    metas_at (node metas cs) (p ∷ ps) = metas_in cs p ps

    pub metas_in : Children M → Bytes → List Bytes → List M
    metas_in end p ps = []
    metas_in (child q s cs) p ps = if same_bytes q p then metas_at s ps else metas_in cs p ps

  abbrev child_or_new : Bytes → Children M → Segment M
  child_or_new p end = new_path_segment
  child_or_new p (child q s cs) = if same_bytes q p then s else child_or_new p cs

pub metas_at-new : (M : Type 0) (ps : List Bytes) → metas_at {M = M} new_path_segment ps ≡ []
unfolding metas_at
metas_at-new M [] = refl
metas_at-new M (p ∷ ps) = refl

module _ {M : Type 0} where
  metas_in-child :
      (cs : Children M) (p : Bytes) (ps : List Bytes)
      → metas_in cs p ps ≡ metas_at (child_or_new p cs) ps
  unfolding metas_in
  metas_in-child end p ps = sym (metas_at-new M ps)
  metas_in-child (child q s cs) p ps = ground (arith, metas_in-child cs p ps)

  update_child-added :
      (p : Bytes) (f : Segment M → Segment M × Bool) (cs : Children M)
      → (update_child p f cs).1 ≡ (f (child_or_new p cs)).1
  unfolding update_child
  update_child-added p f end = refl
  update_child-added p f (child q s cs) = ground (arith, update_child-added p f cs)

  update_child-metas_in :
      (p : Bytes) (f : Segment M → Segment M × Bool) (cs : Children M) (r : Bytes) (rs : List Bytes)
      → metas_in (update_child p f cs).0 r rs
        ≡ (if same_bytes p r then metas_at (f (child_or_new p cs)).0 rs else metas_in cs r rs)
  unfolding update_child metas_in
  update_child-metas_in p f end r rs = refl
  update_child-metas_in p f (child q s cs) r rs = ground (
    arith,
    update_child-metas_in p f cs r rs,
    same_bytes_eq q p,
    same_bytes_eq q r,
    same_bytes_eq p r,
    same_bytes_refl q,
  )

  add_components-added :
      (ps : List Bytes) (m : M) (s : Segment M) → (add_components ps m s).1 ≡ no_empty ps
  unfolding add_components no_empty
  add_components-added [] m (node metas cs) = refl
  add_components-added (p ∷ ps) m (node metas cs) = ground (
    arith,
    update_child-added p (add_components ps m) cs,
    add_components-added ps m (child_or_new p cs),
  )

  -- A pattern is added exactly when no component of it is empty. Then its own list of metas gets the
  -- new one at its end; the list of every other pattern, or of every pattern if there was an error, is
  -- as it was.
  pub add_components-metas_at :
      (ps : List Bytes) (m : M) (s : Segment M) (qs : List Bytes)
      → ((add_components ps m s).1 ≡ no_empty ps)
        × (metas_at (add_components ps m s).0 qs
            ≡ (if no_empty ps && same_path ps qs then metas_at s qs ++ m ∷ [] else metas_at s qs))
  unfolding add_components metas_at no_empty same_path
  add_components-metas_at [] m (node metas cs) [] = (refl, refl)
  add_components-metas_at [] m (node metas cs) (q ∷ qs) = (refl, refl)
  add_components-metas_at (p ∷ ps) m (node metas cs) [] =
      (add_components-added (p ∷ ps) m (node metas cs), ground arith)
  add_components-metas_at (p ∷ ps) m (node metas cs) (q ∷ qs) =
      let ih = add_components-metas_at ps m (child_or_new p cs) qs in
      (
        add_components-added (p ∷ ps) m (node metas cs),
        ground (
          arith,
          ih.1,
          update_child-metas_in p (add_components ps m) cs q qs,
          metas_in-child cs q qs,
          same_bytes_eq p q,
        ),
      )
