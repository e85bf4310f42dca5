-- ===== src/Http/Added.antt =====
-- What AddPattern adds to the tree of patterns.
use go_framework.Base.{Bytes, List, [], ◌∷◌, ◌++◌, none, some, if◌then◌else◌, ◌&&◌, ◌≡◌, refl}
use go_framework.Http.{Segment}
use go_framework.Http.Components.{empty_component, Result, ok, components, add_pattern}
use go_framework.Http.Stored.{metas_at, no_empty, same_path, add_components-metas_at}

-- Where the template of a pattern is converted and the result has components, AddPattern fails exactly
-- if one of them is empty. Then the metas of every pattern are as they were; otherwise those of the
-- components get the new one at their end, and all others are as they were.
pub add_pattern-metas_at :
    {M : Type 0} (lower : Bytes → Bytes) (template_convert : Bytes → Result Bytes)
    (method pattern converted : Bytes) (meta : M) (s : Segment M) (comps qs : List Bytes)
    → template_convert pattern ≡ ok converted
    → components lower method converted ≡ ok comps
    → let (s', e) = add_pattern lower template_convert method pattern meta s in
      (e ≡ (if no_empty comps then none else some empty_component))
      × (metas_at s' qs ≡ (
          if no_empty comps && same_path comps qs
          then metas_at s qs ++ meta ∷ []
          else metas_at s qs))
unfolding add_pattern
add_pattern-metas_at lower template_convert method pattern converted meta s comps qs h k =
    let (a, b) = add_components-metas_at comps meta s qs in
    rw (h, add_pattern) (rw (k, add_pattern) (rw a refl, b))
