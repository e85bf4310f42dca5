-- ===== src/Config/Passed.antt =====
-- FilterUpdate and FilterDelete of config/internal/filter.go: which notices a view passes on, under
-- which keys. `find` is Get of the filter, `decrypt` its decryption, `starts` is strings.HasPrefix and
-- `trim_prefix` is strings.TrimPrefix, each with the text first.
use go_framework.Base.{
  String, Bool, true, List, [], ◌∷◌, ◌++◌, Option, none, some, ◌≡◌, sym, ap, ◌∙◌, arith,
  if◌then◌else◌, GoMap, lookup, insert, In, inl, inr, ◌⊎◌, Option-cases, Bool-cases, text_discrete,
  lookup-insert_self, lookup-insert_ne, In-append-cases,
}
use go_framework.Config.{Notice, same_text}
use go_framework.Config.Filter.{Filter, get_prefix}

module _ {K : Type 0} (starts : String → String → Bool)
    (trim_prefix : String → String → String) where
  -- The key without the prefix of the last namespace that it starts with.
  unfoldable pub stripped : Filter K → List String → String → Option String
  stripped f [] k = none
  stripped f (n ∷ ns) k = elim (stripped f ns k) [
    | some j ↦ some j
    | none ↦ if starts k (get_prefix f n) then some (trim_prefix k (get_prefix f n)) else none
  ]

-- A stripped key with a new value: it is passed on if that is what `Get` gives, or nothing is.
unfoldable pub pass_update :
    (String → Option String) → String → String → GoMap String → GoMap String
pass_update find j v r = elim (find j) [
  | none ↦ insert j v r
  | some w ↦ if same_text w v then insert j v r else r
]

-- A stripped key that was deleted: it may have a value in another namespace.
unfoldable pub pass_delete : (String → Option String) → String → Notice → Notice
pass_delete find j r = elim (find j) [
  | none ↦ record r { deleted = r.deleted ++ j ∷ [] }
  | some w ↦ record r { updated = insert j w r.updated }
]

module _ {K : Type 0} (starts : String → String → Bool) (trim_prefix : String → String → String)
    (find : String → Option String) (decrypt : String → String) (f : Filter K) where
  unfoldable pub filter_updates : GoMap String → GoMap String → GoMap String
  filter_updates [] r = r
  filter_updates ((k, v) ∷ vals) r =
      filter_updates vals (elim (stripped starts trim_prefix f f.ns k) [
        | none ↦ r
        | some j ↦ pass_update find j (decrypt v) r
      ])

  unfoldable pub filter_update : GoMap String → GoMap String
  unfolding filter_updates
  filter_update vals = filter_updates vals []

  unfoldable pub filter_deletes : List String → Notice → Notice
  filter_deletes [] r = r
  filter_deletes (k ∷ ks) r =
      filter_deletes ks
        (elim (stripped starts trim_prefix f f.ns k) [ none ↦ r | some j ↦ pass_delete find j r ])

  unfoldable pub filter_delete : List String → Notice
  unfolding filter_deletes
  filter_delete ks = filter_deletes ks (record { updated = []; deleted = [] })

-- A notice that tells what `Get` gives.
abbrev pub IsTrue : (String → Option String) → Notice → Type 0
IsTrue find n =
    ((k v : String) → lookup k n.updated ≡ some v → find k ≡ some v)
    × ((k : String) → In k n.deleted → find k ≡ none)

pass_delete-IsTrue :
    (find : String → Option String) (j : String) (n : Notice)
    → IsTrue find n
    → IsTrue find (pass_delete find j n)
unfolding pass_delete
pass_delete-IsTrue find j n h = elim (Option-cases (find j)) [
  | inl e ↦
      rw (e, pass_delete)
        (
          h.0,
          λ k i. elim (In-append-cases k n.deleted (j ∷ []) i) [
            | inl m ↦ h.1 k m
            | inr m ↦ elim m [ inl p ↦ ap find (sym p) ∙ e | inr q ↦ absurd q ]
          ],
        )
  | inr (w, e) ↦
      rw (e, pass_delete)
        (
          λ k v p. elim (text_discrete j k) [
            | yes q ↦
                ap find (sym q)
                ∙ e
                ∙ sym (lookup-insert_self j w n.updated)
                ∙ ap (λ x. lookup x (insert j w n.updated)) q
                ∙ p
            | no m ↦ h.0 k v (sym (lookup-insert_ne j k w n.updated m) ∙ p)
          ],
          h.1,
        )
]

module _ {K : Type 0} (starts : String → String → Bool) (trim_prefix : String → String → String)
    (find : String → Option String) (f : Filter K) where
  filter_deletes-IsTrue :
      (decrypt : String → String) (ks : List String) (n : Notice)
      → IsTrue find n
      → IsTrue find (filter_deletes starts trim_prefix find decrypt f ks n)
  unfolding filter_deletes
  filter_deletes-IsTrue decrypt [] n h = h
  filter_deletes-IsTrue decrypt (k ∷ ks) n h =
      elim (Option-cases (stripped starts trim_prefix f f.ns k)) [
        | inl e ↦ rw (e, filter_deletes) (filter_deletes-IsTrue decrypt ks n h)
        | inr (j, e) ↦
            rw (e, filter_deletes)
              (filter_deletes-IsTrue decrypt ks (pass_delete find j n)
                (pass_delete-IsTrue find j n h))
      ]

  -- What a view tells its watchers after deletions agrees with `Get`: a key that it says has been
  -- updated to a value has that value.
  pub filter_delete-updated :
      (decrypt : String → String) (ks : List String) (k v : String)
      → lookup k (filter_delete starts trim_prefix find decrypt f ks).updated ≡ some v
      → find k ≡ some v
  unfolding filter_delete lookup
  filter_delete-updated decrypt ks k v e =
      (filter_deletes-IsTrue decrypt ks (record { updated = []; deleted = [] })
          (λ _ _ p. absurd (ground arith), λ _ i. absurd i)).0
        k v e

  -- A key that a view says has been deleted is one that `Get` does not find.
  pub filter_delete-deleted :
      (decrypt : String → String) (ks : List String) (k : String)
      → In k (filter_delete starts trim_prefix find decrypt f ks).deleted
      → find k ≡ none
  unfolding filter_delete lookup
  filter_delete-deleted decrypt ks k i =
      (filter_deletes-IsTrue decrypt ks (record { updated = []; deleted = [] })
          (λ _ _ p. absurd (ground arith), λ _ i. absurd i)).1
        k i

  -- The values are those that `Get` gives, where it gives one.
  abbrev pub AreCurrent : GoMap String → Type 0
  AreCurrent r = (k v : String) → lookup k r ≡ some v → (find k ≡ none) ⊎ (find k ≡ some v)

  inserted :
      (j v : String) (r : GoMap String)
      → (find j ≡ none) ⊎ (find j ≡ some v)
      → AreCurrent r
      → AreCurrent (insert j v r)
  inserted j v r h a k w e = elim (text_discrete j k) [
    | yes q ↦
        let p : some v ≡ some w =
          sym (lookup-insert_self j v r) ∙ ap (λ x. lookup x (insert j v r)) q ∙ e in
        elim h [ inl n ↦ inl (ap find (sym q) ∙ n) | inr s ↦ inr (ap find (sym q) ∙ s ∙ p) ]
    | no m ↦ a k w (sym (lookup-insert_ne j k v r m) ∙ e)
  ]

  same_text_eq : (w v : String) → same_text w v ≡ true → w ≡ v
  same_text_eq w v e = elim (text_discrete w v) [ yes p ↦ p | no n ↦ absurd (ground arith) ]

  pass_update-AreCurrent :
      (j v : String) (r : GoMap String) → AreCurrent r → AreCurrent (pass_update find j v r)
  unfolding pass_update
  pass_update-AreCurrent j v r h = elim (Option-cases (find j)) [
    | inl e ↦ rw (e, pass_update) (inserted j v r (inl e) h)
    | inr (w, e) ↦ elim (Bool-cases (same_text w v)) [
      | inl s ↦ rw (e, s, pass_update) (inserted j v r (inr (e ∙ ap some (same_text_eq w v s))) h)
      | inr s ↦ rw (e, s, pass_update) h
    ]
  ]

  filter_updates-AreCurrent :
      (decrypt : String → String) (vals r : GoMap String)
      → AreCurrent r
      → AreCurrent (filter_updates starts trim_prefix find decrypt f vals r)
  unfolding filter_updates
  filter_updates-AreCurrent decrypt [] r h = h
  filter_updates-AreCurrent decrypt ((k, v) ∷ vals) r h =
      elim (Option-cases (stripped starts trim_prefix f f.ns k)) [
        | inl e ↦ rw (e, filter_updates) (filter_updates-AreCurrent decrypt vals r h)
        | inr (j, e) ↦
            rw (e, filter_updates)
              (filter_updates-AreCurrent decrypt vals _ (pass_update-AreCurrent j (decrypt v) r h))
      ]

  -- A value that a view passes on as an update is the one that `Get` gives for the key, unless `Get`
  -- gives none: an update that a higher source or another namespace hides is not passed on.
  pub filter_update-AreCurrent :
      (decrypt : String → String) (vals : GoMap String) (k v : String)
      → lookup k (filter_update starts trim_prefix find decrypt f vals) ≡ some v
      → (find k ≡ none) ⊎ (find k ≡ some v)
  unfolding filter_update lookup
  filter_update-AreCurrent decrypt vals k v e =
      filter_updates-AreCurrent decrypt vals [] (λ _ _ p. absurd (ground arith)) k v e
