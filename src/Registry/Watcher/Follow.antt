-- ===== src/Registry/Watcher/Follow.antt =====
-- A client that keeps a set of addresses by the updates of its watcher, against the registry.
use go_framework.Base.{
  String, Bool, true, false, not, ◌&&◌, ◌||◌, List, [], ◌∷◌, ◌++◌, Option, none, some, is_some, ◌≡◌,
  refl, ap, ◌∙◌, arith, GoMap, lookup, text_discrete, ite, if_pos, if_neg, HasDistinctKeys,
  none_of_not-In,
}
use go_framework.Registry.{Instance, Event, on_update, on_delete}
use go_framework.Registry.Memory.{Entries, diff_events, notify_all}
use go_framework.Registry.Memory.Diff.{has_addr, instance_of}
use go_framework.Registry.Watcher.{Op, add, delete, Update, to_updates}

abbrev pub keeps : Op → Bool
keeps add = true
keeps delete = false

module _ {M : Type 0} where
  -- The updates that the watcher of a service passes on for a call of the notifier.
  abbrev pub passed_on : String → Event M → List (Update M)
  passed_on target (on_update name es) = ite (text_discrete name target) (to_updates add es) []
  passed_on target (on_delete name es) = ite (text_discrete name target) (to_updates delete es) []

  abbrev pub all_passed_on : String → List (Event M) → List (Update M)
  all_passed_on target [] = []
  all_passed_on target (e ∷ es) = passed_on target e ++ all_passed_on target es

  -- Does a client that applies the updates hold the address `a` at the end?
  abbrev pub follow : String → List (Update M) → Bool → Bool
  follow a [] held = held
  follow a (u ∷ us) held = follow a us (ite (text_discrete u.addr a) (keeps u.op) held)

  abbrev pub present : Entries M → String → String → Bool
  present s name a = is_some (instance_of s name a)

  pub follow-append :
      (a : String) (us vs : List (Update M)) (held : Bool)
      → follow a (us ++ vs) held ≡ follow a vs (follow a us held)
  follow-append a [] vs held = refl
  follow-append a (u ∷ us) vs held =
      follow-append a us vs (ite (text_discrete u.addr a) (keeps u.op) held)

  pub follow-add :
      (a : String) (es : List (Instance M)) (held : Bool)
      → follow a (to_updates add es) held ≡ (held || has_addr a es)
  follow-add a [] held = ground arith
  follow-add a (e ∷ es) held =
      ground (arith, follow-add a es (ite (text_discrete e.addr a) true held))

  follow-delete :
      (a : String) (es : List (Instance M)) (held : Bool)
      → follow a (to_updates delete es) held ≡ (held && not (has_addr a es))
  follow-delete a [] held = ground arith
  follow-delete a (e ∷ es) held =
      ground (arith, follow-delete a es (ite (text_discrete e.addr a) false held))

  -- One call, for a client that holds the address or does not.
  abbrev pub after_event : String → String → Event M → Bool → Bool
  after_event a target (on_update name es) held =
      ite (text_discrete name target) (held || has_addr a es) held
  after_event a target (on_delete name es) held =
      ite (text_discrete name target) (held && not (has_addr a es)) held

  pub follow-passed_on :
      (a target : String) (e : Event M) (held : Bool)
      → follow a (passed_on target e) held ≡ after_event a target e held
  follow-passed_on a target (on_update name es) held = ground (arith, follow-add a es held)
  follow-passed_on a target (on_delete name es) held = ground (arith, follow-delete a es held)

  pub follow-all_passed_on :
      (a target : String) (e : Event M) (es : List (Event M)) (held : Bool)
      → follow a (all_passed_on target (e ∷ es)) held
        ≡ follow a (all_passed_on target es) (after_event a target e held)
  follow-all_passed_on a target e es held =
      follow-append a (passed_on target e) (all_passed_on target es) held
      ∙ ap (follow a (all_passed_on target es)) (follow-passed_on a target e held)

  -- The calls for one service, for a client of a service.
  follow-diff_events :
      (a target name : String) (d : List (Instance M) × List (Instance M)) (rest : List (Event M))
      (held : Bool)
      → follow a (all_passed_on target (diff_events name d ++ rest)) held
        ≡ follow a (all_passed_on target rest) (
            ite (text_discrete name target) ((held || has_addr a d.0) && not (has_addr a d.1)) held)
  unfolding diff_events
  follow-diff_events a target name ([], []) rest held =
      ap (follow a (all_passed_on target rest)) (ground arith)
  follow-diff_events a target name (n ∷ news, []) rest held =
      follow-all_passed_on a target (on_update name (n ∷ news)) rest held
      ∙ ap (follow a (all_passed_on target rest)) (ground arith)
  follow-diff_events a target name ([], d ∷ dels) rest held =
      follow-all_passed_on a target (on_delete name (d ∷ dels)) rest held
      ∙ ap (follow a (all_passed_on target rest)) (ground arith)
  follow-diff_events a target name (n ∷ news, d ∷ dels) rest held =
      follow-all_passed_on a target (on_update name (n ∷ news)) (on_delete name (d ∷ dels) ∷ rest)
        held
      ∙ follow-all_passed_on a target (on_delete name (d ∷ dels)) rest
          (after_event a target (on_update name (n ∷ news)) held)
      ∙ ap (follow a (all_passed_on target rest)) (ground arith)

  abbrev pub after_diff : String → Bool → Option (List (Instance M) × List (Instance M)) → Bool
  after_diff a held none = held
  after_diff a held (some d) = (held || has_addr a d.0) && not (has_addr a d.1)

  -- Only the entry of the client's service counts.
  pub follow-notify_all :
      (a target : String) (nm : GoMap (List (Instance M) × List (Instance M))) (held : Bool)
      → HasDistinctKeys nm
      → follow a (all_passed_on target (notify_all nm)) held ≡ after_diff a held (lookup target nm)
  unfolding notify_all lookup
  follow-notify_all a target [] held h = refl
  follow-notify_all a target ((name, d) ∷ nm) held h =
      follow-diff_events a target name d (notify_all nm) held
      ∙ follow-notify_all a target nm
          (ite (text_discrete name target) (after_diff a held (some d)) held) h.1
      ∙ elim (text_discrete name target) [
        | yes p ↦ rw (if_pos _ p, if_pos _ p, none_of_not-In target nm (rw p at (h.0)))
        | no p ↦ rw (if_neg _ p, if_neg _ p)
      ]
