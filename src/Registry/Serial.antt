-- ===== src/Registry/Serial.antt =====
-- What a client holds that follows the registry, where one call is made after the other.
use mathlib.Core.Path.{subst}
use mathlib.Core.List.{append_assoc, append-nil}
use go_framework.Base.{
  ℕ, zero, suc, String, false, List, [], ◌∷◌, ◌++◌, Option, none, some, ◌≡◌, refl, sym, ap, ◌∙◌,
  arith, inl, inr, get_elem?, Option-cases,
}
use go_framework.Registry.{Event}
use go_framework.Registry.Memory.{Entries, service_instances, has_instance}
use go_framework.Registry.Memory.Contents.{has_instance-instance_of}
use go_framework.Registry.Watcher.{Update, add, to_updates}
use go_framework.Registry.Watcher.Follow.{all_passed_on, follow, follow-append, follow-add, present}
use go_framework.Registry.Watcher.Tracks.{
  Call, call, NamesOnce, call-follow, all_passed_on-append, has_addr-service_instances,
}
use go_framework.Registry.Concurrent.{
  Client, absent, has_read, watches, Shared, Action, begins, notifies, returns, reads, starts_watch,
  put_thread, drop_thread, pass, notify_next, end_thread, read_first, watch_first, act, acts,
  at_rest,
}

module _ {M : Type 0} (target : String) where
  -- The client is not between its read and its watch.
  abbrev pub IsSettled : Client M → Type 0
  IsSettled (has_read us) = ⊥
  IsSettled _ = Unit

  -- A call begins, or a client reads, only when no call is under way, and no call begins between the
  -- client's read and its watch. No call names a service twice.
  abbrev pub IsAlone : Action M → Shared M → Type 0
  IsAlone (begins c) m = (m.threads ≡ []) × IsSettled m.client × NamesOnce c
  IsAlone reads m = m.threads ≡ []
  IsAlone _ m = Unit

  abbrev pub AreAloneFrom : List (Action M) → Option (Shared M) → Type 0
  AreAloneFrom xs none = Unit
  AreAloneFrom [] (some m) = Unit
  AreAloneFrom (x ∷ xs) (some m) = IsAlone x m × AreAloneFrom xs (act target x m)

  -- The notifications that are still to be made.
  abbrev left_of : List (List (Event M)) → List (Event M)
  left_of [] = []
  left_of (t ∷ ts) = t ++ left_of ts

  abbrev HasAtMostOne : List (List (Event M)) → Type 0
  HasAtMostOne [] = Unit
  HasAtMostOne (t ∷ ts) = ts ≡ []

  -- What the client holds, once the notifications that are left have been made, is what is present.
  abbrev Holds : String → Entries M → List (Event M) → Client M → Type 0
  Holds a s es absent = Unit
  Holds a s es (has_read us) = (follow a us false ≡ present s target a) × (es ≡ [])
  Holds a s es (watches us ps) =
      follow a (all_passed_on target es) (follow a (us ++ all_passed_on target ps) false)
      ≡ present s target a

  abbrev Tracks : String → Shared M → Type 0
  Tracks a m = HasAtMostOne m.threads × Holds a m.entries (left_of m.threads) m.client

  abbrev OnTracks : String → Option (Shared M) → Type 0
  OnTracks a none = Unit
  OnTracks a (some m) = Tracks a m

  pass-Holds :
      (a : String) (s : Entries M) (e : Event M) (es : List (Event M)) (c : Client M)
      → Holds a s (e ∷ es) c
      → Holds a s es (pass e c)
  unfolding pass
  pass-Holds a s e es absent h = tt
  pass-Holds a s e es (has_read us) h = absurd (ground (arith, h.1))
  pass-Holds a s e es (watches us ps) h =
      ap (λ vs. follow a (all_passed_on target es) (follow a (us ++ vs) false))
        (all_passed_on-append target ps (e ∷ []))
      ∙ ap (λ vs. follow a (all_passed_on target es) (follow a vs false))
          (sym (append_assoc us (all_passed_on target ps) (all_passed_on target (e ∷ []))))
      ∙ ap (follow a (all_passed_on target es))
          (follow-append a (us ++ all_passed_on target ps) (all_passed_on target (e ∷ [])) false)
      ∙ sym (
          follow-append a (all_passed_on target (e ∷ [])) (all_passed_on target es)
            (follow a (us ++ all_passed_on target ps) false))
      ∙ ap (λ vs. follow a vs (follow a (us ++ all_passed_on target ps) false))
          (sym (all_passed_on-append target (e ∷ []) es))
      ∙ h

  begins-Holds :
      (a : String) (s : Entries M) (x : Call M) (c : Client M)
      → NamesOnce x
      → IsSettled c
      → Holds a s [] c
      → Holds a (call s x).0 (call s x).1 c
  begins-Holds a s x absent n i h = tt
  begins-Holds a s x (has_read us) n i h = absurd i
  begins-Holds a s x (watches us ps) n i h =
      ap (follow a (all_passed_on target (call s x).1)) h ∙ call-follow s x target a n

  reads-Holds :
      (a : String) (s : Entries M)
      → follow a (to_updates add (service_instances s target)) false ≡ present s target a
  reads-Holds a s =
      follow-add a (service_instances s target) false ∙ has_addr-service_instances s target a

  notify_next-Tracks :
      (a : String) (n : ℕ) (s : Entries M) (ts : List (List (Event M))) (c : Client M)
      → Tracks a (record { entries = s; threads = ts; client = c })
      → OnTracks a
          (notify_next n (get_elem? ts n) (record { entries = s; threads = ts; client = c }))
  unfolding notify_next put_thread
  notify_next-Tracks a n s [] c h = tt
  notify_next-Tracks a zero s ([] ∷ ts) c h = tt
  notify_next-Tracks a zero s ((e ∷ es) ∷ ts) c h = (h.0, pass-Holds a s e (es ++ left_of ts) c h.1)
  notify_next-Tracks a (suc n) s (t ∷ []) c h = tt
  notify_next-Tracks a (suc n) s (t ∷ u ∷ ts) c h = absurd (ground (arith, h.0))

  end_thread-Tracks :
      (a : String) (n : ℕ) (s : Entries M) (ts : List (List (Event M))) (c : Client M)
      → Tracks a (record { entries = s; threads = ts; client = c })
      → OnTracks a
          (end_thread n (get_elem? ts n) (record { entries = s; threads = ts; client = c }))
  unfolding end_thread drop_thread
  end_thread-Tracks a n s [] c h = tt
  end_thread-Tracks a zero s ([] ∷ []) c h = (tt, h.1)
  end_thread-Tracks a zero s ([] ∷ u ∷ ts) c h = absurd (ground (arith, h.0))
  end_thread-Tracks a zero s ((e ∷ es) ∷ ts) c h = tt
  end_thread-Tracks a (suc n) s (t ∷ []) c h = tt
  end_thread-Tracks a (suc n) s (t ∷ u ∷ ts) c h = absurd (ground (arith, h.0))

  read_first-Tracks :
      (a : String) (s : Entries M) (c : Client M)
      → OnTracks a (read_first target c (record { entries = s; threads = []; client = c }))
  unfolding read_first
  read_first-Tracks a s absent = (tt, (reads-Holds a s, refl))
  read_first-Tracks a s (has_read us) = tt
  read_first-Tracks a s (watches us ps) = tt

  watch_first-Tracks :
      (a : String) (s : Entries M) (ts : List (List (Event M))) (c : Client M)
      → Tracks a (record { entries = s; threads = ts; client = c })
      → OnTracks a (watch_first c (record { entries = s; threads = ts; client = c }))
  unfolding watch_first
  watch_first-Tracks a s ts absent h = tt
  watch_first-Tracks a s ts (has_read us) h = (
    h.0,
    ap (λ es. follow a (all_passed_on target es) (follow a (us ++ []) false)) h.1.1
        ∙ ap (λ vs. follow a vs false) (append-nil us)
        ∙ h.1.0,
  )
  watch_first-Tracks a s ts (watches us ps) h = tt

  act-Tracks :
      (a : String) (x : Action M) (m : Shared M)
      → IsAlone x m
      → Tracks a m
      → OnTracks a (act target x m)
  unfolding act
  act-Tracks a (begins c) m (e, i, n) h =
      let (s, es) = call m.entries c in
      let k : Holds a m.entries [] m.client =
        subst (λ ts. Holds a m.entries (left_of ts) m.client) e h.1 in
      subst (λ ts. Tracks a (record m { entries = s; threads = ts ++ es ∷ [] })) (sym e)
        (
          refl,
          subst (λ l. Holds a s l m.client) (sym (append-nil es))
              (begins-Holds a m.entries c m.client n i k),
        )
  act-Tracks a (notifies n) m i h = notify_next-Tracks a n m.entries m.threads m.client h
  act-Tracks a (returns n) m i h = end_thread-Tracks a n m.entries m.threads m.client h
  act-Tracks a reads m e h =
      subst
        (λ ts. OnTracks a (
          read_first target m.client
            (record { entries = m.entries; threads = ts; client = m.client })))
        (sym e) (read_first-Tracks a m.entries m.client)
  act-Tracks a starts_watch m i h = watch_first-Tracks a m.entries m.threads m.client h

  acts-Tracks :
      (a : String) (xs : List (Action M)) (m : Shared M)
      → AreAloneFrom xs (some m)
      → Tracks a m
      → OnTracks a (acts target xs m)
  unfolding acts
  acts-Tracks a [] m i h = h
  acts-Tracks a (x ∷ xs) m i h = elim (Option-cases (act target x m)) [
    | inl e ↦ rw (e, acts) tt
    | inr (n, e) ↦
        rw (e, acts)
          (acts-Tracks a xs n (subst (AreAloneFrom xs) e i.1)
            (subst (OnTracks a) e (act-Tracks a x m i.0 h)))
  ]

  -- Where one call of the registry returns before the next begins, none begins between a client's read
  -- and its watch, and no call names a service twice: when no call is under way, the client that has
  -- applied its first updates and those of all notifications it was given holds exactly the addresses
  -- for which HasInstance is true.
  pub acts-has_instance :
      (a : String) (xs : List (Action M)) (s : Entries M) (m : Shared M) (us : List (Update M))
      (ps : List (Event M))
      → AreAloneFrom xs (some (at_rest s))
      → acts target xs (at_rest s) ≡ some m
      → m.threads ≡ []
      → m.client ≡ watches us ps
      → follow a (us ++ all_passed_on target ps) false ≡ has_instance m.entries target a
  acts-has_instance a xs s m us ps i e t c =
      let h : Tracks a m = subst (OnTracks a) e (acts-Tracks a xs (at_rest s) i (tt, tt)) in
      let k : Holds a m.entries (left_of m.threads) (watches us ps) =
        subst (Holds a m.entries (left_of m.threads)) c h.1 in
      subst (λ ts. Holds a m.entries (left_of ts) (watches us ps)) t k
      ∙ sym (has_instance-instance_of m.entries target a)
