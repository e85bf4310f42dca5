-- ===== src/Registry/Concurrent.antt =====
-- The registry's calls as their threads make them: the part of a call under the mutex is one step, and
-- each notification after it is another. A client reads the instances and then watches, in two steps,
-- as firstNext does. Any other step may come between two steps of a thread.
use go_framework.Base.{ℕ, zero, suc, String, List, [], ◌∷◌, ◌++◌, Option, none, some, get_elem?}
use go_framework.Registry.{Event}
use go_framework.Registry.Memory.{Entries, service_instances}
use go_framework.Registry.Watcher.{Update, add, to_updates}
use go_framework.Registry.Watcher.Tracks.{Call, call}

pub data Client (M : Type 0) : Type 0 where
  absent : Client M
  has_read : List (Update M) → Client M
  watches : List (Update M) → List (Event M) → Client M

-- `threads` are the notifications that the calls under way have left; `passed` those that the client's
-- watcher was given.
pub record Shared (M : Type 0) : Type 0 where
  pub entries : Entries M
  pub threads : List (List (Event M))
  pub client : Client M

pub data Action (M : Type 0) : Type 0 where
  begins : Call M → Action M
  notifies : ℕ → Action M
  returns : ℕ → Action M
  reads : Action M
  starts_watch : Action M

module _ {M : Type 0} where
  unfoldable pub put_thread : ℕ → List (Event M) → List (List (Event M)) → List (List (Event M))
  put_thread n es [] = []
  put_thread zero es (t ∷ ts) = es ∷ ts
  put_thread (suc n) es (t ∷ ts) = t ∷ put_thread n es ts

  unfoldable pub drop_thread : ℕ → List (List (Event M)) → List (List (Event M))
  drop_thread n [] = []
  drop_thread zero (t ∷ ts) = ts
  drop_thread (suc n) (t ∷ ts) = t ∷ drop_thread n ts

  -- A notification reaches the client from the moment on that it watches.
  unfoldable pub pass : Event M → Client M → Client M
  pass e absent = absent
  pass e (has_read us) = has_read us
  pass e (watches us es) = watches us (es ++ e ∷ [])

  unfoldable pub notify_next : ℕ → Option (List (Event M)) → Shared M → Option (Shared M)
  unfolding put_thread pass
  notify_next n none m = none
  notify_next n (some []) m = none
  notify_next n (some (e ∷ es)) m =
      some (record m { threads = put_thread n es m.threads; client = pass e m.client })

  unfoldable pub end_thread : ℕ → Option (List (Event M)) → Shared M → Option (Shared M)
  unfolding drop_thread
  end_thread n (some []) m = some (record m { threads = drop_thread n m.threads })
  end_thread n _ m = none

  unfoldable pub read_first : String → Client M → Shared M → Option (Shared M)
  read_first target absent m =
      some (record m { client = has_read (to_updates add (service_instances m.entries target)) })
  read_first target _ m = none

  unfoldable pub watch_first : Client M → Shared M → Option (Shared M)
  watch_first (has_read us) m = some (record m { client = watches us [] })
  watch_first _ m = none

  unfoldable pub act : String → Action M → Shared M → Option (Shared M)
  unfolding notify_next end_thread read_first watch_first
  act target (begins c) m =
      let (s, es) = call m.entries c in
      some (record m { entries = s; threads = m.threads ++ es ∷ [] })
  act target (notifies n) m = notify_next n (get_elem? m.threads n) m
  act target (returns n) m = end_thread n (get_elem? m.threads n) m
  act target reads m = read_first target m.client m
  act target starts_watch m = watch_first m.client m

  unfoldable pub acts : String → List (Action M) → Shared M → Option (Shared M)
  unfolding act
  acts target [] m = some m
  acts target (x ∷ xs) m = elim (act target x m) [ none ↦ none | some n ↦ acts target xs n ]

  -- No call is under way, and no client is there.
  abbrev pub at_rest : Entries M → Shared M
  at_rest s = record { entries = s; threads = []; client = absent }
