-- ===== src/Balancer/Addresses.antt =====
-- The addresses under the updates of a watcher.
use go_framework.Base.{Bool, true, false, List, [], ◌∷◌, ◌++◌, ite, ◌≡◌, refl, ap, ◌∙◌, arith, ◌||◌}
use go_framework.Registry.Watcher.{Op, add, delete, Update}
use go_framework.Balancer.{
  Address, AddressInfo, exists_in, remove_first, address_of, apply_op, apply_updates,
}

module _ {M : Type 0} (eq : Discrete (Address M)) where
  -- No address stands twice.
  abbrev pub AreDistinct : List (AddressInfo M) → Type 0
  AreDistinct [] = Unit
  AreDistinct (v ∷ vs) = (exists_in eq v.address vs ≡ false) × AreDistinct vs

  exists_in-append :
      (a : Address M) (vs ws : List (AddressInfo M))
      → exists_in eq a (vs ++ ws) ≡ exists_in eq a vs || exists_in eq a ws
  exists_in-append a [] ws = refl
  exists_in-append a (v ∷ vs) ws = ground (arith, exists_in-append a vs ws)

  -- Removing takes the address out, and no other one.
  exists_in-remove_first :
      (a b : Address M) (vs : List (AddressInfo M))
      → AreDistinct vs
      → exists_in eq b (remove_first eq a vs) ≡ ite (eq a b) false (exists_in eq b vs)
  unfolding remove_first
  exists_in-remove_first a b [] d = ground arith
  exists_in-remove_first a b (v ∷ vs) d = ground (arith, exists_in-remove_first a b vs d.1)

  remove_first-AreDistinct :
      (a : Address M) (vs : List (AddressInfo M))
      → AreDistinct vs
      → AreDistinct (remove_first eq a vs)
  unfolding remove_first
  remove_first-AreDistinct a [] d = tt
  remove_first-AreDistinct a (v ∷ vs) d =
      ground (arith, remove_first-AreDistinct a vs d.1, exists_in-remove_first a v.address vs d.1)

  append-AreDistinct :
      (vs : List (AddressInfo M)) (w : AddressInfo M)
      → AreDistinct vs
      → exists_in eq w.address vs ≡ false
      → AreDistinct (vs ++ w ∷ [])
  append-AreDistinct [] w d e = (refl, tt)
  append-AreDistinct (v ∷ vs) w d e =
      ground (arith, append-AreDistinct vs w d.1, exists_in-append v.address vs (w ∷ []))

  apply_op-AreDistinct :
      (op : Op) (a : Address M) (vs : List (AddressInfo M))
      → AreDistinct vs
      → AreDistinct (apply_op eq op a vs)
  unfolding apply_op
  apply_op-AreDistinct add a vs d =
      ground (arith, append-AreDistinct vs (record { address = a; connected = false }))
  apply_op-AreDistinct delete a vs d = remove_first-AreDistinct a vs d

  -- Whatever updates come, no address stands twice.
  pub apply_updates-AreDistinct :
      (us : List (Update M)) (vs : List (AddressInfo M))
      → AreDistinct vs
      → AreDistinct (apply_updates eq us vs)
  unfolding apply_updates
  apply_updates-AreDistinct [] vs d = d
  apply_updates-AreDistinct (u ∷ us) vs d =
      apply_updates-AreDistinct us _ (apply_op-AreDistinct u.op (address_of eq u) vs d)

  -- The last update for an address decides, and the others leave it.
  abbrev pub held_after : Address M → List (Update M) → Bool → Bool
  held_after a [] held = held
  held_after a (u ∷ us) held =
      held_after a us
        (ite (eq (address_of eq u) a) (elim u.op [ add ↦ true | delete ↦ false ]) held)

  apply_op-exists_in :
      (op : Op) (a b : Address M) (vs : List (AddressInfo M))
      → AreDistinct vs
      → exists_in eq b (apply_op eq op a vs)
        ≡ ite (eq a b) (elim op [ add ↦ true | delete ↦ false ]) (exists_in eq b vs)
  unfolding apply_op
  apply_op-exists_in add a b vs d =
      ground (arith, exists_in-append b vs (record { address = a; connected = false } ∷ []))
  apply_op-exists_in delete a b vs d = exists_in-remove_first a b vs d

  -- After the updates the balancer holds an address exactly when the last update that names it, with
  -- its metadata, adds it, or none names it and it was held before.
  pub apply_updates-exists_in :
      (us : List (Update M)) (b : Address M) (vs : List (AddressInfo M))
      → AreDistinct vs
      → exists_in eq b (apply_updates eq us vs) ≡ held_after b us (exists_in eq b vs)
  unfolding apply_updates
  apply_updates-exists_in [] b vs d = refl
  apply_updates-exists_in (u ∷ us) b vs d =
      apply_updates-exists_in us b _ (apply_op-AreDistinct u.op (address_of eq u) vs d)
      ∙ ap (held_after b us) (apply_op-exists_in u.op (address_of eq u) b vs d)
