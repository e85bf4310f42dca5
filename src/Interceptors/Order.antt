-- ===== src/Interceptors/Order.antt =====
-- The order in which a chain runs.
use mathlib.Core.Path.{fun_ext}
use go_framework.Base.{List, [], ◌∷◌, ◌++◌, ◌≡◌, refl, sym, ap, ◌∙◌}
use go_framework.Interceptors.{Handler, Interceptor, wrap, wrap_all, reversed, chain}

module _ {A B : Type 0} where
  wrap_all-append :
      (is js : List (Interceptor A B)) (h : Handler A B)
      → wrap_all (is ++ js) h ≡ wrap_all js (wrap_all is h)
  unfolding wrap_all
  wrap_all-append [] js h = refl
  wrap_all-append (i ∷ is) js h = wrap_all-append is js (wrap i h)

  -- The reference: the first interceptor is outermost, and is given the chain of the others.
  pub nest : List (Interceptor A B) → Handler A B → Handler A B
  nest [] handler = handler
  nest (i ∷ is) handler = λ a. i a (nest is handler)

  -- The loop builds the calls in the order of the list: the first interceptor is called with the rest
  -- of the chain, and so on, and the last one with the handler itself.
  pub chain-nest :
      (is : List (Interceptor A B)) (h : Handler A B) (a : A) → chain is a h ≡ nest is h a
  unfolding chain wrap_all reversed nest
  chain-nest [] h a = refl
  chain-nest (i ∷ is) h a =
      ap (λ f. f a) (wrap_all-append (reversed is) (i ∷ []) h)
      ∙ ap (λ f. i a f) (fun_ext (λ b. chain-nest is h b))

  nest-append :
      (is js : List (Interceptor A B)) (h : Handler A B) → nest (is ++ js) h ≡ nest is (nest js h)
  unfolding nest
  nest-append [] js h = refl
  nest-append (i ∷ is) js h = ap (λ f. wrap i f) (nest-append is js h)

  rest_chain : (js : List (Interceptor A B)) (h : Handler A B) → nest js h ≡ (λ b. chain js b h)
  rest_chain js h = fun_ext (λ b. sym (chain-nest js h b))

  append_nest :
      (is js : List (Interceptor A B)) (h : Handler A B) (a : A)
      → chain (is ++ js) a h ≡ chain is a (λ b. chain js b h)
  append_nest is js h a =
      chain-nest (is ++ js) h a
      ∙ ap (λ f. f a) (nest-append is js h)
      ∙ ap (λ f. nest is f a) (rest_chain js h)
      ∙ sym (chain-nest is (λ b. chain js b h) a)

  -- A chain of two lists is the chain of the first around the chain of the second, and a chain of one
  -- chain is that chain, so that chains may be nested or written out.
  pub chain-append :
      (is js : List (Interceptor A B)) (h : Handler A B) (a : A)
      → (chain (is ++ js) a h ≡ chain is a (λ b. chain js b h))
        × (chain (chain is ∷ js) a h ≡ chain (is ++ js) a h)
  unfolding nest
  chain-append is js h a = (
    append_nest is js h a,
    chain-nest (chain is ∷ js) h a
        ∙ ap (λ f. chain is a f) (rest_chain js h)
        ∙ sym (append_nest is js h a),
  )
