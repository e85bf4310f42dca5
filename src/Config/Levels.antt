-- ===== src/Config/Levels.antt =====
-- The highest source that has a key, and what a change of one source does to it.
use go_framework.Base.{
  ℕ, zero, suc, ◌<◌, ◌≢◌, String, true, false, List, [], ◌∷◌, Option, none, some, ◌≡◌, refl, ◌∙◌,
  ap, if◌then◌else◌, leb, ◌==◌, GoMap, lookup, arith, length, ℕ_discrete, dec_lt, inl, inr,
  Option-cases,
}
use go_framework.Config.{
  ValueNode, SourceWrapper, set_cache, source_cache, below, may_replace, is_of,
}

-- `f` gives what each level has under a key; the node is the one of the highest level.
abbrev pub IsTop : Option ValueNode → (ℕ → Option String) → Type 0
IsTop none f = (i : ℕ) → f i ≡ none
IsTop (some n) f = (f n.level ≡ some n.value) × ((i : ℕ) → n.level < i → f i ≡ none)

-- The same for the levels below one.
abbrev pub IsTopBelow : ℕ → Option ValueNode → (ℕ → Option String) → Type 0
IsTopBelow l none f = (i : ℕ) → i < l → f i ≡ none
IsTopBelow l (some n) f =
    (n.level < l) × (f n.level ≡ some n.value) × ((i : ℕ) → n.level < i → i < l → f i ≡ none)

pub IsTop-same :
    (o : Option ValueNode) (f g : ℕ → Option String) → ((i : ℕ) → g i ≡ f i) → IsTop o f → IsTop o g
IsTop-same none f g e h = λ i. e i ∙ h i
IsTop-same (some n) f g e h = (e n.level ∙ h.0, λ i l. e i ∙ h.1 i l)

leb-false : (a l : ℕ) → l < a → leb a l ≡ false
leb-false a l b = ground arith

leb-true : (a l : ℕ) → ¬ (l < a) → leb a l ≡ true
leb-true a l b = ground arith

-- A level gets a value.
pub IsTop-raise :
    (l : ℕ) (v : String) (o : Option ValueNode) (f g : ℕ → Option String)
    → g l ≡ some v
    → ((i : ℕ) → i ≢ l → g i ≡ f i)
    → IsTop o f
    → IsTop (if may_replace l o then some (record { level = l; value = v }) else o) g
IsTop-raise l v none f g e s h = (e, λ i b. s i (omega arith) ∙ h i)
IsTop-raise l v (some n) f g e s h = elim (dec_lt l n.level) [
  | yes b ↦
      rw (leb-false n.level l b) (s n.level (omega arith) ∙ h.0, λ i c. s i (omega arith) ∙ h.1 i c)
  | no b ↦ rw (leb-true n.level l b) (e, λ i c. s i (omega arith) ∙ h.1 i (omega arith))
]

is_of_true : (a l : ℕ) → a ≡ l → (a == l) ≡ true
is_of_true a l e = ground arith

is_of_false : (a l : ℕ) → a ≢ l → (a == l) ≡ false
is_of_false a l e = ground arith

-- The top below a level is the top, when the level and those above it have nothing.
IsTopBelow-IsTop :
    (l : ℕ) (b : Option ValueNode) (g : ℕ → Option String)
    → g l ≡ none
    → ((i : ℕ) → l < i → g i ≡ none)
    → IsTopBelow l b g
    → IsTop b g
IsTopBelow-IsTop l none g e h t = λ i. elim (dec_lt i l) [
  | yes c ↦ t i c
  | no c ↦ elim (ℕ_discrete i l) [ yes p ↦ ap g p ∙ e | no p ↦ h i (omega arith) ]
]
IsTopBelow-IsTop l (some n) g e h t = (
  t.1,
  λ i b. elim (dec_lt i l) [
    | yes c ↦ t.2 i b c
    | no c ↦ elim (ℕ_discrete i l) [ yes p ↦ ap g p ∙ e | no p ↦ h i (omega arith) ]
  ],
)

IsTopBelow-suc :
    (l : ℕ) (b : Option ValueNode) (g : ℕ → Option String)
    → g l ≡ none
    → IsTopBelow l b g
    → IsTopBelow (suc l) b g
IsTopBelow-suc l none g e t =
    λ i b. elim (ℕ_discrete i l) [ yes p ↦ ap g p ∙ e | no p ↦ t i (omega arith) ]
IsTopBelow-suc l (some n) g e t = (
  omega (arith, t.0),
  t.1,
  λ i b c. elim (ℕ_discrete i l) [ yes p ↦ ap g p ∙ e | no p ↦ t.2 i b (omega arith) ],
)

-- A level loses its value.
pub IsTop-lower :
    (l : ℕ) (b o : Option ValueNode) (f g : ℕ → Option String)
    → g l ≡ none
    → ((i : ℕ) → i ≢ l → g i ≡ f i)
    → IsTopBelow l b g
    → IsTop o f
    → IsTop (if is_of l o then b else o) g
IsTop-lower l b none f g e s t h =
    λ i. elim (ℕ_discrete i l) [ yes p ↦ ap g p ∙ e | no p ↦ s i p ∙ h i ]
IsTop-lower l b (some n) f g e s t h = elim (ℕ_discrete n.level l) [
  | yes p ↦
      rw (is_of_true n.level l p)
        (IsTopBelow-IsTop l b g e (λ i c. s i (omega arith) ∙ h.1 i (omega arith)) t)
  | no p ↦ rw (is_of_false n.level l p) (
    s n.level p ∙ h.0,
    λ i c. elim (ℕ_discrete i l) [ yes q ↦ ap g q ∙ e | no q ↦ s i q ∙ h.1 i c ],
  )
]

pub below-IsTopBelow :
    (l : ℕ) (k : String) (ss : List SourceWrapper)
    → IsTopBelow l (below l k ss) (λ i. lookup k (source_cache i ss))
unfolding below
below-IsTopBelow zero k ss = λ i b. absurd (omega arith)
below-IsTopBelow (suc l) k ss = elim (Option-cases (lookup k (source_cache l ss))) [
  | inl e ↦ rw (e, below) (IsTopBelow-suc l (below l k ss) _ e (below-IsTopBelow l k ss))
  | inr (v, e) ↦ rw (e, below) (omega arith, e, λ i b c. absurd (omega arith))
]

pub source_cache-set_cache :
    (l : ℕ) (m : GoMap String) (ss : List SourceWrapper)
    → l < length ss
    → source_cache l (set_cache l m ss) ≡ m
unfolding set_cache
source_cache-set_cache l m [] b = absurd (omega arith)
source_cache-set_cache zero m (s ∷ ss) b = refl
source_cache-set_cache (suc l) m (s ∷ ss) b = source_cache-set_cache l m ss (omega arith)

pub source_cache-set_cache_ne :
    (l i : ℕ) (m : GoMap String) (ss : List SourceWrapper)
    → i ≢ l
    → source_cache i (set_cache l m ss) ≡ source_cache i ss
unfolding set_cache
source_cache-set_cache_ne l i m [] n = refl
source_cache-set_cache_ne zero zero m (s ∷ ss) n = absurd (n refl)
source_cache-set_cache_ne zero (suc i) m (s ∷ ss) n = refl
source_cache-set_cache_ne (suc l) zero m (s ∷ ss) n = refl
source_cache-set_cache_ne (suc l) (suc i) m (s ∷ ss) n =
    source_cache-set_cache_ne l i m ss (λ e. n (ap suc e))

pub set_cache-set_cache :
    (l : ℕ) (m n : GoMap String) (ss : List SourceWrapper)
    → set_cache l m (set_cache l n ss) ≡ set_cache l m ss
unfolding set_cache
set_cache-set_cache l m n [] = refl
set_cache-set_cache zero m n (s ∷ ss) = refl
set_cache-set_cache (suc l) m n (s ∷ ss) = ap (λ r. s ∷ r) (set_cache-set_cache l m n ss)

pub set_cache-source_cache :
    (l : ℕ) (ss : List SourceWrapper) → set_cache l (source_cache l ss) ss ≡ ss
unfolding set_cache
set_cache-source_cache l [] = refl
set_cache-source_cache zero (s ∷ ss) = refl
set_cache-source_cache (suc l) (s ∷ ss) = ap (λ r. s ∷ r) (set_cache-source_cache l ss)

pub set_cache-length :
    (l : ℕ) (m : GoMap String) (ss : List SourceWrapper) → length (set_cache l m ss) ≡ length ss
unfolding set_cache
set_cache-length l m [] = refl
set_cache-length zero m (s ∷ ss) = refl
set_cache-length (suc l) m (s ∷ ss) = ap suc (set_cache-length l m ss)

pub below-set_cache :
    (l n : ℕ) (k : String) (m : GoMap String) (ss : List SourceWrapper)
    → (n < suc l)
    → below n k (set_cache l m ss) ≡ below n k ss
unfolding below
below-set_cache l zero k m ss b = refl
below-set_cache l (suc n) k m ss b =
    let e = source_cache-set_cache_ne l n m ss (omega arith) in
    let h = below-set_cache l n k m ss (omega arith) in
    elim (Option-cases (lookup k (source_cache n ss))) [
      | inl f ↦ let g = ap (lookup k) e ∙ f in rw (g, f, below) h
      | inr (v, f) ↦ let g = ap (lookup k) e ∙ f in rw (g, f, below) refl
    ]
