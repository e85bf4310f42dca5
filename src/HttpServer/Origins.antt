-- ===== src/HttpServer/Origins.antt =====
-- The origins that are allowed are those that a setting permits.
use mathlib.Core.Path.{subst}
use mathlib.Core.List.{append-nil, append_assoc}
use go_framework.Base.{
  ℕ, zero, suc, ◌+◌, ◌-◌, ◌≤◌, Bool, true, false, ◌&&◌, ◌||◌, List, [], ◌∷◌, ◌++◌, Option, none,
  some, Bytes, same_bytes, same_bytes_refl, same_bytes_eq, length, length-append, leb, drop, take,
  take-drop, drop-append, ◌≡◌, refl, sym, ap, ◌∙◌, arith, ◌⊎◌, ◌↔◌, inl, inr, Bool-cases,
}
use go_framework.HttpServer.{
  Wildcard, starts_with, ends_with, matches, split_star, CorsHandler, add_origin, add_origins,
  has_origin, has_match, allows,
}

starts_with-take :
    (s p : Bytes) (n : ℕ)
    → starts_with s p ≡ true
    → length p ≤ n
    → (mid : Bytes) × (take n s ≡ p ++ mid)
unfolding starts_with
starts_with-take s [] n h k = (take n s, refl)
starts_with-take [] (b ∷ p) n h k = absurd (ground arith)
starts_with-take (a ∷ s) (b ∷ p) zero h k = absurd (omega arith)
starts_with-take (a ∷ s) (b ∷ p) (suc n) h k =
    let (mid, e) = starts_with-take s p n (ground arith) (omega arith) in
    let f : a ≡ b = ground arith in (mid, ap (λ x. x ∷ take n s) f ∙ ap (λ r. b ∷ r) e)

starts_with-append : (p r : Bytes) → starts_with (p ++ r) p ≡ true
unfolding starts_with
starts_with-append [] r = refl
starts_with-append (b ∷ p) r = ground (arith, starts_with-append p r)

and_parts : (a b : Bool) → (a && b) ≡ true → (a ≡ true) × (b ≡ true)
and_parts true true h = (refl, refl)
and_parts true false h = absurd (cc)
and_parts false b h = absurd (cc)

and_true : (a b : Bool) → a ≡ true → b ≡ true → (a && b) ≡ true
and_true a b h k = ground arith

-- A wildcard matches what starts and ends as it does, and not shorter.
abbrev pub IsBetween : Wildcard → Bytes → Type 0
IsBetween w s = (mid : Bytes) × (s ≡ w.wild_prefix ++ (mid ++ w.wild_suffix))

matches-IsBetween : (w : Wildcard) (s : Bytes) → matches w s ≡ true → IsBetween w s
unfolding matches ends_with
matches-IsBetween w s h =
    let (l, r) =
      and_parts (leb (length w.wild_prefix + length w.wild_suffix) (length s))
        (starts_with s w.wild_prefix && ends_with s w.wild_suffix) h in
    let (a, z) = and_parts (starts_with s w.wild_prefix) (ends_with s w.wild_suffix) r in
    let n = length s - length w.wild_suffix in
    let (k, d) =
      and_parts (leb (length w.wild_suffix) (length s)) (same_bytes (drop n s) w.wild_suffix) z in
    let (mid, e) = starts_with-take s w.wild_prefix n a (ground arith) in
    (
      mid,
      sym (take-drop n s)
          ∙ ap (λ t. t ++ drop n s) e
          ∙ ap (λ t. (w.wild_prefix ++ mid) ++ t) (same_bytes_eq (drop n s) w.wild_suffix d)
          ∙ append_assoc w.wild_prefix mid w.wild_suffix,
    )

IsBetween-matches : (w : Wildcard) (s : Bytes) → IsBetween w s → matches w s ≡ true
unfolding matches ends_with
IsBetween-matches w s (mid, e) =
    let p = w.wild_prefix in
    let q = w.wild_suffix in
    let l : length s ≡ length p + (length mid + length q) =
      ap length e ∙ length-append p (mid ++ q) ∙ ap (λ t. length p + t) (length-append mid q) in
    let n : length (p ++ mid) ≡ length s - length q = omega (arith, l, length-append p mid) in
    let d : drop (length s - length q) s ≡ q =
      ap (drop (length s - length q)) (e ∙ sym (append_assoc p mid q))
      ∙ drop-append (length s - length q) (p ++ mid) q n in
    let x : starts_with s p ≡ true =
      ap (λ t. starts_with t p) e ∙ starts_with-append p (mid ++ q) in
    let y : same_bytes (drop (length s - length q) s) q ≡ true =
      ap (λ t. same_bytes t q) d ∙ same_bytes_refl q in
    and_true (leb (length p + length q) (length s)) (starts_with s p && ends_with s q)
      (ground arith)
      (and_true (starts_with s p) (ends_with s q) x (
        and_true (leb (length q) (length s)) (same_bytes (drop (length s - length q) s) q)
          (ground arith) y))

-- What the parts of a setting permit.
abbrev pub PermitsParts : Option (Bytes × Bytes) → Bytes → Bytes → Type 0
PermitsParts none o s = o ≡ s
PermitsParts (some (p, q)) o s = IsBetween (record { wild_prefix = p; wild_suffix = q }) s

abbrev pub PermitsCut : Bytes → Bytes → Type 0
PermitsCut o s = PermitsParts (split_star o) o s

abbrev pub SomePermitsCut : List Bytes → Bytes → Type 0
SomePermitsCut [] s = ⊥
SomePermitsCut (o ∷ os) s = PermitsCut o s ⊎ SomePermitsCut os s

or_true : (a b : Bool) → (a || b) ≡ true ↔ ((a ≡ true) ⊎ (b ≡ true))
or_true true b = ((λ h. inl refl), λ h. refl)
or_true false b = ((λ h. inr h), λ h. elim h [ inl p ↦ absurd (cc) | inr q ↦ q ])

has_origin-append :
    (s o : Bytes) (os : List Bytes)
    → has_origin s (os ++ o ∷ []) ≡ (has_origin s os || same_bytes o s)
unfolding has_origin
has_origin-append s o [] = ground arith
has_origin-append s o (x ∷ os) = ground (arith, has_origin-append s o os)

has_match-append :
    (s : Bytes) (w : Wildcard) (ws : List Wildcard)
    → has_match s (ws ++ w ∷ []) ≡ (has_match s ws || matches w s)
unfolding has_match
has_match-append s w [] = ground arith
has_match-append s w (x ∷ ws) = ground (arith, has_match-append s w ws)

-- Whether the parts of a setting allow an origin.
abbrev allowed_by : Option (Bytes × Bytes) → Bytes → Bytes → Bool
allowed_by none o s = same_bytes o s
allowed_by (some (p, q)) o s = matches (record { wild_prefix = p; wild_suffix = q }) s

add_origin-allows :
    (o s : Bytes) (c : Option (Bytes × Bytes)) (h : CorsHandler)
    → allows (add_origin o c h) s ≡ (allows h s || allowed_by c o s)
unfolding add_origin allows
add_origin-allows o s none h = ground (arith, has_origin-append s o h.allowed_origins)
add_origin-allows o s (some (p, q)) h =
    ground
      (arith, has_match-append s (record { wild_prefix = p; wild_suffix = q }) h.allowed_w_origins)

allowed_by-PermitsParts :
    (c : Option (Bytes × Bytes)) (o s : Bytes) → allowed_by c o s ≡ true ↔ PermitsParts c o s
allowed_by-PermitsParts none o s =
    (same_bytes_eq o s, λ e. subst (λ t. same_bytes o t ≡ true) e (same_bytes_refl o))
allowed_by-PermitsParts (some (p, q)) o s =
    let w : Wildcard = record { wild_prefix = p; wild_suffix = q } in
    (matches-IsBetween w s, IsBetween-matches w s)

star-PermitsCut : (o s : Bytes) → same_bytes o (42 ∷ []) ≡ true → PermitsCut o s
unfolding split_star
star-PermitsCut o s h =
    subst (λ t. PermitsCut t s) (sym (same_bytes_eq o (42 ∷ []) h)) (s, sym (append-nil s))

pub add_origins-allows :
    (os : List Bytes) (h : CorsHandler) (s : Bytes)
    → allows (add_origins os h) s ≡ true ↔ ((allows h s ≡ true) ⊎ SomePermitsCut os s)
unfolding add_origins allows
add_origins-allows [] h s = ((λ e. inl e), λ e. elim e [ inl p ↦ p | inr q ↦ absurd q ])
add_origins-allows (o ∷ os) h s = elim (Bool-cases (same_bytes o (42 ∷ []))) [
  | inl e ↦ rw e ((λ h. inr (inl (star-PermitsCut o s e))), λ h. refl)
  | inr n ↦ rw n (
      let r = add_origins-allows os (add_origin o (split_star o) h) s in
      let a = add_origin-allows o s (split_star o) h in
      let t = or_true (allows h s) (allowed_by (split_star o) o s) in
      let c = allowed_by-PermitsParts (split_star o) o s in
      (
        (λ x. elim (r.0 x) [
          | inl p ↦ elim (t.0 (sym a ∙ p)) [ inl y ↦ inl y | inr z ↦ inr (inl (c.0 z)) ]
          | inr q ↦ inr (inr q)
        ]),
        λ x. elim x [
          | inl y ↦ r.1 (inl (a ∙ t.1 (inl y)))
          | inr z ↦ elim z [ inl w ↦ r.1 (inl (a ∙ t.1 (inr (c.1 w)))) | inr q ↦ r.1 (inr q) ]
        ],
      ))
]
