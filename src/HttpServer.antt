-- ===== src/HttpServer.antt =====
-- server/internal/http_server/cors.go: which origins the handler of CORS allows, with the wildcards of
-- the settings. Texts are bytes; `strings.ToLower` is a parameter. The handler of the third-party
-- library is left out.
pub mod Origins
pub mod Permitted
mod Tests
use go_framework.Base.{
  ℕ, zero, suc, ◌+◌, ◌-◌, Bool, true, false, ◌&&◌, ◌||◌, ◌==◌, List, [], ◌∷◌, ◌++◌, Option, none,
  some, if◌then◌else◌, Bytes, same_bytes, length, leb, drop,
}

pub record Wildcard : Type 0 where
  pub wild_prefix : Bytes
  pub wild_suffix : Bytes

-- `strings.HasPrefix` and `strings.HasSuffix`.
unfoldable pub starts_with : Bytes → Bytes → Bool
starts_with s [] = true
starts_with [] (b ∷ p) = false
starts_with (a ∷ s) (b ∷ p) = (a == b) && starts_with s p

unfoldable pub ends_with : Bytes → Bytes → Bool
ends_with s p = leb (length p) (length s) && same_bytes (drop (length s - length p) s) p

unfoldable pub matches : Wildcard → Bytes → Bool
unfolding starts_with ends_with
matches w s =
    leb (length w.wild_prefix + length w.wild_suffix) (length s)
    && (starts_with s w.wild_prefix && ends_with s w.wild_suffix)

-- The part before the first star and the part after it.
unfoldable pub add_before : ℕ → Option (Bytes × Bytes) → Option (Bytes × Bytes)
add_before b none = none
add_before b (some (p, s)) = some (b ∷ p, s)

unfoldable pub split_star : Bytes → Option (Bytes × Bytes)
unfolding add_before
split_star [] = none
split_star (b ∷ bs) = if b == 42 then some ([], bs) else add_before b (split_star bs)

pub record CorsHandler : Type 0 where
  pub allowed_origins : List Bytes
  pub allowed_w_origins : List Wildcard
  pub allowed_origins_all : Bool

-- An origin without a star, or with one.
unfoldable pub add_origin : Bytes → Option (Bytes × Bytes) → CorsHandler → CorsHandler
add_origin o none h = record h { allowed_origins = h.allowed_origins ++ o ∷ [] }
add_origin o (some (p, s)) h = record h {
  allowed_w_origins = h.allowed_w_origins ++ record { wild_prefix = p; wild_suffix = s } ∷ [];
}

abbrev pub allows_all : CorsHandler
allows_all = record { allowed_origins = []; allowed_w_origins = []; allowed_origins_all = true }

abbrev pub allows_none : CorsHandler
allows_none = record { allowed_origins = []; allowed_w_origins = []; allowed_origins_all = false }

-- The loop over the origins, whose lower case is given; a single star ends it.
unfoldable pub add_origins : List Bytes → CorsHandler → CorsHandler
unfolding add_origin split_star
add_origins [] h = h
add_origins (o ∷ os) h =
    if same_bytes o (42 ∷ []) then allows_all else add_origins os (add_origin o (split_star o) h)

unfoldable pub lower_origins : (Bytes → Bytes) → List Bytes → List Bytes
lower_origins to_lower [] = []
lower_origins to_lower (o ∷ os) = to_lower o ∷ lower_origins to_lower os

unfoldable pub new_cors_handler : (Bytes → Bytes) → List Bytes → CorsHandler
unfolding add_origins lower_origins
new_cors_handler to_lower [] = allows_all
new_cors_handler to_lower (o ∷ os) = add_origins (lower_origins to_lower (o ∷ os)) allows_none

unfoldable pub has_origin : Bytes → List Bytes → Bool
has_origin s [] = false
has_origin s (o ∷ os) = same_bytes o s || has_origin s os

unfoldable pub has_match : Bytes → List Wildcard → Bool
unfolding matches
has_match s [] = false
has_match s (w ∷ ws) = matches w s || has_match s ws

-- `isOriginAllowed`, of an origin in lower case.
unfoldable pub allows : CorsHandler → Bytes → Bool
unfolding has_origin has_match
allows h s =
    h.allowed_origins_all || (has_origin s h.allowed_origins || has_match s h.allowed_w_origins)

unfoldable pub is_origin_allowed : (Bytes → Bytes) → CorsHandler → Bytes → Bool
unfolding allows
is_origin_allowed to_lower h s = allows h (to_lower s)
