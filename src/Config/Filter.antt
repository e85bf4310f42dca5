-- ===== src/Config/Filter.antt =====
-- config/internal/filter.go: a view of the configuration through namespaces. Its source is the
-- interface DataSource; lib.Decrypt and the test for an encrypted value are parameters, and what has
-- been decrypted is not remembered.
use Prim.Native.String.{◌++◌ as ◌<>◌}
use go_framework.Base.{
  ℕ, String, Bool, true, false, List, [], ◌∷◌, ◌++◌, Option, none, some, ltb, ite, GoMap, lookup,
  insert, text_discrete, if◌then◌else◌, not, ◌&&◌, is_some,
}
use go_framework.Config.{Found}

pub record Filter (K : Type 0) : Type 0 where
  pub prefix : String
  pub ns : List String
  pub password : List K
  pub prefix_map : GoMap String

abbrev pub is_text : String → String → Bool
is_text s t = ite (text_discrete s t) true false

abbrev pub has_empty_ns : List String → Bool
has_empty_ns [] = false
has_empty_ns (n ∷ ns) = if is_text n "" then true else has_empty_ns ns

-- The namespace, then the prefix, each with a dot after it.
unfoldable pub full_prefix : String → String → String
full_prefix prefix n =
    let p = if is_text prefix "" then "" else prefix <> "." in
    if is_text n "" then p else n <> "." <> p

unfoldable pub make_prefixes : String → List String → GoMap String → GoMap String
make_prefixes prefix [] m = m
make_prefixes prefix (n ∷ ns) m = make_prefixes prefix ns (insert n (full_prefix prefix n) m)

unfoldable pub new_filter : {K : Type 0} → String → List String → List K → Filter K
new_filter prefix ns password =
    let all = if has_empty_ns ns then ns else "" ∷ ns in
    record {
      prefix = prefix;
      ns = all;
      password = password;
      prefix_map = make_prefixes prefix all [];
    }

abbrev pub text_or_empty : Option String → String
text_or_empty none = ""
text_or_empty (some s) = s

unfoldable pub get_prefix : {K : Type 0} → Filter K → String → String
get_prefix f n = text_or_empty (lookup n f.prefix_map)

-- The order of levels, with -1 the lowest.
abbrev pub above : Option ℕ → Option ℕ → Bool
above none b = false
above (some a) none = true
above (some a) (some b) = ltb b a

module _ {K : Type 0} (is_encrypted : String → Bool) (try_decrypt : K → String → Option String)
    (default_key : K) where
  unfoldable pub decrypt_with : List K → String → String
  decrypt_with [] val = val
  decrypt_with (p ∷ ps) val = elim (try_decrypt p val) [ some v ↦ v | none ↦ decrypt_with ps val ]

  unfoldable pub decrypt : Filter K → String → String
  decrypt f val =
      if is_encrypted val then decrypt_with (f.password ++ default_key ∷ []) val else val

module _ {K : Type 0} (source_get : String → String → Bool → Found) where
  -- The loop from the last namespace to the first.
  unfoldable pub best : Filter K → String → List String → Found
  best f k [] = ("", none)
  best f k (n ∷ ns) =
      let r = best f k ns in
      let x = source_get k (get_prefix f n) false in if above x.1 r.1 then x else r

module _ {K : Type 0} (source_get : String → String → Bool → Found) (is_encrypted : String → Bool)
    (try_decrypt : K → String → Option String) (default_key : K) where
  unfoldable pub filter_get : Filter K → String → Option String
  filter_get f k =
      let rv = source_get k "" true in
      let v = best source_get f k f.ns in
      if not (is_some rv.1) && not (is_some v.1)
      then none
      else if above rv.1 v.1
      then some (decrypt is_encrypted try_decrypt default_key f rv.0)
      else some (decrypt is_encrypted try_decrypt default_key f v.0)
