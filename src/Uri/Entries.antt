-- ===== src/Uri/Entries.antt =====
-- When ParseUri fails for a simple parser, and which entries it writes.
use Prim.Native.String.{◌++◌}
use go_framework.Base.{
  Bool, List, [], ◌∷◌, Option, none, some, ◌≡◌, refl, String, GoMap, lookup, insert, keys, All, ite,
  text_discrete,
}
use go_framework.Uri.{
  UriFieldType, uri_scheme, uri_username, uri_password, uri_host, uri_hostname, uri_port, uri_path,
  uri_query, Url, Fields, UriParser, with_colon, ◌>>=◌, give, give_filled, give_password, give_user,
  give_query, parse_fields, parse_url, parse_uri, FieldInfo, SimpleUriParser, selector_key,
  entry_key, add_queries, add_scheme, add_mapped, add_field, simple_parser, join_commas, scheme_of,
}

-- An entry of the parser of a key.
abbrev pub IsUnder : String → String → Type 0
IsUnder key k = (rest : String) × (k ≡ key ++ "." ++ rest)

All-insert :
    (P : String → Type 0) (k v : String) (m : Fields)
    → P k
    → All P (keys m)
    → All P (keys (insert k v m))
unfolding insert
All-insert P k v [] h t = (h, tt)
All-insert P k v ((j, w) ∷ m) h t = decided (text_discrete j k) (All-insert P k v m h t.1)
  where
    decided :
        (d : Dec (j ≡ k))
        → All P (keys (insert k v m))
        → All P (keys (ite d ((k, v) ∷ m) ((j, w) ∷ insert k v m)))
    decided (yes e) r = (h, t.1)
    decided (no n) r = (t.0, r)

-- A result with entries of one parser only.
abbrev pub Writes : String → Option Fields → Type 0
Writes key none = ⊥
Writes key (some r) = All (IsUnder key) (keys r)

Writes-bind :
    (key : String) (o : Option Fields) (f : Fields → Option Fields)
    → Writes key o
    → ((r : Fields) → All (IsUnder key) (keys r) → Writes key (f r))
    → Writes key (o >>= f)
Writes-bind key none f h k = absurd h
Writes-bind key (some r) f h k = k r h

module _ (to_lower : String → String) (s : SimpleUriParser) where
  abbrev parser : UriParser
  parser = simple_parser to_lower s

  add_queries-Writes :
      (scheme : String) (q : GoMap (List String)) (r : Fields)
      → All (IsUnder s.key) (keys r)
      → Writes s.key (some (add_queries to_lower s scheme q r))
  unfolding add_queries entry_key
  add_queries-Writes scheme [] r h = h
  add_queries-Writes scheme ((k, vs) ∷ q) r h =
      add_queries-Writes scheme q _
        (All-insert (IsUnder s.key) _ (join_commas vs) r (scheme ++ "." ++ to_lower k, refl) h)

  add_mapped-Writes :
      (o : Option FieldInfo) (scheme v : String) (r : Fields)
      → All (IsUnder s.key) (keys r)
      → Writes s.key (some (add_mapped to_lower s o scheme v r))
  unfolding add_mapped entry_key
  add_mapped-Writes none scheme v r h = h
  add_mapped-Writes (some f) scheme v r h =
      All-insert (IsUnder s.key) _ (f.value_handler v) r (scheme ++ "." ++ f.name, refl) h

  -- The types whose fields are mapped to entries.
  abbrev IsMapped : UriFieldType → Type 0
  IsMapped uri_scheme = ⊥
  IsMapped uri_query = ⊥
  IsMapped t = Unit {0}

  module _ (r : Fields) (h : All (IsUnder s.key) (keys r)) where
    give-Writes : (t : UriFieldType) (v : String) → IsMapped t → Writes s.key (give parser t v r)
    unfolding give simple_parser add_field
    give-Writes uri_scheme v i = absurd i
    give-Writes uri_username v i = add_mapped-Writes _ _ v r h
    give-Writes uri_password v i = add_mapped-Writes _ _ v r h
    give-Writes uri_host v i = add_mapped-Writes _ _ v r h
    give-Writes uri_hostname v i = add_mapped-Writes _ _ v r h
    give-Writes uri_port v i = add_mapped-Writes _ _ v r h
    give-Writes uri_path v i = add_mapped-Writes _ _ v r h
    give-Writes uri_query v i = absurd i

    give_filled-Writes :
        (t : UriFieldType) (v : String) → IsMapped t → Writes s.key (give_filled parser t v r)
    unfolding give_filled
    give_filled-Writes t v i = decided (text_discrete v "")
      where
        decided : (d : Dec (v ≡ "")) → Writes s.key (ite d (some r) (give parser t v r))
        decided (yes e) = h
        decided (no n) = give-Writes t v i

    give_password-Writes : (w : Option String) → Writes s.key (give_password parser w r)
    unfolding give_password
    give_password-Writes none = h
    give_password-Writes (some w) = give-Writes uri_password w tt

    give_query-Writes : (q : GoMap (List String)) → Writes s.key (give_query parser q r)
    unfolding give_query simple_parser add_field
    give_query-Writes [] = h
    give_query-Writes (e ∷ es) = add_queries-Writes (scheme_of to_lower s r) (e ∷ es) r h

  give_user-Writes :
      (u : Option (String × Option String)) (r : Fields)
      → All (IsUnder s.key) (keys r)
      → Writes s.key (give_user parser u r)
  unfolding give_user
  give_user-Writes none r h = h
  give_user-Writes (some (name, w)) r h =
      Writes-bind s.key (give parser uri_username name r) (give_password parser w)
        (give-Writes r h uri_username name tt) (λ q k. give_password-Writes q k w)

  -- Whether the scheme was registered, and then every entry is of the parser.
  abbrev pub WritesIf : Option Bool → Option Fields → Type 0
  WritesIf none o = o ≡ none
  WritesIf (some b) o = Writes s.key o

  scheme_missing :
      (u : Url) → lookup u.scheme s.schemes ≡ none → give parser uri_scheme u.scheme [] ≡ none
  unfolding give simple_parser add_field
  scheme_missing u e = rw (e, add_scheme) refl

  scheme_known :
      (u : Url) (b : Bool)
      → lookup u.scheme s.schemes ≡ some b
      → give parser uri_scheme u.scheme [] ≡ some ((selector_key to_lower s, u.scheme) ∷ [])
  unfolding give simple_parser add_field insert
  scheme_known u b e = rw (e, add_scheme) refl

  parse_fields-WritesIf :
      (u : Url) (o : Option Bool)
      → lookup u.scheme s.schemes ≡ o
      → WritesIf o (parse_fields parser u)
  unfolding parse_fields selector_key
  parse_fields-WritesIf u none e = rw (scheme_missing u e) refl
  parse_fields-WritesIf u (some b) e = rw (scheme_known u b e) (
      Writes-bind s.key _ (give_query parser u.query)
        (Writes-bind s.key _ (give_filled parser uri_path u.path)
          (Writes-bind s.key _ (give_filled parser uri_port u.port)
            (Writes-bind s.key _ (give_filled parser uri_hostname u.hostname)
              (Writes-bind s.key _ (give_filled parser uri_host u.host)
                (give_user-Writes u.user _ ((s.selector, refl), tt))
                (λ r h. give_filled-Writes r h uri_host u.host tt))
              (λ r h. give_filled-Writes r h uri_hostname u.hostname tt))
            (λ r h. give_filled-Writes r h uri_port u.port tt))
          (λ r h. give_filled-Writes r h uri_path u.path tt))
        (λ r h. give_query-Writes r h u.query))

  -- ParseUri with the key of a simple parser, on a text that is a URL: it fails if the URL's scheme is
  -- not registered, and otherwise it succeeds, and each entry that it gives stands under the parser's
  -- key.
  pub parse_uri-WritesIf :
      (parse_request_uri : String → Option Url) (k v : String) (m : GoMap UriParser) (u : Url)
      → lookup k m ≡ some (simple_parser to_lower s)
      → parse_request_uri (with_colon v) ≡ some u
      → WritesIf (lookup u.scheme s.schemes) (parse_uri parse_request_uri k v m)
  unfolding parse_uri parse_url
  parse_uri-WritesIf parse_request_uri k v m u h e =
      rw (h, e) (parse_fields-WritesIf u (lookup u.scheme s.schemes) refl)
