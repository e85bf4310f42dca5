-- ===== src/Uri.antt =====
-- uri/uri.go: the parsers of URIs by their keys, ParseUri, which hands the fields of a URI to a parser
-- one after the other, and SimpleUriParser, which writes them as entries of a configuration.
-- `url.ParseRequestURI` and `strings.ToLower` are parameters; the fields of a parsed URL are a record.
-- The handler of a field is a function. Error texts are left out: `none` is an error.
pub mod Entries
mod Tests
use Prim.Native.Char.{code}
use Prim.Native.String.{◌++◌}
use go_framework.Base.{
  ℕ, Bool, true, false, ◌||◌, ◌==◌, List, [], ◌∷◌, Option, none, some, if◌then◌else◌, String, GoMap,
  lookup, insert, ite, text_discrete,
}

pub data UriFieldType : Type 0 where
  uri_scheme : UriFieldType
  uri_username : UriFieldType
  uri_password : UriFieldType
  uri_host : UriFieldType
  uri_hostname : UriFieldType
  uri_port : UriFieldType
  uri_path : UriFieldType
  uri_query : UriFieldType

pub record UriField : Type 0 where
  pub typ : UriFieldType
  pub v : String
  pub q : GoMap (List String)

-- What ParseUri reads of a `url.URL`.
pub record Url : Type 0 where
  pub scheme : String
  pub user : Option (String × Option String)
  pub host : String
  pub hostname : String
  pub port : String
  pub path : String
  pub query : GoMap (List String)

abbrev pub Fields : Type 0
Fields = GoMap String

pub record UriParser : Type 0 where
  pub key : String
  pub parse_field : UriField → Fields → Option Fields

-- `RegisterUri`, and whether it is refused.
unfoldable pub register_uri : UriParser → GoMap UriParser → GoMap UriParser × Bool
register_uri p m = elim (lookup p.key m) [ none ↦ (insert p.key p m, false) | some old ↦ (m, true) ]

unfoldable pub is_uri_registered : String → GoMap UriParser → Bool
is_uri_registered k m = elim (lookup k m) [ none ↦ false | some p ↦ true ]

unfoldable pub has_colon : String → Bool
has_colon String.[] = false
has_colon (String.◌∷◌ c s) = code c == 58 || has_colon s

unfoldable pub with_colon : String → String
unfolding has_colon
with_colon v = if has_colon v then v else v ++ ":"

infixl 5 ◌>>=◌
abbrev pub ◌>>=◌ : Option Fields → (Fields → Option Fields) → Option Fields
none >>= f = none
some r >>= f = f r

module _ (p : UriParser) where
  unfoldable pub give : UriFieldType → String → Fields → Option Fields
  give typ val r = p.parse_field (record { typ = typ; v = val; q = [] }) r

  -- A field that is given only where it is not empty.
  unfoldable pub give_filled : UriFieldType → String → Fields → Option Fields
  unfolding give
  give_filled typ val r = ite (text_discrete val "") (some r) (give typ val r)

  unfoldable pub give_password : Option String → Fields → Option Fields
  unfolding give
  give_password none r = some r
  give_password (some w) r = give uri_password w r

  unfoldable pub give_user : Option (String × Option String) → Fields → Option Fields
  unfolding give give_password
  give_user none r = some r
  give_user (some (name, password)) r = give uri_username name r >>= give_password password

  unfoldable pub give_query : GoMap (List String) → Fields → Option Fields
  give_query [] r = some r
  give_query (e ∷ es) r = p.parse_field (record { typ = uri_query; v = ""; q = e ∷ es }) r

  -- The fields of a URI, in the order of the source.
  unfoldable pub parse_fields : Url → Option Fields
  unfolding give give_filled give_user give_query
  parse_fields u =
      give uri_scheme u.scheme []
      >>= give_user u.user
      >>= give_filled uri_host u.host
      >>= give_filled uri_hostname u.hostname
      >>= give_filled uri_port u.port
      >>= give_filled uri_path u.path
      >>= give_query u.query

-- The result on a parsed URL.
unfoldable pub parse_url : Option UriParser → Option Url → Option Fields
unfolding parse_fields
parse_url none u = none
parse_url (some p) none = none
parse_url (some p) (some u) = parse_fields p u

unfoldable pub parse_uri : (String → Option Url) → String → String → GoMap UriParser → Option Fields
unfolding with_colon parse_url
parse_uri parse_request_uri k v m = parse_url (lookup k m) (parse_request_uri (with_colon v))

-- `fieldInfo`: the name of the entry and the handler of the value.
pub record FieldInfo : Type 0 where
  pub name : String
  pub value_handler : String → String

pub record SimpleUriParser : Type 0 where
  pub key : String
  pub selector : String
  pub schemes : GoMap Bool
  pub mapping : GoMap (List (UriFieldType × FieldInfo))
  pub queries : GoMap (GoMap Bool)

unfoldable pub new_simple_uri_parser : String → String → SimpleUriParser
new_simple_uri_parser key selector = record {
  key = key;
  selector = selector;
  schemes = [];
  mapping = [];
  queries = [];
}

unfoldable pub with_scheme : String → SimpleUriParser → SimpleUriParser
with_scheme scheme s = record s { schemes = insert scheme true s.schemes }

unfoldable pub same_type : UriFieldType → UriFieldType → Bool
same_type uri_scheme uri_scheme = true
same_type uri_username uri_username = true
same_type uri_password uri_password = true
same_type uri_host uri_host = true
same_type uri_hostname uri_hostname = true
same_type uri_port uri_port = true
same_type uri_path uri_path = true
same_type uri_query uri_query = true
same_type _ _ = false

unfoldable pub info_of : UriFieldType → List (UriFieldType × FieldInfo) → Option FieldInfo
unfolding same_type
info_of t [] = none
info_of t ((u, f) ∷ fs) = if same_type u t then some f else info_of t fs

unfoldable pub or_empty : {A : Type 0} → Option (List A) → List A
or_empty none = []
or_empty (some l) = l

-- `FilePathHandler`.
unfoldable pub file_path_handler : String → String
file_path_handler String.[] = ""
file_path_handler (String.◌∷◌ c s) = if code c == 47 then s else String.◌∷◌ c s

unfoldable pub default_handler : UriFieldType → Option (String → String) → String → String
unfolding file_path_handler
default_handler typ (some h) = h
default_handler uri_path none = file_path_handler
default_handler typ none = λ v. v

-- `WithField` of a scheme; the latest entry for a type comes first.
unfoldable pub with_field :
    String → UriFieldType → String → Option (String → String) → SimpleUriParser → SimpleUriParser
unfolding default_handler or_empty
with_field scheme typ to handler s =
    let info : FieldInfo = record { name = to; value_handler = default_handler typ handler } in
    record s {
      mapping = insert scheme ((typ, info) ∷ or_empty (lookup scheme s.mapping)) s.mapping;
    }

-- `WithQuery` of a scheme.
unfoldable pub with_query : String → String → SimpleUriParser → SimpleUriParser
unfolding or_empty
with_query scheme name s = record s {
  queries = insert scheme (insert name true (or_empty (lookup scheme s.queries))) s.queries;
}

unfoldable pub or_blank : Option String → String
or_blank none = ""
or_blank (some s) = s

-- `strings.Join` with commas.
unfoldable pub join_commas : List String → String
join_commas [] = ""
join_commas (s ∷ []) = s
join_commas (s ∷ t ∷ ts) = s ++ "," ++ join_commas (t ∷ ts)

module _ (to_lower : String → String) (s : SimpleUriParser) where
  unfoldable pub selector_key : String
  selector_key = s.key ++ "." ++ s.selector

  unfoldable pub entry_key : String → String → String
  entry_key scheme name = s.key ++ "." ++ scheme ++ "." ++ name

  -- The loop over the query.
  unfoldable pub add_queries : String → GoMap (List String) → Fields → Fields
  unfolding entry_key join_commas
  add_queries scheme [] r = r
  add_queries scheme ((k, vs) ∷ q) r =
      add_queries scheme q (insert (entry_key scheme (to_lower k)) (join_commas vs) r)

  unfoldable pub add_scheme : Option Bool → String → Fields → Option Fields
  unfolding selector_key
  add_scheme none v r = none
  add_scheme (some b) v r = some (insert selector_key v r)

  unfoldable pub add_mapped : Option FieldInfo → String → String → Fields → Fields
  unfolding entry_key
  add_mapped none scheme v r = r
  add_mapped (some f) scheme v r = insert (entry_key scheme f.name) (f.value_handler v) r

  unfoldable pub scheme_of : Fields → String
  unfolding selector_key or_blank
  scheme_of r = or_blank (lookup selector_key r)

  unfoldable pub add_field : UriFieldType → UriField → Fields → Option Fields
  unfolding add_scheme add_queries add_mapped scheme_of or_empty info_of
  add_field uri_scheme f r = add_scheme (lookup f.v s.schemes) f.v r
  add_field uri_query f r = some (add_queries (scheme_of r) f.q r)
  add_field t f r =
      some (add_mapped (info_of t (or_empty (lookup (scheme_of r) s.mapping))) (scheme_of r) f.v r)

  -- The parser with `SimpleUriParser.ParseField`.
  unfoldable pub simple_parser : UriParser
  unfolding add_field
  simple_parser = record { key = s.key; parse_field = λ f r. add_field f.typ f r }
