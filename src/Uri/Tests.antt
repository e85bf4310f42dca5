-- ===== src/Uri/Tests.antt =====
-- The theorem on simple parsers of URIs at a concrete input, and runs.
use go_framework.Base.{
  true, [], ◌∷◌, Option, none, some, String, GoMap, ◌≡◌, refl, lookup, insert, text_discrete,
}
use go_framework.Uri.{
  Url, UriParser, uri_path, SimpleUriParser, new_simple_uri_parser, with_scheme, with_field,
  with_query, simple_parser, register_uri, parse_uri,
}
use go_framework.Uri.Entries.{WritesIf, parse_uri-WritesIf}

abbrev lower : String → String
lower s = s

-- `file:/etc/conf?watch=yes`.
abbrev file_url : Url
file_url = record {
  scheme = "file";
  user = none;
  host = "";
  hostname = "";
  port = "";
  path = "/etc/conf";
  query = ("watch", "yes" ∷ []) ∷ [];
}

abbrev parsed_as_file : String → Option Url
parsed_as_file v = some file_url

abbrev source_parser : SimpleUriParser
source_parser = with_query "file" "watch" (
    with_field "file" uri_path "path" none
      (with_scheme "file" (new_simple_uri_parser "source" "type")))

abbrev source_parsers : GoMap UriParser
source_parsers = (register_uri (simple_parser lower source_parser) []).0

source_is_file :
    parse_uri parsed_as_file "source" "file:/etc/conf?watch=yes" source_parsers
    ≡ some (
        ("source.type", "file")
        ∷ ("source.file.path", "etc/conf")
        ∷ ("source.file.watch", "yes")
        ∷ [])
unfolding parse_uri register_uri simple_parser with_query with_field with_scheme
    new_simple_uri_parser lookup insert text_discrete
source_is_file = refl

registered_parser : lookup "source" source_parsers ≡ some (simple_parser lower source_parser)
unfolding register_uri simple_parser with_query with_field with_scheme new_simple_uri_parser lookup
    insert text_discrete
registered_parser = refl

parse_uri-WritesIf_example :
    WritesIf lower source_parser
      (lookup "file" source_parser.schemes)
      (parse_uri parsed_as_file "source" "file:/etc/conf?watch=yes" source_parsers)
parse_uri-WritesIf_example =
    parse_uri-WritesIf lower source_parser parsed_as_file "source" "file:/etc/conf?watch=yes"
      source_parsers file_url registered_parser refl

registered_twice : (register_uri (simple_parser lower source_parser) source_parsers).1 ≡ true
unfolding register_uri simple_parser with_query with_field with_scheme new_simple_uri_parser lookup
    insert text_discrete
registered_twice = refl
