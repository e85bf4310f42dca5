-- ===== src/Discovery/Rules.antt =====
-- httpRuleMap and the HTTP picks of registry/discovery.go: servers that have registered the same rule
-- share one entry, and the patterns of the rules stand in a tree of paths.
use go_framework.Base.{
  ℕ, ◌-◌, String, Bytes, same_bytes, GoMap, lookup, insert, Bool, true, List, [], ◌∷◌, ◌++◌, Option,
  none, some, if◌then◌else◌, is_empty, ltb, ◌==◌, ◌&&◌, not, take, drop, length, get_elem?,
}
use go_framework.Http.{Segment, new_path_segment}
use go_framework.Http.Components.{add_pattern}
use go_framework.Http.Template.{template_convert, registry_with_path}
use go_framework.Http.Headers.{Rule, Meta, rule_key, match_with_meta, estimate_header, matched}
use go_framework.Registry.{Instance, Entry}
use go_framework.Discovery.{
  AddressInfo, RegistryRule, RegistryMeta, Library, PickResult, picked, no_registry_entry,
  pick_failed, registry_type_http, registry_type_http_endpoint, unmarshal_registry_meta,
  has_registry_prefix,
}

-- A regular expression is its text. There is no picker before the first address.
pub record HttpRule (P : Type 0) : Type 0 where
  pub patterns : List Bytes
  pub header_map : List Rule
  pub header_regex_map : List Rule
  pub addrs : List AddressInfo
  pub picker : Option P

-- md5.Sum with its result as a text, sort.Strings, the sort of pairs by their keys,
-- utils.CreateHeaderRegexMap, strings.ToLower, and sort.SliceStable.
pub record Texts (P : Type 0) : Type 0 where
  pub md5_sum : Bytes → String
  pub sort_strings : List Bytes → List Bytes
  pub sort_pairs : Rule → Rule
  pub create_header_regex_map : Rule → Option Rule
  pub lower : Bytes → Bytes
  pub sort_slice_stable :
      (Meta (HttpRule P) → Meta (HttpRule P) → Bool)
      → List (Meta (HttpRule P))
      → List (Meta (HttpRule P))

-- strings.Join with a comma.
unfoldable pub join : List Bytes → Bytes
join [] = []
join (x ∷ []) = x
join (x ∷ y ∷ ys) = x ++ (44 ∷ join (y ∷ ys))

-- ".http.endpoint"
abbrev pub endpoint_suffix : Bytes
endpoint_suffix =
    46 ∷ 104 ∷ 116 ∷ 116 ∷ 112 ∷ 46 ∷ 101 ∷ 110 ∷ 100 ∷ 112 ∷ 111 ∷ 105 ∷ 110 ∷ 116 ∷ []

unfoldable pub trim_suffix : Bytes → Bytes → Bytes
trim_suffix text suffix =
    let n = length text - length suffix in
    if same_bytes (drop n text) suffix then take n text else text

-- The pattern of all methods and all paths of a service.
unfoldable pub service_rule : Bytes → RegistryRule
service_rule name = record {
  http_patterns = registry_with_path ((42 ∷ []) ∷ []) (47 ∷ name ++ (47 ∷ 42 ∷ []));
  header_map = [];
  header_regex_map = [];
}

module _ {P : Type 0} where
  unfoldable pub priority : HttpRule P → ℕ
  priority rule = if is_empty rule.header_map && is_empty rule.header_regex_map then 0 else 1

  unfoldable pub add_addr : (List AddressInfo → P) → AddressInfo → HttpRule P → HttpRule P
  add_addr build addr rule =
      let all = rule.addrs ++ addr ∷ [] in record rule { addrs = all; picker = some (build all) }

  abbrev pub found_or : HttpRule P → Option (HttpRule P) → HttpRule P
  found_or rule none = rule
  found_or rule (some r) = r

  -- A rule as the tree of paths reads it, through its methods.
  abbrev pub as_meta : HttpRule P → Meta (HttpRule P)
  as_meta rule = record {
    value = rule;
    header_rules = some (rule.header_map, rule.header_regex_map);
    priority = some (priority rule);
  }

module _ {P : Type 0} (texts : Texts P) where
  unfoldable pub create_all : List Rule → Option (List Rule)
  create_all [] = some []
  create_all (r ∷ rs) = elim (texts.create_header_regex_map r) [
    | none ↦ none
    | some m ↦ elim (create_all rs) [ none ↦ none | some ms ↦ some (m ∷ ms) ]
  ]

  unfoldable pub generate_key : RegistryRule → Option (String × HttpRule P)
  generate_key registry_rule =
      let sorted = texts.sort_strings registry_rule.http_patterns in
      elim (create_all registry_rule.header_regex_map) [
        | none ↦ none
        | some regexes ↦
            let key =
              texts.md5_sum (
                join sorted
                ++ (124 ∷ rule_key texts.sort_pairs registry_rule.header_map regexes)) in
            some (
              key,
              record {
                patterns = sorted;
                header_map = registry_rule.header_map;
                header_regex_map = regexes;
                addrs = [];
                picker = none;
              },
            )
      ]

  module _ (build : List AddressInfo → P) where
    -- None is an error, which leaves the rules as they are.
    unfoldable pub add_http_rule :
        Option RegistryRule → AddressInfo → GoMap (HttpRule P) → Option (GoMap (HttpRule P))
    add_http_rule none addr rules = none
    add_http_rule (some registry_rule) addr rules = elim (generate_key registry_rule) [
      | none ↦ none
      | some (key, rule) ↦
          some (insert key (add_addr build addr (found_or rule (lookup key rules))) rules)
    ]

    -- An error is logged, and the loop goes on.
    unfoldable pub add_http_rules :
        List (Option RegistryRule) → AddressInfo → GoMap (HttpRule P) → GoMap (HttpRule P)
    add_http_rules [] addr rules = rules
    add_http_rules (r ∷ rs) addr rules = elim (add_http_rule r addr rules) [
      | none ↦ add_http_rules rs addr rules
      | some rules' ↦ add_http_rules rs addr rules'
    ]

  -- The patterns of a rule, with the error of each pattern logged.
  unfoldable pub add_patterns :
      List Bytes → HttpRule P → Segment (Meta (HttpRule P)) → Segment (Meta (HttpRule P))
  add_patterns [] rule s = s
  add_patterns (p ∷ ps) rule s =
      add_patterns ps rule (add_pattern texts.lower template_convert [] p (as_meta rule) s).0

  unfoldable pub add_rules :
      GoMap (HttpRule P) → Segment (Meta (HttpRule P)) → Segment (Meta (HttpRule P))
  add_rules [] s = s
  add_rules ((key, rule) ∷ rules) s = add_rules rules (add_patterns rule.patterns rule s)

module _ {M P : Type 0} (lib : Library M P) where
  -- The rules that an instance registers: the four conditions exclude each other.
  unfoldable pub rules_of : String → RegistryMeta → List (Option RegistryRule)
  rules_of service_name meta =
      let name = lib.bytes_of service_name in
      let old = ltb meta.version 2 in
      let prefixed = has_registry_prefix lib service_name in
      (if (if old && prefixed
          then true
          else (meta.version == 2) && (meta.kind == registry_type_http))
        then some
            (record { http_patterns = meta.http_patterns; header_map = []; header_regex_map = [] })
          ∷ []
        else [])
      ++ (if old && not prefixed then some (service_rule name) ∷ [] else [])
      ++ (if (meta.version == 3) && (meta.kind == registry_type_http) then meta.http_rules else [])
      ++ (if (meta.version == 3) && (meta.kind == registry_type_http_endpoint)
          then some (service_rule (trim_suffix name endpoint_suffix)) ∷ []
          else [])

  module _ (texts : Texts P) where
    unfoldable pub add_instances :
        String → List (Instance M) → GoMap (HttpRule P) → GoMap (HttpRule P)
    add_instances service_name [] rules = rules
    add_instances service_name (i ∷ is) rules =
        add_instances service_name is (elim (unmarshal_registry_meta lib i.meta) [
          | none ↦ rules
          | some meta ↦
              add_http_rules texts lib.build (rules_of service_name meta)
                (record { addr = i.addr; tls = meta.tls_server }) rules
        ])

    unfoldable pub add_all_entries : List (Entry M) → GoMap (HttpRule P) → GoMap (HttpRule P)
    add_all_entries [] rules = rules
    add_all_entries (e ∷ es) rules =
        add_all_entries es (add_instances e.service_name e.instances rules)

    -- The new tree; without the entries of the registry the tree stays.
    unfoldable pub update_http_matcher :
        Option (List (Entry M)) → Segment (Meta (HttpRule P)) → Segment (Meta (HttpRule P))
    update_http_matcher none old = old
    update_http_matcher (some entries) old =
        add_rules texts (add_all_entries entries []) new_path_segment

    -- `HttpPickWithInfo`; `matches_string` and `matches_regex` test the headers of the request, and
    -- `intn` is rand.Intn.
    unfoldable pub http_pick_with_info :
        (Rule → Bool)
        → (Rule → Bool)
        → (ℕ → ℕ)
        → Segment (Meta (HttpRule P))
        → Bytes
        → Bytes
        → PickResult
    http_pick_with_info matches_string matches_regex intn s method path =
        elim (match_with_meta texts.lower texts.sort_slice_stable texts.sort_pairs
          (estimate_header matches_string matches_regex) s method path) [
            | matched metas ↦ elim (get_elem? metas (intn (length metas))) [
              | none ↦ pick_failed
              | some meta ↦ elim meta.value.picker [
                | none ↦ pick_failed
                | some p ↦ elim (lib.pick p) [ none ↦ pick_failed | some a ↦ picked a ]
              ]
            ]
            | _ ↦ no_registry_entry
          ]
