-- ===== src/Discovery/HttpTests.antt =====
-- A toy registry with the service "svc" of version 1, and the theorem on HTTP picks at it.
use go_framework.Base.{
  ℕ, same_bytes, lookup, insert, text_discrete, false, List, [], ◌∷◌, Option, none, some, ◌≡◌, refl,
  inl, arith,
}
use go_framework.Http.{
  new_path_segment, add_components, update_child, match_internal, match_child, match_two_stars,
  skip_loop, has_child,
}
use go_framework.Http.Components.{components, split_from, split_verb, last_index, add_pattern}
use go_framework.Http.Template.{
  template_convert, convert, put_before, take_group, registry_with_path, trim_right,
}
use go_framework.Http.Headers.{
  match_with_meta, match_metas, accepted, estimate_header, less, rule_key, all_pairs, write_pairs,
  adjust_header_rule_count,
}
use go_framework.Encryption.{has_prefix}
use go_framework.Registry.{Entry}
use go_framework.Discovery.{
  AddressInfo, Library, unmarshal_registry_meta, has_registry_prefix, picked,
}
use go_framework.Discovery.Registered.{PicksIn}
use go_framework.Discovery.Rules.{
  Texts, join, trim_suffix, service_rule, priority, create_all, generate_key, add_addr,
  add_http_rule, add_http_rules, add_patterns, add_rules, rules_of, add_instances, add_all_entries,
  update_http_matcher, http_pick_with_info,
}
use go_framework.Discovery.ServedTree.{Sorts}
use go_framework.Discovery.HttpPicks.{HasInstance, http_pick_with_info-HasInstance}

abbrev pick_first : List AddressInfo → Option AddressInfo
pick_first [] = none
pick_first (a ∷ rest) = some a

abbrev toy : Library ℕ (List AddressInfo)
toy = record {
  decode = λ m.
      some
        (record { tls_server = false; http_patterns = []; version = m; kind = 1; http_rules = [] });
  bytes_of = λ s. 115 ∷ 118 ∷ 99 ∷ [];
  build = λ addrs. addrs;
  pick = pick_first;
}

abbrev texts : Texts (List AddressInfo)
texts = record {
  md5_sum = λ b. "key";
  sort_strings = λ ps. ps;
  sort_pairs = λ ps. ps;
  create_header_regex_map = λ r. some r;
  lower = λ b. b;
  sort_slice_stable = λ lt ms. ms;
}

toy-PicksIn : PicksIn toy
toy-PicksIn [] a e = absurd (ground arith)
toy-PicksIn (b ∷ bs) a e = inl (ground arith)

texts-Sorts : Sorts texts
texts-Sorts lt ms m i = i

abbrev entries : List (Entry ℕ)
entries =
    record {
      service_name = "svc";
      instances = record { addr = "x:1"; meta = 1 } ∷ record { addr = "y:2"; meta = 0 } ∷ [];
    }
    ∷ []

-- A request of the method "m" for "/svc/f".
first_picked :
    http_pick_with_info toy texts
      (λ r. false)
      (λ r. false)
      (λ n. 0)
      (update_http_matcher toy texts (some entries) new_path_segment)
      (109 ∷ [])
      (47 ∷ 115 ∷ 118 ∷ 99 ∷ 47 ∷ 102 ∷ [])
    ≡ picked (record { addr = "x:1"; tls = false })
unfolding http_pick_with_info update_http_matcher add_rules add_all_entries add_instances
    add_patterns unmarshal_registry_meta rules_of has_registry_prefix has_prefix add_http_rules
    add_http_rule generate_key create_all join rule_key all_pairs write_pairs service_rule
    trim_suffix registry_with_path trim_right add_addr lookup insert text_discrete same_bytes
    add_pattern template_convert convert put_before take_group components split_from split_verb
    last_index add_components update_child priority match_with_meta match_metas
    adjust_header_rule_count accepted estimate_header less match_internal match_child
    match_two_stars skip_loop has_child
first_picked = refl

http_pick_with_info-HasInstance_example : HasInstance toy texts entries "x:1"
http_pick_with_info-HasInstance_example =
    http_pick_with_info-HasInstance toy texts (λ r. false) (λ r. false) (λ n. 0) entries
      new_path_segment (109 ∷ []) (47 ∷ 115 ∷ 118 ∷ 99 ∷ 47 ∷ 102 ∷ [])
      (record { addr = "x:1"; tls = false }) toy-PicksIn texts-Sorts first_picked
