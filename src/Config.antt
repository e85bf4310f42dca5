-- ===== src/Config.antt =====
-- config/internal/source.go and config_impl.go: sources with a cache each, and the configuration that
-- keeps for each key the value of the highest source that has it. The tree of keys is seen through
-- Get, Put, Del and Keys, which the map in it serves. A range over a map is in the order of the list.
pub mod Levels
pub mod Tree
pub mod Views
pub mod Values
pub mod Updates
pub mod Deletions
pub mod Filter
pub mod Lookup
pub mod Notifier
pub mod Passed
mod Tests
use Prim.Native.String.{◌++◌ as ◌<>◌}
use go_framework.Base.{
  ℕ, zero, suc, ◌+◌, String, Bool, true, false, not, ◌&&◌, ite, text_discrete, List, [], ◌∷◌, ◌++◌,
  Option, none, some, ◌≡◌, if◌then◌else◌, leb, ◌==◌, GoMap, lookup, insert, delete, keys, is_some,
  get_elem?, is_empty,
}

pub record ValueNode : Type 0 where
  pub level : ℕ
  pub value : String

-- `prefix` is what the source was told to follow.
pub record SourceWrapper : Type 0 where
  pub cache : GoMap String
  pub prefix : List String
  pub ignore_namespace : Bool

pub record ConfigImpl : Type 0 where
  pub source : List SourceWrapper
  pub cache : GoMap ValueNode

-- What the watchers of the configuration are told: `OnUpdate` and `OnDelete`.
pub record Notice : Type 0 where
  pub updated : GoMap String
  pub deleted : List String

-- `OnUpdate` and `OnSync` of a source store the keys as they come.
unfoldable pub store_all : GoMap String → GoMap String → GoMap String
store_all [] m = m
store_all ((k, v) ∷ vals) m = store_all vals (insert k v m)

unfoldable pub delete_all : List String → GoMap String → GoMap String
delete_all [] m = m
delete_all (k ∷ ks) m = delete_all ks (delete k m)

unfoldable pub set_cache : ℕ → GoMap String → List SourceWrapper → List SourceWrapper
set_cache i m [] = []
set_cache zero m (s ∷ ss) = record s { cache = m } ∷ ss
set_cache (suc i) m (s ∷ ss) = s ∷ set_cache i m ss

abbrev pub cache_of : Option SourceWrapper → GoMap String
cache_of none = []
cache_of (some s) = s.cache

abbrev pub source_cache : ℕ → List SourceWrapper → GoMap String
source_cache i ss = cache_of (get_elem? ss i)

-- The loop from `level - 1` down to 0.
unfoldable pub below : ℕ → String → List SourceWrapper → Option ValueNode
below zero k ss = none
below (suc i) k ss = elim (lookup k (source_cache i ss)) [
  | some v ↦ some (record { level = i; value = v })
  | none ↦ below i k ss
]

abbrev pub same_text : String → String → Bool
same_text v w = ite (text_discrete v w) true false

-- `!ok || valNode.value != v`
abbrev pub differs : String → Option ValueNode → Bool
differs v none = true
differs v (some n) = not (same_text n.value v)

-- The value of a node, or of a missing one.
abbrev pub value_of : Option ValueNode → String
value_of none = ""
value_of (some n) = n.value

-- The level of a missing node is 0.
abbrev pub is_from : ℕ → Option ValueNode → Bool
is_from level none = level == 0
is_from level (some n) = level == n.level

abbrev pub is_of : ℕ → Option ValueNode → Bool
is_of level none = false
is_of level (some n) = n.level == level

abbrev pub may_replace : ℕ → Option ValueNode → Bool
may_replace level none = true
may_replace level (some n) = leb n.level level

-- A value and its level; none is the level -1.
abbrev pub Found : Type 0
Found = String × Option ℕ

abbrev pub found : Option ValueNode → Found
found none = ("", none)
found (some n) = (n.value, some n.level)

-- The raw value counts only from a source without namespaces, and a miss has the level 1.
unfoldable pub get_raw : Option ValueNode → List SourceWrapper → Found
get_raw none ss = ("", some 1)
get_raw (some n) ss = elim (get_elem? ss n.level) [
  | none ↦ ("", some 1)
  | some s ↦ if s.ignore_namespace then (n.value, some n.level) else ("", some 1)
]

-- `to_lower` is strings.ToLower; `has_empty` says that a part of the key between dots is empty.
module _ (to_lower : String → String) (has_empty : String → Bool) where
  -- `Put` of the tree gives up at an empty part.
  unfoldable pub put : String → ValueNode → GoMap ValueNode → GoMap ValueNode
  put k n t = if has_empty k then t else insert k n t

  unfoldable pub update_one : ℕ → String → String → GoMap ValueNode → GoMap ValueNode
  update_one level k v t =
      if may_replace level (lookup k t) then put k (record { level = level; value = v }) t else t

  abbrev pub update_notice : ℕ → String → String → GoMap ValueNode → GoMap String → GoMap String
  update_notice level k v t notify =
      if may_replace level (lookup k t) && differs v (lookup k t) then insert k v notify else notify

  unfoldable pub update_all :
      ℕ → GoMap String → GoMap ValueNode → GoMap String → GoMap ValueNode × GoMap String
  update_all level [] t notify = (t, notify)
  update_all level ((k, v) ∷ vals) t notify =
      let l = to_lower k in
      update_all level vals (update_one level l v t) (update_notice level l v t notify)

  -- An update of a source reaches its cache, and then the configuration.
  unfoldable pub on_update : ℕ → GoMap String → ConfigImpl → ConfigImpl × Notice
  on_update level vals c =
      let ss = set_cache level (store_all vals (source_cache level c.source)) c.source in
      let (t, notify) = update_all level vals c.cache [] in
      (record { source = ss; cache = t }, record { updated = notify; deleted = [] })

  -- One key that its source has lost: a lower source may have it.
  unfoldable pub lose_one :
      ℕ → List SourceWrapper → String → GoMap ValueNode × Notice → GoMap ValueNode × Notice
  lose_one level ss k (t, n) = elim (below level k ss) [
    | some b ↦ (
      put k b t,
      if not (same_text b.value (value_of (lookup k t)))
          then record n { updated = insert k b.value n.updated }
          else n,
    )
    | none ↦ (delete k t, record n { deleted = n.deleted ++ k ∷ [] })
  ]

  unfoldable pub delete_keys :
      ℕ → List SourceWrapper → List String → GoMap ValueNode × Notice → GoMap ValueNode × Notice
  delete_keys level ss [] r = r
  delete_keys level ss (k ∷ ks) r =
      let l = to_lower k in
      delete_keys level ss ks (if is_of level (lookup l r.0) then lose_one level ss l r else r)

  unfoldable pub on_delete : ℕ → List String → ConfigImpl → ConfigImpl × Notice
  on_delete level ks c =
      let ss = set_cache level (delete_all ks (source_cache level c.source)) c.source in
      let (t, n) = delete_keys level ss ks (c.cache, record { updated = []; deleted = [] }) in
      (record { source = ss; cache = t }, n)

  unfoldable pub lower_all : GoMap String → GoMap String → GoMap String
  lower_all [] m = m
  lower_all ((k, v) ∷ vals) m = lower_all vals (insert (to_lower k) v m)

  -- The keys of the configuration that come from the level and are not in the snapshot.
  unfoldable pub drop_missing :
      ℕ
      → List SourceWrapper
      → GoMap String
      → List String
      → GoMap ValueNode × Notice
      → GoMap ValueNode × Notice
  drop_missing level ss vals [] r = r
  drop_missing level ss vals (k ∷ ks) r =
      let l = to_lower k in
      drop_missing level ss vals ks (
        if not (is_some (lookup l vals)) && is_from level (lookup l r.0)
        then lose_one level ss l r
        else r)

  -- A snapshot at the configuration.
  unfoldable pub sync_snapshot : ℕ → GoMap String → ConfigImpl → ConfigImpl × Notice
  sync_snapshot level vals c =
      let lower = lower_all vals [] in
      let (t, notify) = update_all level lower c.cache [] in
      let (t', n) =
        drop_missing level c.source lower (keys t) (t, record { updated = notify; deleted = [] }) in
      (record c { cache = t' }, n)

  -- A snapshot of a source: its cache keeps the keys that the snapshot does not have. The notifier
  -- between the source and the configuration passes on nothing that is empty.
  unfoldable pub on_sync : ℕ → GoMap String → ConfigImpl → ConfigImpl × Notice
  unfolding sync_snapshot
  on_sync level vals c =
      let ss = set_cache level (store_all vals (source_cache level c.source)) c.source in
      if is_empty vals
      then (record c { source = ss }, record { updated = []; deleted = [] })
      else sync_snapshot level vals (record c { source = ss })

  unfoldable pub get : String → String → Bool → ConfigImpl → Found
  get key prefix raw c =
      let k = to_lower key in
      if raw then get_raw (lookup k c.cache) c.source else found (lookup (prefix <> k) c.cache)

  -- What the source gives on `Sync`, stored under lower-case keys; the flag that would answer from the
  -- cache is never set.
  unfoldable pub store_lower : GoMap String → GoMap String → GoMap String
  store_lower [] m = m
  store_lower ((k, v) ∷ vals) m = store_lower vals (insert (to_lower k) v m)

  -- One level of `sync`: every value replaces what is there.
  unfoldable pub sync_level :
      ℕ → GoMap String → GoMap ValueNode → GoMap String → GoMap ValueNode × GoMap String
  sync_level level [] t notify = (t, notify)
  sync_level level ((k, v) ∷ vals) t notify =
      let l = to_lower k in
      sync_level level vals (put l (record { level = level; value = v }) t)
        (if differs v (lookup l t) then insert l v notify else notify)

  -- `sync`: `none` is the error of a source, which ends it; the notices are in order.
  unfoldable pub sync_from :
      ℕ → List (Option (GoMap String)) → ConfigImpl → ConfigImpl × List (GoMap String) × Bool
  sync_from level [] c = (c, [], true)
  sync_from level (none ∷ rs) c = (c, [], false)
  sync_from level (some vals ∷ rs) c =
      let ss = set_cache level (store_lower vals (source_cache level c.source)) c.source in
      let (t, notify) = sync_level level (lower_all vals []) c.cache [] in
      let (c', notices, ok) = sync_from (suc level) rs (record { source = ss; cache = t }) in
      (c', notify ∷ notices, ok)

-- The prefixes that a source does not follow yet; `trim` is strings.TrimSpace and `starts` is
-- strings.HasPrefix with the text first.
module _ (trim : String → String) (starts : String → String → Bool) where
  abbrev pub follows_any : String → List String → Bool
  follows_any p [] = false
  follows_any p (q ∷ qs) = if starts p q then true else follows_any p qs

  unfoldable pub new_prefixes : List String → List String → List String
  new_prefixes [] held = []
  new_prefixes (p ∷ ps) held =
      let later = new_prefixes ps held in
      if follows_any (trim p) held then later else trim p ∷ later

  -- `accepts` is the answer of the source to AppendPrefix; the result is what it was asked.
  unfoldable pub append_prefix :
      (List String → Bool) → List String → SourceWrapper → SourceWrapper × List String × Bool
  append_prefix accepts ps s =
      let filtered = new_prefixes ps s.prefix in
      if is_empty filtered
      then (s, [], true)
      else if accepts filtered
      then (record s { prefix = s.prefix ++ filtered }, filtered, true)
      else (s, filtered, false)
