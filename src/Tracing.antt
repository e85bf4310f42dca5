-- ===== src/Tracing.antt =====
-- tracing/reqid.go: request ids that go from call to call in the metadata of gRPC, and in the headers
-- of HTTP. Keys and values are texts; all keys of metadata here are in small letters. JSON and the
-- uuids are parameters.
pub mod Chain
mod Tests
use go_framework.Base.{
  String, text_discrete, GoMap, lookup, insert, Bool, true, false, List, [], ◌∷◌, Option, none,
  some, ite,
}

pub record TracingInfo : Type 0 where
  pub rid : String
  pub cid : String
  pub pid : String
  pub rpc : String
  pub prpc : String

abbrev pub no_info : TracingInfo
no_info = record { rid = ""; cid = ""; pid = ""; rpc = ""; prpc = "" }

-- metadata.MD
abbrev pub Md : Type 0
Md = GoMap (List String)

abbrev pub last_of : List String → String
last_of [] = ""
last_of (v ∷ []) = v
last_of (v ∷ w ∷ vs) = last_of (w ∷ vs)

abbrev pub item_of : Option (List String) → String
item_of none = ""
item_of (some vs) = last_of vs

unfoldable pub get_md_item : Md → String → String
get_md_item md item = item_of (lookup item md)

-- md.Set at one value.
unfoldable pub set_md_item : String → String → Md → Md
set_md_item item v md = insert item (v ∷ []) md

-- The readers and the writers; none is the reader's false. `rid_tag` is "rid" or "reqid".
unfoldable pub tracing_info_from_md : String → Md → Option TracingInfo
tracing_info_from_md rid_tag md = ite (text_discrete (get_md_item md rid_tag) "") none (
    some (record {
      rid = get_md_item md rid_tag;
      cid = get_md_item md "cid";
      pid = get_md_item md "pid";
      rpc = get_md_item md "rpc";
      prpc = get_md_item md "prpc";
    }))

unfoldable pub tracing_info_to_md : TracingInfo → String → Md → Md
tracing_info_to_md info now md = set_md_item "reqst" now (
    set_md_item "prpc" info.prpc (
      set_md_item "rpc" info.rpc
        (set_md_item "pid" info.pid (set_md_item "cid" info.cid (set_md_item "rid" info.rid md)))))

-- What the code calls: json.Unmarshal and json.Marshal of a LanxinCallStack, whose fields are those of
-- the tracing information and a time, and CopyMetaData of a package that is not in the repository.
-- strconv.FormatInt of the clock is a text that the functions are given.
pub record Library : Type 0 where
  pub decode : String → Option TracingInfo
  pub encode : TracingInfo → String → Option String
  pub copy_metadata : Md → Md

pub record Context : Type 0 where
  pub incoming : Option Md
  pub outgoing : Option Md
  pub tracing_info : Option TracingInfo

abbrev pub first_info : Option TracingInfo → Option TracingInfo → Option TracingInfo
first_info (some info) later = some info
first_info none later = later

abbrev pub or_no_info : Option TracingInfo → TracingInfo
or_no_info none = no_info
or_no_info (some info) = info

abbrev pub or_no_id : Option String → String
or_no_id none = ""
or_no_id (some id) = id

-- `ChildTracingInfo`; the id is the digest of a new uuid, none at its error.
unfoldable pub child_tracing_info : Option String → String → TracingInfo → TracingInfo
child_tracing_info id method info = record {
  rid = ite (text_discrete info.rid "") (or_no_id id) info.rid;
  cid = or_no_id id;
  pid = ite (text_discrete info.cid "") "" info.cid;
  rpc = method;
  prpc = ite (text_discrete info.rpc "") "" info.rpc;
}

-- The loop over the options, of which the last request id counts.
unfoldable pub option_info : List String → Option TracingInfo → Option TracingInfo
option_info [] info = info
option_info (req_id ∷ opts) info =
    option_info opts (some (record { rid = req_id; cid = req_id; pid = ""; rpc = ""; prpc = "" }))

module _ (lib : Library) where
  -- The metadata that the code writes to: a copy of what is there.
  abbrev pub copied_md : Option Md → Md
  copied_md none = []
  copied_md (some md) = lib.copy_metadata md

  unfoldable pub from_lanxin_callstack2 : Md → Option TracingInfo
  from_lanxin_callstack2 md =
      ite (text_discrete (get_md_item md "callstack2") "") none
        (lib.decode (get_md_item md "callstack2"))

  -- This writer sets its item in the incoming metadata, which it names like the outgoing ones.
  unfoldable pub to_lanxin_callstack2 : TracingInfo → String → Option Md → Option Md
  to_lanxin_callstack2 info ts none = none
  to_lanxin_callstack2 info ts (some md) =
      ite (text_discrete (get_md_item md "callstack2") "") (some md) (elim (lib.encode info ts) [
        | none ↦ some md
        | some cs2 ↦ some (set_md_item "callstack2" cs2 md)
      ])

  -- The adapters in their order.
  unfoldable pub read_md : Md → Option TracingInfo
  read_md md =
      first_info (tracing_info_from_md "rid" md)
        (first_info (tracing_info_from_md "reqid" md) (from_lanxin_callstack2 md))

  abbrev pub outgoing_info : Option Md → TracingInfo
  outgoing_info none = no_info
  outgoing_info (some md) = or_no_info (read_md md)

  -- `TracingInfoFromMetadata`, without the flag that its callers drop.
  unfoldable pub tracing_info_from_metadata : Context → TracingInfo
  tracing_info_from_metadata ctx = elim ctx.incoming [
    | some md ↦ or_no_info (read_md md)
    | none ↦ outgoing_info ctx.outgoing
  ]

  -- `TracingInfoToMetadata`
  unfoldable pub tracing_info_to_metadata : TracingInfo → String → String → Context → Context
  tracing_info_to_metadata info ts now ctx = record ctx {
    incoming = to_lanxin_callstack2 info ts ctx.incoming;
    outgoing = some (tracing_info_to_md info now (copied_md ctx.outgoing));
  }

  -- The context that the client interceptors call with.
  unfoldable pub client_interceptor :
      List String → Option String → String → String → String → Context → Context
  client_interceptor opts id method ts now ctx =
      let info = or_no_info (first_info ctx.tracing_info (option_info opts none)) in
      tracing_info_to_metadata (child_tracing_info id method info) ts now ctx

  -- The tracing information that the server interceptors put into the context of the handler.
  unfoldable pub server_interceptor : Context → Context
  server_interceptor ctx = elim ctx.tracing_info [
    | some info ↦ ctx
    | none ↦ record ctx { tracing_info = some (tracing_info_from_metadata ctx) }
  ]

-- A header of HTTP, or the other text if it is missing or empty.
unfoldable pub header_or : String → List String → String
header_or other [] = other
header_or other (v ∷ vs) = ite (text_discrete v "") other v

-- `HttpServerReqIdHandler`, by the values of X-Request-Id, X-Call-Id and X-Rpc: the information in the
-- context of the handler, and none where the context stays. `rpc` is the method and the path.
unfoldable pub http_server_req_id :
    List String → List String → List String → String → Option TracingInfo
http_server_req_id [] cids rpcs rpc = none
http_server_req_id (v ∷ vs) cids rpcs rpc = ite (text_discrete v "") none (
    some
      (record { rid = v; cid = header_or v cids; pid = ""; rpc = header_or rpc rpcs; prpc = "" }))

abbrev pub or_dash : String → String
or_dash v = ite (text_discrete v "") "-" v

-- `tracingInfoFields`, where `tc` is the time that passed.
unfoldable pub tracing_info_fields : TracingInfo → String → List (String × String)
tracing_info_fields info tc = ite (text_discrete info.rid "") [] (
    ("reqid", or_dash info.rid)
    ∷ ("cid", or_dash info.cid)
    ∷ ("pid", or_dash info.pid)
    ∷ ("rpc", or_dash info.rpc)
    ∷ ("prpc", or_dash info.prpc)
    ∷ ("tc", tc)
    ∷ [])
