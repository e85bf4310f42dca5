-- ===== src/Tracing/Tests.antt =====
-- A chain of two calls, the reader of the HTTP headers, and the theorem at them.
use text.Mathlib.TextEquality.{eq_iff}
use go_framework.Base.{
  text_discrete, lookup, insert, List, [], ◌∷◌, none, some, ◌≡◌, ◌≢◌, refl, arith,
}
use go_framework.Tracing.{
  TracingInfo, Library, Context, http_server_req_id, header_or, get_md_item, set_md_item,
  tracing_info_to_md, copied_md, tracing_info_to_metadata,
}
use go_framework.Tracing.Chain.{Call, IsChain, infos, infos-IsChain}

abbrev toy : Library
toy = record { decode = λ s. none; encode = λ info ts. some "stack"; copy_metadata = λ md. md }

abbrev start : TracingInfo
start = record { rid = "r"; cid = "c"; pid = ""; rpc = "/GET/x"; prpc = "" }

start_of_http : http_server_req_id ("r" ∷ []) ("c" ∷ []) [] "/GET/x" ≡ some start
unfolding http_server_req_id header_or text_discrete
start_of_http = refl

abbrev handler : Context
handler = record { incoming = none; outgoing = none; tracing_info = some start }

abbrev two_calls : List Call
two_calls =
    record { opts = "late" ∷ []; id = some "i1"; method = "/a/B"; ts = "1"; now = "1" }
    ∷ record { opts = []; id = none; method = "/c/D"; ts = "2"; now = "2" }
    ∷ []

r_is_not_empty : start.rid ≢ ""
r_is_not_empty = ground (arith, eq_iff "r" "")

infos-IsChain_example : IsChain start two_calls (infos toy two_calls handler)
infos-IsChain_example = infos-IsChain toy two_calls handler start refl r_is_not_empty

-- The call stack is written to the incoming metadata, and the outgoing ones have none.
abbrev with_stack : Context
with_stack = record {
  incoming = some (("callstack2", "old" ∷ []) ∷ []);
  outgoing = some [];
  tracing_info = some start;
}

stack_not_sent :
    get_md_item
      (copied_md toy (tracing_info_to_metadata toy start "1" "1" with_stack).outgoing)
      "callstack2"
    ≡ ""
unfolding get_md_item tracing_info_to_metadata tracing_info_to_md set_md_item lookup insert
    text_discrete
stack_not_sent = refl
