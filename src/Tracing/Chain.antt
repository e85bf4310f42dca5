-- ===== src/Tracing/Chain.antt =====
-- Request ids over a chain of calls: what a client of tracing/reqid.go writes the server reads.
use go_framework.Base.{
  String, text_discrete, lookup-insert, List, [], ◌∷◌, Option, none, some, ite, if_neg, ◌≡◌, ◌≢◌,
  refl, sym, ap, ◌∙◌, arith,
}
use go_framework.Tracing.{
  TracingInfo, Md, get_md_item, set_md_item, tracing_info_from_md, tracing_info_to_md, Library,
  Context, read_md, first_info, or_no_info, copied_md, tracing_info_from_metadata,
  tracing_info_to_metadata, child_tracing_info, option_info, client_interceptor, server_interceptor,
}

get_md_item-set :
    (item k v : String) (md : Md)
    → get_md_item (set_md_item k v md) item ≡ ite (text_discrete k item) v (get_md_item md item)
unfolding get_md_item set_md_item
get_md_item-set item k v md = ground (arith, lookup-insert k item (v ∷ []) md)

-- What the writer has put under a key.
abbrev written : TracingInfo → String → Md → String → String
written info now md item = ite (text_discrete "reqst" item) now (
    ite (text_discrete "prpc" item) info.prpc (
      ite (text_discrete "rpc" item) info.rpc (
        ite (text_discrete "pid" item) info.pid (
          ite (text_discrete "cid" item) info.cid
            (ite (text_discrete "rid" item) info.rid (get_md_item md item))))))

get_md_item-written :
    (info : TracingInfo) (now : String) (md : Md) (item : String)
    → get_md_item (tracing_info_to_md info now md) item ≡ written info now md item
unfolding tracing_info_to_md
get_md_item-written info now md item =
    rw
      (
        get_md_item-set item _ _ _,
        get_md_item-set item _ _ _,
        get_md_item-set item _ _ _,
        get_md_item-set item _ _ _,
        get_md_item-set item _ _ _,
        get_md_item-set item _ _ _,
      )
      refl

module _ (info : TracingInfo) (now : String) (md : Md) where
  written_rid : written info now md "rid" ≡ info.rid
  unfolding text_discrete
  written_rid = refl

  written_cid : written info now md "cid" ≡ info.cid
  unfolding text_discrete
  written_cid = refl

  written_pid : written info now md "pid" ≡ info.pid
  unfolding text_discrete
  written_pid = refl

  written_rpc : written info now md "rpc" ≡ info.rpc
  unfolding text_discrete
  written_rpc = refl

  written_prpc : written info now md "prpc" ≡ info.prpc
  unfolding text_discrete
  written_prpc = refl

  from_md-to_md :
      info.rid ≢ "" → tracing_info_from_md "rid" (tracing_info_to_md info now md) ≡ some info
  unfolding tracing_info_from_md
  from_md-to_md h =
      rw
        (
          get_md_item-written info now md "rid",
          get_md_item-written info now md "cid",
          get_md_item-written info now md "pid",
          get_md_item-written info now md "rpc",
          get_md_item-written info now md "prpc",
          written_rid,
          written_cid,
          written_pid,
          written_rpc,
          written_prpc,
        )
        (if_neg (text_discrete info.rid "") h _ _)

-- A call that the handler of a call makes.
pub record Call : Type 0 where
  pub opts : List String
  pub id : Option String
  pub method : String
  pub ts : String
  pub now : String

-- What the server gets of the client's context.
abbrev pub arrive : Context → Context
arrive ctx = record { incoming = ctx.outgoing; outgoing = none; tracing_info = none }

or_empty-eq : (v : String) → ite (text_discrete v "") "" v ≡ v
or_empty-eq v = ground arith

-- Each handler has the request id of the first one, the call id of the handler before it as the
-- parent's, that handler's method as the parent's method, and its own method.
abbrev pub IsChain : TracingInfo → List Call → List TracingInfo → Type 0
IsChain prev [] [] = Unit
IsChain prev (c ∷ cs) [] = ⊥
IsChain prev [] (i ∷ is) = ⊥
IsChain prev (c ∷ cs) (i ∷ is) =
    ((i.rid ≡ prev.rid) × ((i.pid ≡ prev.cid) × ((i.prpc ≡ prev.rpc) × (i.rpc ≡ c.method))))
    × IsChain i cs is

child_tracing_info-rid :
    (id : Option String) (method : String) (info : TracingInfo)
    → info.rid ≢ ""
    → (child_tracing_info id method info).rid ≡ info.rid
unfolding child_tracing_info
child_tracing_info-rid id method info h = if_neg (text_discrete info.rid "") h _ _

module _ (lib : Library) where
  -- The information of the handler of each call, where each handler makes the next call.
  unfoldable pub infos : List Call → Context → List TracingInfo
  infos [] ctx = []
  infos (c ∷ cs) ctx =
      let ctx' =
        server_interceptor lib
          (arrive (client_interceptor lib c.opts c.id c.method c.ts c.now ctx)) in
      or_no_info ctx'.tracing_info ∷ infos cs ctx'

  read_md-to_md :
      (info : TracingInfo) (now : String) (md : Md)
      → info.rid ≢ ""
      → read_md lib (tracing_info_to_md info now md) ≡ some info
  unfolding read_md
  read_md-to_md info now md h = rw (from_md-to_md info now md h) refl

  hop-info :
      (c : Call) (ctx : Context) (info : TracingInfo)
      → ctx.tracing_info ≡ some info
      → info.rid ≢ ""
      → (server_interceptor lib
          (arrive (client_interceptor lib c.opts c.id c.method c.ts c.now ctx))).tracing_info
        ≡ some (child_tracing_info c.id c.method info)
  unfolding server_interceptor client_interceptor tracing_info_to_metadata
      tracing_info_from_metadata
  hop-info c ctx info e h =
      let child = child_tracing_info c.id c.method info in
      let named : child.rid ≢ "" = λ q. h (sym (child_tracing_info-rid c.id c.method info h) ∙ q) in
      ap
        (λ t. some (
          or_no_info (
            read_md lib (
              tracing_info_to_md
                (child_tracing_info c.id c.method
                  (or_no_info (first_info t (option_info c.opts none))))
                c.now (copied_md lib ctx.outgoing)))))
        e
      ∙ ap (λ t. some (or_no_info t)) (read_md-to_md child c.now (copied_md lib ctx.outgoing) named)

  -- From a handler with a request id on, every call of a chain carries this id, and each handler knows
  -- the call id and the method of the one that called it.
  pub infos-IsChain :
      (cs : List Call) (ctx : Context) (info : TracingInfo)
      → ctx.tracing_info ≡ some info
      → info.rid ≢ ""
      → IsChain info cs (infos cs ctx)
  unfolding infos child_tracing_info
  infos-IsChain [] ctx info e h = tt
  infos-IsChain (c ∷ cs) ctx info e h =
      let ctx' =
        server_interceptor lib
          (arrive (client_interceptor lib c.opts c.id c.method c.ts c.now ctx)) in
      let arrived = hop-info c ctx info e h in
      let rid =
        ap (λ t. (or_no_info t).rid) arrived ∙ child_tracing_info-rid c.id c.method info h in
      (
        (
          rid,
          (
            ap (λ t. (or_no_info t).pid) arrived ∙ or_empty-eq info.cid,
            (
              ap (λ t. (or_no_info t).prpc) arrived ∙ or_empty-eq info.rpc,
              ap (λ t. (or_no_info t).rpc) arrived,
            ),
          ),
        ),
        infos-IsChain cs ctx' (or_no_info ctx'.tracing_info)
            (arrived ∙ ap (λ t. some (or_no_info t)) (sym arrived)) (λ q. h (sym rid ∙ q)),
      )
