-- ===== src/LocalNode/Request/Batch.antt =====
-- The requests of a batch (local_node.c), where the methods of the node have engines.
use mathlib.Core.List.{map}
use round.Common.{
  ℕ, zero, suc, ◌+◌, ◌≡◌, refl, sym, ap, ◌∙◌, true, false, none, some, List, [], ◌∷◌, arith,
  Bool-cases, Option-cases, inl, inr,
}
use round.Text.{CString}
use round.RpcError.{
  RoundError, setjsonrpcerrorcode, invalid_request, method_not_found, script_engine_not_found,
}
use round.Method.{
  Method, ExecNode, ExecFunc, ScriptEngine, Outcome, getmethod, getengine, execmethod, with_data,
  data_of,
}
use round.JsonRpc.{JsonLibrary, array_get, is_cached, map_text, method_key, params_key}
use round.LocalNode.Request.{
  Response, Reply, is_missing, request_id, fail, respond, execrequest, batch_from,
}

respond_id : (id : CString) (o : Outcome) → (respond id o).1.response_id ≡ id
respond_id id (true, result, err) = refl
respond_id id (false, result, err) = refl

module _ {J : Type 0} (json : JsonLibrary J) (hash : CString → ℕ) where
  -- A condition on nodes with which each method is in a language that has an engine, and which the
  -- functions of the engines keep.
  pub record IsServing (P : ExecNode → Type 0) : Type 0 where
    pub engines :
        (node : ExecNode) (name : List ℕ) (m : Method)
        → P node
        → getmethod hash node.mgr (some name) ≡ some m
        → (e : ScriptEngine) × (getengine hash node.mgr m.lang ≡ some e)
    pub kept :
        (node : ExecNode) (name : List ℕ) (m : Method) (e : ScriptEngine) (exec_func : ExecFunc)
        (params : List ℕ) (err : RoundError)
        → P node
        → getmethod hash node.mgr (some name) ≡ some m
        → getengine hash node.mgr m.lang ≡ some e
        → e.exec_func ≡ some exec_func
        → P (with_data node (exec_func (data_of node) m params err).0)

  -- The ids of the requests of a batch
  abbrev pub ids_from : ℕ → ℕ → J → List CString
  ids_from zero n reqs = []
  ids_from (suc count) n reqs = elim (array_get json reqs n) [
    | none ↦ ids_from count (n + 1) reqs
    | some req ↦ request_id json req ∷ ids_from count (n + 1) reqs
  ]

  ids_none :
      (count n : ℕ) (reqs : J)
      → array_get json reqs n ≡ none
      → ids_from (suc count) n reqs ≡ ids_from count (n + 1) reqs
  ids_none count n reqs e = ground (arith, e)

  ids_some :
      (count n : ℕ) (reqs req : J)
      → array_get json reqs n ≡ some req
      → ids_from (suc count) n reqs ≡ request_id json req ∷ ids_from count (n + 1) reqs
  ids_some count n reqs req e = ground (arith, e)

  module _ (P : ExecNode → Type 0) (s : IsServing P) where
    execmethod_ends :
        (node : ExecNode) (name params : CString) (err : RoundError)
        → P node
        → (after : ExecNode) × (o : Outcome) × (execmethod hash node name params err
            ≡ some (after, o))
          × P after
    unfolding execmethod
    execmethod_ends node none params err p = (node, (false, none, err), refl, p)
    execmethod_ends node (some name) none err p = (node, (false, none, err), refl, p)
    execmethod_ends node (some name) (some params) err p =
        elim (Option-cases (getmethod hash node.mgr (some name))) [
          | inl e ↦
              (node, (false, none, setjsonrpcerrorcode err method_not_found), ground (arith, e), p)
          | inr (m, e) ↦
              let (engine, g) = s.engines node name m p e in
              elim (Option-cases engine.exec_func) [
                | inl f ↦ (
                  node,
                  (false, none, setjsonrpcerrorcode err script_engine_not_found),
                  ground (arith, e, g, f),
                  p,
                )
                | inr (exec_func, f) ↦ (
                  with_data node (exec_func (data_of node) m params err).0,
                  (exec_func (data_of node) m params err).1,
                  ground (arith, e, g, f),
                  s.kept node name m engine exec_func params err p e g f,
                )
              ]
        ]

    execrequest_ends :
        (node : ExecNode) (req : J) (err : RoundError)
        → P node
        → is_cached json req method_key ≡ false
        → (after : ExecNode) × (p : Reply) × (execrequest json hash node req err ≡ some (after, p))
          × (p.1.response_id ≡ request_id json req)
          × P after
    unfolding execrequest
    execrequest_ends node req err h c =
        let (after, o, e, q) =
          execmethod_ends node (map_text json req method_key) (map_text json req params_key) err
            h in
        elim (Bool-cases (json.is_object req)) [
          | inl k ↦ elim (Bool-cases (is_missing (map_text json req method_key))) [
            | inl b ↦ (
              node,
              fail (request_id json req) (setjsonrpcerrorcode err invalid_request),
              ground (arith, k, b),
              refl,
              h,
            )
            | inr b ↦ (
              after,
              respond (request_id json req) o,
              ground (arith, k, b, c, e),
              respond_id (request_id json req) o,
              q,
            )
          ]
          | inr k ↦ (
            node,
            fail (request_id json req) (setjsonrpcerrorcode err invalid_request),
            ground (arith, k),
            refl,
            h,
          )
        ]

    module _ (reqs : J)
        (names : (n : ℕ) (req : J)
          → array_get json reqs n ≡ some req
          → is_cached json req method_key ≡ false) where
      pub batch_from_ends :
          (count n : ℕ) (node : ExecNode) (err : RoundError)
          → P node
          → (after : ExecNode) × (rs : List Response) × (err' : RoundError) × (batch_from json hash
                count n node reqs err
              ≡ some (after, rs, err'))
            × (map (λ r. r.response_id) rs ≡ ids_from count n reqs)
            × P after
      unfolding batch_from
      batch_from_ends zero n node err h = (node, [], err, refl, refl, h)
      batch_from_ends (suc count) n node err h = elim (Option-cases (array_get json reqs n)) [
        | inl e ↦
            let (after, rs, err', run, ids, q) =
              batch_from_ends count (n + 1) node (setjsonrpcerrorcode err invalid_request) h in
            (after, rs, err', ground (arith, e, run), ids ∙ sym (ids_none count n reqs e), q)
        | inr (req, e) ↦
            let (next, p, q, i, hn) = execrequest_ends node req err h (names n req e) in
            let (after, rs, err', run, ids, ha) = batch_from_ends count (n + 1) next p.2 hn in
            (
              after,
              p.1 ∷ rs,
              err',
              ground (arith, e, q, run),
              ap (λ x. x ∷ map (λ r. r.response_id) rs) i
                  ∙ ap (λ l. request_id json req ∷ l) ids
                  ∙ sym (ids_some count n reqs req e),
              ha,
            )
      ]
