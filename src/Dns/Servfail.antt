-- ===== src/Dns/Servfail.antt =====
-- `build_servfail`, over the message type of the `hickory_proto` crate.
use fictional_octo_spork.Prelude.{
  ℕ, ◌≡◌, refl, sym, ap, ◌∙◌, Option, none, some, arith, List, [], ◌∷◌, ◌++◌,
}
use mathlib.Core.List.{append_assoc, append-nil}
use fictional_octo_spork.Text.{Bytes}

pub data MessageType : Type 0 where
  query response : MessageType

-- The messages of the crate, and what its documentation says of the operations that are used here.
pub record Hickory : Type 1 where
  pub Message : Type 0
  pub OpCode : Type 0
  pub ResponseCode : Type 0
  pub Query : Type 0
  pub serv_fail : ResponseCode
  pub id : Message → ℕ
  pub message_type : Message → MessageType
  pub op_code : Message → OpCode
  pub response_code : Message → ResponseCode
  pub queries : Message → List Query
  pub new : ℕ → MessageType → OpCode → Message
  pub set_response_code : ResponseCode → Message → Message
  pub add_query : Query → Message → Message
  pub from_vec : Bytes → Option Message
  pub to_vec : Message → Option Bytes
  pub queries-new : (i : ℕ) (t : MessageType) (o : OpCode) → queries (new i t o) ≡ []
  pub header-new :
      (i : ℕ) (t : MessageType) (o : OpCode)
      → (id (new i t o) ≡ i) × (message_type (new i t o) ≡ t) × (op_code (new i t o) ≡ o)
  pub header-set :
      (r : ResponseCode) (m : Message)
      → (id (set_response_code r m) ≡ id m)
        × (message_type (set_response_code r m) ≡ message_type m)
        × (op_code (set_response_code r m) ≡ op_code m)
        × (response_code (set_response_code r m) ≡ r)
        × (queries (set_response_code r m) ≡ queries m)
  pub header-add :
      (q : Query) (m : Message)
      → (id (add_query q m) ≡ id m)
        × (message_type (add_query q m) ≡ message_type m)
        × (op_code (add_query q m) ≡ op_code m)
        × (response_code (add_query q m) ≡ response_code m)
        × (queries (add_query q m) ≡ queries m ++ q ∷ [])

module _ (h : Hickory) where
  open h use {
    Message, Query, OpCode, ResponseCode, serv_fail, id, message_type, op_code, response_code,
    queries, new, set_response_code, add_query, from_vec, to_vec,
  }

  -- `for q in &parsed.queries { resp.add_query(q.clone()); }`
  add_queries : List Query → Message → Message
  add_queries [] m = m
  add_queries (q ∷ qs) m = add_queries qs (add_query q m)

  failure_for : Message → Message
  unfolding add_queries
  failure_for parsed =
      add_queries (queries parsed)
        (set_response_code serv_fail (new (id parsed) response (op_code parsed)))

  unfoldable pub build_servfail : Bytes → Option Bytes
  unfolding failure_for
  build_servfail query_bytes = elim (from_vec query_bytes) [
    | none ↦ none
    | some parsed ↦ to_vec (failure_for parsed)
  ]

  record SameHeader (a b : Message) : Type 0 where
    same_id : id a ≡ id b
    same_type : message_type a ≡ message_type b
    same_op : op_code a ≡ op_code b
    same_code : response_code a ≡ response_code b

  add_queries-SameHeader : (qs : List Query) (m : Message) → SameHeader (add_queries qs m) m
  unfolding add_queries
  add_queries-SameHeader [] m = record {
    same_id = refl;
    same_type = refl;
    same_op = refl;
    same_code = refl;
  }
  add_queries-SameHeader (q ∷ qs) m =
      let r = add_queries-SameHeader qs (add_query q m) in
      let (i, t, o, c, _) = h.header-add q m in
      record {
        same_id = r.same_id ∙ i;
        same_type = r.same_type ∙ t;
        same_op = r.same_op ∙ o;
        same_code = r.same_code ∙ c;
      }

  queries-add_queries :
      (qs : List Query) (m : Message) → queries (add_queries qs m) ≡ queries m ++ qs
  unfolding add_queries
  queries-add_queries [] m = sym (append-nil (queries m))
  queries-add_queries (q ∷ qs) m =
      queries-add_queries qs (add_query q m)
      ∙ ap (λ l. l ++ qs) (h.header-add q m).4
      ∙ append_assoc (queries m) (q ∷ []) qs

  -- The SERVFAIL that answers a message is what the crate writes for a response with the code SERVFAIL and the id, the
  -- operation and exactly the questions of the query.
  pub build_servfail_lem :
      (query_bytes bs : Bytes) (parsed : Message)
      → from_vec query_bytes ≡ some parsed
      → build_servfail query_bytes ≡ some bs
      → (m : Message) × (to_vec m ≡ some bs)
        × (id m ≡ id parsed)
        × (message_type m ≡ response)
        × (op_code m ≡ op_code parsed)
        × (response_code m ≡ serv_fail)
        × (queries m ≡ queries parsed)
  unfolding build_servfail
  build_servfail_lem query_bytes bs parsed p b =
      let fresh = new (id parsed) response (op_code parsed) in
      let coded = set_response_code serv_fail fresh in
      let r = add_queries-SameHeader (queries parsed) coded in
      let (i, t, o, c, qs) = h.header-set serv_fail fresh in
      let (i', t', o') = h.header-new (id parsed) response (op_code parsed) in
      let made : to_vec (failure_for parsed) ≡ some bs = ground (arith, p, b) in
      (
        failure_for parsed,
        made,
        r.same_id ∙ i ∙ i',
        r.same_type ∙ t ∙ t',
        r.same_op ∙ o ∙ o',
        r.same_code ∙ c,
        queries-add_queries (queries parsed) coded
            ∙ ap (λ l. l ++ queries parsed)
                (qs ∙ h.queries-new (id parsed) response (op_code parsed)),
      )
