-- ===== src/Gateway/Handlers/Merging.antt =====
-- The merging of the agents' answers (`search` of src/gateway/gateway_handler.cpp) ends, if only in
-- an exception.
use drlog_search.Base.{
  Bool, not, Option, none, some, List, [], ◌∷◌, ◌++◌, Bytes, codes, ◌==◌, if◌then◌else◌, inl, inr,
  Bool-cases,
}
use drlog_search.Http.{Outcome, called, returned, ◌>>=◌, Answers, Answers-called, Answers-bind}
use drlog_search.Gateway.Dispatch.{Records}
use drlog_search.Gateway.Handlers.{Host}
use drlog_search.Gateway.Handlers.Query.{tagged, records_in, has_failed, parsed_records, merge}

module _ (host : Host) where
  open host use {json}
  open json use {Value}

  tagged-Answers : (agent_id : Bytes) (items : List Value) → Answers (tagged host agent_id items)
  unfolding tagged
  tagged-Answers agent_id [] = tt
  tagged-Answers agent_id (item ∷ items) =
      Answers-bind (called (json.subscript_assign (codes "agent") (json.string agent_id) item)) _
        (Answers-called _)
        (λ item'.
          Answers-bind (tagged host agent_id items) (λ items'. returned (item' ∷ items'))
            (tagged-Answers agent_id items) (λ items'. tt))

  records_in-Answers :
      (agent_id : Bytes) (records : Option Value) → Answers (records_in host agent_id records)
  unfolding records_in
  records_in-Answers agent_id none = tt
  records_in-Answers agent_id (some records) = elim (Bool-cases (json.is_array records)) [
    | inl y ↦ rw y (tagged-Answers agent_id (json.elements records))
    | inr n ↦ rw n tt
  ]

  has_failed-Answers : (status : Value) → Answers (has_failed host status)
  unfolding has_failed
  has_failed-Answers status = elim (Bool-cases (json.is_number status)) [
    | inl y ↦ rw y (
        Answers-bind (called (json.get_int status)) (λ n. returned (not (n == 0)))
          (Answers-called _) (λ n. tt))
    | inr n ↦ rw n tt
  ]

  parsed_records-Answers :
      (agent_id : Bytes) (o : Option Value) → Answers (parsed_records host agent_id o)
  unfolding parsed_records
  parsed_records-Answers agent_id none = tt
  parsed_records-Answers agent_id (some jfm) =
      let records = records_in host agent_id (json.member (codes "records") jfm) in
      let next : Bool → Outcome (List Value) = λ failed. if failed then returned [] else records in
      let ok : (failed : Bool) → Answers (next failed) = λ failed. elim (Bool-cases failed) [
        | inl y ↦ rw y tt
        | inr n ↦ rw n (records_in-Answers agent_id (json.member (codes "records") jfm))
      ] in
      Answers-bind (called (json.subscript (codes "status") jfm))
        (λ status. has_failed host status >>= next) (Answers-called _)
        (λ status. Answers-bind (has_failed host status) next (has_failed-Answers status) ok)

  pub merge-Answers : (agent_records : Records) → Answers (merge host agent_records)
  unfolding merge
  merge-Answers [] = tt
  merge-Answers ((agent_id, body) ∷ agent_records) =
      let later = merge host agent_records in
      Answers-bind (parsed_records host agent_id (json.parse body))
        (λ records. later >>= λ rest. returned (records ++ rest))
        (parsed_records-Answers agent_id (json.parse body))
        (λ records.
          Answers-bind later (λ rest. returned (records ++ rest)) (merge-Answers agent_records)
            (λ rest. tt))
