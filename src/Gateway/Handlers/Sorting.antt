-- ===== src/Gateway/Handlers/Sorting.antt =====
-- The records of a search as `search` of src/gateway/gateway_handler.cpp gives them to `std::sort`.
use drlog_search.Base.{
  ℕ, Bool, true, false, Option, none, some, List, [], ◌∷◌, ◌++◌, Bytes, codes, ltb, ◌≡◌, refl, ◌∙◌,
  inl, inr, All, All-append, All-map, Bool-cases, eqb, if◌then◌else◌,
}
use drlog_search.Json.{Json}
use drlog_search.Http.{Outcome, called, returned, ◌>>=◌, Returns, Returns-bind, Returns-then}
use drlog_search.Gateway.Dispatch.{Records}
use drlog_search.Gateway.Handlers.{Host}
use drlog_search.Gateway.Handlers.Query.{
  has, tagged, records_in, has_failed, parsed_records, merge, by_sign, start_of, less_start,
}

-- A record has a start time, and it is a number.
abbrev pub HasStart : (json : Json) → json.Value → Type 0
HasStart json record_value =
    (start_time : json.Value) × (json.member (codes "start_time") record_value ≡ some start_time)
    × (json.is_number start_time ≡ true)

-- Each record in the text of an agent has a start time.
abbrev pub Timed : (json : Json) → Bytes → Type 0
Timed json text =
    (jfm records : json.Value)
    → json.parse text ≡ some jfm
    → json.member (codes "records") jfm ≡ some records
    → All (HasStart json) (json.elements records)

-- What nlohmann::json promises of numbers and of an assignment under another key.
pub record Assigns (json : Json) : Type 0 where
  pub number_gets :
      (value : json.Value) → json.is_number value ≡ true → (n : ℕ) × (json.get_int64 value ≡ some n)
  pub keeps_others :
      (key other : Bytes) (x value changed : json.Value)
      → eqb other key ≡ false
      → json.subscript_assign key x value ≡ some changed
      → json.member other changed ≡ json.member other value

module _ (host : Host) (assigns : Assigns host.json) where
  open host use {json}
  open json use {Value}

  assigned-HasStart :
      (agent_id : Bytes) (item : Value) (o : Option Value)
      → json.subscript_assign (codes "agent") (json.string agent_id) item ≡ o
      → HasStart json item
      → Returns (HasStart json) (called o)
  unfolding eqb
  assigned-HasStart agent_id item none e h = tt
  assigned-HasStart agent_id item (some changed) e (start_time, m, n) = (
    start_time,
    assigns.keeps_others (codes "agent") (codes "start_time") (json.string agent_id) item changed
          refl e
        ∙ m,
    n,
  )

  tagged-HasStart :
      (agent_id : Bytes) (items : List Value)
      → All (HasStart json) items
      → Returns (All (HasStart json)) (tagged host agent_id items)
  unfolding tagged
  tagged-HasStart agent_id [] h = tt
  tagged-HasStart agent_id (item ∷ items) h =
      let P = HasStart json in
      Returns-then P (All P)
        (called (json.subscript_assign (codes "agent") (json.string agent_id) item))
        (λ changed. tagged host agent_id items >>= λ later. returned (changed ∷ later))
        (assigned-HasStart agent_id item _ refl h.0)
        (λ changed c.
          Returns-then (All P) (All P) (tagged host agent_id items)
            (λ later. returned (changed ∷ later)) (tagged-HasStart agent_id items h.1)
            (λ later l. (c, l)))

  records_in-HasStart :
      (agent_id : Bytes) (o : Option Value)
      → ((records : Value) → o ≡ some records → All (HasStart json) (json.elements records))
      → Returns (All (HasStart json)) (records_in host agent_id o)
  unfolding records_in
  records_in-HasStart agent_id none h = tt
  records_in-HasStart agent_id (some records) h = elim (Bool-cases (json.is_array records)) [
    | inl y ↦ rw y (tagged-HasStart agent_id (json.elements records) (h records refl))
    | inr n ↦ rw n tt
  ]

  parsed-HasStart :
      (agent_id : Bytes) (o : Option Value)
      → ((jfm records : Value)
          → o ≡ some jfm
          → json.member (codes "records") jfm ≡ some records
          → All (HasStart json) (json.elements records))
      → Returns (All (HasStart json)) (parsed_records host agent_id o)
  unfolding parsed_records
  parsed-HasStart agent_id none h = tt
  parsed-HasStart agent_id (some jfm) h =
      let P = All (HasStart json) in
      let records = records_in host agent_id (json.member (codes "records") jfm) in
      let next : Bool → Outcome (List Value) = λ failed. if failed then returned [] else records in
      Returns-bind P (called (json.subscript (codes "status") jfm))
        (λ status. has_failed host status >>= next)
        (λ status. Returns-bind P (has_failed host status) next (λ failed.
          elim (Bool-cases failed) [
            | inl y ↦ rw y tt
            | inr n ↦ rw n (
                records_in-HasStart agent_id (json.member (codes "records") jfm)
                  (λ value m. h jfm value refl m))
          ]))

  pub merge-HasStart :
      (agent_records : Records)
      → All (λ r. Timed json r.1) agent_records
      → Returns (All (HasStart json)) (merge host agent_records)
  unfolding merge
  merge-HasStart [] h = tt
  merge-HasStart ((agent_id, text) ∷ agent_records) h =
      let P = All (HasStart json) in
      Returns-then P P (parsed_records host agent_id (json.parse text))
        (λ records. merge host agent_records >>= λ later. returned (records ++ later))
        (parsed-HasStart agent_id (json.parse text) h.0)
        (λ records r.
          Returns-then P P (merge host agent_records) (λ later. returned (records ++ later))
            (merge-HasStart agent_records h.1)
            (λ later l. All-append (HasStart json) records later r l))

  key_of : Outcome ℕ → ℕ
  key_of (returned n) = by_sign host n
  key_of _ = 0

  -- The start time of a record, as what the order of the records compares.
  pub start_key : Value → ℕ
  start_key value = key_of (start_of host (json.member (codes "start_time") value))

  less_start-ltb :
      (a b : Value)
      → HasStart json a
      → HasStart json b
      → less_start host a b ≡ returned (ltb (start_key a) (start_key b))
  unfolding less_start has start_of start_key key_of
  less_start-ltb a b (a_start, am, an) (b_start, bm, bn) =
      let (x, xe) = assigns.number_gets a_start an in
      let (y, ye) = assigns.number_gets b_start bn in rw (am, bm, an, bn, xe, ye) refl

  -- On records with start times the order is that of the start times.
  pub less_start_keyed :
      (records : List Value)
      → All (HasStart json) records
      → All
          (λ a. All (λ b. less_start host a b ≡ returned (ltb (start_key a) (start_key b))) records)
          records
  less_start_keyed records h =
      All-map (HasStart json) _
        (λ a ha. All-map (HasStart json) _ (λ b hb. less_start-ltb a b ha hb) records h) records h
