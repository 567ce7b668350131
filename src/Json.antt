-- ===== src/Json.antt =====
-- What the program uses of nlohmann::json, as a parameter, and what that library promises.
use drlog_search.Base.{ℕ, ◌%◌, ◌^◌, ◌<◌, Bool, true, Option, none, some, List, ◌∷◌, Bytes, ◌≡◌, All}
use drlog_search.Table.{lookup}

-- nlohmann::json. `none` is an exception, except that `parse` is `none` for a discarded text;
-- `member` is `none` where `contains` is false; `subscript` is `operator[]`, which throws on what
-- is neither an object nor null and otherwise gives null for a missing key; `elements` are what a
-- range loop runs over. A number that is got is the pattern of its bits, 32 of them for an `int`,
-- and 64 for `get_int64`. `subscript_assign` is `v[key] = x`; `signed` is a signed number, by the
-- pattern of its 64 bits.
pub record Json : Type 1 where
  pub Value : Type 0
  pub parse : Bytes → Option Value
  pub dump : Value → Option Bytes
  pub dump_replace : Value → Option Bytes
  pub dump_indented : Value → Option Bytes
  pub is_object : Value → Bool
  pub is_array : Value → Bool
  pub is_number : Value → Bool
  pub elements : Value → List Value
  pub member : Bytes → Value → Option Value
  pub subscript : Bytes → Value → Option Value
  pub subscript_assign : Bytes → Value → Value → Option Value
  pub get_uint64 : Value → Option ℕ
  pub get_int64 : Value → Option ℕ
  pub get_int : Value → Option ℕ
  pub get_string : Value → Option Bytes
  pub value_string : Bytes → Bytes → Value → Option Bytes
  pub value_int : Bytes → ℕ → Value → Option ℕ
  pub value_uint64 : Bytes → ℕ → Value → Option ℕ
  pub value_time : Bytes → ℕ → Value → Option ℕ
  pub array : List Value → Value
  pub object : List (Bytes × Value) → Value
  pub string : Bytes → Value
  pub number : ℕ → Value
  pub signed : ℕ → Value

-- What nlohmann::json promises, with equality of values up to its `==`. `IsPlain` are the values
-- without a floating-point number in them.
pub record JsonLaws (json : Json) : Type 1 where
  pub IsPlain : json.Value → Type 0
  pub string_plain : (s : Bytes) → IsPlain (json.string s)
  pub number_plain : (n : ℕ) → IsPlain (json.number n)
  pub signed_plain : (n : ℕ) → IsPlain (json.signed n)
  pub array_plain : (items : List json.Value) → All IsPlain items → IsPlain (json.array items)
  pub object_plain :
      (entries : List (Bytes × json.Value))
      → All (λ entry. IsPlain entry.1) entries
      → IsPlain (json.object entries)
  -- What is written is read back.
  pub parse-dump :
      (value : json.Value) (text : Bytes)
      → IsPlain value
      → json.dump value ≡ some text
      → json.parse text ≡ some value
  -- There is nothing to replace in what can be written as it is.
  pub dump_replace_valid :
      (value : json.Value) (text : Bytes)
      → json.dump value ≡ some text
      → json.dump_replace value ≡ some text
  pub is_array-array : (items : List json.Value) → json.is_array (json.array items) ≡ true
  pub elements-array : (items : List json.Value) → json.elements (json.array items) ≡ items
  pub member-object :
      (key : Bytes) (entries : List (Bytes × json.Value))
      → json.member key (json.object entries) ≡ lookup key entries
  pub subscript-object :
      (key : Bytes) (entries : List (Bytes × json.Value)) (value : json.Value)
      → lookup key entries ≡ some value
      → json.subscript key (json.object entries) ≡ some value
  pub subscript_assign-object :
      (key : Bytes) (value : json.Value) (entries : List (Bytes × json.Value))
      → lookup key entries ≡ none
      → json.subscript_assign key value (json.object entries)
        ≡ some (json.object ((key, value) ∷ entries))
  pub is_number-signed : (n : ℕ) → json.is_number (json.signed n) ≡ true
  pub get_int-signed : (n : ℕ) → n < 2 ^ 31 → json.get_int (json.signed n) ≡ some n
  pub value_string-some :
      (key default : Bytes) (entries : List (Bytes × json.Value)) (s : Bytes)
      → lookup key entries ≡ some (json.string s)
      → json.value_string key default (json.object entries) ≡ some s
  pub value_string-none :
      (key default : Bytes) (entries : List (Bytes × json.Value))
      → lookup key entries ≡ none
      → json.value_string key default (json.object entries) ≡ some default
  -- The conversion to `int` keeps the low 32 bits.
  pub value_int-number :
      (key : Bytes) (default : ℕ) (entries : List (Bytes × json.Value)) (n : ℕ)
      → lookup key entries ≡ some (json.number n)
      → json.value_int key default (json.object entries) ≡ some (n % 2 ^ 32)
  pub value_int-signed :
      (key : Bytes) (default : ℕ) (entries : List (Bytes × json.Value)) (n : ℕ)
      → lookup key entries ≡ some (json.signed n)
      → json.value_int key default (json.object entries) ≡ some (n % 2 ^ 32)
  pub value_int-none :
      (key : Bytes) (default : ℕ) (entries : List (Bytes × json.Value))
      → lookup key entries ≡ none
      → json.value_int key default (json.object entries) ≡ some default
  pub value_uint64-number :
      (key : Bytes) (default : ℕ) (entries : List (Bytes × json.Value)) (n : ℕ)
      → lookup key entries ≡ some (json.number n)
      → json.value_uint64 key default (json.object entries) ≡ some n
  pub value_time-signed :
      (key : Bytes) (default : ℕ) (entries : List (Bytes × json.Value)) (n : ℕ)
      → lookup key entries ≡ some (json.signed n)
      → json.value_time key default (json.object entries) ≡ some n
  pub parse-dump_indented :
      (value : json.Value) (text : Bytes)
      → IsPlain value
      → json.dump_indented value ≡ some text
      → json.parse text ≡ some value
