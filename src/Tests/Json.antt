-- ===== src/Tests/Json.antt =====
-- A small JSON library: its values are texts, an array or an object the list of what is in it, each
-- text behind its length.
use drlog_search.Base.{
  ℕ, zero, suc, ◌%◌, ◌^◌, ◌≤◌, Bool, true, false, Option, none, some, List, [], ◌∷◌, ◌++◌, Bytes,
  ◌≡◌, refl, ap, arith, take, drop, length, length-append, drop-append, ◌==◌, ◌||◌, if◌then◌else◌,
  is_empty, eqb, Bool-cases, inl, inr,
}
use drlog_search.Table.{lookup}
use drlog_search.Json.{Json, JsonLaws}
use drlog_search.Gateway.Handlers.Sorting.{Assigns}

abbrev encode : List Bytes → Bytes
encode [] = []
encode (s ∷ texts) = length s ∷ (s ++ encode texts)

abbrev decode : ℕ → Bytes → List Bytes
decode zero s = []
decode (suc fuel) [] = []
decode (suc fuel) (n ∷ s) = take n s ∷ decode fuel (drop n s)

take-append : (s t : Bytes) → take (length s) (s ++ t) ≡ s
take-append [] t = refl
take-append (c ∷ s) t = ap (◌∷◌ c) (take-append s t)

decode-encode :
    (fuel : ℕ) (texts : List Bytes) → length texts ≤ fuel → decode fuel (encode texts) ≡ texts
decode-encode zero [] h = refl
decode-encode zero (s ∷ texts) h = absurd (omega arith)
decode-encode (suc fuel) [] h = refl
decode-encode (suc fuel) (s ∷ texts) h =
    rw
      (
        take-append s (encode texts),
        drop-append s (encode texts),
        decode-encode fuel texts (omega arith),
      )
      refl

length-encode : (texts : List Bytes) → length texts ≤ length (encode texts)
length-encode [] = omega arith
length-encode (s ∷ texts) =
    let ih = length-encode texts in let l = length-append s (encode texts) in omega arith

abbrev texts_in : Bytes → List Bytes
texts_in s = decode (length s) s

texts_in-encode : (texts : List Bytes) → texts_in (encode texts) ≡ texts
texts_in-encode texts = decode-encode (length (encode texts)) texts (length-encode texts)

abbrev flat : List (Bytes × Bytes) → List Bytes
flat [] = []
flat ((key, value) ∷ entries) = key ∷ value ∷ flat entries

abbrev pairs : List Bytes → List (Bytes × Bytes)
pairs [] = []
pairs (key ∷ []) = []
pairs (key ∷ value ∷ texts) = (key, value) ∷ pairs texts

pairs-flat : (entries : List (Bytes × Bytes)) → pairs (flat entries) ≡ entries
pairs-flat [] = refl
pairs-flat ((key, value) ∷ entries) = ap (◌∷◌ (key, value)) (pairs-flat entries)

-- A value is a mark before its contents: 0 null, 1 a text, 2 a number, 3 an array, 4 an object.
abbrev contents : ℕ → Bytes → Option Bytes
contents mark [] = none
contents mark (m ∷ s) = if m == mark then some s else none

abbrev is_marked : ℕ → Bytes → Bool
is_marked mark [] = false
is_marked mark (m ∷ s) = m == mark

abbrev or_empty : Option Bytes → Bytes
or_empty none = []
or_empty (some s) = s

abbrev member_of : Bytes → Bytes → Option Bytes
member_of key value = lookup_in (contents 4 value)
  where
    lookup_in : Option Bytes → Option Bytes
    lookup_in none = none
    lookup_in (some s) = lookup key (pairs (texts_in s))

abbrev single : Option Bytes → Option ℕ
single (some (n ∷ [])) = some n
single _ = none

abbrev text_or : Bytes → Option Bytes → Option Bytes
text_or default none = some default
text_or default (some value) = contents 1 value

abbrev number_or : ℕ → Option Bytes → Option ℕ
number_or default none = some default
number_or default (some value) = single (contents 2 value)

abbrev int64_of : Bytes → Option ℕ
int64_of [] = none
int64_of (m ∷ []) = if m == 2 then some 0 else none
int64_of (m ∷ n ∷ s) = if m == 2 then some n else none

abbrev low_bits : ℕ → Option ℕ → Option ℕ
low_bits m none = none
low_bits m (some n) = some (n % m)

abbrev int_or : ℕ → Option Bytes → Option ℕ
int_or default none = some default
int_or default (some value) = low_bits (2 ^ 32) (single (contents 2 value))

abbrev found_or_null : Option Bytes → Option Bytes
found_or_null none = some (0 ∷ [])
found_or_null (some value) = some value

abbrev pub object_of : List (Bytes × Bytes) → Bytes
object_of entries = 4 ∷ encode (flat entries)

abbrev pub texts : Json
texts = record {
  Value = Bytes;
  parse = λ text. if is_empty text then none else some text;
  dump = λ value. if is_empty value then none else some value;
  dump_replace = λ value. if is_empty value then none else some value;
  dump_indented = λ value. if is_empty value then none else some value;
  is_object = is_marked 4;
  is_array = is_marked 3;
  is_number = is_marked 2;
  elements = λ value. texts_in (or_empty (contents 3 value));
  member = member_of;
  subscript = λ key value.
      if is_marked 4 value || is_marked 0 value then found_or_null (member_of key value) else none;
  subscript_assign = λ key x value.
      if is_marked 4 value
      then some (object_of ((key, x) ∷ pairs (texts_in (or_empty (contents 4 value)))))
      else none;
  get_uint64 = λ value. single (contents 2 value);
  get_int64 = int64_of;
  get_int = λ value. low_bits (2 ^ 32) (single (contents 2 value));
  get_string = contents 1;
  value_string = λ key default value. text_or default (member_of key value);
  value_int = λ key default value. int_or default (member_of key value);
  value_uint64 = λ key default value. number_or default (member_of key value);
  value_time = λ key default value. number_or default (member_of key value);
  array = λ items. 3 ∷ encode items;
  object = object_of;
  string = λ s. 1 ∷ s;
  number = λ n. 2 ∷ n ∷ [];
  signed = λ n. 2 ∷ n ∷ [];
}

entries_back : (entries : List (Bytes × Bytes)) → pairs (texts_in (encode (flat entries))) ≡ entries
entries_back entries = rw (texts_in-encode (flat entries)) (pairs-flat entries)

parse-dump :
    (value text : Bytes)
    → ◌≡◌ {A = Option Bytes} (if is_empty value then none else some value) (some text)
    → ◌≡◌ {A = Option Bytes} (if is_empty text then none else some text) (some value)
parse-dump [] text h = cc
parse-dump (c ∷ value) text h = let e : c ∷ value ≡ text = cc in rw (← e) refl

member_of-object :
    (key : Bytes) (entries : List (Bytes × Bytes))
    → member_of key (object_of entries) ≡ lookup key entries
member_of-object key entries = rw (entries_back entries) refl

pub texts-laws : JsonLaws texts
texts-laws = record {
  IsPlain = λ value. Unit;
  string_plain = λ s. tt;
  number_plain = λ n. tt;
  signed_plain = λ n. tt;
  array_plain = λ items h. tt;
  object_plain = λ entries h. tt;
  parse-dump = λ value text plain h. parse-dump value text h;
  dump_replace_valid = λ value text h. h;
  is_array-array = λ items. refl;
  elements-array = λ items. texts_in-encode items;
  member-object = member_of-object;
  subscript-object = λ key entries value h. (rw (entries_back entries, h) refl);
  subscript_assign-object = λ key value entries h. (rw (entries_back entries) refl);
  is_number-signed = λ n. refl;
  get_int-signed = λ n h. (let e : n % 2 ^ 32 ≡ n = omega arith in rw e refl);
  value_string-some = λ key default entries s h. (rw (entries_back entries, h) refl);
  value_string-none = λ key default entries h. (rw (entries_back entries, h) refl);
  value_int-number = λ key default entries n h. (rw (entries_back entries, h) refl);
  value_int-signed = λ key default entries n h. (rw (entries_back entries, h) refl);
  value_int-none = λ key default entries h. (rw (entries_back entries, h) refl);
  value_uint64-number = λ key default entries n h. (rw (entries_back entries, h) refl);
  value_time-signed = λ key default entries n h. (rw (entries_back entries, h) refl);
  parse-dump_indented = λ value text plain h. parse-dump value text h;
}

lookup_behind :
    (key other x : Bytes) (entries : List (Bytes × Bytes))
    → eqb other key ≡ false
    → lookup other ((key, x) ∷ entries) ≡ lookup other entries
unfolding lookup
lookup_behind key other x entries h = rw h refl

keeps_others :
    (key other x value changed : Bytes)
    → eqb other key ≡ false
    → texts.subscript_assign key x value ≡ some changed
    → member_of other changed ≡ member_of other value
keeps_others key other x [] changed h e =
    absurd (let z : ◌≡◌ {A = Option Bytes} none (some changed) = e in cc)
keeps_others key other x (m ∷ s) changed h e = elim (Bool-cases (m == 4)) [
  | inl y ↦
      let entries = (key, x) ∷ pairs (texts_in s) in
      let made : texts.subscript_assign key x (m ∷ s) ≡ some (object_of entries) = rw y refl in
      let same : changed ≡ object_of entries = cc in
      rw (same, member_of-object other entries, y)
        (lookup_behind key other x (pairs (texts_in s)) h)
  | inr n ↦ absurd (let made : texts.subscript_assign key x (m ∷ s) ≡ none = rw n refl in cc)
]

number_gets : (value : Bytes) → texts.is_number value ≡ true → (n : ℕ) × (int64_of value ≡ some n)
number_gets [] h = absurd (let z : false ≡ true = h in cc)
number_gets (m ∷ []) h = (0, rw h refl)
number_gets (m ∷ n ∷ s) h = (n, rw h refl)

pub texts-Assigns : Assigns texts
texts-Assigns = record { number_gets = number_gets; keeps_others = keeps_others }
