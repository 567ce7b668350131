-- ===== src/Http.antt =====
-- What the request handlers (src/agent/agent_handler.cpp, src/gateway/gateway_handler.cpp) use of
-- Boost.Beast and of the HTTP client, as parameters.
use drlog_search.Base.{
  ℕ, Bool, true, false, Option, none, some, Bytes, ◌≡◌, refl, if◌then◌else◌, [], codes, eqb,
}
use drlog_search.Json.{Json}
use drlog_search.Util.Gzip.{Zlib, compress_body}

-- `co_return` of a value; an exception; and, of the model alone, what has no result: undefined
-- behaviour or the end of the fuel.
pub data Outcome {ℓ} (A : Type ℓ) : Type ℓ where
  returned : A → Outcome A
  thrown stuck : Outcome A

-- A call of a library, which may throw.
abbrev pub called {ℓ} : {A : Type ℓ} → Option A → Outcome A
called none = thrown
called (some a) = returned a

infixl 5 ◌>>=◌
abbrev pub ◌>>=◌ {ℓ κ} : {A : Type ℓ} {B : Type κ} → Outcome A → (A → Outcome B) → Outcome B
returned a >>= f = f a
thrown >>= f = thrown
stuck >>= f = stuck

-- Of what is returned, if anything is.
abbrev pub Returns {ℓ κ} : {A : Type ℓ} → (A → Type κ) → Outcome A → Type κ
Returns P (returned a) = P a
Returns P thrown = Unit
Returns P stuck = Unit

pub Returns-bind {ℓ κ μ} :
    {A : Type ℓ} {B : Type κ} (P : B → Type μ) (m : Outcome A) (f : A → Outcome B)
    → ((a : A) → Returns P (f a))
    → Returns P (m >>= f)
Returns-bind P (returned a) f h = h a
Returns-bind P thrown f h = tt
Returns-bind P stuck f h = tt

pub Returns-then {ℓ κ μ ν} :
    {A : Type ℓ} {B : Type κ} (P : A → Type μ) (Q : B → Type ν) (m : Outcome A) (f : A → Outcome B)
    → Returns P m
    → ((a : A) → P a → Returns Q (f a))
    → Returns Q (m >>= f)
Returns-then P Q (returned a) f h k = k a h
Returns-then P Q thrown f h k = tt
Returns-then P Q stuck f h k = tt

-- Two continuations that agree on what may be returned.
pub bind-ext {ℓ κ μ} :
    {A : Type ℓ} {B : Type κ} (P : A → Type μ) (m : Outcome A) (f g : A → Outcome B)
    → Returns P m
    → ((a : A) → P a → f a ≡ g a)
    → (m >>= f) ≡ (m >>= g)
bind-ext P (returned a) f g h k = k a h
bind-ext P thrown f g h k = refl
bind-ext P stuck f g h k = refl

-- There is a result, if only an exception.
abbrev pub Answers {ℓ} : {A : Type ℓ} → Outcome A → Type 0
Answers (returned a) = Unit
Answers thrown = Unit
Answers stuck = ⊥

pub Answers-called {ℓ} : {A : Type ℓ} (o : Option A) → Answers (called o)
Answers-called none = tt
Answers-called (some a) = tt

pub Answers-bind {ℓ κ} :
    {A : Type ℓ} {B : Type κ} (m : Outcome A) (f : A → Outcome B)
    → Answers m
    → ((a : A) → Answers (f a))
    → Answers (m >>= f)
Answers-bind (returned a) f h k = k a
Answers-bind thrown f h k = tt
Answers-bind stuck f h k = h

pub Answers-then {ℓ κ μ} :
    {A : Type ℓ} {B : Type κ} (P : A → Type μ) (m : Outcome A) (f : A → Outcome B)
    → Answers m
    → Returns P m
    → ((a : A) → P a → Answers (f a))
    → Answers (m >>= f)
Answers-then P (returned a) f h p k = k a p
Answers-then P thrown f h p k = tt
Answers-then P stuck f h p k = h

pub Answers-if {ℓ} :
    {A : Type ℓ} (b : Bool) (x y : Outcome A) → Answers x → Answers y → Answers (if b then x else y)
Answers-if true x y h k = h
Answers-if false x y h k = k

pub Returns-if {ℓ κ} :
    {A : Type ℓ} (P : A → Type κ) (b : Bool) (x y : Outcome A)
    → Returns P x
    → Returns P y
    → Returns P (if b then x else y)
Returns-if P true x y h k = h
Returns-if P false x y h k = k

-- `http::verb`, as far as it is looked at.
pub data Verb : Type 0 where
  get post other_verb : Verb

abbrev pub is_get : Verb → Bool
is_get get = true
is_get _ = false

abbrev pub is_post : Verb → Bool
is_post post = true
is_post _ = false

-- A request with its context: `param` is `get_param`, and `accept_encoding` the header, if there is
-- one.
pub record Request : Type 0 where
  pub verb : Verb
  pub path : Bytes
  pub prefix_path : Bytes
  pub param : Bytes → Bytes
  pub body : Bytes
  pub accept_encoding : Option Bytes

pub record Response : Type 0 where
  pub result : ℕ
  pub body : Bytes
  pub content_type : Bytes
  pub content_encoding : Bytes
  pub is_prepared : Bool

-- `catch (...)`
unfoldable pub caught : Response → Outcome Response → Option Response
caught res (returned r) = some r
caught res thrown = some (record res { result = 500 })
caught res stuck = none

pub caught-Answers :
    (res : Response) (o : Outcome Response) → Answers o → (r : Response) × (caught res o ≡ some r)
unfolding caught
caught-Answers res (returned r) h = (r, refl)
caught-Answers res thrown h = (record res { result = 500 }, refl)
caught-Answers res stuck h = absurd h

-- A reply to a request of `bst::http_client_async`, with the header Content-Encoding if there is
-- one.
pub record Reply : Type 0 where
  pub status : ℕ
  pub body : Bytes
  pub content_encoding : Option Bytes

-- What other hosts answer to a URL, and to a URL and a body; `none` is an exception.
pub record Client : Type 0 where
  pub get : Bytes → Option Reply
  pub post : Bytes → Bytes → Option Reply

-- The constant `operator[]`, whose behaviour on a missing key is undefined.
unfoldable pub const_subscript : (json : Json) → Bytes → json.Value → Outcome json.Value
const_subscript json key value = elim (json.is_object value) [
  | true ↦ elim (json.member key value) [ none ↦ stuck | some v ↦ returned v ]
  | false ↦ thrown
]

-- `compress_body` of either handler, where the request accepts an encoding: the body and its
-- encoding.
unfoldable pub packed : Zlib → Bytes → Option Bytes → Bytes × Bytes
packed zlib body none = (body, [])
packed zlib body (some accept_encoding) =
    let (output, content_encoding) = compress_body zlib body accept_encoding [] [] in
    if eqb content_encoding (codes "gzip") then (output, content_encoding) else (body, [])
