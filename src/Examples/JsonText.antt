-- ===== src/Examples/JsonText.antt =====
-- Objects without nesting that meet the interface of `Json`; the text of an object is that of its
-- texts, and a text is read as the object whose `type` it is.
use iriseus.Prelude.{
  ℕ, ◌≡◌, refl, ap, Bytes, Bool, Option, none, some, [], ◌∷◌, ◌++◌, bytes_eq, codes, arith,
}
use iriseus.Prelude.Assoc.{Assoc, lookup}
use iriseus.Json.{JsonLib}

pub data Scalar : Type 0 where
  text : Bytes → Scalar
  count : ℕ → Scalar
  truth : Bool → Scalar
  nested : Scalar

pub data Value : Type 0 where
  scalar : Scalar → Value
  fields : Assoc Bytes Scalar → Value

abbrev pub scalar_of : Value → Scalar
scalar_of (scalar s) = s
scalar_of (fields m) = nested

abbrev pub scalars : Assoc Bytes Value → Assoc Bytes Scalar
scalars [] = []
scalars ((k, v) ∷ m) = (k, scalar_of v) ∷ scalars m

abbrev pub shown : Assoc Bytes Scalar → Bytes
shown [] = []
shown ((k, text t) ∷ m) = t ++ b';' ∷ shown m
shown ((k, other) ∷ m) = shown m

abbrev pub dumped : Value → Bytes
dumped (scalar (text t)) = t
dumped (scalar other) = []
dumped (fields m) = shown m

-- A missing key gives the default, and `none` is an exception.
abbrev pub text_of : Option Scalar → Bytes → Option Bytes
text_of none d = some d
text_of (some (text t)) d = some t
text_of (some other) d = none

abbrev pub count_of : Option Scalar → ℕ → Option ℕ
count_of none d = some d
count_of (some (count n)) d = some n
count_of (some other) d = none

abbrev pub truth_of : Option Scalar → Bool → Option Bool
truth_of none d = some d
truth_of (some (truth b)) d = some b
truth_of (some other) d = none

abbrev pub field : Value → Bytes → Option (Option Scalar)
field (scalar s) key = none
field (fields m) key = some (lookup key m)

abbrev pub get {ℓ} : {A : Type ℓ} → (Option Scalar → A → Option A) → Value → Bytes → A → Option A
get f (scalar s) key d = none
get f (fields m) key d = f (lookup key m) d

lookup-scalars :
    (m : Assoc Bytes Value) (key : Bytes) (v : Value)
    → lookup key m ≡ some v
    → lookup key (scalars m) ≡ some (scalar_of v)
unfolding lookup
lookup-scalars [] key v h = ground arith
lookup-scalars ((k, u) ∷ m) key v h = ground (arith, lookup-scalars m key v)

lookup-scalars-none :
    (m : Assoc Bytes Value) (key : Bytes) → lookup key m ≡ none → lookup key (scalars m) ≡ none
unfolding lookup
lookup-scalars-none [] key h = refl
lookup-scalars-none ((k, u) ∷ m) key h = ground (arith, lookup-scalars-none m key)

pub get_text :
    (m : Assoc Bytes Value) (key d t : Bytes)
    → lookup key m ≡ some (scalar (text t))
    → get text_of (fields (scalars m)) key d ≡ some t
get_text m key d t h = ap (λ x. text_of x d) (lookup-scalars m key (scalar (text t)) h)

pub get_text_missing :
    (m : Assoc Bytes Value) (key d : Bytes)
    → lookup key m ≡ none
    → get text_of (fields (scalars m)) key d ≡ some d
get_text_missing m key d h = ap (λ x. text_of x d) (lookup-scalars-none m key h)

pub get_count :
    (m : Assoc Bytes Value) (key : Bytes) (d n : ℕ)
    → lookup key m ≡ some (scalar (count n))
    → get count_of (fields (scalars m)) key d ≡ some n
get_count m key d n h = ap (λ x. count_of x d) (lookup-scalars m key (scalar (count n)) h)

pub get_truth :
    (m : Assoc Bytes Value) (key : Bytes) (d b : Bool)
    → lookup key m ≡ some (scalar (truth b))
    → get truth_of (fields (scalars m)) key d ≡ some b
get_truth m key d b h = ap (λ x. truth_of x d) (lookup-scalars m key (scalar (truth b)) h)

abbrev pub values : JsonLib
values = record {
  Json = Value;
  object = λ m. fields (scalars m);
  string = λ t. scalar (text t);
  number = λ n. scalar (count n);
  boolean = λ b. scalar (truth b);
  dump = dumped;
  parse = λ t. some (fields ((codes "type", text t) ∷ []));
  value_string = get text_of;
  value_number = get count_of;
  value_bool = get truth_of;
  value_string_lem = get_text;
  value_string_missing = get_text_missing;
  value_number_lem = get_count;
  value_bool_lem = get_truth;
}
