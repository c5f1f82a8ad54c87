-- ===== src/Samples/Messages.antt =====
-- A codec of the emserver protocol's messages that is easy to follow: fields stand one after the
-- other, each with what is needed to read it back.
pub mod Answers
use emserver.Common.{has}
use emserver.Base.{
  ◌≢◌, ◌&&◌, ℕ, zero, suc, ◌≡◌, refl, ap, ◌∙◌, List, [], ◌∷◌, length, Option, none, some, Bool,
  true, false, Bytes, ℤ, pos, negsuc,
}
use emserver.Emserver.Proto.{
  Codec, EmserverCodec, server_common_is_initialized, SensorsType, st_unknown, st_dry_contact,
  st_temperature, SensorConfiguration, ServerCommonMessage,
}

-- A way to write a value in front of bytes, and to read it from there.
record Field (A : Type 0) : Type 0 where
  put : A → Bytes → Bytes
  get : Bytes → Option (A × Bytes)
  get-put : (a : A) (rest : Bytes) → get (put a rest) ≡ some (a, rest)

get_number : Bytes → Option (ℕ × Bytes)
get_number [] = none
get_number (b ∷ bs) = some (b, bs)

number : Field ℕ
unfolding get_number
number = record { put = ◌∷◌; get = get_number; get-put = λ a rest. refl }

put_int : ℤ → Bytes → Bytes
put_int (pos n) rest = 0 ∷ n ∷ rest
put_int (negsuc n) rest = 1 ∷ n ∷ rest

get_int : Bytes → Option (ℤ × Bytes)
get_int (zero ∷ n ∷ rest) = some (pos n, rest)
get_int (suc m ∷ n ∷ rest) = some (negsuc n, rest)
get_int _ = none

get-put_int : (a : ℤ) (rest : Bytes) → get_int (put_int a rest) ≡ some (a, rest)
unfolding put_int get_int
get-put_int (pos n) rest = refl
get-put_int (negsuc n) rest = refl

int : Field ℤ
int = record { put = put_int; get = get_int; get-put = get-put_int }

put_bool : Bool → Bytes → Bytes
put_bool false rest = 0 ∷ rest
put_bool true rest = 1 ∷ rest

get_bool : Bytes → Option (Bool × Bytes)
get_bool (zero ∷ rest) = some (false, rest)
get_bool (suc m ∷ rest) = some (true, rest)
get_bool [] = none

get-put_bool : (a : Bool) (rest : Bytes) → get_bool (put_bool a rest) ≡ some (a, rest)
unfolding put_bool get_bool
get-put_bool true rest = refl
get-put_bool false rest = refl

bool : Field Bool
bool = record { put = put_bool; get = get_bool; get-put = get-put_bool }

put_type : SensorsType → Bytes → Bytes
put_type st_unknown rest = 0 ∷ rest
put_type st_dry_contact rest = 1 ∷ rest
put_type st_temperature rest = 2 ∷ rest

get_type : Bytes → Option (SensorsType × Bytes)
get_type [] = none
get_type (zero ∷ rest) = some (st_unknown, rest)
get_type (suc zero ∷ rest) = some (st_dry_contact, rest)
get_type (suc (suc m) ∷ rest) = some (st_temperature, rest)

get-put_type : (a : SensorsType) (rest : Bytes) → get_type (put_type a rest) ≡ some (a, rest)
unfolding put_type get_type
get-put_type st_unknown rest = refl
get-put_type st_dry_contact rest = refl
get-put_type st_temperature rest = refl

sensors_type : Field SensorsType
sensors_type = record { put = put_type; get = get_type; get-put = get-put_type }

module _ {A : Type 0} (field : Field A) where
  put_option : Option A → Bytes → Bytes
  put_option none rest = 0 ∷ rest
  put_option (some a) rest = 1 ∷ field.put a rest

  wrap_some : Option (A × Bytes) → Option (Option A × Bytes)
  wrap_some none = none
  wrap_some (some (a, rest)) = some (some a, rest)

  get_option : Bytes → Option (Option A × Bytes)
  get_option [] = none
  get_option (zero ∷ rest) = some (none, rest)
  get_option (suc m ∷ rest) = wrap_some (field.get rest)

  get-put_option : (a : Option A) (rest : Bytes) → get_option (put_option a rest) ≡ some (a, rest)
  unfolding put_option get_option wrap_some
  get-put_option none rest = refl
  get-put_option (some a) rest = ap wrap_some (field.get-put a rest)

  option : Field (Option A)
  option = record { put = put_option; get = get_option; get-put = get-put_option }

  put_all : List A → Bytes → Bytes
  put_all [] rest = rest
  put_all (a ∷ items) rest = field.put a (put_all items rest)

  put_front : A → Option (List A × Bytes) → Option (List A × Bytes)
  put_front a none = none
  put_front a (some (items, rest)) = some (a ∷ items, rest)

  get_many : ℕ → Bytes → Option (List A × Bytes)
  get_many zero bs = some ([], bs)
  get_many (suc n) bs = elim (field.get bs) [
    | none ↦ none
    | some x ↦ put_front x.0 (get_many n x.1)
  ]

  get_many-put_all :
      (items : List A) (rest : Bytes)
      → get_many (length items) (put_all items rest) ≡ some (items, rest)
  unfolding put_all get_many put_front
  get_many-put_all [] rest = refl
  get_many-put_all (a ∷ items) rest =
      rw (field.get-put a (put_all items rest), get_many-put_all items rest)

  get_list : Bytes → Option (List A × Bytes)
  get_list [] = none
  get_list (n ∷ bs) = get_many n bs

  list : Field (List A)
  unfolding get_list
  list = record {
    put = λ items rest. length items ∷ put_all items rest;
    get = get_list;
    get-put = get_many-put_all;
  }

module _ {A B : Type 0} (first : Field A) (second : Field B) where
  get_pair : Bytes → Option ((A × B) × Bytes)
  get_pair bs = elim (first.get bs) [
    | none ↦ none
    | some x ↦ elim (second.get x.1) [ none ↦ none | some y ↦ some ((x.0, y.0), y.1) ]
  ]

  pair : Field (A × B)
  unfolding get_pair
  pair = record {
    put = λ ab rest. first.put ab.0 (second.put ab.1 rest);
    get = get_pair;
    get-put = λ ab rest.
        rw (get_pair, first.get-put ab.0 (second.put ab.1 rest), second.get-put ab.1 rest);
  }

bytes : Field Bytes
unfolding list
bytes = list number

-- The messages of type `M`, by their fields as a value of `A`.
module _ {A M : Type 0} (field : Field A) (fields : M → A) (message : A → M) (unread : A) where
  parsed : Option (A × Bytes) → M × Bool
  parsed none = (message unread, false)
  parsed (some (a, rest)) = (message a, true)

  by_fields :
      ((m : M) → message (fields m) ≡ m) → (is_initialized : M → Bool) → Codec M is_initialized
  unfolding parsed
  by_fields same is_initialized = record {
    serialize = λ m. field.put (fields m) [];
    parse = λ bs. parsed (field.get bs);
    parse-serialize =
        λ m h. ap parsed (field.get-put (fields m) []) ∙ ap (λ m'. (m', true)) (same m);
  }

int_option : Field (Option ℤ)
unfolding option
int_option = option int

bytes_option : Field (Option Bytes)
unfolding option
bytes_option = option bytes

type_option : Field (Option SensorsType)
unfolding option
type_option = option sensors_type

sensor_field : Field (Option ℤ × (Option SensorsType × Option Bytes))
sensor_field = pair int_option (pair type_option bytes_option)

configuration_fields : SensorConfiguration → Option ℤ × (Option SensorsType × Option Bytes)
configuration_fields c = (c.id, (c.type, c.specific_configuration))

to_configuration : Option ℤ × (Option SensorsType × Option Bytes) → SensorConfiguration
to_configuration x = record { id = x.0; type = x.1.0; specific_configuration = x.1.1 }

configuration_field : Field SensorConfiguration
unfolding configuration_fields to_configuration
configuration_field = record {
  put = λ c rest. sensor_field.put (configuration_fields c) rest;
  get =
      λ bs. elim (sensor_field.get bs) [ none ↦ none | some x ↦ some (to_configuration x.0, x.1) ];
  get-put = λ c rest. rw (sensor_field.get-put (configuration_fields c) rest);
}

common-not_empty :
    (m : ServerCommonMessage)
    → server_common_is_initialized m ≡ true
    → (pair (option number) (pair bytes_option int_option)).put (m.type, (m.payload, m.id)) [] ≢ []
unfolding pair option put_option
common-not_empty m h e = full m.type _ h e
  where
    full :
        (o : Option ℕ) (rest : Bytes)
        → (has o && has m.payload) ≡ true
        → put_option number o rest ≢ []
    full none rest h' = absurd (cc h')
    full (some n) rest h' = λ e'. cc e'

pub field_codec : EmserverCodec
unfolding by_fields
field_codec = record {
  server_common =
      by_fields (pair (option number) (pair bytes_option int_option))
        (λ m. (m.type, (m.payload, m.id))) (λ x. record { type = x.0; payload = x.1.0; id = x.1.1 })
        (none, (none, none)) (λ m. refl) _;
  request = by_fields int_option (λ m. m.dummy) (λ x. record { dummy = x }) none (λ m. refl) _;
  capabilities =
      by_fields (list configuration_field) (λ m. m.system_configuration)
        (λ x. record { system_configuration = x }) [] (λ m. refl) _;
  notification =
      by_fields (pair (option number) (pair int_option bytes_option))
        (λ m. (m.method_id, (m.code, m.description)))
        (λ x. record { method_id = x.0; code = x.1.0; description = x.1.1 }) (none, (none, none))
        (λ m. refl) _;
  control =
      by_fields (list configuration_field) (λ m. m.config) (λ x. record { config = x }) []
        (λ m. refl) _;
  activated =
      by_fields sensor_field (λ m. (m.sensor_id, (m.type, m.sensor_value)))
        (λ x. record { sensor_id = x.0; type = x.1.0; sensor_value = x.1.1 }) (none, (none, none))
        (λ m. refl) _;
  dry_contact =
      by_fields (option bool) (λ m. m.state) (λ x. record { state = x }) none (λ m. refl) _;
  dry_contact_state =
      by_fields (option bool) (λ m. m.state) (λ x. record { state = x }) none (λ m. refl) _;
  temperature = by_fields int_option (λ m. m.level) (λ x. record { level = x }) none (λ m. refl) _;
  temperature_state =
      by_fields int_option (λ m. m.value) (λ x. record { value = x }) none (λ m. refl) _;
  server_common-not_empty = common-not_empty;
}

-- The bytes of a request for the capabilities, and of the message with the id 7 that holds it.
pub field_codec-request : field_codec.request.serialize (record { dummy = none }) ≡ 0 ∷ []
unfolding field_codec by_fields pair option number bytes_option int_option put_option
field_codec-request = refl

pub field_codec-server_common :
    field_codec.server_common.serialize
      (record { type = some 1; payload = some (0 ∷ []); id = some (pos 7) })
    ≡ 1 ∷ 1 ∷ 1 ∷ 1 ∷ 0 ∷ 1 ∷ 0 ∷ 7 ∷ []
unfolding field_codec by_fields pair option number bytes_option bytes list int_option int put_int
    put_option put_all
field_codec-server_common = refl
