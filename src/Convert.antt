-- ===== src/Convert.antt =====
-- lobbyboy/utils.py: `dict_factory`, `encoder_factory`, `confirm_dc_type` and `import_class`.
pub mod Filter
use mathlib.Core.Option
use lobbyboy.Base.{
  ℕ, Bool, true, false, ◌||◌, String, List, [], ◌∷◌, Option, none, some, ◌===◌, if◌then◌else◌,
}
use lobbyboy.Base.Dict.{Dict, insert}
use lobbyboy.Exceptions.{type_error}
use lobbyboy.Act.{Result, ok, raised, running, bind}
use lobbyboy.Text.Split.{split_double}

-- The tests of `encoder`, in their order, on a value of the language.
pub data Class : Type 0 where
  datetime date decimal path dataclass other : Class

module _ {A : Type 0} (class_of : A → Class) (strftime : String → A → A)
    (decimal_factory path_factory dataclass_factory : A → A) where
  unfoldable pub encode_as : Class → String → String → Bool → A → Result A
  encode_as datetime date_fmt dt_fmt raise_error obj = ok (strftime dt_fmt obj)
  encode_as date date_fmt dt_fmt raise_error obj = ok (strftime date_fmt obj)
  encode_as decimal date_fmt dt_fmt raise_error obj = ok (decimal_factory obj)
  encode_as path date_fmt dt_fmt raise_error obj = ok (path_factory obj)
  encode_as dataclass date_fmt dt_fmt raise_error obj = ok (dataclass_factory obj)
  encode_as other date_fmt dt_fmt raise_error obj =
      if raise_error then raised type_error else ok obj

  -- `encoder_factory(…)(obj)`
  unfoldable pub encoder_factory : String → String → Bool → A → Result A
  unfolding encode_as
  encoder_factory date_fmt dt_fmt raise_error obj =
      encode_as (class_of obj) date_fmt dt_fmt raise_error obj

-- `x in xs`
unfoldable pub is_in : String → List String → Bool
is_in x [] = false
is_in x (y ∷ ys) = x === y || is_in x ys

-- Whether an entry is left out; a key that is a text is never `None`.
unfoldable pub is_ignored : Option (List String) → Option (String → Bool) → String → Bool
unfolding is_in
is_ignored fields rule k = is_in k (Option.get_or fields []) || Option.get_or rule (λ x. false) k

module _ {V : Type 0} where
  -- `encoder(v) if encoder else v`
  unfoldable pub encoded : Option (V → Result V) → V → Result V
  encoded none v = ok v
  encoded (some encoder) v = encoder v

  -- The loop, with the entries that have been kept so far.
  unfoldable pub filter_into : (String → Bool) → (V → Result V) → Dict V → Dict V → Result (Dict V)
  unfolding insert
  filter_into ignored encode filtered [] = ok filtered
  filter_into ignored encode filtered ((k, v) ∷ d) =
      let skipped = filter_into ignored encode filtered d in
      let kept = bind (encode v) λ w. filter_into ignored encode (insert k w filtered) d in
      if ignored k then skipped else kept

  unfoldable pub dict_factory :
      Option (List String)
      → Option (String → Bool)
      → Option (V → Result V)
      → Dict V
      → Result (Dict V)
  unfolding filter_into is_ignored encoded
  dict_factory ignore_fields ignore_rule encoder d =
      filter_into (is_ignored ignore_fields ignore_rule) (encoded encoder) [] d

-- A value of a configuration: an object of the dataclass, a table, or something else.
pub data Value (C T : Type 0) : Type 0 where
  object : C → Value C T
  table : T → Value C T
  unknown : T → Value C T

-- `should_be(**value)` for a table.
unfoldable pub confirm_dc_type : {C T : Type 0} → (T → Result C) → Value C T → Result (Value C T)
confirm_dc_type should_be (object c) = ok (object c)
confirm_dc_type should_be (table t) = bind (should_be t) λ c. ok (object c)
confirm_dc_type should_be (unknown t) = ok (unknown t)

-- The two parts of a path.
unfoldable pub import_parts :
    {M K : Type 0} → (String → Result M) → (M → String → Option K) → List String → Result (Option K)
import_parts import_module getattr (module_path ∷ cls_name ∷ []) =
    bind (import_module module_path) λ m. ok (getattr m cls_name)
import_parts import_module getattr _ = ok none

-- With `importlib.import_module` and `getattr` as parameters.
unfoldable pub import_class :
    {M K : Type 0} → (String → Result M) → (M → String → Option K) → String → Result (Option K)
unfolding import_parts split_double
import_class import_module getattr cls_path =
    import_parts import_module getattr (split_double b':' cls_path)
