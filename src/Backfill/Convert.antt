-- ===== src/Backfill/Convert.antt =====
-- backfill.go, convertAndSendToTarget: the JSON of a query's result as series to write. Floats are of
-- type `F`; the reading of a float, the conversion of seconds to milliseconds, and the remote write
-- are parameters. An object is a Go map, whose fields have different names and no order: `ranged` gives
-- the order in which one `range` over it visits them.
pub mod Matrix
use prom_sketch_distributed.Common.{
  ℕ, ◌+◌, String, Bool, Option, none, some, map_option, List, [], ◌∷◌, str_eq, if◌then◌else◌,
  length, ℤ, Result, ok, err,
}
use prom_sketch_distributed.Insert.Router.{Label}
use prom_sketch_distributed.Insert.Batch.{Sample, TimeSeries}
use mathlib.Core.List.{filter_map}

mutual
  pub data Json (F : Type 0) : Type 0 where
    json_null : Json F
    json_bool : Bool → Json F
    json_number : F → Json F
    json_string : String → Json F
    json_array : JsonList F → Json F
    json_object : JsonFields F → Json F

  pub data JsonList (F : Type 0) : Type 0 where
    no_items : JsonList F
    item : Json F → JsonList F → JsonList F

  pub data JsonFields (F : Type 0) : Type 0 where
    no_fields : JsonFields F
    field : String → Json F → JsonFields F → JsonFields F

pub data ConvertError (E : Type 0) : Type 0 where
  unexpected_format : ConvertError E
  write_failed : E → ConvertError E

module _ {F : Type 0} where
  -- m[k] of a decoded object
  unfoldable pub get_field : String → JsonFields F → Option (Json F)
  get_field k no_fields = none
  get_field k (field j v rest) = if str_eq k j then some v else get_field k rest

  unfoldable pub fields_of : JsonFields F → List (String × Json F)
  fields_of no_fields = []
  fields_of (field k v rest) = (k, v) ∷ fields_of rest

  unfoldable pub text_label : String × Json F → Option Label
  text_label (k, json_string v) = some (record { name = k; value = v })
  text_label (k, _) = none

  -- The labels whose values are texts, in the order in which the map is visited.
  unfoldable pub read_labels :
      (List (String × Json F) → List (String × Json F)) → JsonFields F → List Label
  unfolding fields_of text_label
  read_labels ranged fs = filter_map text_label (ranged (fields_of fs))

  unfoldable pub as_array : Option (Json F) → Option (JsonList F)
  as_array (some (json_array xs)) = some xs
  as_array _ = none

  unfoldable pub as_object : Option (Json F) → Option (JsonFields F)
  as_object (some (json_object fs)) = some fs
  as_object _ = none

  -- The values of an item: a single value, where there are none, is a pair of a time and a text.
  unfoldable pub values_of : JsonFields F → JsonList F
  unfolding get_field as_array
  values_of fs = elim (as_array (get_field "values" fs)) [
    | some xs ↦ xs
    | none ↦ elim (as_array (get_field "value" fs)) [ some xs ↦ xs | none ↦ no_items ]
  ]

module _ {F : Type 0} (scan : String → F) (to_milliseconds : F → ℤ)
    (ranged : List (String × Json F) → List (String × Json F)) where
  unfoldable pub read_value : Json F → Option F
  read_value (json_string v) = some (scan v)
  read_value (json_number v) = some v
  read_value _ = none

  -- A pair of a time and a value; anything else is passed over.
  unfoldable pub read_sample : Json F → Option (Sample F)
  unfolding read_value
  read_sample (json_array (item (json_number t) (item v no_items))) =
      map_option (λ x. record { timestamp = to_milliseconds t; sample_value = x }) (read_value v)
  read_sample _ = none

  unfoldable pub read_samples : JsonList F → List (Sample F)
  unfolding read_sample
  read_samples no_items = []
  read_samples (item v rest) = elim (read_sample v) [
    | some x ↦ x ∷ read_samples rest
    | none ↦ read_samples rest
  ]

  -- An item with labels and a sample at least.
  unfoldable pub read_series : Json F → Option (TimeSeries F)
  unfolding read_samples values_of read_labels as_object
  read_series (json_object fs) = elim (as_object (get_field "metric" fs)) [
    | none ↦ none
    | some metric ↦ elim (read_samples (values_of fs)) [
      | [] ↦ none
      | x ∷ xs ↦ some (record { labels = read_labels ranged metric; samples = x ∷ xs })
    ]
  ]
  read_series _ = none

  unfoldable pub read_all : JsonList F → List (TimeSeries F)
  unfolding read_series
  read_all no_items = []
  read_all (item v rest) = elim (read_series v) [
    | some ts ↦ ts ∷ read_all rest
    | none ↦ read_all rest
  ]

  unfoldable pub count_samples : List (TimeSeries F) → ℕ
  count_samples [] = 0
  count_samples (ts ∷ series) = length ts.samples + count_samples series

  unfoldable pub convert_and_send :
      {E : Type 0} → (List (TimeSeries F) → Option E) → Json F → Result (ConvertError E) ℕ
  unfolding read_all count_samples
  convert_and_send send_remote_write (json_array data_items) = elim (read_all data_items) [
    | [] ↦ ok 0
    | ts ∷ series ↦ elim (send_remote_write (ts ∷ series)) [
      | some e ↦ err (write_failed e)
      | none ↦ ok (count_samples (ts ∷ series))
    ]
  ]
  convert_and_send send_remote_write _ = err unexpected_format
