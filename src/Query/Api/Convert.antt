-- ===== src/Query/Api/Convert.antt =====
-- handlers.go: the response's data. The labels of an item are a Go map, an association list; a point's
-- time is in milliseconds, and the number keeps its value (the code divides by 1000 and prints).
use prom_sketch_distributed.Common.{
  put, String, ◌&&◌, none, some, List, [], ◌∷◌, ◌++◌, map, str_eq, if◌then◌else◌,
}
use prom_sketch_distributed.Query.Parser.{match_equal, LabelMatcher, QueryInfo}
use prom_sketch_distributed.Query.Router.{
  Point, Vector, sketch, backend, vector, vectors, from_backend, QueryResult,
}
use prom_sketch_distributed.Backfill.Convert.{
  Json, json_string, json_array, json_object, JsonList, no_items, item, JsonFields, no_fields,
  field, get_field, as_array, as_object,
}

abbrev pub Metric : Type 0
Metric = List (String × String)

-- A point of the sketches, or what the backend's JSON has there.
pub data Value (F : Type 0) : Type 0 where
  point : Point F → Value F
  from_json : Json F → Value F

pub record ItemResult (F : Type 0) : Type 0 where
  pub metric : Metric
  pub values : List (Value F)

-- QueryData and QueryRangeData: the items of a vector, and of a matrix.
abbrev pub QueryData : Type 0 → Type 0
QueryData F = List (ItemResult F)

abbrev pub QueryRangeData : Type 0 → Type 0
QueryRangeData F = List (ItemResult F)

pub data Warning : Type 0 where
  approximation : String → Warning
  after_sketch_miss : Warning

-- The loop of reconstructLabelsFromQuery over the matchers.
unfoldable pub put_matchers : List LabelMatcher → Metric → Metric
unfolding put
put_matchers [] m = m
put_matchers (l ∷ ls) m = elim l.match_type [
  | match_equal ↦ put_matchers ls (put l.name l.value m)
  | _ ↦ put_matchers ls m
]

unfoldable pub reconstruct_labels_from_query : {F : Type 0} → QueryInfo F → Metric
unfolding put_matchers
reconstruct_labels_from_query info =
    put_matchers info.label_matchers
      (if str_eq info.metric_name "" then [] else put "__name__" info.metric_name [])

module _ {F : Type 0} where
  unfoldable pub vector_items : Metric → List (Point F) → List (ItemResult F)
  vector_items labels [] = []
  vector_items labels (p ∷ ps) =
      record { metric = labels; values = point p ∷ [] } ∷ vector_items labels ps

  -- The texts among the labels of an item of the backend.
  unfoldable pub metric_of : JsonFields F → Metric
  metric_of no_fields = []
  metric_of (field k (json_string v) rest) = put k v (metric_of rest)
  metric_of (field k _ rest) = metric_of rest

  unfoldable pub item_metric : JsonFields F → Metric
  unfolding metric_of as_object get_field
  item_metric fs = elim (as_object (get_field "metric" fs)) [ none ↦ [] | some m ↦ metric_of m ]

  unfoldable pub item_value : JsonFields F → List (Value F)
  item_value fs = elim (as_array (get_field "value" fs)) [
    | none ↦ []
    | some xs ↦ from_json (json_array xs) ∷ []
  ]

  -- The pairs among the values of an item.
  unfoldable pub arrays_of : JsonList F → List (Value F)
  arrays_of no_items = []
  arrays_of (item (json_array xs) rest) = from_json (json_array xs) ∷ arrays_of rest
  arrays_of (item _ rest) = arrays_of rest

  unfoldable pub item_values : JsonFields F → List (Value F)
  unfolding arrays_of
  item_values fs = elim (as_array (get_field "values" fs)) [ none ↦ [] | some xs ↦ arrays_of xs ]

  -- The loop over the backend's items, with what is taken of each.
  unfoldable pub json_items : (JsonFields F → List (Value F)) → JsonList F → List (ItemResult F)
  unfolding item_metric
  json_items values no_items = []
  json_items values (item (json_object fs) rest) =
      record { metric = item_metric fs; values = values fs } ∷ json_items values rest
  json_items values (item _ rest) = json_items values rest

  unfoldable pub convert_to_query_data : QueryResult F (Json F) → QueryData F
  unfolding vector_items json_items item_value reconstruct_labels_from_query
  convert_to_query_data r = elim r.answer [
    | vector ps ↦ vector_items (reconstruct_labels_from_query r.query_info) ps
    | vectors _ ↦ []
    | from_backend (json_array xs) ↦ json_items item_value xs
    | from_backend _ ↦ []
  ]

  unfoldable pub points_of : List (Vector F) → List (Value F)
  points_of [] = []
  points_of (none ∷ rest) = points_of rest
  points_of (some ps ∷ rest) = map (λ p. point p) ps ++ points_of rest

  -- All points of a range query of the sketches are one series, and no series if there is none.
  unfoldable pub range_item : Metric → List (Value F) → List (ItemResult F)
  range_item labels [] = []
  range_item labels (v ∷ vs) = record { metric = labels; values = v ∷ vs } ∷ []

  unfoldable pub convert_to_query_range_data : QueryResult F (Json F) → QueryRangeData F
  unfolding range_item points_of item_values
  convert_to_query_range_data r = elim r.answer [
    | vector _ ↦ []
    | vectors vs ↦ range_item (reconstruct_labels_from_query r.query_info) (points_of vs)
    | from_backend (json_array xs) ↦ json_items item_values xs
    | from_backend _ ↦ []
  ]

  unfoldable pub build_warnings : QueryResult F (Json F) → List Warning
  build_warnings r = elim r.source [
    | sketch ↦ approximation "sketch" ∷ []
    | backend ↦
        if r.sketch_attempted && r.sketch_miss
        then approximation "backend_fallback" ∷ after_sketch_miss ∷ []
        else []
  ]
