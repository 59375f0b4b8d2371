-- ===== src/Backfill/Convert/Matrix.antt =====
-- backfill.go: the conversion against the matrix format of Prometheus's HTTP interface.
use prom_sketch_distributed.Common.{
  String, ◌≡◌, refl, sym, ap, ◌≢◌, inl, inr, false, Option, none, some, List, [], ◌∷◌, str_eq,
  eq_iff, Bool-cases, All, ℤ,
}
use prom_sketch_distributed.Insert.Router.{Label}
use prom_sketch_distributed.Insert.Batch.{Sample, TimeSeries}
use prom_sketch_distributed.Backfill.Convert.{
  Json, json_number, json_string, json_array, json_object, JsonList, no_items, item, JsonFields,
  no_fields, field, get_field, fields_of, text_label, read_labels, as_array, as_object, values_of,
  read_value, read_sample, read_samples, read_series, read_all,
}
use mathlib.Core.List.{Perm, filter_map}
use mathlib.Core.List.Perm

module _ {F : Type 0} where
  -- The decoder's object for a field in front of others: of two with one name, the last counts.
  abbrev pub put_field : String → Json F → JsonFields F → JsonFields F
  put_field k v fs = elim (get_field k fs) [ none ↦ field k v fs | some _ ↦ fs ]

  abbrev pub encode_labels : List Label → JsonFields F
  encode_labels [] = no_fields
  encode_labels (l ∷ ls) = put_field l.name (json_string l.value) (encode_labels ls)

-- No two labels have one name.
abbrev pub DistinctNames : List Label → Type 0
DistinctNames [] = Unit
DistinctNames (l ∷ ls) = All (λ m. m.name ≢ l.name) ls × DistinctNames ls

other_name : (k j : String) → j ≢ k → str_eq k j ≡ false
other_name k j h = elim (Bool-cases (str_eq k j)) [
  | inl same ↦ absurd (h (sym ((eq_iff k j).0 same)))
  | inr e ↦ e
]

encode-cons :
    (F : Type 0) (l : Label) (ls : List Label)
    → get_field {F = F} l.name (encode_labels ls) ≡ none
    → encode_labels {F = F} (l ∷ ls) ≡ field l.name (json_string l.value) (encode_labels ls)
encode-cons F l ls e =
    ap
      (λ (found : Option (Json F)). elim found as (λ _. JsonFields F) [
        | none ↦ field l.name (json_string l.value) (encode_labels ls)
        | some _ ↦ encode_labels ls
      ])
      e

absent :
    (F : Type 0) (k : String) (ls : List Label)
    → DistinctNames ls
    → All (λ m. m.name ≢ k) ls
    → get_field {F = F} k (encode_labels ls) ≡ none
unfolding get_field
absent F k [] d h = refl
absent F k (l ∷ ls) (d, ds) (n, ns) =
    rw (encode-cons F l ls (absent F l.name ls ds d))
      (rw (other_name k l.name n, get_field) (absent F k ls ds ns))

fields-encode :
    (F : Type 0) (ls : List Label)
    → DistinctNames ls
    → filter_map text_label (fields_of {F = F} (encode_labels ls)) ≡ ls
unfolding fields_of text_label filter_map
fields-encode F [] d = refl
fields-encode F (l ∷ ls) (d, ds) =
    rw (encode-cons F l ls (absent F l.name ls ds d))
      (ap (λ rest. l ∷ rest) (fields-encode F ls ds))

-- Series with the same samples, whose labels are the same but for their order.
abbrev pub SameSeries : {F : Type 0} → List (TimeSeries F) → List (TimeSeries F) → Type 0
SameSeries [] [] = Unit
SameSeries (x ∷ xs) (y ∷ ys) = Perm x.labels y.labels × (x.samples ≡ y.samples) × SameSeries xs ys
SameSeries _ _ = ⊥

kept_series :
    {F : Type 0} (m lbls : List Label) (ys xs : List (Sample F))
    → m ≡ lbls
    → ys ≡ xs
    → xs ≢ []
    → ◌≡◌ {A = Option (TimeSeries F)}
        (elim ys [ [] ↦ none | y ∷ rest ↦ some (record { labels = m; samples = y ∷ rest }) ])
        (some (record { labels = lbls; samples = xs }))
kept_series m lbls [] xs e f h = absurd (h (sym f))
kept_series m lbls (y ∷ ys) xs e f h = rw (e, f) refl

module _ {F : Type 0} (text : F → String) (to_seconds : ℤ → F) where
  -- Each sample is its time in seconds and its value as a text.
  abbrev pub encode_samples : List (Sample F) → JsonList F
  encode_samples [] = no_items
  encode_samples (x ∷ xs) =
      item
        (json_array (
          item (json_number (to_seconds x.timestamp))
            (item (json_string (text x.sample_value)) no_items)))
        (encode_samples xs)

  abbrev pub encode_series : TimeSeries F → Json F
  encode_series ts = json_object (
      field "metric" (json_object (encode_labels ts.labels))
        (field "values" (json_array (encode_samples ts.samples)) no_fields))

  abbrev pub encode : List (TimeSeries F) → JsonList F
  encode [] = no_items
  encode (ts ∷ series) = item (encode_series ts) (encode series)

  module _ (scan : String → F) (to_milliseconds : F → ℤ)
      (ranged : List (String × Json F) → List (String × Json F)) where
    -- A sample whose time and value can be read back from what is written.
    abbrev pub Readable : Sample F → Type 0
    Readable x =
        (to_milliseconds (to_seconds x.timestamp) ≡ x.timestamp)
        × (scan (text x.sample_value) ≡ x.sample_value)

    samples-encode :
        (xs : List (Sample F))
        → All Readable xs
        → read_samples scan to_milliseconds ranged (encode_samples xs) ≡ xs
    unfolding read_samples read_sample read_value
    samples-encode [] h = refl
    samples-encode (x ∷ xs) ((time, value), hs) = rw (time, value, samples-encode xs hs) refl

    series-encode :
        (ts : TimeSeries F)
        → ts.samples ≢ []
        → All Readable ts.samples
        → read_series scan to_milliseconds ranged (encode_series ts)
          ≡ some (record ts { labels = read_labels ranged (encode_labels ts.labels) })
    unfolding read_series values_of get_field as_array as_object
    series-encode ts h r = kept_series _ _ _ ts.samples refl (samples-encode ts.samples r) h

    -- The series of a matrix, each with labels of different names, with a sample at least and with
    -- times and values that can be read back, come out of the conversion in their order, each with
    -- its samples in their order and with its labels, in whatever order the map gives them.
    pub read_all-encode :
        ((fs : List (String × Json F)) → Perm (ranged fs) fs)
        → (series : List (TimeSeries F))
        → All (λ ts. DistinctNames ts.labels × (ts.samples ≢ []) × All Readable ts.samples) series
        → SameSeries (read_all scan to_milliseconds ranged (encode series)) series
    unfolding read_all read_labels
    read_all-encode is_order [] h = tt
    read_all-encode is_order (ts ∷ series) ((d, h, r), hs) =
        let visited = Perm.filter_map text_label (is_order (fields_of (encode_labels ts.labels))) in
        rw (series-encode ts h r, read_all)
          (rw (fields-encode F ts.labels d) at visited, refl, read_all-encode is_order series hs)
