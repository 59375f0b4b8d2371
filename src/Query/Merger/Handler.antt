-- ===== src/Query/Merger/Handler.antt =====
-- grpc.go's Eval, as the merger's messages have it and as the server has it over its storage.
use prom_sketch_distributed.Common.{
  ℕ, String, ◌≡◌, refl, ap, Option, none, some, map_option, List, [], ◌∷◌, ℤ, Result, ok, err,
}
use prom_sketch_distributed.Insert.Router.{Label, to_pb_labels}
use prom_sketch_distributed.Storage.{Sketches, StorageError}
use prom_sketch_distributed.Storage.Reading.{SeriesResult}
use prom_sketch_distributed.Server.{
  SketchServer, copy_labels, to_eval_series, to_eval_response, handle_eval,
}
use prom_sketch_distributed.Query.Merger.{
  Sample, EvalRequest, with_pb_labels, to_prom_request, serve_eval,
}
use prom_sketch_distributed.Query.Merger
use prom_sketch_distributed.Storage.Reading
use prom_sketch_distributed.Server

copied : (ls : List Label) → copy_labels ls ≡ to_pb_labels ls
unfolding copy_labels to_pb_labels
copied [] = refl
copied (l ∷ ls) = ap (λ rest. l ∷ rest) (copied ls)

module _ {V : Type 0} where
  abbrev sample_messages : List (ℤ × V) → List (Sample V)
  sample_messages [] = []
  sample_messages ((t, v) ∷ rest) = record { time = t; number = v } ∷ sample_messages rest

  -- The storage's series as the merger has them.
  abbrev result_messages : List (SeriesResult V) → List (Merger.EvalResultSeries V)
  result_messages [] = []
  result_messages (r ∷ rest) =
      record { labels = r.labels; samples = sample_messages r.samples } ∷ result_messages rest

  -- The server's response as the merger has it.
  abbrev series_messages : List (Server.EvalResultSeries V) → List (Merger.EvalResultSeries V)
  series_messages [] = []
  series_messages (r ∷ rest) =
      record { labels = r.labels; samples = sample_messages r.samples } ∷ series_messages rest

  abbrev response_message : Server.EvalResponse V → Merger.EvalResponse V
  response_message r = record {
    samples = [];
    error = elim r.eval_error [ none ↦ "" | some e ↦ e ];
    series = series_messages r.series;
  }

module _ {S V : Type 0} (xxhash : String → ℕ) (get : List Label → String → String)
    (lib : Sketches S V) (new_labels : List Label → List Label) (error_text : StorageError → String)
    (lost : String) (s : SketchServer S) where
  series_copied :
      (rs : List (SeriesResult V))
      → with_pb_labels (result_messages rs)
        ≡ series_messages (to_eval_series xxhash get lib new_labels error_text rs)
  unfolding to_eval_series
  series_copied [] = refl
  series_copied (r ∷ rs) = rw (copied r.labels, series_copied rs) refl

  abbrev store_answer :
      Option (Result StorageError (List (SeriesResult V)))
      → Result String (List (Merger.EvalResultSeries V))
  store_answer none = err lost
  store_answer (some (err e)) = err (error_text e)
  store_answer (some (ok rs)) = ok (result_messages rs)

  -- The storage behind Eval; where it panics there is no response.
  abbrev stored_series : EvalRequest V → Result String (List (Merger.EvalResultSeries V))
  stored_series req = store_answer (
      Reading.eval_with_labels xxhash get lib new_labels s.storage req.func_name req.labels
        req.other_args req.min_time req.max_time req.cur_time)

  answered :
      (answer : Option (Result StorageError (List (SeriesResult V))))
      (store : EvalRequest V → Result String (List (Merger.EvalResultSeries V)))
      (req : EvalRequest V) (r : Server.EvalResponse V)
      → store (to_prom_request new_labels req) ≡ store_answer answer
      → map_option (to_eval_response xxhash get lib new_labels error_text) answer ≡ some r
      → serve_eval new_labels store req ≡ ok (response_message r)
  unfolding serve_eval to_eval_response
  answered none store req r e h = cc
  answered (some (err x)) store req r e h =
      let same : to_eval_response xxhash get lib new_labels error_text (err x) ≡ r = cc in
      rw (e, serve_eval) (rw (← same) refl)
  answered (some (ok rs)) store req r e h =
      let same : to_eval_response xxhash get lib new_labels error_text (ok rs) ≡ r = cc in
      rw (e, serve_eval) (rw (← same) (rw (series_copied rs) refl))

  -- Where the server's handler responds, the merger's view of the handler gives the same response.
  serve_eval-handle_eval :
      (req : EvalRequest V) (r : Server.EvalResponse V)
      → handle_eval xxhash get lib new_labels error_text s req.func_name req.labels req.other_args
          req.min_time req.max_time req.cur_time
        ≡ some r
      → serve_eval new_labels stored_series req ≡ ok (response_message r)
  unfolding handle_eval
  serve_eval-handle_eval req r h = answered _ stored_series req r refl h
