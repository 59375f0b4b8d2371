-- ===== src/Insert/Router/Quorum.antt =====
-- router.go, Insert: when a sample counts as stored, and what is counted on each branch.
use prom_sketch_distributed.Cluster.Partition.{Node, get_partition_id}
use prom_sketch_distributed.Common.{
  count, ℕ, ◌+◌, ◌%◌, ◌^◌, ◌<◌, String, ◌≡◌, refl, sym, ap, ◌∙◌, ◌↔◌, Bool, true, false, List, [],
  ◌∷◌, ◌++◌, arith, ltb, if◌then◌else◌, ltb→lt, lt→ltb, length, length-append, Elem, ℤ, is_ok,
  add_uint64, perm-count, count_pos, Elem-count, perm-length,
}
use prom_sketch_distributed.Insert.Router.{
  Label, RouterMetrics, Router, Reply, rpc_error, not_stored, stored, to_pb_labels, Progress,
  finish_insert, finish_inserts, conclude, insert_nodes, start_insert, insert_at, insert,
}
use mathlib.Core.List.{Perm}

abbrev pub is_stored : Reply → Bool
is_stored stored = true
is_stored _ = false

abbrev pub is_rpc_error : Reply → Bool
is_rpc_error (rpc_error e) = true
is_rpc_error _ = false

-- What a row of finished calls has added to the shared state.
record Tally (reply : String → Reply) (ids : List String) (s s' : Progress) : Type 0 where
  successes : s'.success_count ≡ s.success_count + count (λ id. is_stored (reply id)) ids
  outcomes : length s'.errs + s'.success_count ≡ length s.errs + s.success_count + length ids
  sent : s'.counters.rpcs_sent ≡ (s.counters.rpcs_sent + length ids) % 2 ^ 64
  failed :
      s'.counters.rpcs_failed
      ≡ (s.counters.rpcs_failed + count (λ id. is_rpc_error (reply id)) ids) % 2 ^ 64
  routed : s'.counters.samples_routed ≡ s.counters.samples_routed
  unstored : s'.counters.samples_failed ≡ s.counters.samples_failed

-- The counters are 64-bit words.
pub record IsWord (m : RouterMetrics) : Type 0 where
  pub routed : m.samples_routed < 2 ^ 64
  pub failed : m.samples_failed < 2 ^ 64
  pub sent : m.rpcs_sent < 2 ^ 64
  pub rpc_failed : m.rpcs_failed < 2 ^ 64

length-snoc :
    (es : List (String × String)) (e : String × String) → length (es ++ e ∷ []) ≡ length es + 1
length-snoc es e = omega (arith, length-append es (e ∷ []))

finish_insert-Tally :
    (finished : String → ℕ) (reply : String → Reply) (s : Progress) (id : String) (r : Reply)
    → reply id ≡ r
    → IsWord s.counters
    → Tally reply (id ∷ []) s (finish_insert finished reply s id)
unfolding finish_insert count
finish_insert-Tally finished reply s id stored e w = ground arith
finish_insert-Tally finished reply s id (rpc_error x) e w =
    ground (arith, length-snoc s.errs (id, x))
finish_insert-Tally finished reply s id (not_stored x) e w =
    ground (arith, length-snoc s.errs (id, x))

finish_insert-IsWord :
    (finished : String → ℕ) (reply : String → Reply) (s : Progress) (id : String) (r : Reply)
    → reply id ≡ r
    → IsWord s.counters
    → IsWord (finish_insert finished reply s id).counters
unfolding finish_insert
finish_insert-IsWord finished reply s id stored e w = ground arith
finish_insert-IsWord finished reply s id (rpc_error x) e w = ground arith
finish_insert-IsWord finished reply s id (not_stored x) e w = ground arith

count-cons :
    (p : String → Bool) (x : String) (xs : List String)
    → count p (x ∷ xs) ≡ count p (x ∷ []) + count p xs
unfolding count
count-cons p x xs = ground arith

Tally-cons :
    (reply : String → Reply) (id : String) (ids : List String) (s t u : Progress)
    → Tally reply (id ∷ []) s t
    → Tally reply ids t u
    → Tally reply (id ∷ ids) s u
Tally-cons reply id ids s t u a b = record {
  successes = omega (arith, a.successes, b.successes, count-cons (λ i. is_stored (reply i)) id ids);
  outcomes = omega (arith, a.outcomes, b.outcomes);
  sent = omega (arith, a.sent, b.sent);
  failed = omega (arith, a.failed, b.failed, count-cons (λ i. is_rpc_error (reply i)) id ids);
  routed = b.routed ∙ a.routed;
  unstored = b.unstored ∙ a.unstored;
}

finish_inserts-Tally :
    (finished : String → ℕ) (reply : String → Reply) (s : Progress) (ids : List String)
    → IsWord s.counters
    → Tally reply ids s (finish_inserts finished reply s ids)
unfolding finish_inserts count
finish_inserts-Tally finished reply s [] w = ground (arith, w.sent, w.rpc_failed)
finish_inserts-Tally finished reply s (id ∷ ids) w =
    let t = finish_insert finished reply s id in
    Tally-cons reply id ids s t (finish_inserts finished reply t ids)
      (finish_insert-Tally finished reply s id (reply id) refl w)
      (finish_inserts-Tally finished reply t ids
        (finish_insert-IsWord finished reply s id (reply id) refl w))

-- The counters after an insert that sent `ids` their requests.
pub record Counted (reply : String → Reply) (ids : List String) (stored_one : Bool)
    (m m' : RouterMetrics) : Type 0 where
  pub sent : m'.rpcs_sent ≡ add_uint64 m.rpcs_sent (length ids)
  pub rpc_failed :
      m'.rpcs_failed ≡ add_uint64 m.rpcs_failed (count (λ id. is_rpc_error (reply id)) ids)
  pub routed :
      m'.samples_routed ≡ (if stored_one then add_uint64 m.samples_routed 1 else m.samples_routed)
  pub failed :
      m'.samples_failed ≡ (if stored_one then m.samples_failed else add_uint64 m.samples_failed 1)

conclude-Counted :
    (reply : String → Reply) (ids : List String) (r : Router) (p : ℤ) (s s' : Progress)
    → Tally reply ids s s'
    → s.success_count ≡ 0
    → s.counters ≡ r.metrics
    → Counted reply ids
        (ltb 0 (count (λ id. is_stored (reply id)) ids))
        r.metrics
        (conclude r p s').0.metrics
      × (is_ok (conclude r p s').1 ≡ ltb 0 (count (λ id. is_stored (reply id)) ids))
unfolding conclude
conclude-Counted reply ids r p s s' t e f = ground arith

is_stored-eq : (r : Reply) → is_stored r ≡ true → r ≡ stored
is_stored-eq stored e = refl
is_stored-eq (rpc_error x) e = cc
is_stored-eq (not_stored x) e = cc

module _ (schedule : List String → List String)
    (is_schedule : (ids : List String) → Perm (schedule ids) ids) where
  schedule-count : (q : String → Bool) (ids : List String) → count q (schedule ids) ≡ count q ids
  schedule-count q ids = perm-count q (is_schedule ids)

  Tally-schedule :
      (reply : String → Reply) (ids : List String) (s s' : Progress)
      → Tally reply (schedule ids) s s'
      → Tally reply ids s s'
  Tally-schedule reply ids s s' t = record {
    successes = omega (arith, t.successes, schedule-count (λ id. is_stored (reply id)) ids);
    outcomes = omega (arith, t.outcomes, perm-length (is_schedule ids));
    sent = omega (arith, t.sent, perm-length (is_schedule ids));
    failed = omega (arith, t.failed, schedule-count (λ id. is_rpc_error (reply id)) ids);
    routed = t.routed;
    unstored = t.unstored;
  }

  -- The router after the calls and its verdict, by the replies alone.
  insert_at-Counted :
      (asked finished : String → ℕ) (reply : String → Reply) (r : Router) (p : ℤ)
      (nodes : List Node)
      → IsWord r.metrics
      → let targets = (start_insert asked r nodes).1 in
        let answer = insert_at asked finished schedule reply r p nodes in
        let success = ltb 0 (count (λ id. is_stored (reply id)) targets) in
        Counted reply targets success r.metrics answer.0.metrics × (is_ok answer.1 ≡ success)
  unfolding insert_at count
  insert_at-Counted asked finished reply r p [] w = ground (arith, w.sent, w.rpc_failed)
  insert_at-Counted asked finished reply r p (n ∷ ns) w =
      let (hc, targets) = start_insert asked r (n ∷ ns) in
      let s : Progress = record {
        checker = hc;
        counters = r.metrics;
        errs = [];
        success_count = 0;
      } in
      let s' = finish_inserts finished reply s (schedule targets) in
      conclude-Counted reply targets r p s s'
        (Tally-schedule reply targets s s'
          (finish_inserts-Tally finished reply s (schedule targets) w))
        refl refl

  insert_at_quorum :
      (asked finished : String → ℕ) (reply : String → Reply) (r : Router) (p : ℤ)
      (nodes : List Node)
      → IsWord r.metrics
      → (is_ok (insert_at asked finished schedule reply r p nodes).1 ≡ true)
        ↔ ((id : String) × Elem id (start_insert asked r nodes).1 × (reply id ≡ stored))
  insert_at_quorum asked finished reply r p nodes w =
      let targets = (start_insert asked r nodes).1 in
      let stores : String → Bool = λ id. is_stored (reply id) in
      let (_, verdict) = insert_at-Counted asked finished reply r p nodes w in
      (
        λ good.
            let (id, m, e) = count_pos stores targets (ltb→lt _ _ (sym verdict ∙ good)) in
            (id, m, is_stored-eq (reply id) e),
        λ (id, m, e). verdict ∙ lt→ltb _ _ (Elem-count stores targets id m (ap is_stored e)),
      )

  insert_at_counters :
      (asked finished : String → ℕ) (reply : String → Reply) (r : Router) (p : ℤ)
      (nodes : List Node)
      → IsWord r.metrics
      → Counted reply
          (start_insert asked r nodes).1
          (is_ok (insert_at asked finished schedule reply r p nodes).1)
          r.metrics
          (insert_at asked finished schedule reply r p nodes).0.metrics
  insert_at_counters asked finished reply r p nodes w =
      let (counted, verdict) = insert_at-Counted asked finished reply r p nodes w in
      rw verdict counted

unfoldable pub targets_of :
    (String → ℕ) → (List Label → String → String) → (String → ℕ) → Router → List Label → List String
targets_of xxhash get_label asked r lbls =
    (start_insert asked r (insert_nodes xxhash get_label r lbls)).1

module _ {F : Type 0} (xxhash : String → ℕ) (get_label : List Label → String → String)
    (asked finished : String → ℕ) (schedule : List String → List String)
    (is_schedule : (ids : List String) → Perm (schedule ids) ids)
    (rpc : String → List Label → ℤ → F → Reply) (r : Router) (lbls : List Label) (timestamp : ℤ)
    (value : F) (words : IsWord r.metrics) where
  -- Whatever the order in which the replies come in, an insert succeeds exactly when one of the
  -- nodes that it was sent to has stored the sample (a write quorum of one).
  pub insert_quorum :
      (is_ok (insert xxhash get_label asked finished schedule rpc r lbls timestamp value).1 ≡ true)
      ↔ ((id : String) × Elem id (targets_of xxhash get_label asked r lbls)
          × (rpc id (to_pb_labels lbls) timestamp value ≡ stored))
  unfolding insert targets_of
  insert_quorum =
      insert_at_quorum schedule is_schedule asked finished
        (λ id. rpc id (to_pb_labels lbls) timestamp value) r
        (get_partition_id xxhash r.partitioner (get_label lbls "__name__"))
        (insert_nodes xxhash get_label r lbls) words

  -- Every insert counts one sample as routed or as failed, by its verdict, one call for each node
  -- that it was sent to, and one failed call for each of them that came back with an error; the
  -- counters wrap at 64 bits.
  pub insert-Counted :
      Counted
        (λ id. rpc id (to_pb_labels lbls) timestamp value)
        (targets_of xxhash get_label asked r lbls)
        (is_ok (insert xxhash get_label asked finished schedule rpc r lbls timestamp value).1)
        r.metrics
        (insert xxhash get_label asked finished schedule rpc r lbls timestamp value).0.metrics
  unfolding insert targets_of
  insert-Counted =
      insert_at_counters schedule is_schedule asked finished
        (λ id. rpc id (to_pb_labels lbls) timestamp value) r
        (get_partition_id xxhash r.partitioner (get_label lbls "__name__"))
        (insert_nodes xxhash get_label r lbls) words
