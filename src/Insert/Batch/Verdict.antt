-- ===== src/Insert/Batch/Verdict.antt =====
-- router.go, BatchInsert: when a batch is reported as failed, and where its series go.
use prom_sketch_distributed.Common.{
  count, lookup, ℕ, ◌+◌, ◌≤◌, String, ◌≡◌, refl, ◌≢◌, ◌↔◌, inl, inr, Bool, true, false, ◌&&◌, some,
  List, [], ◌∷◌, arith, if◌then◌else◌, Bool-cases, Option-cases, length, length-append, All, ok,
  is_ok, perm-count, perm-length, count-eq-length,
}
use prom_sketch_distributed.Insert.Batch.{
  TimeSeries, BatchReply, batch_error, batch_done, Groups, group_nodes, group_series, BatchProgress,
  finish_batch, finish_batches, batch_verdict, batch_insert,
}
use prom_sketch_distributed.Cluster.Health.{NodeHealth, HealthChecker, is_healthy}
use prom_sketch_distributed.Insert.Router.{Router, has_client}
use prom_sketch_distributed.Cluster.Partition.{Node}
use mathlib.Core.List.{Perm}

abbrev pub is_batch_error : BatchReply → Bool
is_batch_error (batch_error e) = true
is_batch_error (batch_done i f) = false

-- The group has a client, and its call came back with an error.
abbrev pub failed_group :
    {V : Type 0}
    → List String
    → (String → List (TimeSeries V) → BatchReply)
    → String × List (TimeSeries V)
    → Bool
failed_group clients reply (id, series) = has_client clients id && is_batch_error (reply id series)

length-finish_batch :
    (finished : String → ℕ) (id : String) (reply : BatchReply) (s : BatchProgress)
    → length (finish_batch finished id reply s).errs
      ≡ length s.errs + (if is_batch_error reply then 1 else 0)
unfolding finish_batch
length-finish_batch finished id (batch_error e) s = length-append s.errs ((id, e) ∷ [])
length-finish_batch finished id (batch_done i f) s = omega arith

length-finish_batches :
    {V : Type 0} (finished : String → ℕ) (clients : List String)
    (reply : String → List (TimeSeries V) → BatchReply) (groups : Groups V) (s : BatchProgress)
    → length (finish_batches finished clients reply groups s).errs
      ≡ length s.errs + count (failed_group clients reply) groups
unfolding finish_batches count
length-finish_batches finished clients reply [] s = omega arith
length-finish_batches finished clients reply ((id, series) ∷ groups) s =
    elim (Bool-cases (has_client clients id)) [
      | inl h ↦ ground (
        arith,
        h,
        length-finish_batches finished clients reply groups
            (finish_batch finished id (reply id series) s),
        length-finish_batch finished id (reply id series) s,
      )
      | inr h ↦ ground (arith, h, length-finish_batches finished clients reply groups s)
    ]

batch_verdict-is_ok :
    {V : Type 0} (groups : Groups V) (errs : List (String × String))
    → (is_ok (batch_verdict groups errs) ≡ false)
      ↔ ((1 ≤ length errs) × (length groups ≡ length errs))
unfolding batch_verdict
batch_verdict-is_ok groups [] = ground arith
batch_verdict-is_ok groups (e ∷ es) = ground arith

nonempty : {A : Type 0} (xs : List A) → (xs ≢ []) ↔ (1 ≤ length xs)
nonempty [] = (λ h. absurd (h refl), λ h e. omega arith)
nonempty (x ∷ xs) = (λ h. omega arith, λ h e. cc)

AllDown : HealthChecker → Type 0
AllDown hc = (id : String) (nh : NodeHealth) → lookup id hc.nodes ≡ some nh → nh.healthy ≡ false

is_healthy-AllDown :
    (now : ℕ) (hc : HealthChecker) (id : String) → AllDown hc → is_healthy now hc id ≡ (hc, false)
unfolding is_healthy AllDown
is_healthy-AllDown now hc id down = elim (Option-cases (lookup id hc.nodes)) [
  | inl e ↦ rw (e, is_healthy) refl
  | inr (nh, e) ↦ rw (e, is_healthy) (rw (down id nh e) refl)
]

group_nodes-AllDown :
    {V : Type 0} (asked : String → ℕ) (ts : TimeSeries V) (ns : List Node) (hc : HealthChecker)
    (groups : Groups V)
    → AllDown hc
    → group_nodes asked ts ns hc groups ≡ (hc, groups)
unfolding group_nodes
group_nodes-AllDown asked ts [] hc groups down = refl
group_nodes-AllDown asked ts (n ∷ ns) hc groups down =
    rw (is_healthy-AllDown (asked n.id) hc n.id down)
      (group_nodes-AllDown asked ts ns hc groups down)

group_series-AllDown :
    {V : Type 0} (xxhash : String → ℕ) (asked : TimeSeries V → String → ℕ) (r : Router)
    (series : List (TimeSeries V)) (hc : HealthChecker) (groups : Groups V)
    → AllDown hc
    → group_series xxhash asked r series hc groups ≡ (hc, groups)
unfolding group_series
group_series-AllDown xxhash asked r [] hc groups down = refl
group_series-AllDown xxhash asked r (ts ∷ series) hc groups down =
    rw (group_nodes-AllDown (asked ts) ts _ hc groups down)
      (group_series-AllDown xxhash asked r series hc groups down)

perm_nil : {A : Type 0} (xs : List A) → Perm xs [] → xs ≡ []
perm_nil [] p = refl
perm_nil (x ∷ xs) p = absurd (omega (arith, perm-length p))

module _ {V : Type 0} (xxhash : String → ℕ) (asked : TimeSeries V → String → ℕ)
    (finished : String → ℕ) (schedule : Groups V → Groups V)
    (is_schedule : (groups : Groups V) → Perm (schedule groups) groups)
    (reply : String → List (TimeSeries V) → BatchReply) (r : Router)
    (series : List (TimeSeries V)) where
  -- A batch is reported as failed exactly when it has a group, and each of its groups has a client
  -- whose call came back with an error; in every other case it is reported as successful.
  pub batch_insert_fails_iff :
      (is_ok (batch_insert xxhash asked finished schedule reply r series).1 ≡ false) ↔ (
        ((group_series xxhash asked r series r.health_checker []).1 ≢ [])
        × All
            (λ g. failed_group r.clients reply g ≡ true)
            (group_series xxhash asked r series r.health_checker []).1)
  unfolding batch_insert
  batch_insert_fails_iff =
      let (hc, groups) = group_series xxhash asked r series r.health_checker [] in
      let s : BatchProgress = record { checker = hc; counters = r.metrics; errs = [] } in
      let s' = finish_batches finished r.clients reply (schedule groups) s in
      let errors = length-finish_batches finished r.clients reply (schedule groups) s in
      let same = perm-count (failed_group r.clients reply) (is_schedule groups) in
      let all = count-eq-length (failed_group r.clients reply) groups in
      let verdict = batch_verdict-is_ok groups s'.errs in
      (
        λ bad. (
          (nonempty groups).1 (omega (arith, verdict.0 bad)),
          all.0 (omega (arith, verdict.0 bad)),
        ),
        λ (some_group, each).
            verdict.1 (
              omega (arith, all.1 each, (nonempty groups).0 some_group),
              omega (arith, all.1 each),
            ),
      )

  -- While every registered node is marked unhealthy, a batch is reported as successful although
  -- nothing is sent: the router is as before, and no sample is counted as failed.
  pub batch_insert_unhealthy :
      ((id : String) (nh : NodeHealth)
        → lookup id r.health_checker.nodes ≡ some nh
        → nh.healthy ≡ false)
      → batch_insert xxhash asked finished schedule reply r series ≡ (r, ok tt)
  unfolding batch_insert finish_batches AllDown
  batch_insert_unhealthy down =
      rw
        (
          group_series-AllDown xxhash asked r series r.health_checker [] down,
          perm_nil (schedule []) (is_schedule []),
        )
        refl
