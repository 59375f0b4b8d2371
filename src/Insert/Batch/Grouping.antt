-- ===== src/Insert/Batch/Grouping.antt =====
-- router.go, BatchInsert: which node's group a series joins.
use prom_sketch_distributed.Cluster.Partition.{Node, get_nodes_for_metric}
use prom_sketch_distributed.Cluster.Health.{HealthChecker, is_healthy}
use prom_sketch_distributed.Common.{
  ℕ, String, ◌≡◌, refl, subst, inl, inr, Bool, true, false, List, [], ◌∷◌, ◌++◌, str_eq, eq_iff,
  if◌then◌else◌, Bool-cases, All, Elem,
}
use prom_sketch_distributed.Insert.Router.{Router}
use prom_sketch_distributed.Insert.Batch.{
  TimeSeries, Groups, metric_name_of, append_series, group_nodes, group_series,
}

All-of_Elem : (P : Node → Type 0) (ns : List Node) → ((n : Node) → Elem n ns → P n) → All P ns
All-of_Elem P [] f = tt
All-of_Elem P (n ∷ ns) f = (f n (inl refl), All-of_Elem P ns (λ m e. f m (inr e)))

module _ {V : Type 0} (xxhash : String → ℕ) (r : Router) where
  -- The node is one of those that hold the series' metric.
  abbrev pub IsHolder : String → TimeSeries V → Type 0
  IsHolder id ts =
      (n : Node) × Elem n
        (get_nodes_for_metric xxhash r.partitioner (metric_name_of ts.labels) r.replica_count)
      × (n.id ≡ id)

  abbrev pub IsPlaced : Groups V → Type 0
  IsPlaced = All (λ g. All (IsHolder (g.0)) (g.1))

  All-snoc :
      (P : TimeSeries V → Type 0) (xs : List (TimeSeries V)) (x : TimeSeries V)
      → All P xs
      → P x
      → All P (xs ++ x ∷ [])
  All-snoc P [] x a h = (h, tt)
  All-snoc P (y ∷ ys) x a h = (a.0, All-snoc P ys x a.1 h)

  append_series-IsPlaced :
      (id : String) (ts : TimeSeries V) (groups : Groups V)
      → IsHolder id ts
      → IsPlaced groups
      → IsPlaced (append_series id ts groups)
  unfolding append_series
  append_series-IsPlaced id ts [] h p = ((h, tt), tt)
  append_series-IsPlaced id ts ((j, series) ∷ groups) h p = elim (Bool-cases (str_eq id j)) [
    | inl e ↦ rw e (
      All-snoc (IsHolder j) series ts p.0 (subst (λ i. IsHolder i ts) ((eq_iff id j).0 e) h),
      p.1,
    )
    | inr e ↦ rw e (p.0, append_series-IsPlaced id ts groups h p.1)
  ]

  if-IsPlaced :
      (b : Bool) (g h : Groups V) → IsPlaced g → IsPlaced h → IsPlaced (if b then g else h)
  if-IsPlaced true g h p q = p
  if-IsPlaced false g h p q = q

  group_nodes-IsPlaced :
      (asked : String → ℕ) (ts : TimeSeries V) (ns : List Node) (hc : HealthChecker)
      (groups : Groups V)
      → All (λ n. IsHolder n.id ts) ns
      → IsPlaced groups
      → IsPlaced (group_nodes asked ts ns hc groups).1
  unfolding group_nodes
  group_nodes-IsPlaced asked ts [] hc groups a p = p
  group_nodes-IsPlaced asked ts (n ∷ ns) hc groups a p =
      let answer = is_healthy (asked n.id) hc n.id in
      group_nodes-IsPlaced asked ts ns answer.0
        (if answer.1 then append_series n.id ts groups else groups) a.1
        (if-IsPlaced answer.1 _ _ (append_series-IsPlaced n.id ts groups a.0 p) p)

  -- Every series of a batch joins only groups of nodes that hold its metric.
  pub group_series-IsPlaced :
      (asked : TimeSeries V → String → ℕ) (series : List (TimeSeries V)) (hc : HealthChecker)
      (groups : Groups V)
      → IsPlaced groups
      → IsPlaced (group_series xxhash asked r series hc groups).1
  unfolding group_series
  group_series-IsPlaced asked [] hc groups p = p
  group_series-IsPlaced asked (ts ∷ series) hc groups p =
      let nodes =
        get_nodes_for_metric xxhash r.partitioner (metric_name_of ts.labels) r.replica_count in
      let next = group_nodes (asked ts) ts nodes hc groups in
      group_series-IsPlaced asked series next.0 next.1 (
        group_nodes-IsPlaced (asked ts) ts nodes hc groups
          (All-of_Elem (λ n. IsHolder n.id ts) nodes (λ n e. (n, e, refl))) p)
