-- ===== src/Cluster/Partition/Owners.antt =====
-- partitioner.go, NewPartitionMapper: the loop over the nodes against the nodes' own ranges.
use prom_sketch_distributed.Common.{
  ℕ, ◌+◌, ◌≤◌, ◌≡◌, refl, ap, ◌↔◌, ◌⊎◌, inl, inr, true, Option, none, some, List, [], ◌∷◌, arith,
  if◌then◌else◌, Bool-cases, Elem, ℤ, ◌<ℤ◌, Result, ok, Result-cases,
}
use prom_sketch_distributed.Cluster.Partition.{
  Node, owns_partition, MapperError, PartitionMapper, put_id, assign_range, range_of, assign_nodes,
}
use prom_sketch_distributed.Cluster.Partition.Build.{
  in_range-owns, assign_range-Assigned, Free-assign_range,
}

-- The first node of the list whose range holds `q`, and how many there are.
pub find_owner : ℤ → List Node → Option Node
find_owner q [] = none
find_owner q (n ∷ ns) = if owns_partition n q then some n else find_owner q ns

pub owners : ℤ → List Node → ℕ
owners q [] = 0
owners q (n ∷ ns) = if owns_partition n q then owners q ns + 1 else owners q ns

abbrev pub present : Option Node → ℕ
present none = 0
present (some n) = 1

abbrev pub or_else : Option Node → Option Node → Option Node
or_else none o = o
or_else (some n) o = some n

-- No partition is owned twice, counting those that `m` has already, nor lies past the total.
pub record Fits (total : ℤ) (ns : List Node) (m : ℤ → Option Node) : Type 0 where
  pub once : (q : ℤ) → owners q ns + present (m q) ≤ 1
  pub bounded : (q : ℤ) → 1 ≤ owners q ns → q <ℤ total

abbrev pub store : PartitionMapper → Node → (ℤ → Option Node) → PartitionMapper
store pm n m = record pm { nodes_by_id = put_id pm.nodes_by_id n; partition_to_node = m }

assign_nodes_inv :
    (pm pm' : PartitionMapper) (n : Node) (ns : List Node)
    → assign_nodes pm (n ∷ ns) ≡ ok pm'
    → (m : ℤ → Option Node) × (assign_range pm.total_partitions n
          (range_of n)
          n.partition_start
          pm.partition_to_node
        ≡ ok m)
      × (assign_nodes (store pm n m) ns ≡ ok pm')
unfolding assign_nodes
assign_nodes_inv pm pm' n ns e =
    elim (Result-cases
      (assign_range pm.total_partitions n (range_of n) n.partition_start pm.partition_to_node)) [
        | inl (m, h) ↦ (m, h, ground (arith, h))
        | inr (x, h) ↦ ground (arith, h)
      ]

pub assign_nodes-Fits :
    (pm pm' : PartitionMapper) (ns : List Node)
    → assign_nodes pm ns ≡ ok pm'
    → Fits pm.total_partitions ns pm.partition_to_node
unfolding assign_nodes owners
assign_nodes-Fits pm pm' [] e = record { once = λ q. ground arith; bounded = λ q h. omega arith }
assign_nodes-Fits pm pm' (n ∷ ns) e =
    let (m, one, rest) = assign_nodes_inv pm pm' n ns e in
    let a = assign_range-Assigned _ n (range_of n) _ _ m one in
    let ih = assign_nodes-Fits (store pm n m) pm' ns rest in
    record {
      once = λ q. ground (arith, in_range-owns n q, a.lookup q, a.free q, ih.once q);
      bounded = λ q h. ground (arith, in_range-owns n q, a.free q, ih.bounded q);
    }

pub assign_nodes_lookup :
    (pm pm' : PartitionMapper) (ns : List Node)
    → assign_nodes pm ns ≡ ok pm'
    → (q : ℤ) → pm'.partition_to_node q ≡ or_else (pm.partition_to_node q) (find_owner q ns)
unfolding assign_nodes find_owner
assign_nodes_lookup pm pm' [] e q =
    ground (arith, ap (λ (r : Result MapperError PartitionMapper). r) e)
assign_nodes_lookup pm pm' (n ∷ ns) e q =
    let (m, one, rest) = assign_nodes_inv pm pm' n ns e in
    let a = assign_range-Assigned _ n (range_of n) _ _ m one in
    ground (
      arith,
      in_range-owns n q,
      a.lookup q,
      a.free q,
      assign_nodes_lookup (store pm n m) pm' ns rest q,
    )

pub Fits-assign_nodes :
    (pm : PartitionMapper) (ns : List Node)
    → Fits pm.total_partitions ns pm.partition_to_node
    → (pm' : PartitionMapper) × (assign_nodes pm ns ≡ ok pm')
unfolding assign_nodes owners
Fits-assign_nodes pm [] f = (pm, refl)
Fits-assign_nodes pm (n ∷ ns) f =
    let (m, one) =
      Free-assign_range pm.total_partitions n (range_of n) n.partition_start pm.partition_to_node
        (λ q h. ground (arith, in_range-owns n q, f.once q, f.bounded q)) in
    let a = assign_range-Assigned _ n (range_of n) _ _ m one in
    let (pm', rest) = Fits-assign_nodes (store pm n m) ns (record {
      once = λ q. ground (arith, in_range-owns n q, a.lookup q, f.once q);
      bounded = λ q h. ground (arith, in_range-owns n q, f.bounded q);
    }) in
    (pm', rw (one, assign_nodes) rest)

pub find_owner-owners :
    (q : ℤ) (ns : List Node)
    → ((find_owner q ns ≡ none) × (owners q ns ≡ 0))
      ⊎ ((n : Node) × (find_owner q ns ≡ some n) × (1 ≤ owners q ns))
unfolding find_owner owners
find_owner-owners q [] = inl (refl, refl)
find_owner-owners q (n ∷ ns) = elim (Bool-cases (owns_partition n q)) [
  | inl h ↦ inr (n, ground arith, ground arith)
  | inr h ↦ rw h (find_owner-owners q ns)
]

find_owner-Elem :
    (q : ℤ) (n : Node) (ns : List Node)
    → find_owner q ns ≡ some n
    → Elem n ns × (owns_partition n q ≡ true)
unfolding find_owner
find_owner-Elem q n [] e = absurd (ground arith)
find_owner-Elem q n (x ∷ ns) e = elim (Bool-cases (owns_partition x q)) [
  | inl h ↦ let same : n ≡ x = ground arith in (inl same, rw same h)
  | inr h ↦ let (m, o) = find_owner-Elem q n ns (ground arith) in (inr m, o)
]

owners_pos :
    (q : ℤ) (n : Node) (ns : List Node) → Elem n ns → owns_partition n q ≡ true → 1 ≤ owners q ns
unfolding owners
owners_pos q n [] m h = absurd m
owners_pos q n (x ∷ ns) (inl e) h = rw (← e, h) (omega arith)
owners_pos q n (x ∷ ns) (inr m) h = ground (arith, owners_pos q n ns m h)

Elem-find_owner :
    (q : ℤ) (n : Node) (ns : List Node)
    → owners q ns ≤ 1
    → Elem n ns
    → owns_partition n q ≡ true
    → find_owner q ns ≡ some n
unfolding find_owner owners
Elem-find_owner q n [] h m o = absurd m
Elem-find_owner q n (x ∷ ns) h (inl e) o = rw (← e, o)
Elem-find_owner q n (x ∷ ns) h (inr m) o =
    ground (arith, Elem-find_owner q n ns _ m o, owners_pos q n ns m o)

pub find_owner_iff :
    (q : ℤ) (n : Node) (ns : List Node)
    → owners q ns ≤ 1
    → (find_owner q ns ≡ some n) ↔ (Elem n ns × (owns_partition n q ≡ true))
find_owner_iff q n ns h = (find_owner-Elem q n ns, λ (m, o). Elem-find_owner q n ns h m o)

pub assign_nodes-total_partitions :
    (pm pm' : PartitionMapper) (ns : List Node)
    → assign_nodes pm ns ≡ ok pm'
    → (pm'.total_partitions ≡ pm.total_partitions) × (pm'.nodes ≡ pm.nodes)
unfolding assign_nodes
assign_nodes-total_partitions pm pm' [] e = ground arith
assign_nodes-total_partitions pm pm' (n ∷ ns) e =
    let (m, one, rest) = assign_nodes_inv pm pm' n ns e in
    assign_nodes-total_partitions (store pm n m) pm' ns rest
