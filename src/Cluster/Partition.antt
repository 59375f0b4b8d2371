-- ===== src/Cluster/Partition.antt =====
-- internal/cluster/hash/partitioner.go: which node holds which partition of the metric names.
-- The two Go maps of `PartitionMapper` are functions into `Option`, where `none` is a missing key;
-- node pointers are node values. xxhash is a parameter, the score of a text.
pub mod Build
pub mod Owners
pub mod Placement
pub mod Ranking
pub mod Replicas
mod Examples
use prom_sketch_distributed.Common.{
  ◌+ℤ◌, ◌-ℤ◌, ℕ, zero, suc, ◌-◌, ◌/◌, ◌%◌, ◌^◌, String, Bool, true, ◌&&◌, ◌||◌, Option, none, some,
  List, [], ◌∷◌, str_eq, ltb, leb, if◌then◌else◌, length, take, ℤ, pos, negsuc, pos_part, ltb_ℤ,
  leb_ℤ, eq_ℤ, Result, ok, err, ◌>>=◌,
}
use Prim.Native.String.{◌++◌ as ◌+s◌}

pub record Node : Type 0 where
  pub id : String
  pub address : String
  pub partition_start : ℤ
  pub partition_end : ℤ

unfoldable pub owns_partition : Node → ℤ → Bool
owns_partition n p = leb_ℤ n.partition_start p && ltb_ℤ p n.partition_end

pub data MapperError : Type 0 where
  total_not_positive : ℤ → MapperError
  no_nodes : MapperError
  range_exceeds_total : Node → ℤ → MapperError
  assigned_twice : ℤ → Node → Node → MapperError
  unassigned : ℤ → MapperError

pub record PartitionMapper : Type 0 where
  pub total_partitions : ℤ
  pub nodes : List Node
  pub nodes_by_id : String → Option Node
  pub partition_to_node : ℤ → Option Node

abbrev pub put_partition : (ℤ → Option Node) → ℤ → Node → ℤ → Option Node
put_partition m p n q = if eq_ℤ q p then some n else m q

abbrev pub put_id : (String → Option Node) → Node → String → Option Node
put_id m n i = if str_eq i n.id then some n else m i

-- The rounds of `for p := start; p < end; p++`.
abbrev pub rounds : ℤ → ℤ → ℕ
rounds start end = pos_part (end -ℤ start)

unfoldable pub assign_range :
    ℤ → Node → ℕ → ℤ → (ℤ → Option Node) → Result MapperError (ℤ → Option Node)
assign_range total n zero p m = ok m
assign_range total n (suc k) p m = elim (leb_ℤ total p) [
  | true ↦ err (range_exceeds_total n total)
  | _ ↦ elim (m p) [
    | some existing ↦ err (assigned_twice p existing n)
    | none ↦ assign_range total n k (p +ℤ pos 1) (put_partition m p n)
  ]
]

abbrev pub range_of : Node → ℕ
range_of n = rounds n.partition_start n.partition_end

unfoldable pub assign_nodes : PartitionMapper → List Node → Result MapperError PartitionMapper
assign_nodes pm [] = ok pm
assign_nodes pm (n ∷ ns) =
    assign_range pm.total_partitions n (range_of n) n.partition_start pm.partition_to_node >>= λ m.
    assign_nodes (record pm { nodes_by_id = put_id pm.nodes_by_id n; partition_to_node = m }) ns

unfoldable pub check_assigned : ℕ → ℤ → PartitionMapper → Result MapperError PartitionMapper
check_assigned zero p pm = ok pm
check_assigned (suc k) p pm = elim (pm.partition_to_node p) [
  | none ↦ err (unassigned p)
  | some _ ↦ check_assigned k (p +ℤ pos 1) pm
]

abbrev pub empty_mapper : ℤ → List Node → PartitionMapper
empty_mapper total nodes = record {
  total_partitions = total;
  nodes = nodes;
  nodes_by_id = λ _. none;
  partition_to_node = λ _. none;
}

unfoldable pub new_partition_mapper : ℤ → List Node → Result MapperError PartitionMapper
new_partition_mapper total [] =
    if leb_ℤ total (pos 0) then err (total_not_positive total) else err no_nodes
new_partition_mapper total (n ∷ ns) =
    if leb_ℤ total (pos 0)
    then err (total_not_positive total)
    else (assign_nodes (empty_mapper total (n ∷ ns)) (n ∷ ns) >>= λ pm.
        check_assigned (rounds (pos 0) total) (pos 0) pm)

unfoldable pub get_primary_node : PartitionMapper → ℤ → Option Node
get_primary_node pm p = pm.partition_to_node p

unfoldable pub get_node : PartitionMapper → String → Option Node
get_node pm i = pm.nodes_by_id i

unfoldable pub all_nodes : PartitionMapper → List Node
all_nodes pm = pm.nodes

-- Go's conversion of an `int` to `uint64`.
abbrev pub to_uint64 : ℤ → ℕ
to_uint64 (pos n) = n
to_uint64 (negsuc n) = 2 ^ 64 - 1 - n

digit_text : ℕ → String
digit_text d = get_digit d ("0" ∷ "1" ∷ "2" ∷ "3" ∷ "4" ∷ "5" ∷ "6" ∷ "7" ∷ "8" ∷ "9" ∷ [])
  where
    get_digit : ℕ → List String → String
    get_digit i [] = ""
    get_digit zero (s ∷ ss) = s
    get_digit (suc i) (s ∷ ss) = get_digit i ss

-- `%d`: the decimal digits, one for each unit of fuel.
decimal : ℕ → ℕ → String
unfolding digit_text
decimal zero n = ""
decimal (suc f) n =
    let rest = decimal f (n / 10) in if ltb n 10 then digit_text n else rest +s digit_text (n % 10)

-- `fmt.Sprintf("%d:%s", partitionID, n.ID)`; an `int` has at most twenty digits.
abbrev decimal_int : ℤ → String
unfolding decimal
decimal_int (pos n) = decimal 20 n
decimal_int (negsuc n) = "-" +s decimal 20 (suc n)

unfoldable pub replica_key : ℤ → Node → String
unfolding decimal_int
replica_key p n = decimal_int p +s (":" +s n.id)

-- sort.Slice by descending score: each candidate goes before those with a smaller score. (On equal
-- scores the Go library fixes no order beyond twelve candidates; this is the order up to there.)
unfoldable pub insert_score : (Node → ℕ) → Node → List Node → List Node
insert_score score x [] = x ∷ []
insert_score score x (y ∷ ys) =
    if ltb (score y) (score x) then x ∷ y ∷ ys else y ∷ insert_score score x ys

unfoldable pub sort_scores : (Node → ℕ) → List Node → List Node → List Node
sort_scores score sorted [] = sorted
sort_scores score sorted (x ∷ xs) = sort_scores score (insert_score score x sorted) xs

-- Every node but those with the primary's ID.
unfoldable pub candidates : Node → List Node → List Node
candidates primary [] = []
candidates primary (n ∷ ns) =
    if str_eq n.id primary.id then candidates primary ns else n ∷ candidates primary ns

module _ (xxhash : String → ℕ) where
  unfoldable pub get_partition_id : PartitionMapper → String → ℤ
  get_partition_id pm metric_name = pos (xxhash metric_name % to_uint64 pm.total_partitions)

  unfoldable pub replica_score : ℤ → Node → ℕ
  replica_score p n = xxhash (replica_key p n)

  unfoldable pub ranking : PartitionMapper → ℤ → Node → List Node
  ranking pm p primary = sort_scores (replica_score p) [] (candidates primary pm.nodes)

  unfoldable pub get_nodes_for_partition : PartitionMapper → ℤ → ℤ → List Node
  unfolding ranking
  get_nodes_for_partition pm p replica_count = elim (pm.partition_to_node p) [
    | none ↦ []
    | some primary ↦
        if leb_ℤ replica_count (pos 1) || leb (length pm.nodes) 1
        then primary ∷ []
        else primary ∷ take (pos_part (replica_count -ℤ pos 1)) (ranking pm p primary)
  ]

  unfoldable pub get_node_for_metric : PartitionMapper → String → Option Node
  unfolding get_primary_node get_partition_id
  get_node_for_metric pm metric_name = get_primary_node pm (get_partition_id pm metric_name)

  unfoldable pub get_nodes_for_metric : PartitionMapper → String → ℤ → List Node
  get_nodes_for_metric pm metric_name replica_count =
      get_nodes_for_partition pm (get_partition_id pm metric_name) replica_count
