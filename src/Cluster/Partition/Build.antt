-- ===== src/Cluster/Partition/Build.antt =====
-- partitioner.go, NewPartitionMapper: what the two loops build, and when they succeed.
use prom_sketch_distributed.Common.{
  ◌+ℤ◌, ℕ, zero, suc, ◌≡◌, refl, ap, inl, inr, Bool, true, false, ◌&&◌, Option, none, some, arith,
  if◌then◌else◌, Bool-cases, Option-cases, ℤ, pos, ◌<ℤ◌, ltb_ℤ, leb_ℤ, eq_ℤ, eq_ℤ_iff, +ℤ_parts,
  -ℤ_parts, Result, ok,
}
use prom_sketch_distributed.Cluster.Partition.{
  Node, owns_partition, MapperError, PartitionMapper, put_partition, assign_range, range_of,
  check_assigned,
}

-- `q` is one of the `k` numbers from `p` on.
abbrev pub in_range : ℤ → ℕ → ℤ → Bool
in_range p k q = leb_ℤ p q && ltb_ℤ q (p +ℤ pos k)

pub in_range-suc :
    (p : ℤ) (k : ℕ) (q : ℤ)
    → in_range p (suc k) q ≡ (if eq_ℤ q p then true else in_range (p +ℤ pos 1) k q)
in_range-suc p k q =
    ground (arith, +ℤ_parts p (pos (suc k)), +ℤ_parts p (pos 1), +ℤ_parts (p +ℤ pos 1) (pos k))

pub in_range-zero : (p q : ℤ) → in_range p zero q ≡ false
in_range-zero p q = ground (arith, +ℤ_parts p (pos 0))

-- The rounds of a node's loop are the partitions that it owns.
pub in_range-owns :
    (n : Node) (q : ℤ) → in_range n.partition_start (range_of n) q ≡ owns_partition n q
unfolding owns_partition
in_range-owns n q = ground (
  arith,
  +ℤ_parts n.partition_start (pos (range_of n)),
  -ℤ_parts n.partition_end n.partition_start,
)

-- A node's loop succeeds exactly when each of its partitions is below the total and free, and then
-- the node holds these and nothing else has changed.
pub record Assigned (total : ℤ) (n : Node) (p : ℤ) (k : ℕ) (m m' : ℤ → Option Node) : Type 0 where
  pub lookup : (q : ℤ) → m' q ≡ (if in_range p k q then some n else m q)
  pub free : (q : ℤ) → in_range p k q ≡ true → (m q ≡ none) × (q <ℤ total)

abbrev pub Free : ℤ → ℤ → ℕ → (ℤ → Option Node) → Type 0
Free total p k m = (q : ℤ) → in_range p k q ≡ true → (m q ≡ none) × (q <ℤ total)

assign_range_inv :
    (total : ℤ) (n : Node) (k : ℕ) (p : ℤ) (m m' : ℤ → Option Node)
    → assign_range total n (suc k) p m ≡ ok m'
    → (p <ℤ total)
      × (m p ≡ none)
      × (assign_range total n k (p +ℤ pos 1) (put_partition m p n) ≡ ok m')
unfolding assign_range
assign_range_inv total n k p m m' e = ground arith

assign_range_next :
    (total : ℤ) (n : Node) (k : ℕ) (p : ℤ) (m : ℤ → Option Node)
    → p <ℤ total
    → m p ≡ none
    → assign_range total n (suc k) p m ≡ assign_range total n k (p +ℤ pos 1) (put_partition m p n)
unfolding assign_range
assign_range_next total n k p m h e = ground arith

ok_at :
    {P A : Type 0} (a b : P → A)
    → ◌≡◌ {A = Result MapperError (P → A)} (ok a) (ok b)
    → (q : P) → a q ≡ b q
ok_at {P} {A} a b e q = let same : a ≡ b = cc in ap (λ (f : P → A). f q) same

pub assign_range-Assigned :
    (total : ℤ) (n : Node) (k : ℕ) (p : ℤ) (m m' : ℤ → Option Node)
    → assign_range total n k p m ≡ ok m'
    → Assigned total n p k m m'
unfolding assign_range
assign_range-Assigned total n zero p m m' e = record {
  lookup = λ q. ground (arith, in_range-zero p q, ok_at m m' e q);
  free = λ q h. ground (arith, in_range-zero p q);
}
assign_range-Assigned total n (suc k) p m m' e =
    let (under, unset, rest) = assign_range_inv total n k p m m' e in
    let ih = assign_range-Assigned total n k (p +ℤ pos 1) (put_partition m p n) m' rest in
    record {
      lookup = λ q. ground (arith, in_range-suc p k q, ih.lookup q);
      free = λ q h. ground (arith, in_range-suc p k q, ih.free q, eq_ℤ_iff q p);
    }

pub Free-assign_range :
    (total : ℤ) (n : Node) (k : ℕ) (p : ℤ) (m : ℤ → Option Node)
    → Free total p k m
    → (m' : ℤ → Option Node) × (assign_range total n k p m ≡ ok m')
unfolding assign_range
Free-assign_range total n zero p m h = (m, refl)
Free-assign_range total n (suc k) p m h =
    let (unset, under) = h p (ground (arith, in_range-suc p k p)) in
    rw (assign_range_next total n k p m under unset) (
      Free-assign_range total n k (p +ℤ pos 1) (put_partition m p n)
        (λ q hq. ground (arith, in_range-suc p k q, h q, +ℤ_parts p (pos 1))))

pub check_assigned_ok :
    (k : ℕ) (p : ℤ) (pm pm' : PartitionMapper)
    → check_assigned k p pm ≡ ok pm'
    → (pm' ≡ pm)
      × ((q : ℤ) → in_range p k q ≡ true → (n : Node) × (pm.partition_to_node q ≡ some n))
unfolding check_assigned
check_assigned_ok zero p pm pm' e = (cc, λ q h. ground (arith, in_range-zero p q))
check_assigned_ok (suc k) p pm pm' e = elim (Option-cases (pm.partition_to_node p)) [
  | inl h ↦ absurd (ground (arith, h))
  | inr (n, h) ↦
      let (same, rest) = check_assigned_ok k (p +ℤ pos 1) pm pm' (rw (h, check_assigned) at e) in
      (
        same,
        λ q hq. elim (Bool-cases (eq_ℤ q p)) [
          | inl at ↦ (n, rw ((eq_ℤ_iff q p).0 at) h)
          | inr past ↦ rest q (ground (arith, in_range-suc p k q))
        ],
      )
]

pub check_assigned_passes :
    (k : ℕ) (p : ℤ) (pm : PartitionMapper)
    → ((q : ℤ) → in_range p k q ≡ true → (n : Node) × (pm.partition_to_node q ≡ some n))
    → check_assigned k p pm ≡ ok pm
unfolding check_assigned
check_assigned_passes zero p pm h = refl
check_assigned_passes (suc k) p pm h =
    let (n, here) = h p (ground (arith, in_range-suc p k p)) in
    rw (here, check_assigned)
      (check_assigned_passes k (p +ℤ pos 1) pm (λ q hq. h q (ground (arith, in_range-suc p k q))))
