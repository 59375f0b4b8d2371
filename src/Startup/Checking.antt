-- ===== src/Startup/Checking.antt =====
-- The checks of the nodes that a start has registered.
use prom_sketch_distributed.Common.{
  String, ◌≡◌, refl, inl, inr, true, Option, List, [], ◌∷◌, str_eq, eq_iff, Bool-cases, clash, Elem,
  ok,
}
use prom_sketch_distributed.Cluster.Partition.{Node}
use prom_sketch_distributed.Insert.Router.{has_client}
use prom_sketch_distributed.Startup.{new_pool, grpc_check}
use prom_sketch_distributed.Startup.Fresh.{new_pool-Elem}

checked_first :
    (answer : String → Option String) (ns : List Node) (clients : List String) (n : Node)
    → ((m : Node) → Elem m ns → has_client clients m.id ≡ true)
    → Elem n ns
    → (f : Node) × Elem f ns
      × (f.address ≡ n.address)
      × (grpc_check answer ns clients n.address ≡ answer f.id)
unfolding grpc_check
checked_first answer [] clients n there m = absurd m
checked_first answer (x ∷ ns) clients n there m = elim (Bool-cases (str_eq x.address n.address)) [
  | inl same ↦ (
    x,
    inl refl,
    (eq_iff x.address n.address).0 same,
    rw (same, grpc_check) (rw (there x (inl refl)) refl),
  )
  | inr other ↦ elim m [
    | inl e ↦ absurd (clash _ ((eq_iff x.address n.address).1 (rw e refl)) other)
    | inr rest ↦
        let (f, found, at_same, answered) =
          checked_first answer ns clients n (λ k e. there k (inr e)) rest in
        (f, inr found, at_same, rw (other, grpc_check) answered)
  ]
]

-- Once the pool of the nodes is opened, the check of a node's address ends in the answer of a node
-- with this address, never in an error of pskinsert's own.
pub new_pool-checked :
    (connect answer : String → Option String) (ns : List Node) (all : List String) (n : Node)
    → new_pool connect ns [] ≡ ok all
    → Elem n ns
    → (f : Node) × Elem f ns
      × (f.address ≡ n.address)
      × (grpc_check answer ns all n.address ≡ answer f.id)
new_pool-checked connect answer ns all n e m =
    checked_first answer ns all n (λ k there. new_pool-Elem connect ns [] all k e there) m

-- With an address for each node's ID, it ends in the node's own answer.
pub own_answer :
    (connect answer : String → Option String) (ns : List Node) (all : List String) (n : Node)
    → new_pool connect ns [] ≡ ok all
    → ((m : Node) → Elem m ns → m.address ≡ n.address → m.id ≡ n.id)
    → Elem n ns
    → grpc_check answer ns all n.address ≡ answer n.id
own_answer connect answer ns all n e one m =
    let (f, found, same, answered) = new_pool-checked connect answer ns all n e m in
    rw (one f found same) at answered
