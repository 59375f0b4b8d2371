-- ===== src/Cluster/Partition/Ranking.antt =====
-- partitioner.go, GetNodesForPartition: the candidates by descending score.
use prom_sketch_distributed.Common.{
  ℕ, suc, ◌+◌, ◌≤◌, ◌≡◌, refl, inl, inr, List, [], ◌∷◌, ◌++◌, append-nil, arith, ltb, Bool-cases,
  length, All,
}
use prom_sketch_distributed.Cluster.Partition.{Node, insert_score, sort_scores}
use mathlib.Core.List.{Perm, perm_middle}
use mathlib.Core.List.Perm

module _ (score : Node → ℕ) where
  -- No score rises along the list.
  abbrev pub Descending : List Node → Type 0
  Descending [] = Unit {0}
  Descending (x ∷ xs) = All (λ y. score y ≤ score x) xs × Descending xs

  All-insert_score :
      (b : ℕ) (x : Node) (ys : List Node)
      → score x ≤ b
      → All (λ y. score y ≤ b) ys
      → All (λ y. score y ≤ b) (insert_score score x ys)
  unfolding insert_score
  All-insert_score b x [] h a = (h, tt)
  All-insert_score b x (y ∷ ys) h a = ground (arith, All-insert_score b x ys)

  All-weaken :
      (b c : ℕ) (ys : List Node) → b ≤ c → All (λ y. score y ≤ b) ys → All (λ y. score y ≤ c) ys
  All-weaken b c [] h a = tt
  All-weaken b c (y ∷ ys) h a = (omega arith, All-weaken b c ys h a.1)

  insert_score-Descending :
      (x : Node) (ys : List Node) → Descending ys → Descending (insert_score score x ys)
  unfolding insert_score
  insert_score-Descending x [] d = (tt, tt)
  insert_score-Descending x (y ∷ ys) d = ground (
    arith,
    insert_score-Descending x ys d.1,
    All-insert_score (score y) x ys,
    All-weaken (score y) (score x) ys,
  )

  insert_score-perm : (x : Node) (ys : List Node) → Perm (insert_score score x ys) (x ∷ ys)
  unfolding insert_score
  insert_score-perm x [] = Perm.refl _
  insert_score-perm x (y ∷ ys) = elim (Bool-cases (ltb (score y) (score x))) [
    | inl h ↦ rw h (Perm.refl _)
    | inr h ↦ rw h (Perm.trans (Perm.cons y (insert_score-perm x ys)) (Perm.swap x y ys))
  ]

  pub sort_scores-Descending :
      (ys xs : List Node) → Descending ys → Descending (sort_scores score ys xs)
  unfolding sort_scores
  sort_scores-Descending ys [] d = d
  sort_scores-Descending ys (x ∷ xs) d =
      sort_scores-Descending (insert_score score x ys) xs (insert_score-Descending x ys d)

  pub sort_scores-perm : (ys xs : List Node) → Perm (sort_scores score ys xs) (ys ++ xs)
  unfolding sort_scores
  sort_scores-perm ys [] = rw append-nil (Perm.refl ys)
  sort_scores-perm ys (x ∷ xs) =
      Perm.trans (sort_scores-perm (insert_score score x ys) xs)
        (Perm.trans (Perm.append_right xs (insert_score-perm x ys)) (Perm.symm (perm_middle ys xs)))

  length-insert_score :
      (x : Node) (ys : List Node) → length (insert_score score x ys) ≡ suc (length ys)
  unfolding insert_score
  length-insert_score x [] = refl
  length-insert_score x (y ∷ ys) = ground (arith, length-insert_score x ys)

  pub length-sort_scores :
      (ys xs : List Node) → length (sort_scores score ys xs) ≡ length ys + length xs
  unfolding sort_scores
  length-sort_scores ys [] = omega arith
  length-sort_scores ys (x ∷ xs) =
      omega (arith, length-sort_scores (insert_score score x ys) xs, length-insert_score x ys)
