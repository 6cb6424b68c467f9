-- ===== src/DataStruct/MRootTree/WellFormed.antt =====
-- The invariant of the tree, and that `PrependElement` keeps it.
use blockafile.Base.{
  ℕ, suc, ◌<◌, ◌≤◌, ◌≡◌, refl, ◌∙◌, ◌⊎◌, inl, inr, Option, none, some, Bytes, arith, Option-cases,
  [], ◌∷◌, ◌++◌, bytes_eq, bytes_eq_iff, if◌then◌else◌,
}
use blockafile.Base.Dict.{Dict, lookup, insert, lookup-insert}
use blockafile.DataStruct.MRootTree.{Node, MRootTree, uint64_size, link, new_tree}

module _ {E : Type 0} where
  -- A node ends its chain at height 0, or its child is in the map one level below it.
  abbrev pub IsLinked : Dict (Node E) → Node E → Type 0
  IsLinked nodes n =
      ((n.child ≡ none) × (n.height ≡ 0))
      ⊎ ((p : Bytes) × (m : Node E) × (n.child ≡ some p)
          × (lookup p nodes ≡ some m)
          × (n.height ≡ suc m.height))

  pub record Holds (nodes : Dict (Node E)) (height : ℕ) (head : Option Bytes) : Type 0 where
    pub keyed : (i : Bytes) (n : Node E) → lookup i nodes ≡ some n → n.id ≡ i
    pub linked : (i : Bytes) (n : Node E) → lookup i nodes ≡ some n → IsLinked nodes n
    pub highest : (i : Bytes) (n : Node E) → lookup i nodes ≡ some n → n.height ≤ height
    pub head_found :
        ((head ≡ none) × (height ≡ 0))
        ⊎ ((i : Bytes) × (n : Node E) × (head ≡ some i)
            × (lookup i nodes ≡ some n)
            × (n.height ≡ height))

  -- Every node is stored under its id and is linked; the tree's height is the greatest of the
  -- nodes' and the height of the head of the longest chain.
  abbrev pub IsWellFormed : MRootTree E → Type 0
  IsWellFormed t = Holds t.nodes t.height t.longest_chain_head

  pub new_tree-IsWellFormed : IsWellFormed new_tree
  unfolding lookup
  new_tree-IsWellFormed = record {
    keyed = λ i n h. absurd (ground arith);
    linked = λ i n h. absurd (ground arith);
    highest = λ i n h. absurd (ground arith);
    head_found = inl (refl, refl);
  }

  -- A pointer into the tree, below the greatest height that a node can have, or nil.
  abbrev pub PointsInto : MRootTree E → Option (Node E) → Type 0
  PointsInto t none = Unit
  PointsInto t (some head) =
      (m : Node E) × (lookup head.id t.nodes ≡ some m)
      × (head.height ≡ m.height)
      × (suc head.height < uint64_size)

  -- The fields of a node that nothing changes.
  abbrev pub Alike : Node E → Node E → Type 0
  Alike n m = (n.id ≡ m.id) × (n.height ≡ m.height) × (n.child ≡ m.child) × (n.value ≡ m.value)

  abbrev with_parent : Bytes → Node E → Node E
  with_parent k m = record m { parents = m.parents ++ k ∷ [] }

  abbrev parented : Bytes → Option (Node E) → Option (Node E)
  parented k none = none
  parented k (some m) = some (with_parent k m)

  lookup-link :
      (head : Node E) (k i : Bytes) (nodes : Dict (Node E))
      → lookup i (link (some head) k nodes)
        ≡ (if bytes_eq head.id i then parented k (lookup i nodes) else lookup i nodes)
  unfolding link
  lookup-link head k i nodes = elim (Option-cases (lookup head.id nodes)) [
    | inl e ↦ ground (arith, bytes_eq_iff head.id i)
    | inr (m, e) ↦
        ground (arith, lookup-insert head.id i (with_parent k m) nodes, bytes_eq_iff head.id i)
  ]

  abbrev relinked : Option (Node E) → Bytes → Bytes → Node E → Node E
  relinked none k i m = m
  relinked (some head) k i m = if bytes_eq head.id i then with_parent k m else m

  -- Recording a parent changes no other field of any node, and loses none.
  pub lookup-link_back :
      (head : Option (Node E)) (k i : Bytes) (nodes : Dict (Node E)) (n : Node E)
      → lookup i (link head k nodes) ≡ some n
      → (m : Node E) × (lookup i nodes ≡ some m) × Alike n m
  unfolding link
  lookup-link_back none k i nodes n h = (n, h, (refl, refl, refl, refl))
  lookup-link_back (some head) k i nodes n h = elim (Option-cases (lookup i nodes)) [
    | inl e ↦ absurd (ground (arith, lookup-link head k i nodes))
    | inr (m, e) ↦ (m, e, ground (arith, lookup-link head k i nodes))
  ]

  pub lookup-link_forth :
      (head : Option (Node E)) (k i : Bytes) (nodes : Dict (Node E)) (m : Node E)
      → lookup i nodes ≡ some m
      → (n : Node E) × (lookup i (link head k nodes) ≡ some n) × Alike n m
  lookup-link_forth none k i nodes m h = (m, (unfold link in h), (refl, refl, refl, refl))
  lookup-link_forth (some head) k i nodes m h =
      (relinked (some head) k i m, ground (arith, lookup-link head k i nodes), ground arith)

  IsLinked-grow :
      (nodes nodes' : Dict (Node E)) (n m : Node E)
      → ((i : Bytes) (k : Node E)
          → lookup i nodes ≡ some k
          → (k' : Node E) × (lookup i nodes' ≡ some k') × (k'.height ≡ k.height))
      → Alike n m
      → IsLinked nodes m
      → IsLinked nodes' n
  IsLinked-grow nodes nodes' n m grow same (inl (c, z)) = inl (same.2 ∙ c, same.1 ∙ z)
  IsLinked-grow nodes nodes' n m grow same (inr (p, k, c, found, up)) =
      let (k', found', level) = grow p k found in inr (p, k', same.2 ∙ c, found', omega arith)

  pub link-Holds :
      (head : Option (Node E)) (k : Bytes) (nodes : Dict (Node E)) (height : ℕ) (top : Option Bytes)
      → Holds nodes height top
      → Holds (link head k nodes) height top
  link-Holds head k nodes height top w = record {
    keyed = λ i n h.
        let (m, found, same) = lookup-link_back head k i nodes n h in same.0 ∙ w.keyed i m found;
    linked = λ i n h.
        let (m, found, same) = lookup-link_back head k i nodes n h in
        IsLinked-grow nodes _ n m
          (λ j a f. let (b, f', s) = lookup-link_forth head k j nodes a f in (b, f', s.1)) same
          (w.linked i m found);
    highest = λ i n h.
        let (m, found, same) = lookup-link_back head k i nodes n h in
        omega (arith, same.1, w.highest i m found);
    head_found = elim w.head_found [
      | inl e ↦ inl e
      | inr (i, n, top_is, found, level) ↦
          let (m, found', same) = lookup-link_forth head k i nodes n found in
          inr (i, m, top_is, found', same.1 ∙ level)
    ];
  }

  module _ (new : Node E) (nodes : Dict (Node E)) (fresh : lookup new.id nodes ≡ none)
      (is_linked : IsLinked nodes new) where
    abbrev pub grown : Dict (Node E)
    grown = insert new.id new nodes

    pub lookup-grown_old :
        (i : Bytes) (n : Node E) → lookup i nodes ≡ some n → lookup i grown ≡ some n
    lookup-grown_old i n h = ground (arith, lookup-insert new.id i new nodes, bytes_eq_iff new.id i)

    lookup-grown_cases :
        (i : Bytes) (n : Node E)
        → lookup i grown ≡ some n
        → ((n ≡ new) × (new.id ≡ i)) ⊎ (lookup i nodes ≡ some n)
    lookup-grown_cases i n h =
        ground (arith, lookup-insert new.id i new nodes, bytes_eq_iff new.id i)

    keep :
        (i : Bytes) (k : Node E)
        → lookup i nodes ≡ some k
        → (k' : Node E) × (lookup i grown ≡ some k') × (k'.height ≡ k.height)
    keep i k h = (k, lookup-grown_old i k h, refl)

    grown-linked :
        (height : ℕ) (top : Option Bytes)
        → Holds nodes height top
        → (i : Bytes) (n : Node E) → lookup i grown ≡ some n
        → IsLinked grown n
    grown-linked height top w i n h = elim (lookup-grown_cases i n h) [
      | inl (e, _) ↦
          rw e (IsLinked-grow nodes grown new new keep (refl, refl, refl, refl) is_linked)
      | inr found ↦ IsLinked-grow nodes grown n n keep (refl, refl, refl, refl) (w.linked i n found)
    ]

    -- The new node becomes the head of the longest chain if no node is higher.
    pub grown-Holds_top :
        (height : ℕ) (top : Option Bytes)
        → Holds nodes height top
        → height ≤ new.height
        → Holds grown new.height (some new.id)
    grown-Holds_top height top w high = record {
      keyed = λ i n h. ground (arith, lookup-grown_cases i n h, w.keyed i n);
      linked = grown-linked height top w;
      highest = λ i n h. ground (arith, lookup-grown_cases i n h, w.highest i n);
      head_found = inr (
        new.id,
        new,
        refl,
        ground (arith, lookup-insert new.id new.id new nodes, bytes_eq_iff new.id new.id),
        refl,
      );
    }

    pub grown-Holds_below :
        (height : ℕ) (top : Option Bytes)
        → Holds nodes height top
        → new.height ≤ height
        → Holds grown height top
    grown-Holds_below height top w low = record {
      keyed = λ i n h. ground (arith, lookup-grown_cases i n h, w.keyed i n);
      linked = grown-linked height top w;
      highest = λ i n h. ground (arith, lookup-grown_cases i n h, w.highest i n);
      head_found = elim w.head_found [
        | inl e ↦ inl e
        | inr (i, n, top_is, found, level) ↦ inr (i, n, top_is, lookup-grown_old i n found, level)
      ];
    }
