-- ===== src/HashRing/Replicas.antt =====
-- The nodes that `get_nodes` of src/hash_ring.rs gives a key and its replicas to.
use mathlib.Core.Path.{subst}
use lane_switchboards.Base.{
  nat_eq, string_eq, ℕ, zero, suc, ◌+◌, ◌≤◌, ◌<◌, String, ◌≡◌, refl, inl, inr, true, false, some,
  List, [], ◌∷◌, ◌++◌, arith, leb, Bool-cases, Option-cases, ◌==◌, ==_iff, length, any,
  length-append, All, Map, lookup, if-holds, lookup-insert, lookup-remove,
}
use lane_switchboards.HashRing.{
  Hashing, RingNode, HashRing, collect_nodes, get_nodes, add_node, remove_node,
}

-- Each node of the roster is entered under its own identifier.
abbrev pub IsKeyed : Map String RingNode → Type 0
IsKeyed nodes = (id : String) (node : RingNode) → lookup id nodes ≡ some node → node.id ≡ id

-- No two nodes have the same identifier.
abbrev pub IsDistinct : List RingNode → Type 0
IsDistinct [] = Unit {0}
IsDistinct (n ∷ ns) = (any (λ m. m.id == n.id) ns ≡ false) × IsDistinct ns

any-append :
    (id : String) (ns : List RingNode) (n : RingNode)
    → any (λ m. m.id == id) ns ≡ false
    → (n.id == id) ≡ false
    → any (λ m. m.id == id) (ns ++ n ∷ []) ≡ false
any-append id [] n h e = rw e refl
any-append id (m ∷ ns) n h e = elim (Bool-cases (m.id == id)) [
  | inl t ↦ absurd (ground arith)
  | inr t ↦ rw t (any-append id ns n (ground arith) e)
]

append-IsDistinct :
    (ns : List RingNode) (n : RingNode)
    → IsDistinct ns
    → any (λ m. m.id == n.id) ns ≡ false
    → IsDistinct (ns ++ n ∷ [])
append-IsDistinct [] n d h = (refl, tt)
append-IsDistinct (m ∷ ns) n d h = elim (Bool-cases (m.id == n.id)) [
  | inl t ↦ absurd (ground arith)
  | inr t ↦ (
    any-append m.id ns n d.0 (ground (arith, ==_iff m.id n.id, ==_iff n.id m.id)),
    append-IsDistinct ns n d.1 (ground arith),
  )
]

-- What has been found has been seen.
abbrev IsSeen : List String → List RingNode → Type 0
IsSeen seen = All (λ n. any (λ s. s == n.id) seen ≡ true)

IsSeen-cons :
    (id : String) (seen : List String) (ns : List RingNode) → IsSeen seen ns → IsSeen (id ∷ seen) ns
IsSeen-cons id seen [] h = tt
IsSeen-cons id seen (n ∷ ns) h = (ground arith, IsSeen-cons id seen ns h.1)

IsSeen-append :
    (id : String) (seen : List String) (ns : List RingNode) (n : RingNode)
    → n.id ≡ id
    → IsSeen seen ns
    → IsSeen (id ∷ seen) (ns ++ n ∷ [])
IsSeen-append id seen [] n e h = (ground (arith, ==_iff id n.id), tt)
IsSeen-append id seen (m ∷ ns) n e h = (ground arith, IsSeen-append id seen ns n e h.1)

unseen :
    (id : String) (seen : List String) (ns : List RingNode)
    → IsSeen seen ns
    → any (λ s. s == id) seen ≡ false
    → any (λ m. m.id == id) ns ≡ false
unseen id seen [] h e = refl
unseen id seen (n ∷ ns) h e = elim (Bool-cases (n.id == id)) [
  | inl t ↦
      let same : n.id ≡ id = (==_iff n.id id).0 t in
      let there : any (λ s. s == id) seen ≡ true =
        subst (λ (x : String). any (λ s. s == x) seen ≡ true) same h.0 in
      absurd (ground arith)
  | inr t ↦ rw t (unseen id seen ns h.1 e)
]

abbrev Chosen : ℕ → List RingNode → Type 0
Chosen count out = IsDistinct out × (length out ≤ count)

collect_nodes-Chosen :
    (nodes : Map String RingNode) (count : ℕ) (ids seen : List String) (result : List RingNode)
    → IsKeyed nodes
    → IsDistinct result
    → IsSeen seen result
    → length result < count
    → Chosen count (collect_nodes nodes count ids seen result)
unfolding collect_nodes
collect_nodes-Chosen nodes count [] seen result k d s l = (d, omega arith)
collect_nodes-Chosen nodes count (id ∷ ids) seen result k d s l =
    if-holds (Chosen count) (any (λ x. x == id) seen) _ _
      (λ e. collect_nodes-Chosen nodes count ids seen result k d s l)
      (λ e. elim (Option-cases (lookup id nodes)) [
        | inl gone ↦ rw gone (
            if-holds (Chosen count) (leb (length nodes) (suc (length seen))) _ _
              (λ q. (d, omega arith))
              (λ q.
                collect_nodes-Chosen nodes count ids (id ∷ seen) result k d
                  (IsSeen-cons id seen result s) l))
        | inr (node, there) ↦
            let same : node.id ≡ id = k id node there in
            let fresh : any (λ m. m.id == node.id) result ≡ false =
              rw same (unseen id seen result s e) in
            let d' = append-IsDistinct result node d fresh in
            let l' : length (result ++ node ∷ []) ≡ length result + 1 =
              length-append result (node ∷ []) in
            rw there (
              if-holds (Chosen count) (leb count (length (result ++ node ∷ []))) _ _
                (λ q. (d', omega (arith, l')))
                (λ q.
                  if-holds (Chosen count) (leb (length nodes) (suc (length seen))) _ _
                    (λ q'. (d', omega (arith, l')))
                    (λ q'.
                      collect_nodes-Chosen nodes count ids (id ∷ seen) (result ++ node ∷ []) k d'
                        (IsSeen-append id seen result node same s) (ground (arith, l')))))
      ])

module _ (hs : Hashing) where
  -- On a roster where each node stands under its own identifier, `get_nodes` gives at most as many
  -- nodes as it is asked for, and no node twice.
  pub get_nodes-IsDistinct :
      (key : List ℕ) (count : ℕ) (r : HashRing)
      → IsKeyed r.nodes
      → IsDistinct (get_nodes hs key count r) × (length (get_nodes hs key count r) ≤ count)
  unfolding get_nodes
  get_nodes-IsDistinct key zero r k = (tt, omega arith)
  get_nodes-IsDistinct key (suc n) r k =
      collect_nodes-Chosen r.nodes (suc n) _ [] [] k tt tt (omega arith)

  -- Adding and removing a node keep each node of the roster under its own identifier.
  pub nodes-IsKeyed :
      (node : RingNode) (id : String) (r : HashRing)
      → IsKeyed r.nodes
      → IsKeyed (add_node hs node r).nodes × IsKeyed (remove_node hs id r).0.nodes
  unfolding add_node remove_node
  nodes-IsKeyed node id r h = (
    λ j n e. ground (arith, lookup-insert node.id j node r.nodes, ==_iff node.id j, h j n),
    elim (Option-cases (lookup id r.nodes)) [
      | inl e ↦ rw (e, remove_node) h
      | inr (m, e) ↦
          rw (e, remove_node) (λ j n q. ground (arith, lookup-remove id j r.nodes, h j n))
    ],
  )
