-- ===== src/LoadBalancer/Ensure/Pools.antt =====
-- The instance pool that `EnsureLoadBalancer` finds from the cluster's nodes (exoscale/loadbalancer.go,
-- lines 170-212), for an API that answers without changing.
use exoscale_cloud_controlle.Base.{
  String, ◌≡◌, refl, ◌∙◌, ◌≢◌, sym, ap, true, false, not, ◌&&◌, List, [], ◌∷◌, ◌==◌, string_eq, ok,
  err, arith, Bool-cases, Option-cases, inl, inr, Option, none, some, All, Member, concat_map, fail,
  Action, map_error, bind-eq, hidef,
}
use exoscale_cloud_controlle.Cloud.Exoscale.{Client, Instance}
use exoscale_cloud_controlle.Cloud.Kubernetes.{Node}
use exoscale_cloud_controlle.LoadBalancer.Ensure.{infer_pool, managing_pool, multiple_pools}
use exoscale_cloud_controlle.LoadBalancer.Session.{Session}

-- The pools of the nodes that are in one, in the order of the nodes.
abbrev pub pools : (String → Instance) → List Node → List String
pools instance_of nodes =
    concat_map
      (λ node. elim (managing_pool (instance_of node.system_uuid)) [
        | none ↦ []
        | some id ↦ id ∷ []
      ])
      nodes

module _ {W : Type 0} (client : Client W) (instance_of : String → Instance) where
  -- The API knows every instance, and asking changes nothing.
  abbrev pub Knows : Type 0
  Knows = (id : String) (w : W) → client.get_instance id w ≡ (ok (instance_of id), w)

  -- A round of the loop, once the instance is known.
  infer_round : String → List Node → Option String → Action (Session W) String
  infer_round found nodes none = infer_pool client found nodes
  infer_round found nodes (some id) = elim (not (found == "") && not (id == found)) [
    | true ↦ fail multiple_pools
    | false ↦ infer_pool client id nodes
  ]

  infer_pool-round :
      (found : String) (node : Node) (nodes : List Node) (s : Session W)
      → Knows
      → infer_pool client found (node ∷ nodes) s
        ≡ infer_round found nodes (managing_pool (instance_of node.system_uuid)) s
  unfolding infer_pool infer_round
  infer_pool-round found node nodes s k =
      bind-eq _ _ s (instance_of node.system_uuid) s (
        ap
          (λ x.
            map_error (hidef "error retrieving Compute instance information: %s" [])
              (λ t. (x.0, record t { world = x.1 })) s)
          (k node.system_uuid s.world))
      ∙ elim (Option-cases (managing_pool (instance_of node.system_uuid))) [
        | inl e ↦ rw e refl
        | inr (id, e) ↦ rw e refl
      ]

  round-none :
      (found : String) (nodes : List Node)
      → infer_round found nodes none ≡ infer_pool client found nodes
  unfolding infer_round
  round-none found nodes = refl

  round-first :
      (nodes : List Node) (id : String)
      → infer_round "" nodes (some id) ≡ infer_pool client id nodes
  unfolding infer_round
  round-first nodes id =
      let e : (◌==◌ {A = String} "" "") ≡ true = ground arith in rw (e, infer_round) refl

  round-same :
      (found : String) (nodes : List Node)
      → infer_round found nodes (some found) ≡ infer_pool client found nodes
  unfolding infer_round
  round-same found nodes =
      let e : (found == found) ≡ true = ground arith in
      elim (Bool-cases (found == "")) [
        | inl g ↦ rw (g, infer_round) refl
        | inr g ↦ rw (g, e, infer_round) refl
      ]

  round-other :
      (found : String) (nodes : List Node) (id : String)
      → found ≢ ""
      → id ≢ found
      → infer_round found nodes (some id) ≡ fail multiple_pools
  unfolding infer_round
  round-other found nodes id f n =
      let e : (id == found) ≡ false = ground arith in
      let g : (found == "") ≡ false = ground arith in rw (g, e, infer_round) refl

  -- With a pool found, the others must be the same.
  infer_from :
      (found : String) (nodes : List Node) (s : Session W)
      → Knows
      → All (λ id. id ≡ found) (pools instance_of nodes)
      → infer_pool client found nodes s ≡ (ok found, s)
  unfolding infer_pool
  infer_from found [] s k h = refl
  infer_from found (node ∷ nodes) s k h =
      infer_pool-round found node nodes s k
      ∙ elim (Option-cases (managing_pool (instance_of node.system_uuid))) [
        | inl e ↦ rw (e, round-none found nodes) (infer_from found nodes s k (rw e at h))
        | inr (id, e) ↦
            let same = rw e at h in
            rw (e, same.0, round-same found nodes) (infer_from found nodes s k same.1)
      ]

  -- With a pool found, another one is an error.
  infer_other :
      (found : String) (nodes : List Node) (s : Session W) (b : String)
      → Knows
      → found ≢ ""
      → b ≢ found
      → Member b (pools instance_of nodes)
      → infer_pool client found nodes s ≡ (err multiple_pools, s)
  unfolding infer_pool
  infer_other found [] s b k f n h = absurd h
  infer_other found (node ∷ nodes) s b k f n h =
      infer_pool-round found node nodes s k
      ∙ elim (Option-cases (managing_pool (instance_of node.system_uuid))) [
        | inl e ↦ rw (e, round-none found nodes) (infer_other found nodes s b k f n (rw e at h))
        | inr (id, e) ↦ rw e (elim (Bool-cases (id == found)) [
          | inr g ↦
              let differ : id ≢ found = ground arith in
              rw (round-other found nodes id f differ) refl
          | inl g ↦
              let same : id ≡ found = ground arith in
              rw (same, round-same found nodes)
                (elim (rw e at h)
                  as (λ _. infer_pool client found nodes s ≡ (err multiple_pools, s)) [
                    | inl i ↦ absurd (n (i ∙ same))
                    | inr m ↦ infer_other found nodes s b k f n m
                  ])
        ])
      ]

  infer_differing :
      (id : String) (nodes : List Node) (s : Session W) (a b : String)
      → Knows
      → id ≢ ""
      → Member a (id ∷ pools instance_of nodes)
      → Member b (id ∷ pools instance_of nodes)
      → a ≢ b
      → infer_pool client id nodes s ≡ (err multiple_pools, s)
  infer_differing id nodes s a b k f (inl i) (inl j) n = absurd (n (i ∙ sym j))
  infer_differing id nodes s a b k f (inl i) (inr m) n =
      infer_other id nodes s b k f (λ q. n (i ∙ sym q)) m
  infer_differing id nodes s a b k f (inr m) (inl j) n =
      infer_other id nodes s a k f (λ q. n (q ∙ sym j)) m
  infer_differing id nodes s a b k f (inr m) (inr l) n = elim (Bool-cases (a == id)) [
    | inr g ↦ let differ : a ≢ id = ground arith in infer_other id nodes s a k f differ m
    | inl g ↦
        let same : a ≡ id = ground arith in infer_other id nodes s b k f (λ q. n (same ∙ sym q)) l
  ]

  infer_first :
      (nodes : List Node) (s : Session W) (a b : String)
      → Knows
      → All (λ id. id ≢ "") (pools instance_of nodes)
      → Member a (pools instance_of nodes)
      → Member b (pools instance_of nodes)
      → a ≢ b
      → infer_pool client "" nodes s ≡ (err multiple_pools, s)
  infer_first [] s a b k all ha hb n = absurd ha
  infer_first (node ∷ nodes) s a b k all ha hb n =
      infer_pool-round "" node nodes s k
      ∙ elim (Option-cases (managing_pool (instance_of node.system_uuid))) [
        | inl e ↦
            rw (e, round-none "" nodes)
              (infer_first nodes s a b k (rw e at all) (rw e at ha) (rw e at hb) n)
        | inr (id, e) ↦
            let named : All (λ id. id ≢ "") (id ∷ pools instance_of nodes) = rw e at all in
            let ma : Member a (id ∷ pools instance_of nodes) = rw e at ha in
            let mb : Member b (id ∷ pools instance_of nodes) = rw e at hb in
            rw (e, round-first nodes id) (infer_differing id nodes s a b k named.0 ma mb n)
      ]

  infer_alone :
      (nodes : List Node) (s : Session W) (id : String)
      → Knows
      → Member id (pools instance_of nodes)
      → All (λ j. j ≡ id) (pools instance_of nodes)
      → infer_pool client "" nodes s ≡ (ok id, s)
  infer_alone [] s id k m all = absurd m
  infer_alone (node ∷ nodes) s id k m all =
      infer_pool-round "" node nodes s k
      ∙ elim (Option-cases (managing_pool (instance_of node.system_uuid))) [
        | inl e ↦ rw (e, round-none "" nodes) (infer_alone nodes s id k (rw e at m) (rw e at all))
        | inr (j, e) ↦
            let same : All (λ j. j ≡ id) (j ∷ pools instance_of nodes) = rw e at all in
            rw (e, round-first nodes j, same.0) (infer_from id nodes s k same.1)
      ]

  -- Where the API knows every instance and no pool's ID is empty, the loop over the nodes answers with
  -- the pool that all the nodes of pools are in, if there is such a node, and with an error if two
  -- nodes are in different pools, wherever they stand among the nodes.
  pub infer_pool-pools :
      (nodes : List Node) (s : Session W)
      → Knows
      → All (λ id. id ≢ "") (pools instance_of nodes)
      → ((id : String)
          → Member id (pools instance_of nodes)
          → All (λ j. j ≡ id) (pools instance_of nodes)
          → infer_pool client "" nodes s ≡ (ok id, s))
        × ((a b : String)
            → Member a (pools instance_of nodes)
            → Member b (pools instance_of nodes)
            → a ≢ b
            → infer_pool client "" nodes s ≡ (err multiple_pools, s))
  infer_pool-pools nodes s k named = (
    λ id m all. infer_alone nodes s id k m all,
    λ a b ma mb n. infer_first nodes s a b k named ma mb n,
  )
