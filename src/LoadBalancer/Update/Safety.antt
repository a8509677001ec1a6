-- ===== src/LoadBalancer/Update/Safety.antt =====
-- What `updateLoadBalancer` never does to an NLB.
use exoscale_cloud_controlle.Base.{
  ◌≡◌, ◌≢◌, true, List, ◌++◌, string_eq, Result, ok, err, Error, arith, All, All-prefix,
  load_balancer_id_annotation_not_found, ◌>>=◌,
}
use exoscale_cloud_controlle.Cloud.Exoscale.{Client, LoadBalancer}
use exoscale_cloud_controlle.LoadBalancer.Annotations.{is_external}
use exoscale_cloud_controlle.LoadBalancer.Build.{build_load_balancer}
use exoscale_cloud_controlle.LoadBalancer.Sends.{Sends, Ends, Any}
use exoscale_cloud_controlle.LoadBalancer.Session.{Request, Session}
use exoscale_cloud_controlle.LoadBalancer.Update.{key_eq, update_load_balancer}
use exoscale_cloud_controlle.LoadBalancer.Update.Plan.{plan}
use exoscale_cloud_controlle.LoadBalancer.Update.Refinement.{update_load_balancer-Sends}
use exoscale_cloud_controlle.LoadBalancer.Update.Requested.{
  OnlyDesired, plan-OnlyDesired, Renames, plan-Renames,
}

module _ {W : Type 0} (client : Client W) where
  pub sent_of_plan :
      (P : Request → Type 0) (p : List Request) (s : Session W) (r : Result (Unit {0}) × Session W)
      → All P p
      → Ends Any p s r
      → (sent : List Request) × (r.1.requests ≡ s.requests ++ sent) × All P sent
  sent_of_plan P p s (ok a, t) h e = (p, e.1, h)
  sent_of_plan P p s (err x, t) h (sent, rest, d, e, _) =
      (sent, e, All-prefix P sent rest (rw d at h))

  -- When the NLB can be fetched, every request of `updateLoadBalancer` for the NLB's own fields renames
  -- it as the Service asks and repeats the description that the NLB has already, whatever description
  -- the Service asks for; and no request creates an NLB, deletes one or patches the Service.
  pub update_load_balancer-Renames :
      (s : Session W) {update current : LoadBalancer} {w : W}
      → build_load_balancer s.service ≡ ok update
      → update.id ≢ ""
      → client.get_load_balancer update.id s.world ≡ (ok current, w)
      → let t = (update_load_balancer client s).1 in
        (sent : List Request) × (t.requests ≡ s.requests ++ sent)
        × All (Renames current update) sent
  unfolding Sends
  update_load_balancer-Renames s {update} {current} built id fetched =
      sent_of_plan (Renames current update) (plan (is_external s.service) current update) s
        (update_load_balancer client s) (plan-Renames current update (is_external s.service))
        (update_load_balancer-Sends client s built id fetched)

  -- When the annotations of a Service whose NLB is external can be read and name an NLB that can be
  -- fetched, `updateLoadBalancer`, whether or not it succeeds, sends only requests that add an NLB
  -- service that the Service asks for, with its settings and its pool; that give the settings of one to
  -- a service of the NLB with its port number, protocol and pool; and that delete a service of the NLB
  -- with its port number and protocol and another pool.
  pub update_load_balancer-OnlyDesired :
      (s : Session W) {update current : LoadBalancer} {w : W}
      → is_external s.service ≡ true
      → build_load_balancer s.service ≡ ok update
      → update.id ≢ ""
      → client.get_load_balancer update.id s.world ≡ (ok current, w)
      → let t = (update_load_balancer client s).1 in
        (sent : List Request) × (t.requests ≡ s.requests ++ sent)
        × All (OnlyDesired current update) sent
  unfolding Sends
  update_load_balancer-OnlyDesired s {update} {current} external built id fetched =
      sent_of_plan (OnlyDesired current update) (plan true current update) s
        (update_load_balancer client s) (plan-OnlyDesired current update)
        (rw external at (update_load_balancer-Sends client s built id fetched))

  -- `updateLoadBalancer` sends nothing, and says why, where an annotation cannot be read, where there is
  -- no ID in the annotations, and where the NLB cannot be fetched.
  pub update_load_balancer_refused :
      (s : Session W) (r : Result LoadBalancer)
      → build_load_balancer s.service ≡ r
      → ((e : Error) → r ≡ err e → update_load_balancer client s ≡ (err e, s))
        × ((u : LoadBalancer)
            → r ≡ ok u
            → u.id ≡ ""
            → update_load_balancer client s ≡ (err load_balancer_id_annotation_not_found, s))
        × ((u : LoadBalancer) (e : Error) (w : W)
            → r ≡ ok u
            → u.id ≢ ""
            → client.get_load_balancer u.id s.world ≡ (err e, w)
            → update_load_balancer client s ≡ (err e, record s { world = w }))
  unfolding update_load_balancer ◌>>=◌
  update_load_balancer_refused s r built =
      (λ e h. ground arith, λ u h i. ground arith, λ u e w h i f. ground arith)
