-- ===== src/LoadBalancer/Done.antt =====
-- What a list of requests has done to a view of the world, one request after the other.
use exoscale_cloud_controlle.Base.{◌≡◌, refl, ◌∙◌, List, [], ◌∷◌, ◌++◌}
use exoscale_cloud_controlle.LoadBalancer.Session.{Request}

module _ {W : Type 0} {X : Type 1} (E : Request → X → X → Type 0) (V : W → X) where
  abbrev pub Done : List Request → W → W → Type 1
  Done [] w w' = V w' ≡ V w
  Done (q ∷ qs) w w' = (w1 : W) × E q (V w) (V w1) × Done qs w1 w'

  -- Only the view of the first world counts.
  Done-from : (qs : List Request) (v w w' : W) → V w ≡ V v → Done qs w w' → Done qs v w'
  Done-from [] v w w' e h = h ∙ e
  Done-from (q ∷ qs) v w w' e (w1, h, more) = (w1, rw e at h, more)

  pub Done-append :
      (ps qs : List Request) (u v w : W) → Done ps u v → Done qs v w → Done (ps ++ qs) u w
  Done-append [] qs u v w h k = Done-from qs u v w h k
  Done-append (p ∷ ps) qs u v w (u1, e, h) k = (u1, e, Done-append ps qs u1 v w h k)

  pub Done-split :
      (ps qs : List Request) (u w : W) → Done (ps ++ qs) u w → (v : W) × Done ps u v × Done qs v w
  Done-split [] qs u w h = (u, refl, h)
  Done-split (p ∷ ps) qs u w (u1, e, h) =
      let (v, k, l) = Done-split ps qs u1 w h in (v, (u1, e, k), l)
