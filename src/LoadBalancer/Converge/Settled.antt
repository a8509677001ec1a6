-- ===== src/LoadBalancer/Converge/Settled.antt =====
-- The service that a request makes or changes is what was asked for.
use exoscale_cloud_controlle.Base.{◌≡◌, sym, ap, false, string_eq, int_eq, arith}
use exoscale_cloud_controlle.Cloud.Exoscale.{LoadBalancerService}
use exoscale_cloud_controlle.LoadBalancer.Build.{
  without_status, is_load_balancer_service_updated, service_eq,
}
use exoscale_cloud_controlle.LoadBalancer.Lawful.{IsAdded, updated}
use exoscale_cloud_controlle.LoadBalancer.Update.{
  key_eq, key_of, add_request, update_request, pool_id,
}
use exoscale_cloud_controlle.LoadBalancer.Converge.Rounds.{
  IsSettled, over_same, over_number_same, over_healthcheck_some,
}

pub not_updated :
    (s u : LoadBalancerService)
    → is_load_balancer_service_updated s u ≡ false
    → without_status s ≡ without_status u
unfolding is_load_balancer_service_updated
not_updated s u h = ground arith

pub added-IsSettled :
    (u x : LoadBalancerService)
    → IsAdded (add_request u (pool_id u.instance_pool)) x
    → IsSettled x u
added-IsSettled u x a = record {
  key = λ i. record { port = a.port i; protocol = a.protocol i };
  name = λ _. a.name;
  description = λ _. a.description;
  target_port = λ _. a.target_port;
  strategy = λ _. a.strategy;
  healthcheck = λ _. a.healthcheck;
  pool = a.pool;
}

pub updated-key :
    (u s : LoadBalancerService)
    → key_of s ≡ key_of u
    → key_of (updated (update_request u) s) ≡ key_of u
unfolding updated
updated-key u s e = λ i. record {
  port = over_number_same u.port s.port (ap (λ k. k.port) (sym e)) i;
  protocol = over_same u.protocol s.protocol (ap (λ k. k.protocol) (sym e)) i;
}

pub updated-IsSettled :
    (u s : LoadBalancerService)
    → key_of s ≡ key_of u
    → pool_id s.instance_pool ≡ pool_id u.instance_pool
    → IsSettled (updated (update_request u) s) u
unfolding updated
updated-IsSettled u s e p = record {
  key = updated-key u s e;
  name = λ n. ground arith;
  description = λ n. ground arith;
  target_port = λ n. ground arith;
  strategy = λ n. ground arith;
  healthcheck = λ n. over_healthcheck_some u.healthcheck s.healthcheck n;
  pool = p;
}

pub same-IsSettled :
    (u s : LoadBalancerService)
    → without_status s ≡ without_status (record u { id = s.id })
    → IsSettled (without_status s) u
same-IsSettled u s e = record {
  key = ap key_of e;
  name = λ _. ap (λ z. z.name) e;
  description = λ _. ap (λ z. z.description) e;
  target_port = λ _. ap (λ z. z.target_port) e;
  strategy = λ _. ap (λ z. z.strategy) e;
  healthcheck = λ _. ap (λ z. z.healthcheck) e;
  pool = ap (λ z. pool_id z.instance_pool) e;
}
