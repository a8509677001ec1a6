-- ===== src/Tests/World.antt =====
-- An account with one NLB, and a Service with two ports that wants it.
use exoscale_cloud_controlle.Base.{
  not, none, some, [], ◌∷◌, ◌++◌, ◌==◌, string_eq, if◌then◌else◌, ok, err, not_found, pos, keep_if,
  find, ◌||◌,
}
use exoscale_cloud_controlle.Cloud.Exoscale.{
  Client, Finders, InstancePool, Healthcheck, LoadBalancer, LoadBalancerService, ServiceRequest,
  Operation, Instance,
}
use exoscale_cloud_controlle.Cloud.Kubernetes.{Service, ServicePort, Node, Kube}
use exoscale_cloud_controlle.LoadBalancer.Annotations.{
  annotation_id, annotation_service_instance_pool_id, annotation_external,
}
use exoscale_cloud_controlle.LoadBalancer.Session.{Session}

abbrev pub pool_1 : InstancePool
pool_1 = record { id = "pool-1"; others = [] }

abbrev pub check_30080 : Healthcheck
check_30080 = record {
  mode = "tcp";
  port = pos 30080;
  uri = "";
  interval = pos 10;
  timeout = pos 5;
  retries = pos 1;
  tls_sni = "";
}

-- A service that the Service asks for, and one of another Service.
abbrev pub http : LoadBalancerService
http = record {
  id = "svc-1";
  name = "uid-80";
  description = "";
  instance_pool = some pool_1;
  healthcheck = some check_30080;
  healthcheck_status = [];
  port = pos 80;
  target_port = pos 30080;
  protocol = "tcp";
  strategy = "round-robin";
  state = "running";
}

abbrev pub foreign : LoadBalancerService
foreign = record http { id = "svc-9"; name = "other"; port = pos 9000 }

abbrev pub account_nlb : LoadBalancer
account_nlb = record {
  id = "nlb-1";
  name = "k8s-uid";
  description = "";
  ip = "194.182.0.1";
  labels = [];
  services = http ∷ foreign ∷ [];
  state = "running";
}

abbrev pub account_instance : Instance
account_instance = record {
  id = "vm-1";
  name = "Node-A";
  instance_type = some "t-1";
  public_ip = some "194.182.0.9";
  ipv6_address = "";
  private_networks = "net-1" ∷ [];
  manager = some (record { id = "pool-1"; type = "instance-pool" });
  state = "running";
}

abbrev pub op : Operation
op = record { id = "op"; state = "success"; reference = some "nlb-1" }

abbrev pub service_of : ServiceRequest → LoadBalancerService
service_of r = record {
  id = "svc-new";
  name = r.name;
  description = r.description;
  instance_pool = r.instance_pool;
  healthcheck = r.healthcheck;
  healthcheck_status = [];
  port = r.port;
  target_port = r.target_port;
  protocol = r.protocol;
  strategy = r.strategy;
  state = "creating";
}

unfoldable pub account : Client LoadBalancer
unfolding string_eq
account = record {
  create_load_balancer =
      λ req w. (ok op, record w { name = req.name; description = req.description });
  add_service_to_load_balancer =
      λ id req w. (ok op, record w { services = w.services ++ (service_of req ∷ []) });
  delete_load_balancer = λ id w. (ok op, w);
  delete_load_balancer_service =
      λ id sid w. (ok op, record w { services = keep_if (λ s. not (s.id == sid)) w.services });
  get_instance = λ id w. (if id == "vm-1" then ok account_instance else err not_found, w);
  get_instance_type = λ id w. (ok (record { family = "standard"; size = "tiny" }), w);
  get_load_balancer = λ id w. (if id == w.id then ok w else err not_found, w);
  list_instances = λ w. (ok (account_instance ∷ []), w);
  list_load_balancers = λ w. (ok (w ∷ []), w);
  list_sks_clusters = λ w. (ok [], w);
  update_load_balancer =
      λ id req w. (ok op, record w { name = req.name; description = req.description });
  update_load_balancer_service = λ id sid req w. (ok op, w);
  wait = λ o state w. (ok o, w);
}

abbrev pub port_80 : ServicePort
port_80 = record { port = pos 80; node_port = pos 30080; protocol = "TCP" }

abbrev pub port_53 : ServicePort
port_53 = record { port = pos 53; node_port = pos 30053; protocol = "UDP" }

abbrev pub web : Service
web = record {
  namespace = "default";
  name = "web";
  uid = "uid";
  annotations = (annotation_id, "nlb-1") ∷ (annotation_service_instance_pool_id, "pool-1") ∷ [];
  ports = port_80 ∷ port_53 ∷ [];
  external_traffic_policy = "Cluster";
  health_check_node_port = pos 0;
}

abbrev pub web_external : Service
web_external = record web {
  annotations =
      (annotation_external, "True")
      ∷ (annotation_id, "nlb-1")
      ∷ (annotation_service_instance_pool_id, "pool-1")
      ∷ [];
}

abbrev pub start : Service → Session LoadBalancer
start service = record { service = service; world = account_nlb; requests = [] }

abbrev pub node_object : Node
node_object = record { name = "node-a"; annotations = []; provider_id = ""; system_uuid = "vm-1" }

unfoldable pub kube : Kube LoadBalancer
unfolding string_eq
kube = record {
  get_node = λ name w. (
    if name == "node-a"
        then record { value = some node_object; error = none }
        else record { value = some (record node_object { name = "" }); error = some not_found },
    w,
  );
  marshal = λ s. ok s.uid;
  two_way_merge_patch = λ a b. ok b;
  patch_service = λ ns name p w. (ok tt, w);
}

unfoldable pub finders : Finders
unfolding string_eq
finders = record {
  find_load_balancer = λ nlbs name. elim (find (λ n. n.id == name || n.name == name) nlbs) [
    | some n ↦ ok n
    | none ↦ err not_found
  ];
  find_sks_cluster = λ clusters name. elim (find (λ c. c.id == name || c.name == name) clusters) [
    | some c ↦ ok c
    | none ↦ err not_found
  ];
}
