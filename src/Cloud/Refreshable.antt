-- ===== src/Cloud/Refreshable.antt =====
-- `refreshableExoscaleClient` (exoscale/client.go, and the wrappers in exoscale/loadbalancer.go,
-- exoscale/instances.go and exoscale/sks.go): a call of the wrapped client that changes something
-- waits for its operation to end. The lock around the calls is the subject of Client/Locking.
use exoscale_cloud_controlle.Base.{String, List, Action, ◌>>=◌}
use exoscale_cloud_controlle.Cloud.Exoscale.{
  Client, Operation, LoadBalancer, LoadBalancerRequest, ServiceRequest, Instance, InstanceType,
  SksCluster,
}

abbrev pub operation_state_success : String
operation_state_success = "success"

module _ {W : Type 0} (exo : Client W) where
  unfoldable pub wait_for : Action W Operation → Action W Operation
  wait_for m = do op ← m; exo.wait op operation_state_success

  -- `CreateLoadBalancer`
  abbrev create_and_wait : LoadBalancerRequest → Action W Operation
  create_and_wait req = wait_for (exo.create_load_balancer req)

  -- `AddServiceToLoadBalancer`
  abbrev add_service_and_wait : String → ServiceRequest → Action W Operation
  add_service_and_wait id req = wait_for (exo.add_service_to_load_balancer id req)

  -- `DeleteLoadBalancer`
  abbrev delete_and_wait : String → Action W Operation
  delete_and_wait id = wait_for (exo.delete_load_balancer id)

  -- `DeleteLoadBalancerService`
  abbrev delete_service_and_wait : String → String → Action W Operation
  delete_service_and_wait id sid = wait_for (exo.delete_load_balancer_service id sid)

  -- `UpdateLoadBalancer`
  abbrev update_and_wait : String → LoadBalancerRequest → Action W Operation
  update_and_wait id req = wait_for (exo.update_load_balancer id req)

  -- `UpdateLoadBalancerService`
  abbrev update_service_and_wait : String → String → ServiceRequest → Action W Operation
  update_service_and_wait id sid req = wait_for (exo.update_load_balancer_service id sid req)

  -- `GetLoadBalancer` and `ListLoadBalancers`, which pass the call on.
  abbrev pass_get_load_balancer : String → Action W LoadBalancer
  pass_get_load_balancer id = exo.get_load_balancer id

  abbrev pass_list_load_balancers : Action W (List LoadBalancer)
  pass_list_load_balancers = exo.list_load_balancers

  -- `GetInstance`, `GetInstanceType` and `ListInstances`
  abbrev pass_get_instance : String → Action W Instance
  pass_get_instance id = exo.get_instance id

  abbrev pass_get_instance_type : String → Action W InstanceType
  pass_get_instance_type id = exo.get_instance_type id

  abbrev pass_list_instances : Action W (List Instance)
  pass_list_instances = exo.list_instances

  -- `ListSKSClusters`
  abbrev pass_list_sks_clusters : Action W (List SksCluster)
  pass_list_sks_clusters = exo.list_sks_clusters

  -- `Wait`
  abbrev pass_wait : Operation → String → Action W Operation
  pass_wait op state = exo.wait op state

  unfoldable pub refreshable : Client W
  unfolding wait_for
  refreshable = record {
    create_load_balancer = create_and_wait;
    add_service_to_load_balancer = add_service_and_wait;
    delete_load_balancer = delete_and_wait;
    delete_load_balancer_service = delete_service_and_wait;
    get_instance = pass_get_instance;
    get_instance_type = pass_get_instance_type;
    get_load_balancer = pass_get_load_balancer;
    list_instances = pass_list_instances;
    list_load_balancers = pass_list_load_balancers;
    list_sks_clusters = pass_list_sks_clusters;
    update_load_balancer = update_and_wait;
    update_load_balancer_service = update_service_and_wait;
    wait = pass_wait;
  }
