-- ===== src/Mesh/Service.antt =====
-- `serve_microservice` of src/mesh.rs: an instance of a service, hosted by the process.
use lane_switchboards.Base.{nat_eq, string_eq, String, Option}
use lane_switchboards.Config.{default_distributed_config}
use lane_switchboards.Cluster.{Call, panics, returns}
use lane_switchboards.Actor.Types.{ActorId}
use lane_switchboards.Frames.Node.{
  Host, NodeHandle, Serving, serving, not_serving, ServeError, serve_actor_on_runtime,
}
use lane_switchboards.Mesh.{ServiceRecord}

pub record MicroserviceHandle : Type 0 where
  pub service_record : ServiceRecord
  pub node : NodeHandle

pub data Service : Type 0 where
  running : MicroserviceHandle → Service
  failed : ServeError → Service

module _ {M : Type 0} where
  -- The target of the frames is the identifier of the instance.
  unfoldable pub microservice : String → String → Call (Serving × Host M) → Call (Service × Host M)
  microservice service instance_id panics = panics
  microservice service instance_id (returns (not_serving e, host)) = returns (failed e, host)
  microservice service instance_id (returns (serving node, host)) = returns (
    running (record {
      service_record = record {
        service = service;
        instance_id = instance_id;
        address = node.node.bind_addr;
        target = instance_id;
        registered_at = 0;
      };
      node = node;
    }),
    host,
  )

  unfoldable pub serve_microservice :
      String → String → Option ActorId → Option String → Host M → Call (Service × Host M)
  unfolding microservice serve_actor_on_runtime
  serve_microservice service instance_id spawned bound host =
      microservice service instance_id (
        serve_actor_on_runtime instance_id instance_id default_distributed_config spawned bound
          host)
