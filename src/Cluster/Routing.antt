-- ===== src/Cluster/Routing.antt =====
-- crates/queryfabric-cluster/src/routing.rs with the registry maps of crates/queryfabric-cluster/src/registry.rs and
-- the health test of crates/queryfabric-cluster/src/health.rs: which cluster a resource lives on, and which
-- endpoint takes its requests. A resource id and a cluster id are numbers.
use queryfabric.Base.{
  Bool, List, Option, String, [], false, if◌then◌else◌, insert, lookup, map, nat_eq, none, remove,
  some, ℕ, ◌++◌, ◌∷◌,
}
use queryfabric.Cluster.Monitor.{HealthCache, is_delegatable_health}

pub record ClusterRemoteHandle : Type 0 where
  pub cluster_id : ℕ
  pub cluster_name : String
  pub dht_name : String
  pub flight_endpoint : Option String
  pub flight_tls : Bool

pub record ResourceLocation : Type 0 where
  pub cluster_id : ℕ
  pub tables : List String

pub record RemoteGroup : Type 0 where
  pub cluster_id : ℕ
  pub resource_ids : List ℕ

pub record RoutingDecision : Type 0 where
  pub local_ids : List ℕ
  pub remote : List RemoteGroup

pub record HubRegistryState : Type 0 where
  pub cluster_refs : List (ℕ × ClusterRemoteHandle)
  pub resource_index : List (ℕ × ResourceLocation)

unfoldable pub upsert_cluster : HubRegistryState → ClusterRemoteHandle → HubRegistryState
upsert_cluster st handle = record st {
  cluster_refs = insert handle.cluster_id handle st.cluster_refs;
}

unfoldable pub upsert_resource : HubRegistryState → ℕ → ResourceLocation → HubRegistryState
upsert_resource st id location = record st { resource_index = insert id location st.resource_index }

unfoldable pub remove_resource : HubRegistryState → ℕ → HubRegistryState
remove_resource st id = record st { resource_index = remove id st.resource_index }

-- `remote_map.entry(cluster).or_default()`
abbrev pub ids_at : ℕ → List (ℕ × List ℕ) → List ℕ
ids_at cluster m = elim (lookup cluster m) [ none ↦ [] | some ids ↦ ids ]

abbrev pub Partition : Type 0
Partition = List ℕ × List (ℕ × List ℕ)

-- The loop over the ids: the local ones, and the map of the remote ones.
unfoldable pub place : List (ℕ × ResourceLocation) → Partition → ℕ → Partition
place index (local, remote) id = elim (lookup id index) [
  | none ↦ (local ++ id ∷ [], remote)
  | some loc ↦ (local, insert loc.cluster_id (ids_at loc.cluster_id remote ++ id ∷ []) remote)
]

unfoldable pub locality_loop : List (ℕ × ResourceLocation) → Partition → List ℕ → Partition
unfolding place
locality_loop index p [] = p
locality_loop index p (id ∷ ids) = locality_loop index (place index p id) ids

abbrev pub group_of : ℕ × List ℕ → RemoteGroup
group_of (cluster, ids) = record { cluster_id = cluster; resource_ids = ids }

unfoldable pub resolve_locality : List (ℕ × ResourceLocation) → List ℕ → RoutingDecision
unfolding locality_loop
resolve_locality index ids =
    let (local, remote) = locality_loop index ([], []) ids in
    record { local_ids = local; remote = map group_of remote }

-- `is_delegatable` of a cached cluster.
unfoldable pub is_delegatable : HealthCache → ℕ → Bool
is_delegatable cache cluster = elim (lookup cluster cache) [
  | none ↦ false
  | some health ↦ is_delegatable_health health
]

abbrev pub endpoint_of : ClusterRemoteHandle → Option (String × Bool)
endpoint_of handle = elim handle.flight_endpoint [
  | none ↦ none
  | some endpoint ↦ some (endpoint, handle.flight_tls)
]

unfoldable pub get_healthy_endpoint :
    List (ℕ × ClusterRemoteHandle) → HealthCache → ℕ → Option (String × Bool)
unfolding is_delegatable
get_healthy_endpoint refs cache cluster =
    if is_delegatable cache cluster
    then elim (lookup cluster refs) [ none ↦ none | some handle ↦ endpoint_of handle ]
    else none
