-- ===== src/Lib.antt =====
-- Models of AKS Flex: the Karpenter provider that launches nodes outside Azure, and the plugin that
-- keeps and serves the objects behind it.
--
-- Common        numbers, lists, equality, Go's maps as association lists, results with an error
-- Karpenter     the types and the interface that the cloud providers exchange
-- Wireguard     karpenter/pkg/utils/wireguard/allocator.go: `RandomIp` is AllocateRandomIP, and
--               `Allocator` is IPAllocator with AllocateIP and cleanup
-- Hub           karpenter/pkg/cloudproviders/hub.go: the providers by group and kind and by the
--               scheme of a provider ID, and the calls that the hub passes on
-- InstanceTypes karpenter/pkg/cloudproviders/nebius/instancetype: `Platform`, `Offerings` and
--               `Types` are platform.go, offerings.go and instancetype.go; provider.go is in
--               `Resolve` (listing and assembly), `Choice` (the preset for a NodeClaim) and
--               `Provider` (the cache and its refresh)
-- Nebius        karpenter/pkg/cloudproviders/nebius: `NodeClaims` is nodeclaim.go, and
--               cloudprovider.go with api.go is in `Calls` (state, errors), `CloudProvider`
--               (Create, Delete) and `Reads`, over `Wireguard` and `InstanceTypes`
-- Kaito         karpenter/pkg/cloudproviders/kaito and karpenter/pkg/options/kaito.go: the file
--               itself is nodeclaim.go, `CloudProvider` is cloudprovider.go
-- Controllers   karpenter/pkg/controllers: `ProviderId` is nodes/set_provider_id.go, `Status` and
--               `Termination` are nodeclass_status.go and nodeclass_termination.go of nebius,
--               and `Runs` are both beside changes of others
-- Plugin        plugin/pkg/db/db.go and plugin/pkg/helper/helper.go in `Db`, over a store: `Files`
--               is filestore.go, `Secrets` with `Chunks` is secretstore.go; parent.go,
--               virtualchild.go and server.go of plugin/pkg/server in `Server`
-- Plugin, the back-ends for Nebius
--               `Resource` is plugin/pkg/util/nebius/resource.go; on it stand `AgentPools`
--               (services/agentpools/nebius/instance/agentpools.go) and `Networks`
--               (services/networks/nebius/vpc/vpc.go); `Flex` is the user data of
--               services/agentpools/userdata/flex/flex.go, and `CloudInit` is util/cloudinit
-- Plugin, the back-ends for AWS and Azure
--               `Stacks` is plugin/pkg/util/aws; on it stands `Aws` with `Networks`
--               (services/networks/aws/vpc), `Peerings` (services/peerings/aws/ipsecvpn),
--               `AgentPools` and `Instances` (services/agentpools/aws/ubuntu2404instance), and
--               `Ubuntu` is their user data (services/agentpools/userdata/ubuntu with util/kubeadm).
--               `Azure` is services/agentpools/azure/ubuntu2404vmss. `Instances` is
--               services/agentpools/instances.go, which calls both; `Ssh` is util/ssh
-- Cluster       plugin/pkg/util/k8s/k8s.go: the kubeconfig of the cluster, the file that it is
--               merged into, and the API server that such a file names
-- Bootstrap     the bootstrap token: cli/internal/config/k8sbootstrap/k8sbootstrap.go,
--               cli/internal/aks/deploy/k8s.go with plugin/pkg/util/k8s/apply.go, which leave it,
--               and in `Node` FromAKS of plugin/pkg/util/kubeadm/azure.go, which reads it;
--               `Printed` is paramsFromContext, the parameters that the command prints
--
-- Karpenter calls the hub, which calls the provider of a node class. A provider asks the allocator
-- for an address, the provider for Nebius also the instance types for a preset, and creates an agent
-- pool through the plugin, whose `Parent` server calls a back-end and keeps what it returns in
-- the database. The back-end asks the cloud for a disk and an instance. The instance joins the
-- cluster as a node, to which a controller gives the provider ID of its NodeClaim.
--
-- A method that holds a mutex from its first to its last line is one step on its state, and a run
-- is a sequence of such steps with what each of them reads from outside. The provider of instance
-- types holds no mutex through a call: `InstanceTypes.Provider.Reached` also has look-ups,
-- storings and the keys of a refresh as steps of their own, but a key is cached and tracked in
-- one. An error is a value, and so is a panic. Outside packages are records of functions: net, the
-- random source and the informer cache in `Wireguard`; the Nebius API, float64, scheduling and the
-- LRU cache in `InstanceTypes`; protobuf, files, the client of Secrets, gzip and the clients of
-- the clouds in `Plugin`; url, labels and the plugin's client in `Nebius` and `Kaito`; the client
-- of the API server in `Controllers` and `Bootstrap`, with the random source, SHA-256, base64, the
-- template and the decoder of YAML; clientcmd, files and url in `Cluster`. What the theorems need
-- of them is a record of laws or a named hypothesis, which the tests fill with concrete functions.
-- The loop over the hosts of a block runs on fuel: one more than the number of offsets between its
-- bounds, which is enough for it to end. The loop over chunks has the length of the data as its
-- fuel, and each round takes one at least. The loop that deletes stale chunks is given its fuel,
-- and more of it than there are chunks is enough; so is the loop over the pages of a scale set's
-- machines, with more than there are pages.
--
-- Not modelled: the plugin's WireGuard and configuration utilities, the generated code, the rest of
-- the command line, the wiring of the processes, logging and contexts.
mod Common
pub mod Wireguard
pub mod Karpenter
pub mod Hub
pub mod InstanceTypes
pub mod Nebius
pub mod Kaito
pub mod Controllers
pub mod Plugin
pub mod Cluster
pub mod Bootstrap
