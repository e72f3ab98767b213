-- ===== src/Nebius/Fixture.antt =====
-- Concrete packages, networks and a cluster, for tests.
use aks_flex.Common.{ℕ, true, none, some, [], ◌∷◌, String, ◌==◌, string_eq, if◌then◌else◌, ltb}
use aks_flex.Wireguard.Net.{Net}
use aks_flex.InstanceTypes.{Packages}
use aks_flex.Nebius.{Cluster, Outside}

abbrev pub pkg : Packages ℕ
pkg = record {
  less = ltb;
  default_price = 1000;
  max_float64 = 1000000;
  parse_float = λ s. some 3;
  sprint = λ n. "n";
  on_demand = "on-demand";
  spot = "spot";
  linux = "linux";
  op_in = "In";
  instance_type_key = "type";
  zone_key = "zone";
  region_key = "region";
  os_key = "os";
  arch_key = "arch";
  capacity_type_key = "capacity";
  sku_cpu_key = "sku-cpu";
  sku_memory_key = "sku-memory";
  aks_cpu_key = "cpu";
  aks_memory_key = "memory";
  sku_gpu_count_key = "gpu";
  is_compatible = λ a b. true;
  values = λ rs key. if key == "type" then "cpu-small" ∷ [] else [];
  kube_reserved = λ c m. [];
  system_reserved = [];
  eviction_threshold = [];
}

abbrev pub outside : Outside ℕ String
outside = record {
  parse_url = λ s. if s == "aks-nebius://pool" then some ("aks-nebius", "pool") else none;
  contains = λ s t. s == t;
  error_text = λ e. e;
  is_not_found_code = λ e. e == "not found";
  all_single_valued_labels = λ rs. [];
  well_known_single_valued_labels = λ rs. [];
  allocatable = λ it. it.capacity;
  capacity_type_reserved = "reserved";
  unregistered_no_execute_taint = "karpenter.sh/unregistered";
}

abbrev pub net : Net
net = record {
  Ip = ℕ;
  IpNet = ℕ × ℕ;
  parse_cidr = λ s. none;
  network = λ n. n.0;
  mask_size = λ n. (n.1, 32);
  parse_ip = λ s. none;
  to4 = λ p. some p;
  ip_string = λ p. "";
  put_uint32 = λ x. x;
}

abbrev pub cluster : Cluster
cluster = record {
  cluster_endpoint = "https://cluster";
  kubelet_client_tls_bootstrap_token = "token";
  node_resource_group = "group";
  version_no_v_prefix = "1.33.0";
  ca = "ca";
}
