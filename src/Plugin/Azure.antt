-- ===== src/Plugin/Azure.antt =====
-- plugin/pkg/services/agentpools/azure/ubuntu2404vmss: agentpools.go with redact.go. An agent pool
-- is a scale set of virtual machines. This file has the agent pools, what they take from elsewhere,
-- and the scale set that an agent pool wants; the handlers are in `AgentPools` and `Instances`.
pub mod AgentPools
pub mod Instances
pub mod Restarted
mod Tests
use aks_flex.Common.{
  ℕ, Bool, true, false, Option, List, [], ◌∷◌, String, Result, ok, err, ◌>>=◌, map_err,
}
use aks_flex.Nebius.{KubeadmConfig}
use aks_flex.Plugin.CloudInit.{UserData, gzip}
use aks_flex.Plugin.Flex.{Printers, FlexError, default_arch, user_data}
use aks_flex.Plugin.AgentPools.{add_node_labels}
use aks_flex.Plugin.Db.{AnyError, Panic}

-- AgentPool, whose status is always empty
pub record ScaleSetPool : Type 0 where
  pub id : String
  pub resource_id : String
  pub location : String
  pub subnet_id : String
  pub sku : String
  pub capacity : ℕ
  pub kubeadm : KubeadmConfig
  pub zones : List String

-- arm.ResourceID
pub record ResourceId : Type 0 where
  pub subscription_id : String
  pub resource_group_name : String
  pub name : String

-- The constants of armcompute for the mode, the disk's source, its caching and its storage.
pub data Constant : Type 0 where
  manual from_image read_write premium_lrs : Constant

-- An interface by its name, whether it is primary, and the name and subnet of its configurations.
pub record NetworkInterface : Type 0 where
  pub name : String
  pub primary : Bool
  pub ip_configurations : List (String × String)

pub record ImageReference : Type 0 where
  pub offer : String
  pub publisher : String
  pub sku : String
  pub version : String

-- armcompute.VirtualMachineScaleSet; a public key is its path and its data
pub record ScaleSet : Type 0 where
  pub location : String
  pub upgrade_mode : Constant
  pub network_interfaces : List NetworkInterface
  pub admin_username : String
  pub computer_name_prefix : String
  pub disable_password_authentication : Bool
  pub public_keys : List (String × String)
  pub image : ImageReference
  pub disk_create_option : Constant
  pub disk_caching : Constant
  pub storage_account_type : Constant
  pub user_data : String
  pub capacity : ℕ
  pub sku : String
  pub tier : String
  pub zones : List String

-- arm.ParseResourceID, and the clients for scale sets and their machines: `Z` is an error of theirs,
-- `Pager` a pager of the machines' IDs, `W` what the calls change.
pub record Azure (Z Client Poller Pager W : Type 0) : Type 0 where
  pub parse_resource_id : String → Result Z ResourceId
  pub new_scale_sets_client : String → Result Z Client
  pub new_machines_client : String → Result Z Client
  pub begin_create_or_update : Client → String → String → ScaleSet → W → Result Z Poller × W
  -- with ForceDeletion, if the flag is set
  pub begin_delete : Client → String → String → Bool → W → Result Z Poller × W
  pub begin_restart : Client → String → String → List String → W → Result Z Poller × W
  pub poll_until_done : Poller → W → Result Z (Unit {0}) × W
  pub new_list_pager : Client → String → String → Pager
  pub more : Pager → Bool
  pub next_page : Pager → W → Result Z (List (Option String)) × Pager × W

-- What a handler fails with: `E` is an error of the printers, `P` of the protobuf package, `Z` of
-- Azure.
pub data AzureFailure (E P Z : Type 0) : Type 0 where
  unpacking : AnyError P → AzureFailure E P Z
  azure_failed : Z → AzureFailure E P Z
  no_public_key : AzureFailure E P Z
  generating : FlexError E → AzureFailure E P Z
  printing : E → AzureFailure E P Z
  packing : P → AzureFailure E P Z
  database : Panic P → AzureFailure E P Z
  not_found : AzureFailure E P Z
  -- panics: a nil pointer is read, or the part of an ID that is not there
  nil_dereference : AzureFailure E P Z
  id_out_of_range : AzureFailure E P Z
  unimplemented : AzureFailure E P Z

-- strings.ToLower, the user's files by their paths below HOME, and what makes the user data of a machine a text.
pub record Machine (E : Type 0) : Type 0 where
  pub to_lower : String → String
  pub read_file : String → Option String
  pub printers : Printers E
  pub yaml_marshal : UserData → Result E String
  pub compress : String → Result E String
  pub encode_base64 : String → String

-- Redact, which clears the token of the kubeadm configuration
unfoldable pub redact : ScaleSetPool → ScaleSetPool
redact pool = record pool { kubeadm = record pool.kubeadm { token = "" } }

unfoldable pub scale_set : ScaleSetPool → ResourceId → String → String → ScaleSet
scale_set pool rid ssh_key user_data = record {
  location = pool.location;
  upgrade_mode = manual;
  network_interfaces =
      record { name = "nic"; primary = true; ip_configurations = ("ipconfig", pool.subnet_id) ∷ [] }
      ∷ [];
  admin_username = "ubuntu";
  computer_name_prefix = rid.name;
  disable_password_authentication = true;
  public_keys = ("/home/ubuntu/.ssh/authorized_keys", ssh_key) ∷ [];
  image = record {
    offer = "ubuntu-24_04-lts";
    publisher = "Canonical";
    sku = "server";
    version = "latest";
  };
  disk_create_option = from_image;
  disk_caching = read_write;
  storage_account_type = premium_lrs;
  user_data = user_data;
  capacity = pool.capacity;
  sku = pool.sku;
  tier = "Standard";
  zones = pool.zones;
}

module _ {E : Type 0} (P Z : Type 0) (machine : Machine E) where
  -- The agent pool with the labels that the handler adds to its kubeadm configuration.
  unfoldable pub label_node : ScaleSetPool → ScaleSetPool
  unfolding add_node_labels
  label_node pool = record pool {
    kubeadm = add_node_labels pool.kubeadm (
        ("aks.azure.com/cloud", "azure")
        ∷ ("aks.azure.com/region", machine.to_lower pool.location)
        ∷ ("aks.azure.com/instance-type", machine.to_lower pool.sku)
        ∷ []);
  }

  -- The compressed user data of flex with its default options.
  unfoldable pub user_data_content : ScaleSetPool → Result (AzureFailure E P Z) String
  unfolding user_data gzip
  user_data_content pool =
      map_err generating (
        user_data machine.printers (record {
          enable_nvidia_gpu_runtime = false;
          kube_version = "1.34.2";
          arch = default_arch;
          kubeadm_config = pool.kubeadm;
        }))
      >>= (λ ud. map_err printing (gzip machine.yaml_marshal machine.compress ud))
