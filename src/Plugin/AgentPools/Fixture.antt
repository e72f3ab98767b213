-- ===== src/Plugin/AgentPools/Fixture.antt =====
-- A cloud of one disk and one instance, beside each other, for tests.
use aks_flex.Common.{refl, Option, String, ok}
use aks_flex.Plugin.Resource.{Resource, Service, ServiceLaws}
use aks_flex.Plugin.Resource.Slot.{SlotError, slot, slot-laws}
use aks_flex.Plugin.Flex.{Printers}
use aks_flex.Plugin.AgentPools.{DiskSpec, InstanceSpec, Host}

abbrev pub Cloud : Type 0
Cloud = Option (Resource DiskSpec) × Option (Resource InstanceSpec)

abbrev pub look_disk : Cloud → Option (Resource DiskSpec)
look_disk w = w.0

abbrev pub put_disk : Option (Resource DiskSpec) → Cloud → Cloud
put_disk d w = (d, w.1)

abbrev pub look_instance : Cloud → Option (Resource InstanceSpec)
look_instance w = w.1

abbrev pub put_instance : Option (Resource InstanceSpec) → Cloud → Cloud
put_instance i w = (w.0, i)

abbrev pub disks : Service DiskSpec String SlotError Cloud
disks = slot "disk-1" look_disk put_disk

abbrev pub instances : Service InstanceSpec String SlotError Cloud
instances = slot "vm-1" look_instance put_instance

abbrev pub disk_laws : ServiceLaws disks
disk_laws = slot-laws "disk-1" look_disk put_disk (λ o w. refl)

abbrev pub instance_laws : ServiceLaws instances
instance_laws = slot-laws "vm-1" look_instance put_instance (λ o w. refl)

-- The step's text is not looked at.
abbrev pub printers : Printers String
printers = record {
  trim_prefix = λ text prefix. text;
  marshal_step = λ step. ok "step";
  marshal_all = λ xs. ok "[]";
  execute_template = λ arch version. ok "bootstrap";
}

abbrev pub host : Host String
host = record {
  to_lower = λ text. text;
  wg_spoke_script = "#!";
  yaml_marshal = λ ud. ok "packages";
  printers = printers;
}
