-- ===== src/Plugin/Networks/Tests.antt =====
-- A cloud of one pool, one network and one subnet.
use aks_flex.Common.{◌≡◌, refl, inl, inr, Option, none, some, ok, String, string_eq, Option-cases}
use aks_flex.Plugin.Resource.{Resource, Service, ServiceLaws}
use aks_flex.Plugin.Resource as Resource
use aks_flex.Plugin.Resource.Slot.{SlotError, slot, slot-laws}
use aks_flex.Plugin.Resource.Apart.{Apart}
use aks_flex.Plugin.Networks.{
  Network, PoolSpec, NetworkSpec, SubnetSpec, create_or_update, create_network, create_subnet,
  with_status, desired_pool, desired_network, desired_subnet, delete,
}
use aks_flex.Plugin.Networks.Settled.{InOrder, create_or_update-settled, delete-InOrder}

abbrev Cloud : Type 0
Cloud = Option (Resource PoolSpec) × Option (Resource NetworkSpec) × Option (Resource SubnetSpec)

abbrev look_pool : Cloud → Option (Resource PoolSpec)
look_pool w = w.0

abbrev put_pool : Option (Resource PoolSpec) → Cloud → Cloud
put_pool o w = (o, w.1, w.2)

abbrev look_network : Cloud → Option (Resource NetworkSpec)
look_network w = w.1

abbrev put_network : Option (Resource NetworkSpec) → Cloud → Cloud
put_network o w = (w.0, o, w.2)

abbrev look_subnet : Cloud → Option (Resource SubnetSpec)
look_subnet w = w.2

abbrev put_subnet : Option (Resource SubnetSpec) → Cloud → Cloud
put_subnet o w = (w.0, w.1, o)

abbrev pools : Service PoolSpec String SlotError Cloud
pools = slot "pool-1" look_pool put_pool

abbrev networks : Service NetworkSpec String SlotError Cloud
networks = slot "network-1" look_network put_network

abbrev subnets : Service SubnetSpec String SlotError Cloud
subnets = slot "subnet-1" look_subnet put_subnet

abbrev pool_laws : ServiceLaws pools
pool_laws = slot-laws "pool-1" look_pool put_pool (λ o w. refl)

abbrev network_laws : ServiceLaws networks
network_laws = slot-laws "network-1" look_network put_network (λ o w. refl)

abbrev subnet_laws : ServiceLaws subnets
subnet_laws = slot-laws "subnet-1" look_subnet put_subnet (λ o w. refl)

network_pool : Apart networks pools
unfolding slot
network_pool = record {
  create_apart = λ md spec name parent w. elim (Option-cases w.1) [
    | inl q ↦ rw (slot, q) refl
    | inr (r, q) ↦ rw (slot, q) refl
  ];
  wait_apart = λ op name parent w. refl;
}

subnet_pool : Apart subnets pools
unfolding slot
subnet_pool = record {
  create_apart = λ md spec name parent w. elim (Option-cases w.2) [
    | inl q ↦ rw (slot, q) refl
    | inr (r, q) ↦ rw (slot, q) refl
  ];
  wait_apart = λ op name parent w. refl;
}

subnet_network : Apart subnets networks
unfolding slot
subnet_network = record {
  create_apart = λ md spec name parent w. elim (Option-cases w.2) [
    | inl q ↦ rw (slot, q) refl
    | inr (r, q) ↦ rw (slot, q) refl
  ];
  wait_apart = λ op name parent w. refl;
}

abbrev vnet : Network
vnet = record { id = "vnet"; project_id = "project"; cidr_block = "10.0.0.0/16"; status = none }

abbrev made : Network
made = record vnet {
  status = some (record { pool_id = "pool-1"; vnet_id = "network-1"; subnet_id = "subnet-1" });
}

abbrev empty : Cloud
empty = (none, none, none)

abbrev full : Cloud
full = (create_or_update pools networks subnets vnet empty).1

created : (create_or_update pools networks subnets vnet empty).0 ≡ ok made
unfolding create_or_update create_network create_subnet with_status desired_pool desired_network
    desired_subnet Resource.create_or_update Resource.resolve Resource.create Resource.wait_and_get
    slot
created = refl

create_or_update-settled_example :
    create_or_update pools networks subnets vnet full ≡ (ok made, full)
create_or_update-settled_example =
    create_or_update-settled pools networks subnets vnet pool_laws network_laws subnet_laws
      network_pool subnet_pool subnet_network made empty refl created

delete-InOrder_example :
    InOrder pools networks subnets made pool_laws network_laws subnet_laws full
      (delete pools networks subnets made full)
delete-InOrder_example =
    delete-InOrder pools networks subnets made pool_laws network_laws subnet_laws full
