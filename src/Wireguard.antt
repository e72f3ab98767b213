-- ===== src/Wireguard.antt =====
-- WireGuard peer addresses of the Karpenter provider: karpenter/pkg/utils/wireguard/allocator.go.
-- `Net` is what the code takes from Go's package net, `RandomIp` its function `AllocateRandomIP`,
-- `Allocator` the type `IPAllocator` with its methods.
pub mod Net
pub mod RandomIp
pub mod Allocator
mod Tests
