-- ===== src/Plugin.antt =====
-- The plugin: its database and its servers (plugin/pkg/db, plugin/pkg/server, plugin/pkg/helper),
-- and what its back-ends for Nebius do with the cloud (plugin/pkg/util/nebius).
-- This file has what they take from elsewhere.
pub mod Db
pub mod Server
pub mod Files
pub mod Chunks
pub mod Secrets
pub mod Resource
pub mod CloudInit
pub mod Flex
pub mod Ubuntu
pub mod Ssh
pub mod Stacks
pub mod Aws
pub mod Azure
pub mod Instances
pub mod AgentPools
pub mod Networks
mod Tests
use aks_flex.Common.{◌≡◌, Bool, Option, some, List, String, Result, ok}

-- The generated messages and the protobuf package: `M` is any message, `O` one that is an
-- `api.Object`, `Any` an anypb.Any, `E` their errors. `Redact` is a method of each object type.
pub record Proto (M O Any Bytes E : Type 0) : Type 0 where
  -- `o.GetMetadata().GetId()`
  pub id : O → String
  pub redact : O → O
  -- TypeURL of an object, and the field TypeUrl of an Any
  pub type_url : O → String
  pub any_type_url : Any → String
  pub new_any : O → Result E Any
  pub unmarshal_new : Any → Result E M
  -- `m.(api.Object)`
  pub as_object : M → Option O
  -- proto.Marshal and proto.Unmarshal of a ListResponse, given by its items
  pub marshal : List Any → Result E Bytes
  pub unmarshal : Bytes → Result E (List Any)

-- What is packed or marshalled reads back as it was.
pub record ProtoLaws {M O Any Bytes E : Type 0} (p : Proto M O Any Bytes E) : Type 0 where
  pub unmarshal_new-new_any :
      (o : O) (a : Any)
      → p.new_any o ≡ ok a
      → (m : M) × (p.unmarshal_new a ≡ ok m) × (p.as_object m ≡ some o)
  pub unmarshal-marshal :
      (items : List Any) (b : Bytes) → p.marshal items ≡ ok b → p.unmarshal b ≡ ok items

-- The interface Store of filestore.go over a world.
pub record Store (Bytes E World : Type 0) : Type 0 where
  pub read : World → Result E Bytes × World
  pub write : Bytes → World → Result E (Unit {0}) × World

-- A read leaves what the next read gives, and after a write that succeeds it gives what was written.
pub record StoreLaws {Bytes E World : Type 0} (s : Store Bytes E World) : Type 0 where
  pub read_again : (w : World) → (s.read (s.read w).1).0 ≡ (s.read w).0
  pub read-write :
      (b : Bytes) (w : World) → (s.write b w).0 ≡ ok tt → (s.read (s.write b w).1).0 ≡ ok b
