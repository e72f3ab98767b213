-- ===== src/Plugin/Ssh.antt =====
-- plugin/pkg/util/ssh: PublicKey. A file is given by its path below HOME, and by its content if it can
-- be read.
use aks_flex.Common.{Option, none, some, String, Result, ok, or_err}

-- The first of two files that can be read; `missing` is "public key not found".
unfoldable pub public_key : {E : Type 0} → E → (String → Option String) → Result E String
public_key missing read_file = elim (read_file ".ssh/id_ed25519.pub") [
  | some b ↦ ok b
  | none ↦ or_err (read_file ".ssh/id_rsa.pub") missing
]
