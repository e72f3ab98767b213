-- ===== src/Plugin/Aws/Names.antt =====
-- The stacks of apart "n" "a" (λ h. omega arith)  objects have apart "p" "a" (λ h. omega arith)  names.
use Prim.Native.Char.{Char, code}
use text.Mathlib.TextLemmas.{append_cancel_left, cons-append, head-eq_of_cons-eq}
use aks_flex.Common.{◌≡◌, ◌≢◌, sym, ap, ◌∙◌, String, arith}
use aks_flex.Plugin.Aws.{network_stack, peering_stack, agent_pool_stack}

-- The type and the ID of an object.
pub data Identity : Type 0 where
  network : String → Identity
  peering : String → Identity
  agent_pool : String → Identity

abbrev pub stack_name : Identity → String
stack_name (network id) = network_stack id
stack_name (peering id) = peering_stack id
stack_name (agent_pool id) = agent_pool_stack id

apart : (c d : Char) → code c ≢ code d → c ≢ d
apart c d h e = h (ap code e)

network≢peering : (a b : String) → network_stack a ≢ peering_stack b
network≢peering a b e =
    apart "n" "p" (λ h. omega arith)
      (head-eq_of_cons-eq (sym (cons-append "n" "etwork-" a) ∙ e ∙ cons-append "p" "eering-" b))

network≢agent_pool : (a b : String) → network_stack a ≢ agent_pool_stack b
network≢agent_pool a b e =
    apart "n" "a" (λ h. omega arith)
      (head-eq_of_cons-eq (sym (cons-append "n" "etwork-" a) ∙ e ∙ cons-append "a" "gentpool-" b))

peering≢agent_pool : (a b : String) → peering_stack a ≢ agent_pool_stack b
peering≢agent_pool a b e =
    apart "p" "a" (λ h. omega arith)
      (head-eq_of_cons-eq (sym (cons-append "p" "eering-" a) ∙ e ∙ cons-append "a" "gentpool-" b))

pub stack_name_injective : (i j : Identity) → stack_name i ≡ stack_name j → i ≡ j
stack_name_injective (network a) (network b) e = ap network (append_cancel_left "network-" a b e)
stack_name_injective (network a) (peering b) e = absurd (network≢peering a b e)
stack_name_injective (network a) (agent_pool b) e = absurd (network≢agent_pool a b e)
stack_name_injective (peering a) (network b) e = absurd (network≢peering b a (sym e))
stack_name_injective (peering a) (peering b) e = ap peering (append_cancel_left "peering-" a b e)
stack_name_injective (peering a) (agent_pool b) e = absurd (peering≢agent_pool a b e)
stack_name_injective (agent_pool a) (network b) e = absurd (network≢agent_pool b a (sym e))
stack_name_injective (agent_pool a) (peering b) e = absurd (peering≢agent_pool b a (sym e))
stack_name_injective (agent_pool a) (agent_pool b) e =
    ap agent_pool (append_cancel_left "agentpool-" a b e)
