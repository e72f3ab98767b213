-- ===== src/Plugin/Instances.antt =====
-- plugin/pkg/services/agentpools/instances.go: Restart passes a call to the back-end of the agent
-- pool that the ID starts with. List and Get are those of `VirtualChild` in `Server`.
use aks_flex.Common.{Option, String, Result, ok, err, ◌>>=◌, or_err, map_err, string_eq}
use aks_flex.Common.Assoc.{Map, lookup}
use aks_flex.Common.Split.{split, first_part}
use aks_flex.Plugin.{Proto, Store}
use aks_flex.Plugin.Db as Db
use aks_flex.Plugin.Db.{Panic}
use aks_flex.Plugin.Server.{Failure, invalid_argument, not_found, backend, panicked}

-- The method of a registered back-end.
abbrev pub Restart : Type 0 → Type 0 → Type 0 → Type 0
Restart B Cloud World = String → World → Cloud → Result B (Unit {0}) × Cloud

module _ {M O Any Bytes E B Cloud World : Type 0} (p : Proto M O Any Bytes E)
    (store : Store Bytes E World) (servers : Map String (Restart B Cloud World)) where
  -- The back-end of the agent pool.
  unfoldable pub restart_server :
      Result (Panic E) (Option O) → Result (Failure E B) (Restart B Cloud World)
  unfolding lookup
  restart_server found =
      map_err panicked found
      >>= (λ o. or_err o not_found)
      >>= (λ obj. or_err (lookup (p.type_url obj) servers) invalid_argument)

  unfoldable pub restart : String → Cloud → World → Result (Failure E B) (Unit {0}) × Cloud × World
  unfolding restart_server split
  restart id c w =
      let (found, w') = Db.get p store (first_part (split id)) w in
      elim (restart_server found) [
        | err e ↦ (err e, c, w')
        | ok srv ↦ let (r, c') = srv id w' c in (map_err backend r, c', w')
      ]
