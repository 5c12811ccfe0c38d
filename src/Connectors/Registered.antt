-- ===== src/Connectors/Registered.antt =====
-- The registry of api/internal/connectors/connector.go.
use sentilyzer.Prelude.{◌≡◌, map, Perm, Str, some, ◌=?◌, str_instance, if◌then◌else◌}
use sentilyzer.Prelude.Maps.{lookup-insert}
use sentilyzer.Prelude.Sort.{sort-perm}
use sentilyzer.Connectors.{Connector, Registry, register, get, list, by_id}

-- A connector is found under its own id after it was registered, in place of an earlier one with that
-- id, and every other id is found as before; and the list holds the registered connectors, each once.
pub get-register :
    (r : Registry) (c : Connector) (id : Str)
    → (get (register r c) id ≡ (if c.id =? id then some c else get r id))
      × Perm (list r) (map (λ e. e.1) r)
unfolding get register list
get-register r c id = (lookup-insert c.id id c r, sort-perm by_id (map (λ e. e.1) r))
