-- ===== src/Services.antt =====
-- The shortcuts of services and their health: frontend/src/hooks/useServiceShortcuts.ts.
-- Each operation is what the hook does once the server has answered; a request that fails throws
-- before the state is set.
pub mod Order
use volum.Base.{
  ◌==◌, if◌then◌else◌, or_else, filter, find, Text, text_eq, ℕ, ◌||◌, not, Option, none, some, List,
  [], ◌∷◌, ◌++◌, map,
}
use volum.Jobs.Commands.{Health}

pub data OpenMode : Type 0 where
  tab embed : OpenMode

-- What the server sends.
pub record ServiceInfo : Type 0 where
  pub id : Text
  pub name : Text
  pub url : Text
  pub icon_url : Text
  pub health_url : Text
  pub description : Option Text
  pub open_mode : Option OpenMode
  pub last_health_status : Option Text
  pub last_health_checked_at : Option Text
  pub last_health_status_code : Option ℕ
  pub last_health_error : Option Text

pub record ServiceShortcut : Type 0 where
  pub id : Text
  pub name : Text
  pub url : Text
  pub icon_url : Option Text
  pub health_url : Option Text
  pub description : Option Text
  pub open_mode : OpenMode
  pub last_health_status : Option Text
  pub last_health_checked_at : Option Text
  pub last_health_status_code : Option ℕ
  pub last_health_error : Option Text

pub record ServiceHealthResult : Type 0 where
  pub service_id : Text
  pub status : Text
  pub checked_at : Text
  pub status_code : Option ℕ
  pub error : Option Text

-- `s || undefined`
abbrev pub present : Text → Option Text
present [] = none
present (c ∷ s) = some (c ∷ s)

abbrev pub present_option : Option Text → Option Text
present_option none = none
present_option (some s) = present s

-- `n || undefined`
abbrev pub present_number : Option ℕ → Option ℕ
present_number none = none
present_number (some n) = if n == 0 then none else some n

-- `s.openMode === 'tab' ? 'tab' : 'embed'`
abbrev pub open_mode_of : Option OpenMode → OpenMode
open_mode_of (some OpenMode.tab) = OpenMode.tab
open_mode_of mode = OpenMode.embed

-- The mapping of the loaded services.
unfoldable pub shortcut_of : ServiceInfo → ServiceShortcut
shortcut_of s = record {
  id = s.id;
  name = s.name;
  url = s.url;
  icon_url = present s.icon_url;
  health_url = present s.health_url;
  description = present_option s.description;
  open_mode = open_mode_of s.open_mode;
  last_health_status = present_option s.last_health_status;
  last_health_checked_at = present_option s.last_health_checked_at;
  last_health_status_code = present_number s.last_health_status_code;
  last_health_error = present_option s.last_health_error;
}

-- `healthMap`: an object by the identifiers, of which the first pair of a key counts here.
abbrev pub HealthMap : Type 0
HealthMap = List (Text × ServiceHealthResult)

abbrev pub record_health : Option Text → ServiceShortcut → HealthMap → HealthMap
record_health none svc health = health
record_health (some status) svc health =
    (
      svc.id,
      record {
        service_id = svc.id;
        status = status;
        checked_at = or_else svc.last_health_checked_at [];
        status_code = svc.last_health_status_code;
        error = svc.last_health_error;
      },
    )
    ∷ health

abbrev pub health_from : HealthMap → List ServiceShortcut → HealthMap
health_from health [] = health
health_from health (svc ∷ services) =
    health_from (record_health svc.last_health_status svc health) services

pub record Services : Type 0 where
  pub services : List ServiceShortcut
  pub health : HealthMap

-- The effect of loaded data.
unfoldable pub services_loaded : List ServiceInfo → Services
unfolding shortcut_of
services_loaded data_ =
    let mapped = map shortcut_of data_ in
    record { services = mapped; health = health_from [] mapped }

-- `refreshHealth`
pub health_refreshed : HealthMap → Services → Services
health_refreshed answer s = record s { health = answer }

-- The answer to a creation or a change as a shortcut, with the health fields of what was there.
unfoldable pub entry_of : ServiceInfo → Option ServiceShortcut → ServiceShortcut
entry_of created none = record {
  id = created.id;
  name = created.name;
  url = created.url;
  icon_url = present created.icon_url;
  health_url = present created.health_url;
  description = present_option created.description;
  open_mode = open_mode_of created.open_mode;
  last_health_status = none;
  last_health_checked_at = none;
  last_health_status_code = none;
  last_health_error = none;
}
entry_of updated (some s) = record s {
  id = updated.id;
  name = updated.name;
  url = updated.url;
  icon_url = present updated.icon_url;
  health_url = present updated.health_url;
  description = present_option updated.description;
  open_mode = open_mode_of updated.open_mode;
}

-- `addService`
unfoldable pub add_service : ServiceInfo → Services → Services
unfolding entry_of
add_service created s = record s { services = s.services ++ entry_of created none ∷ [] }

-- `updateService`
unfoldable pub update_service : Text → ServiceInfo → Services → Services
unfolding entry_of
update_service id updated s = record s {
  services = map (λ x. if text_eq x.id id then entry_of updated (some x) else x) s.services;
}

-- `removeService`
unfoldable pub remove_service : Text → Services → Services
remove_service id s = record {
  services = filter (λ x. not (text_eq x.id id)) s.services;
  health = filter (λ h. not (text_eq h.0 id)) s.health;
}

abbrev pub found : List ServiceShortcut → Text → Option ServiceShortcut
found services id = find (λ s. text_eq s.id id) services

-- `.filter(Boolean)`
abbrev pub cons_present : Option ServiceShortcut → List ServiceShortcut → List ServiceShortcut
cons_present none xs = xs
cons_present (some x) xs = x ∷ xs

-- `reorderServices`
unfoldable pub ordered : List ServiceShortcut → List Text → List ServiceShortcut
ordered services [] = []
ordered services (id ∷ ids) = cons_present (found services id) (ordered services ids)

pub reorder_services : List Text → Services → Services
unfolding ordered
reorder_services ids s = record s { services = ordered s.services ids }
