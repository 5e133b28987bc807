-- ===== src/Services.antt =====
-- ts/src/core/services.ts: the services that are injected into a plugin. Every operation goes to a
-- port of the host with the id of the plugin that owns the services.
pub mod Owner
mod Examples
use u.Base.{
  ℕ, String, Bool, true, false, Option, some, List, [], ◌∷◌, ◌++◌, if◌then◌else◌, Result, ok, err,
  RackStatus, invalid_state,
}
use u.Json.{Document}
use u.Capability.{CapsDesc, CapEvent}
use u.Lease.{LeaseCredential, LeaseHandle, Leases, Lookup, ReleaseStatus, acquire, release}
use u.Calls.{MethodSelector, by_name, by_id, Deps, Gateway, Entered, enter}
use u.Registry.{Registry, watch, snapshot}
use u.Events.{Bus, QueuedEvent, subscribe, publish}

-- What the ports answer when they are asked: the configuration of the gateway, the lookup of the
-- registry, and the two gates.
pub record Ports : Type 0 where
  pub calls : Deps
  pub find : Lookup
  pub caps_publish_allowed : Bool
  pub consumer_active : Bool

module _ (ports : Ports) (owner_id : String) where
  unfoldable pub events_subscribe : Bus → Option String → Option ℕ → Result (Bus × ℕ)
  events_subscribe bus name sink = subscribe bus name sink (some owner_id)

  unfoldable pub events_publish : Bus → Option String → Document → Result (Bus × QueuedEvent)
  events_publish bus name payload = publish bus name payload

  -- `announced` is what `onCapsPublished` has been given.
  unfoldable pub caps_publish : List CapsDesc → CapsDesc → Result (List CapsDesc)
  caps_publish announced caps =
      if ports.caps_publish_allowed then ok (announced ++ caps ∷ []) else err invalid_state

  unfoldable pub caps_acquire :
      Gateway → String → Document → Option ℕ → Result (Leases × LeaseHandle)
  caps_acquire s plug_id range revoker = acquire ports.find s.leases owner_id plug_id range revoker

  unfoldable pub caps_release : Gateway → LeaseCredential → Leases × ReleaseStatus
  caps_release s credential = release s.leases credential owner_id

  -- assertConsumerActive throws before the gateway is reached.
  abbrev pub call_selected :
      Gateway → LeaseCredential → MethodSelector → Document → Gateway × Result Entered
  call_selected s credential method args =
      if ports.consumer_active
      then enter ports.calls s owner_id credential method args
      else (s, err invalid_state)

  unfoldable pub calls_call :
      Gateway → LeaseCredential → String → Document → Gateway × Result Entered
  calls_call s credential name args = call_selected s credential (by_name name) args

  unfoldable pub calls_call_by_id :
      Gateway → LeaseCredential → ℕ → Document → Gateway × Result Entered
  calls_call_by_id s credential id args = call_selected s credential (by_id id) args

  unfoldable pub caps_watch : Registry → Option ℕ → Result Registry
  caps_watch registry sink = watch registry sink owner_id

  unfoldable pub caps_snapshot : Registry → List CapEvent
  caps_snapshot registry = snapshot registry
