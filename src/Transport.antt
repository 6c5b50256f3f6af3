-- ===== src/Transport.antt =====
-- crates/furcate-mesh-transport/src/lib.rs: the keys of mesh events, and publishing and subscribing
-- over a Zenoh session. `F` stands for f64. The session, its configuration and the JSON form of
-- events are parameters.
pub mod Keys
pub mod Samples
pub mod Matching
pub mod Wildcards
pub mod Subscriptions
use furcate_mesh.Prelude.{
  ℕ, suc, ◌≡◌, Bool, true, false, Option, none, some, List, [], ◌∷◌, ◌++◌, Result, ok, err, ok_or,
  ◌>>=◌, if◌then◌else◌,
}
use furcate_mesh.Prelude.Text.{Bytes, Text, codes}
use furcate_mesh.Core.Hex.{Hex}
use furcate_mesh.Core.PeerId.{PeerId, display}
use furcate_mesh.Core.Event.{
  MeshEvent, heartbeat, model_announce, work_offer, work_result, agent_state, sensor_reading,
  command, attestation, ota_offer, ota_status,
}

abbrev pub root : Text
root = codes "furcate/mesh"

abbrev pub sub_all_heartbeats : Text
sub_all_heartbeats = codes "furcate/mesh/*/heartbeat"

abbrev pub sub_all_models : Text
sub_all_models = codes "furcate/mesh/*/model/**"

abbrev pub sub_all_agent_state : Text
sub_all_agent_state = codes "furcate/mesh/*/agent/**"

module _ (hex : Hex) where
  -- `none` where no arm of the match covers the event.
  unfoldable pub key_for : {F : Type 0} → MeshEvent F → Option Text
  key_for (heartbeat peer clock load) =
      some (root ++ (codes "/" ++ (display hex peer ++ codes "/heartbeat")))
  key_for (model_announce peer clock model_name digest format) =
      some (root ++ (codes "/" ++ (display hex peer ++ (codes "/model/" ++ model_name))))
  key_for (work_offer from to request hops) =
      some (root ++ (codes "/" ++ (display hex to ++ codes "/work-offer")))
  key_for (work_result from to response) =
      some (root ++ (codes "/" ++ (display hex to ++ codes "/work-result")))
  key_for (agent_state peer clock agent_id state) =
      some (root ++ (codes "/" ++ (display hex peer ++ (codes "/agent/" ++ agent_id))))
  key_for (sensor_reading peer clock sensor_id metric value unit raw) = none
  key_for (command to clock verb params) = none
  key_for (attestation peer clock format evidence) = none
  key_for (ota_offer to clock image_id version url sha256 size) = none
  key_for (ota_status peer clock image_id state detail) = none

  unfoldable pub key_work_offer : PeerId → Text → Text
  key_work_offer to request_id =
      root ++ (codes "/" ++ (display hex to ++ (codes "/work-offer/" ++ request_id)))

  unfoldable pub key_work_result : PeerId → Text → Text
  key_work_result to request_id =
      root ++ (codes "/" ++ (display hex to ++ (codes "/work-result/" ++ request_id)))

pub data TransportError : Type 0 where
  zenoh encoding : TransportError

pub record TransportConfig : Type 0 where
  pub listen : Option Text
  pub connect : List Text

abbrev pub default_transport : TransportConfig
default_transport = record { listen = some (codes "tcp/0.0.0.0:7447"); connect = [] }

-- The configuration and the opening of a Zenoh session, and the JSON form of a list of strings.
pub record Zenoh (C S : Type 0) : Type 0 where
  pub default_value : C
  pub insert_json5 : Text → Text → C → Option C
  pub open_session : C → Option S
  pub to_string : List Text → Option Text

module _ {C S : Type 0} (z : Zenoh C S) where
  -- One key of the configuration, set to a list of endpoints.
  unfoldable pub set_endpoints : Text → List Text → C → Result TransportError C
  set_endpoints key urls config = do
    json ← ok_or (z.to_string urls) encoding
    ok_or (z.insert_json5 key json config) zenoh

  set_listen : Option Text → C → Result TransportError C
  unfolding set_endpoints
  set_listen none config = ok config
  set_listen (some listen) config = set_endpoints (codes "listen/endpoints") (listen ∷ []) config

  set_connect : List Text → C → Result TransportError C
  unfolding set_endpoints
  set_connect [] config = ok config
  set_connect (url ∷ urls) config = set_endpoints (codes "connect/endpoints") (url ∷ urls) config

  -- `Transport::new`
  unfoldable pub new_transport : TransportConfig → Result TransportError S
  unfolding set_listen set_connect
  new_transport cfg = do
    moded ← ok_or (z.insert_json5 (codes "mode") (codes "\"peer\"") z.default_value) zenoh
    listening ← set_listen cfg.listen moded
    connected ← set_connect cfg.connect listening
    ok_or (z.open_session connected) zenoh

-- `serde_json` on mesh events: what is written is read back.
pub record EventCodec (F : Type 0) : Type 0 where
  pub to_vec : MeshEvent F → Option Bytes
  pub from_slice : Bytes → Option (MeshEvent F)

pub record IsEventCodec {F : Type 0} (c : EventCodec F) : Type 0 where
  pub round_trip : (e : MeshEvent F) (b : Bytes) → c.to_vec e ≡ some b → c.from_slice b ≡ some e

-- A key with a payload, as it is put and as subscribers get it.
abbrev pub Sample : Type 0
Sample = Text × Bytes

module _ {F : Type 0} (hex : Hex) (json : EventCodec F) where
  -- What is put, if anything, and the answer; `puts` says whether the session takes it. There is
  -- `none` where `key_for` has no arm for the event.
  unfoldable pub publish :
      (puts : Bool) → MeshEvent F → Option (Option Sample × Result TransportError (Unit {0}))
  publish puts event = elim (key_for hex event) [
    | none ↦ none
    | some key ↦ elim (json.to_vec event) [
      | none ↦ some (none, err encoding)
      | some bytes ↦ if puts then some (some (key, bytes), ok tt) else some (none, err zenoh)
    ]
  ]

  unfoldable pub decode_sample : Sample → Result TransportError (MeshEvent F)
  decode_sample (key, bytes) = ok_or (json.from_slice bytes) encoding

  -- The forwarder behind `subscribe`: the items that the stream gets, `i` of them so far. `sends`
  -- says whether each send finds the stream alive; the subscriber's channel closes at the end.
  unfoldable pub forward_samples :
      (sends : ℕ → Bool) (i : ℕ) → List Sample → List (Result TransportError (MeshEvent F))
  unfolding decode_sample
  forward_samples sends i [] = []
  forward_samples sends i (s ∷ ss) = elim (sends i) [
    | false ↦ []
    | true ↦ decode_sample s ∷ forward_samples sends (suc i) ss
  ]

  -- `declared` says whether Zenoh takes the subscription.
  unfoldable pub subscribe :
      (declared : Bool) (sends : ℕ → Bool)
      → List Sample
      → Result TransportError (List (Result TransportError (MeshEvent F)))
  unfolding forward_samples
  subscribe declared sends samples =
      if declared then ok (forward_samples sends 0 samples) else err zenoh
