-- ===== src/Transport/Wildcards.antt =====
-- The wildcards of crates/furcate-mesh-transport against the keys that events have.
use furcate_mesh.Prelude.{
  ◌≡◌, refl, ◌∙◌, ap, Bool, true, false, none, some, List, [], ◌∷◌, ◌++◌, any, arith, All, ◌==◌,
  inl, inr,
}
use furcate_mesh.Prelude.Text.{Text, codes, text_eq}
use furcate_mesh.Core.Hex.{Hex, IsHex, IsHexDigit}
use furcate_mesh.Core.PeerId.{PeerId, IsPeerId, display, to_hex}
use furcate_mesh.Core.Event.{
  MeshEvent, heartbeat, model_announce, work_offer, work_result, agent_state, sensor_reading,
  command, attestation, ota_offer, ota_status,
}
use furcate_mesh.Transport.{root, sub_all_heartbeats, sub_all_models, sub_all_agent_state, key_for}
use furcate_mesh.Transport.Keys.{
  Kind, is_heartbeat, is_model, is_work_offer, is_work_result, is_agent, Topic, topic_of,
}
use furcate_mesh.Transport.Matching.{chunks, chunks-append, glob, tails, double_wild, IsKeyExpr}

-- The wildcards that the crate offers, and the class of events that each one is for.
pub data Wildcard : Type 0 where
  all_heartbeats all_models all_agent_state : Wildcard

abbrev pub expr_of : Wildcard → Text
expr_of all_heartbeats = sub_all_heartbeats
expr_of all_models = sub_all_models
expr_of all_agent_state = sub_all_agent_state

abbrev pub is_for : Wildcard → Kind → Bool
is_for all_heartbeats is_heartbeat = true
is_for all_models is_model = true
is_for all_agent_state is_agent = true
is_for _ _ = false

-- what the wildcard asks of the chunks behind the peer
abbrev behind : Wildcard → List Text
behind all_heartbeats = codes "heartbeat" ∷ []
behind all_models = codes "model" ∷ double_wild ∷ []
behind all_agent_state = codes "agent" ∷ double_wild ∷ []

-- what stands behind the peer and a slash in a key
abbrev topic_tail : Kind → Text → Text
topic_tail is_heartbeat name = codes "heartbeat"
topic_tail is_model name = codes "model/" ++ name
topic_tail is_work_offer name = codes "work-offer"
topic_tail is_work_result name = codes "work-result"
topic_tail is_agent name = codes "agent/" ++ name

pub expr_of-IsKeyExpr : (w : Wildcard) → IsKeyExpr (expr_of w)
expr_of-IsKeyExpr all_heartbeats = (
  inl (omega arith, refl),
  (inl (omega arith, refl), (inr (inl refl), (inl (omega arith, refl), tt))),
)
expr_of-IsKeyExpr all_models = (
  inl (omega arith, refl),
  (inl (omega arith, refl), (inr (inl refl), (inl (omega arith, refl), (inr (inr refl), tt)))),
)
expr_of-IsKeyExpr all_agent_state = (
  inl (omega arith, refl),
  (inl (omega arith, refl), (inr (inl refl), (inl (omega arith, refl), (inr (inr refl), tt)))),
)

glob_rest : (ks : List Text) → any (λ rest. glob [] rest) (tails ks) ≡ true
unfolding glob
glob_rest [] = refl
glob_rest (k ∷ ks) = glob_rest ks

glob_tail :
    (w : Wildcard) (k : Kind) (name : Text)
    → glob (behind w) (chunks (topic_tail k name)) ≡ is_for w k
unfolding glob text_eq
glob_tail all_heartbeats is_heartbeat name = refl
glob_tail all_heartbeats is_model name = refl
glob_tail all_heartbeats is_work_offer name = refl
glob_tail all_heartbeats is_work_result name = refl
glob_tail all_heartbeats is_agent name = refl
glob_tail all_models is_heartbeat name = refl
glob_tail all_models is_model name = glob_rest (chunks name)
glob_tail all_models is_work_offer name = refl
glob_tail all_models is_work_result name = refl
glob_tail all_models is_agent name = refl
glob_tail all_agent_state is_heartbeat name = refl
glob_tail all_agent_state is_model name = refl
glob_tail all_agent_state is_work_offer name = refl
glob_tail all_agent_state is_work_result name = refl
glob_tail all_agent_state is_agent name = glob_rest (chunks name)

glob-behind :
    (w : Wildcard) (shown : Text) (ks : List Text)
    → glob (chunks (expr_of w)) (codes "furcate" ∷ codes "mesh" ∷ shown ∷ ks) ≡ glob (behind w) ks
unfolding glob text_eq
glob-behind all_heartbeats shown ks = refl
glob-behind all_models shown ks = refl
glob-behind all_agent_state shown ks = refl

no_slash : (s : Text) → All IsHexDigit s → any (λ c. c == b'/') s ≡ false
no_slash [] h = refl
no_slash (c ∷ s) (h, hs) = ground (arith, no_slash s hs)

module _ {hex : Hex} (laws : IsHex hex) where
  chunks-key :
      (p : PeerId) (rest : Text)
      → IsPeerId p
      → chunks (root ++ (codes "/" ++ (display hex p ++ b'/' ∷ rest)))
        ≡ codes "furcate" ∷ codes "mesh" ∷ display hex p ∷ chunks rest
  unfolding display to_hex
  chunks-key p rest v =
      ap (λ ks. codes "furcate" ∷ codes "mesh" ∷ ks)
        (chunks-append (hex.encode p.key) rest
          (no_slash (hex.encode p.key) (laws.encode_digits p.key v.bytes)))

  abbrev tail_key : Topic → Text
  tail_key t = root ++ (codes "/" ++ (display hex t.peer ++ b'/' ∷ topic_tail t.kind t.name))

  tail_key-topic_of :
      {F : Type 0} (e : MeshEvent F)
      → key_for hex e ≡ elim (topic_of e) [ none ↦ none | some t ↦ some (tail_key t) ]
  unfolding key_for
  tail_key-topic_of (heartbeat peer clock load) = refl
  tail_key-topic_of (model_announce peer clock model_name digest format) = refl
  tail_key-topic_of (work_offer from to request hops) = refl
  tail_key-topic_of (work_result from to response) = refl
  tail_key-topic_of (agent_state peer clock agent_id state) = refl
  tail_key-topic_of (sensor_reading peer clock sensor_id metric value unit raw) = refl
  tail_key-topic_of (command to clock verb params) = refl
  tail_key-topic_of (attestation peer clock format evidence) = refl
  tail_key-topic_of (ota_offer to clock image_id version url sha256 size) = refl
  tail_key-topic_of (ota_status peer clock image_id state detail) = refl

  -- the key of an event, split into chunks, against a wildcard
  pub glob-key_for :
      {F : Type 0} (w : Wildcard) (e : MeshEvent F) (t : Topic) (key : Text)
      → topic_of e ≡ some t
      → IsPeerId t.peer
      → key_for hex e ≡ some key
      → glob (chunks (expr_of w)) (chunks key) ≡ is_for w t.kind
  glob-key_for w e t key h v k =
      let same : tail_key t ≡ key = cc (rw h at (tail_key-topic_of e), k) in
      rw (← same) (
        rw (chunks-key t.peer (topic_tail t.kind t.name) v) (
          glob-behind w (display hex t.peer) (chunks (topic_tail t.kind t.name))
          ∙ glob_tail w t.kind t.name))
