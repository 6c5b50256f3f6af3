-- ===== src/Transport/Subscriptions.antt =====
-- What a subscription to one of the wildcards gets of what is published.
use furcate_mesh.Prelude.{◌≡◌, Bool, false, none, some, List, filter}
use furcate_mesh.Prelude.Text.{Text}
use furcate_mesh.Core.Hex.{Hex, IsHex}
use furcate_mesh.Core.PeerId.{IsPeerId}
use furcate_mesh.Core.Event.{MeshEvent}
use furcate_mesh.Transport.{key_for, EventCodec, Sample}
use furcate_mesh.Transport.Keys.{Topic, topic_of}
use furcate_mesh.Transport.Matching.{IsKey, IsKeyMatching}
use furcate_mesh.Transport.Wildcards.{Wildcard, expr_of, is_for}

-- whether an event is of the class that a wildcard is for
abbrev pub wants : {F : Type 0} → Wildcard → MeshEvent F → Bool
wants w e = elim (topic_of e) [ none ↦ false | some t ↦ is_for w t.kind ]

-- An event about a valid peer, whose key is one that Zenoh takes.
pub record IsPublishable {F : Type 0} (hex : Hex) (e : MeshEvent F) : Type 0 where
  pub topic : Topic
  pub found : topic_of e ≡ some topic
  pub valid : IsPeerId topic.peer
  pub plain : (key : Text) → key_for hex e ≡ some key → IsKey key

module _ {hex : Hex} (laws : IsHex hex) {matches : (expr key : Text) → Bool}
    (zenoh : IsKeyMatching matches) where
  module _ {F : Type 0} (w : Wildcard) where
    module _ (json : EventCodec F) where
      -- the samples that a subscription gets
      abbrev pub matching : List Sample → List Sample
      matching ss = filter (λ s. matches (expr_of w) s.0) ss
