-- ===== src/Transport/Keys.antt =====
-- The keys of mesh events: what an event's key says of it.
use furcate_mesh.Prelude.{
  ℕ, ◌≡◌, ◌↔◌, refl, sym, ap, ◌∙◌, Option, none, some, List, [], ◌∷◌, ◌++◌, length, get_elem?,
  arith, ◌==◌, if◌then◌else◌,
}
use furcate_mesh.Prelude.Text.{Text, codes}
use furcate_mesh.Core.Hex.{Hex, IsHex}
use furcate_mesh.Core.PeerId.{PeerId, IsPeerId, display, to_hex}
use furcate_mesh.Core.Event.{
  MeshEvent, heartbeat, model_announce, work_offer, work_result, agent_state, sensor_reading,
  command, attestation, ota_offer, ota_status,
}
use furcate_mesh.Transport.{root, key_for}

pub append_cancel {ℓ} :
    {A : Type ℓ} (xs ys : List A) (a b : List A)
    → length xs ≡ length ys
    → xs ++ a ≡ ys ++ b
    → (xs ≡ ys) × (a ≡ b)
append_cancel [] [] a b n h = (refl, h)
append_cancel [] (y ∷ ys) a b n h = absurd (omega (arith, n))
append_cancel (x ∷ xs) [] a b n h = absurd (omega (arith, n))
append_cancel (x ∷ xs) (y ∷ ys) a b n h =
    let (p, q) = append_cancel xs ys a b (omega (arith, n)) (cc h) in (cc (p, h), q)

-- The classes of events that have a key.
pub data Kind : Type 0 where
  is_heartbeat is_model is_work_offer is_work_result is_agent : Kind

-- The class of an event, the peer that its key names, and the name that it is about.
pub record Topic : Type 0 where
  pub peer : PeerId
  pub kind : Kind
  pub name : Text

abbrev pub topic_of : {F : Type 0} → MeshEvent F → Option Topic
topic_of (heartbeat peer clock load) = some (record { peer = peer; kind = is_heartbeat; name = [] })
topic_of (model_announce peer clock model_name digest format) =
    some (record { peer = peer; kind = is_model; name = model_name })
topic_of (work_offer from to request hops) =
    some (record { peer = to; kind = is_work_offer; name = [] })
topic_of (work_result from to response) =
    some (record { peer = to; kind = is_work_result; name = [] })
topic_of (agent_state peer clock agent_id state) =
    some (record { peer = peer; kind = is_agent; name = agent_id })
topic_of (sensor_reading peer clock sensor_id metric value unit raw) = none
topic_of (command to clock verb params) = none
topic_of (attestation peer clock format evidence) = none
topic_of (ota_offer to clock image_id version url sha256 size) = none
topic_of (ota_status peer clock image_id state detail) = none

-- what stands between the peer and the name
abbrev segment : Kind → Text
segment is_heartbeat = codes "/heartbeat"
segment is_model = codes "/model/"
segment is_work_offer = codes "/work-offer"
segment is_work_result = codes "/work-result"
segment is_agent = codes "/agent/"

-- the class, read off two letters of the segment
abbrev kind_of : Option ℕ → Option ℕ → Kind
kind_of (some first) (some sixth) =
    if first == b'h'
    then is_heartbeat
    else if first == b'm'
    then is_model
    else if first == b'a'
    then is_agent
    else if sixth == b'o'
    then is_work_offer
    else is_work_result
kind_of _ _ = is_agent

kind_of-segment :
    (k : Kind) (n : Text)
    → kind_of (get_elem? (segment k ++ n) 1) (get_elem? (segment k ++ n) 6) ≡ k
kind_of-segment is_heartbeat n = refl
kind_of-segment is_model n = refl
kind_of-segment is_work_offer n = refl
kind_of-segment is_work_result n = refl
kind_of-segment is_agent n = refl

segment_inj : (k l : Kind) (n m : Text) → segment k ++ n ≡ segment l ++ m → (k ≡ l) × (n ≡ m)
segment_inj k l n m h =
    let same : k ≡ l =
      sym (kind_of-segment k n)
      ∙ ap (λ s. kind_of (get_elem? s 1) (get_elem? s 6)) h
      ∙ kind_of-segment l m in
    (same, (append_cancel (segment k) (segment l) n m (ap (λ j. length (segment j)) same) h).1)

module _ {hex : Hex} (laws : IsHex hex) where
  -- the key of a topic
  abbrev key : Topic → Text
  key t = root ++ (codes "/" ++ (display hex t.peer ++ (segment t.kind ++ t.name)))

  key_for-topic_of :
      {F : Type 0} (e : MeshEvent F)
      → key_for hex e ≡ elim (topic_of e) [ none ↦ none | some t ↦ some (key t) ]
  unfolding key_for
  key_for-topic_of (heartbeat peer clock load) = refl
  key_for-topic_of (model_announce peer clock model_name digest format) = refl
  key_for-topic_of (work_offer from to request hops) = refl
  key_for-topic_of (work_result from to response) = refl
  key_for-topic_of (agent_state peer clock agent_id state) = refl
  key_for-topic_of (sensor_reading peer clock sensor_id metric value unit raw) = refl
  key_for-topic_of (command to clock verb params) = refl
  key_for-topic_of (attestation peer clock format evidence) = refl
  key_for-topic_of (ota_offer to clock image_id version url sha256 size) = refl
  key_for-topic_of (ota_status peer clock image_id state detail) = refl

  length-display : (p : PeerId) → IsPeerId p → length (display hex p) ≡ 64
  unfolding display to_hex
  length-display p v = omega (arith, laws.length-encode p.key, v.size)

  display_inj : (p q : PeerId) → IsPeerId p → IsPeerId q → display hex p ≡ display hex q → p ≡ q
  unfolding display to_hex
  display_inj p q v w h =
      let keys : some p.key ≡ some q.key =
        sym (laws.decode-encode p.key v.bytes)
        ∙ ap hex.decode h
        ∙ laws.decode-encode q.key w.bytes in
      cc keys

  key_inj : (t u : Topic) → IsPeerId t.peer → IsPeerId u.peer → key t ≡ key u → t ≡ u
  key_inj t u v w h =
      let after = (append_cancel root root _ _ refl h).1 in
      let behind = (append_cancel (codes "/") (codes "/") _ _ refl after).1 in
      let (shown, rest) =
        append_cancel (display hex t.peer) (display hex u.peer) _ _
          (length-display t.peer v ∙ sym (length-display u.peer w)) behind in
      let (kind, name) = segment_inj t.kind u.kind t.name u.name rest in
      let peer = display_inj t.peer u.peer v w shown in
      λ i. record { peer = peer i; kind = kind i; name = name i }

  -- Two events about valid peers have the same key exactly when they are of the same class, about
  -- the same peer and of the same name.
  pub key_for_iff :
      {F G : Type 0} (d : MeshEvent F) (e : MeshEvent G) (t u : Topic)
      → topic_of d ≡ some t
      → topic_of e ≡ some u
      → IsPeerId t.peer
      → IsPeerId u.peer
      → (key_for hex d ≡ key_for hex e) ↔ (t ≡ u)
  key_for_iff d e t u dt eu v w =
      let kd : key_for hex d ≡ some (key t) = key_for-topic_of d ∙ rw dt refl in
      let ke : key_for hex e ≡ some (key u) = key_for-topic_of e ∙ rw eu refl in
      (
        λ h. key_inj t u v w (some_inj (sym kd ∙ h ∙ ke)),
        λ h. kd ∙ ap (λ x. some (key x)) h ∙ sym ke,
      )
    where
      some_inj : {a b : Text} → some a ≡ some b → a ≡ b
      some_inj h = cc h
