-- ===== src/Transport/Samples.antt =====
-- Publishing and subscribing: what a subscriber gets of what was published.
use furcate_mesh.Prelude.{
  map, ℕ, suc, ◌≡◌, refl, ap, Bool, true, none, some, List, [], ◌∷◌, length, arith, Result, ok, err,
}
use furcate_mesh.Core.Hex.{Hex}
use furcate_mesh.Core.Event.{MeshEvent}
use furcate_mesh.Transport.{
  TransportError, EventCodec, IsEventCodec, Sample, publish, decode_sample, forward_samples,
  subscribe,
}

-- the values among some results
abbrev pub oks {ℓ κ} : {E : Type ℓ} {A : Type κ} → List (Result E A) → List A
oks [] = []
oks (ok a ∷ rs) = a ∷ oks rs
oks (err e ∷ rs) = oks rs

-- A stream that is read to its end has the samples, decoded.
pub forward_all :
    {F : Type 0} (hex : Hex) (json : EventCodec F) (i : ℕ) (ss : List Sample)
    → forward_samples hex json (λ _. true) i ss ≡ map (decode_sample hex json) ss
unfolding forward_samples
forward_all hex json i [] = refl
forward_all hex json i (s ∷ ss) =
    ap (◌∷◌ (decode_sample hex json s)) (forward_all hex json (suc i) ss)

module _ {F : Type 0} (hex : Hex) (json : EventCodec F) where
  -- The samples on the network, from published events and, anywhere between them, from publishers
  -- whose payload is no event.
  pub data Published : List (MeshEvent F) → List Sample → Type 0 where
    nothing : Published [] []
    event :
        (e : MeshEvent F) (s : Sample) (es : List (MeshEvent F)) (ss : List Sample)
        → publish hex json true e ≡ some (some s, ok tt)
        → Published es ss
        → Published (e ∷ es) (s ∷ ss)
    malformed :
        (s : Sample) (es : List (MeshEvent F)) (ss : List Sample)
        → json.from_slice s.1 ≡ none
        → Published es ss
        → Published es (s ∷ ss)

  module _ (laws : IsEventCodec json) where
    decode-publish :
        (e : MeshEvent F) (s : Sample)
        → publish hex json true e ≡ some (some s, ok tt)
        → decode_sample hex json s ≡ ok e
    unfolding publish decode_sample
    decode-publish e (key, bytes) h = ground (arith, laws.round_trip e bytes)

    decode_malformed :
        (s : Sample) → json.from_slice s.1 ≡ none → oks (decode_sample hex json s ∷ []) ≡ []
    unfolding decode_sample
    decode_malformed s h = rw h refl

    forward-Published :
        (sends : ℕ → Bool) (i : ℕ) (es : List (MeshEvent F)) (ss : List Sample)
        → ((j : ℕ) → sends j ≡ true)
        → Published es ss
        → (oks (forward_samples hex json sends i ss) ≡ es)
          × (length (forward_samples hex json sends i ss) ≡ length ss)
    unfolding forward_samples
    forward-Published sends i _ _ h nothing = (refl, refl)
    forward-Published sends i _ _ h (event e s es ss q p) =
        let (k, n) = forward-Published sends (suc i) es ss h p in
        rw (h i, forward_samples) (rw (decode-publish e s q) (ap (λ x. e ∷ x) k, omega (arith, n)))
    forward-Published sends i _ _ h (malformed s es ss q p) =
        let (k, n) = forward-Published sends (suc i) es ss h p in
        rw (h i, forward_samples) (ground (arith, decode_malformed s q, k, n))

    -- A subscriber that keeps reading gets one item for each sample, and the events among the items
    -- are exactly the published ones, in their order, whatever malformed samples stand between.
    pub subscribe-publish :
        (sends : ℕ → Bool) (es : List (MeshEvent F)) (ss : List Sample)
        → ((j : ℕ) → sends j ≡ true)
        → Published es ss
        → (items : List (Result TransportError (MeshEvent F))) × (subscribe hex json true sends ss
            ≡ ok items)
          × (oks items ≡ es)
          × (length items ≡ length ss)
    unfolding subscribe
    subscribe-publish sends es ss h p =
        let (k, n) = forward-Published sends 0 es ss h p in
        (forward_samples hex json sends 0 ss, refl, k, n)
