-- ===== src/Routing/History.antt =====
-- What a router knows of a peer, as a function of the calls that it received: the load of the
-- peer's last heartbeat, the time of its last call, and the models that it announced.
use furcate_mesh.Prelude.{
  ℕ, ◌≡◌, refl, true, false, Option, none, some, List, [], ◌∷◌, arith, if◌then◌else◌, inl, inr,
  Bool-cases, Option-cases, sym, ap, ◌∙◌,
}
use furcate_mesh.Prelude.Text.{Text}
use furcate_mesh.Prelude.Dict.{get, get-upsert}
use furcate_mesh.Core.PeerId.{PeerId, peer_eq, peer_eq_iff, peer_id_eq}
use furcate_mesh.Core.Config.{MeshConfig}
use furcate_mesh.Core.Float.{Float}
use furcate_mesh.Routing.{PeerState, Router, new, push_new, record_announce, record_heartbeat}

-- A call of the router, with the clock's reading.
pub data Call (F : Type 0) : Type 0 where
  announce : (now : ℕ) (peer : PeerId) (model_name : Text) → Call F
  heartbeat : (now : ℕ) (peer : PeerId) (load : F) → Call F

abbrev pub last_or {ℓ} : {A : Type ℓ} → A → List A → A
last_or d [] = d
last_or d (x ∷ xs) = last_or x xs

abbrev pub push_all : List Text → List Text → List Text
push_all models [] = models
push_all models (n ∷ ns) = push_all (push_new models n) ns

module _ {F : Type 0} where
  -- the clock readings, the loads and the model names of the calls that concern a peer
  abbrev pub times : PeerId → List (Call F) → List ℕ
  times p [] = []
  times p (announce t q n ∷ cs) = if peer_eq q p then t ∷ times p cs else times p cs
  times p (heartbeat t q x ∷ cs) = if peer_eq q p then t ∷ times p cs else times p cs

  abbrev pub loads : PeerId → List (Call F) → List F
  loads p [] = []
  loads p (announce t q n ∷ cs) = loads p cs
  loads p (heartbeat t q x ∷ cs) = if peer_eq q p then x ∷ loads p cs else loads p cs

  abbrev pub names : PeerId → List (Call F) → List Text
  names p [] = []
  names p (announce t q n ∷ cs) = if peer_eq q p then n ∷ names p cs else names p cs
  names p (heartbeat t q x ∷ cs) = names p cs

  -- what the calls make of an earlier state of the peer
  abbrev pub resume : PeerId → List (Call F) → PeerState F → PeerState F
  resume p cs s = record {
    load = last_or s.load (loads p cs);
    last_seen = last_or s.last_seen (times p cs);
    models = push_all s.models (names p cs);
  }

module _ {F : Type 0} (f : Float F) where
  abbrev pub summary_from : PeerId → List (Call F) → List ℕ → Option (PeerState F)
  summary_from p cs [] = none
  summary_from p cs (t ∷ ts) = some (record {
    load = last_or f.max_value (loads p cs);
    last_seen = last_or t ts;
    models = push_all [] (names p cs);
  })

  -- Nothing, if no call concerned the peer.
  abbrev pub summary : PeerId → List (Call F) → Option (PeerState F)
  summary p cs = summary_from p cs (times p cs)

  unfoldable pub apply : Call F → Router F → Router F
  apply (announce t p n) r = record_announce f t p n r
  apply (heartbeat t p x) r = record_heartbeat f t p x r

  unfoldable pub run : Router F → List (Call F) → Router F
  run r [] = r
  run r (c ∷ cs) = run (apply c r) cs

  pub local-apply : (c : Call F) (r : Router F) → (apply c r).local ≡ r.local
  unfolding apply record_announce record_heartbeat
  local-apply (announce t q n) r = ground arith
  local-apply (heartbeat t q x) r = ground arith

  -- one call, at a peer other than this one
  get-apply :
      (p : PeerId) (c : Call F) (r : Router F)
      → peer_eq p r.local ≡ false
      → get p (apply c r).state
        ≡ elim (get p r.state) [ none ↦ summary p (c ∷ []) | some s ↦ some (resume p (c ∷ []) s) ]
  unfolding apply record_announce record_heartbeat
  get-apply p (announce t q n) r h = ground (
    arith,
    get-upsert q p (record { load = f.max_value; last_seen = t; models = [] })
        (λ s. record s { models = push_new s.models n; last_seen = t }) r.state,
    peer_eq_iff q p,
    peer_eq_iff q r.local,
    peer_eq_iff p r.local,
  )
  get-apply p (heartbeat t q x) r h = ground (
    arith,
    get-upsert q p (record { load = x; last_seen = t; models = [] })
        (λ s. record s { load = x; last_seen = t }) r.state,
    peer_eq_iff q p,
    peer_eq_iff q r.local,
    peer_eq_iff p r.local,
  )

  -- a run of calls, split at the first call that concerns the peer
  resume-cons :
      (p : PeerId) (c : Call F) (cs : List (Call F)) (s : PeerState F)
      → resume p (c ∷ cs) s ≡ resume p cs (resume p (c ∷ []) s)
  resume-cons p (announce t q n) cs s = ground arith
  resume-cons p (heartbeat t q x) cs s = ground arith

  get-run-some :
      (p : PeerId) (cs : List (Call F)) (r : Router F) (s : PeerState F)
      → peer_eq p r.local ≡ false
      → get p r.state ≡ some s
      → get p (run r cs).state ≡ some (resume p cs s)
  unfolding run
  get-run-some p [] r s h g = g
  get-run-some p (c ∷ cs) r s h g =
      get-run-some p cs (apply c r) (resume p (c ∷ []) s) (rw (local-apply c r) h)
        (get-apply p c r h ∙ rw g refl)
      ∙ ap some (sym (resume-cons p c cs s))

  summary-cons :
      (p : PeerId) (c : Call F) (cs : List (Call F)) (o : Option (PeerState F))
      → o ≡ summary p (c ∷ [])
      → summary p (c ∷ cs) ≡ elim o [ none ↦ summary p cs | some s ↦ some (resume p cs s) ]
  summary-cons p (announce t q n) cs o h = ground arith
  summary-cons p (heartbeat t q x) cs o h = ground arith

  get-run-none :
      (p : PeerId) (cs : List (Call F)) (r : Router F)
      → peer_eq p r.local ≡ false
      → get p r.state ≡ none
      → get p (run r cs).state ≡ summary p cs
  unfolding run
  get-run-none p [] r h g = g
  get-run-none p (c ∷ cs) r h g = elim (Option-cases (summary p (c ∷ []))) [
    | inl e ↦
        get-run-none p cs (apply c r) (rw (local-apply c r) h) (get-apply p c r h ∙ rw g e)
        ∙ sym (summary-cons p c cs none (sym e))
    | inr (s, e) ↦
        get-run-some p cs (apply c r) s (rw (local-apply c r) h) (get-apply p c r h ∙ rw g e)
        ∙ sym (summary-cons p c cs (some s) (sym e))
  ]

  get-apply_self :
      (p : PeerId) (c : Call F) (r : Router F)
      → peer_eq p r.local ≡ true
      → get p (apply c r).state ≡ get p r.state
  unfolding apply record_announce record_heartbeat
  get-apply_self p (announce t q n) r h = ground (
    arith,
    get-upsert q p (record { load = f.max_value; last_seen = t; models = [] })
        (λ s. record s { models = push_new s.models n; last_seen = t }) r.state,
    peer_eq_iff q p,
    peer_eq_iff q r.local,
    peer_eq_iff p r.local,
  )
  get-apply_self p (heartbeat t q x) r h = ground (
    arith,
    get-upsert q p (record { load = x; last_seen = t; models = [] })
        (λ s. record s { load = x; last_seen = t }) r.state,
    peer_eq_iff q p,
    peer_eq_iff q r.local,
    peer_eq_iff p r.local,
  )

  get-run_self :
      (p : PeerId) (cs : List (Call F)) (r : Router F)
      → peer_eq p r.local ≡ true
      → get p (run r cs).state ≡ get p r.state
  unfolding run
  get-run_self p [] r h = refl
  get-run_self p (c ∷ cs) r h =
      get-run_self p cs (apply c r) (rw (local-apply c r) h) ∙ get-apply_self p c r h

  -- the table after any calls on a fresh router
  pub get-run :
      (p own : PeerId) (cfg : MeshConfig) (cs : List (Call F))
      → get p (run (new own cfg) cs).state ≡ (if peer_eq p own then none else summary p cs)
  get-run p own cfg cs = elim (Bool-cases (peer_eq p own)) [
    | inl h ↦ rw h (get-run_self p cs (new own cfg) h ∙ unfold get in refl)
    | inr h ↦ rw h (get-run-none p cs (new own cfg) h (unfold get in refl))
  ]
