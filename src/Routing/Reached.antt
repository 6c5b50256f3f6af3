-- ===== src/Routing/Reached.antt =====
-- The router's promise in terms of the calls that it received alone: where `route` sends a request
-- after any calls of `record_announce` and `record_heartbeat` on a fresh router.
use furcate_mesh.Prelude.{
  ℕ, ◌-◌, ◌*◌, ◌^◌, ◌≡◌, ◌≢◌, refl, sym, ◌∙◌, Bool, true, false, ◌||◌, none, some, List, [], ◌∷◌,
  ◌++◌, arith, any, ltb, if◌then◌else◌, Bool-cases, inl, inr, Member,
}
use furcate_mesh.Prelude.Text.{Text, text_eq, text_eq_iff}
use furcate_mesh.Prelude.Dict.Keys.{Distinct, Distinct-upsert, get_of_Member, Member_of_get}
use furcate_mesh.Core.PeerId.{PeerId, peer_eq, peer_eq_iff, peer_id_eq}
use furcate_mesh.Core.Config.{MeshConfig}
use furcate_mesh.Core.Float.{Float, IsIeee, IsNumber}
use furcate_mesh.Routing.{
  PeerState, Router, new, push_new, record_announce, record_heartbeat, from_secs,
}
use furcate_mesh.Routing.Decides.{is_alive_iff, lists_iff, Entry, IsEligible, HasNumbers}
use furcate_mesh.Routing.History.{
  Call, announce, heartbeat, last_or, push_all, times, loads, names, summary, summary_from, apply,
  run, get-run,
}

any-append : (p : Text → Bool) (xs ys : List Text) → any p (xs ++ ys) ≡ (any p xs || any p ys)
any-append p [] ys = refl
any-append p (x ∷ xs) ys = ground (arith, any-append p xs ys)

-- a name is listed exactly if it was listed or announced
any-push_new :
    (m n : Text) (ms : List Text)
    → any (λ k. text_eq k m) (push_new ms n) ≡ (any (λ k. text_eq k m) ms || text_eq n m)
unfolding push_new
any-push_new m n ms = elim (Bool-cases (any (λ k. text_eq k n) ms)) [
  | inl h ↦ rw h (covered m n ms h)
  | inr h ↦ rw h (ground (arith, any-append (λ k. text_eq k m) ms (n ∷ [])))
]
  where
    covered :
        (m n : Text) (ms : List Text)
        → any (λ k. text_eq k n) ms ≡ true
        → any (λ k. text_eq k m) ms ≡ (any (λ k. text_eq k m) ms || text_eq n m)
    covered m n [] h = cc
    covered m n (k ∷ ms) h =
        ground (arith, covered m n ms, text_eq_iff k n, text_eq_iff n m, text_eq_iff k m)

any-push_all :
    (m : Text) (ms ns : List Text)
    → any (λ k. text_eq k m) (push_all ms ns)
      ≡ (any (λ k. text_eq k m) ms || any (λ k. text_eq k m) ns)
any-push_all m ms [] = ground arith
any-push_all m ms (n ∷ ns) = ground (arith, any-push_all m (push_new ms n) ns, any-push_new m n ms)

module _ {F : Type 0} (f : Float F) where
  cfg-apply : (c : Call F) (r : Router F) → (apply f c r).cfg ≡ r.cfg
  unfolding apply record_announce record_heartbeat
  cfg-apply (announce t q n) r = ground arith
  cfg-apply (heartbeat t q x) r = ground arith

  cfg-run : (cs : List (Call F)) (r : Router F) → (run f r cs).cfg ≡ r.cfg
  unfolding run
  cfg-run [] r = refl
  cfg-run (c ∷ cs) r = cfg-run cs (apply f c r) ∙ cfg-apply c r

  Distinct-apply : (c : Call F) (r : Router F) → Distinct r.state → Distinct (apply f c r).state
  unfolding apply record_announce record_heartbeat
  Distinct-apply (announce t q n) r h = elim (Bool-cases (peer_eq q r.local)) [
    | inl e ↦ rw e h
    | inr e ↦ rw e (Distinct-upsert q _ _ r.state h)
  ]
  Distinct-apply (heartbeat t q x) r h = elim (Bool-cases (peer_eq q r.local)) [
    | inl e ↦ rw e h
    | inr e ↦ rw e (Distinct-upsert q _ _ r.state h)
  ]

  Distinct-run :
      (cs : List (Call F)) (r : Router F) → Distinct r.state → Distinct (run f r cs).state
  unfolding run
  Distinct-run [] r h = h
  Distinct-run (c ∷ cs) r h = Distinct-run cs (apply f c r) (Distinct-apply c r h)

  -- A peer that announced the model and whose last call is recent enough.
  abbrev pub IsRecent : MeshConfig → ℕ → List ℕ → Type 0
  IsRecent cfg now [] = ⊥
  IsRecent cfg now (t ∷ ts) = ltb (now - last_or t ts) (cfg.peer_dead_after_secs * 10 ^ 9) ≡ true

  pub record CanServe (cfg : MeshConfig) (cs : List (Call F)) (now : ℕ) (model_name : Text)
      (p : PeerId) : Type 0 where
    pub announced : any (λ k. text_eq k model_name) (names p cs) ≡ true
    pub recent : IsRecent cfg now (times p cs)

  -- The load that the peer last reported.
  abbrev pub known_load : List (Call F) → PeerId → F
  known_load cs p = last_or f.max_value (loads p cs)

  -- a summary read field by field
  of_summary :
      (cfg : MeshConfig) (cs : List (Call F)) (now : ℕ) (m : Text) (p : PeerId) (s : PeerState F)
      (ts : List ℕ)
      → summary_from f p cs ts ≡ some s
      → ltb (now - s.last_seen) (from_secs cfg.peer_dead_after_secs) ≡ true
      → any (λ k. text_eq k m) s.models ≡ true
      → (any (λ k. text_eq k m) (names p cs) ≡ true)
        × IsRecent cfg now ts
        × (s.load ≡ known_load cs p)
  of_summary cfg cs now m p s [] h l a = cc
  of_summary cfg cs now m p s (t ∷ ts) h l a = ground (arith, any-push_all m [] (names p cs))

  to_summary :
      (cfg : MeshConfig) (cs : List (Call F)) (now : ℕ) (m : Text) (p : PeerId) (ts : List ℕ)
      → IsRecent cfg now ts
      → any (λ k. text_eq k m) (names p cs) ≡ true
      → (s : PeerState F) × (summary_from f p cs ts ≡ some s)
        × (ltb (now - s.last_seen) (from_secs cfg.peer_dead_after_secs) ≡ true)
        × (any (λ k. text_eq k m) s.models ≡ true)
        × (s.load ≡ known_load cs p)
  to_summary cfg cs now m p [] h a = absurd h
  to_summary cfg cs now m p (t ∷ ts) h a = (
    record { load = known_load cs p; last_seen = last_or t ts; models = push_all [] (names p cs) },
    refl,
    h,
    any-push_all m [] (names p cs) ∙ a,
    refl,
  )

  module _ (own : PeerId) (cfg : MeshConfig) (cs : List (Call F)) where
    abbrev pub reached : Router F
    reached = run f (new own cfg) cs

    pub reached_cfg : reached.cfg ≡ cfg
    reached_cfg = cfg-run cs (new own cfg)

    summary_of_Member :
        (e : Entry F) → Member e reached.state → (e.0 ≢ own) × (summary f e.0 cs ≡ some e.1)
    summary_of_Member (p, s) m =
        let eq : (if peer_eq p own then none else summary f p cs) ≡ some s =
          sym (get-run f p own cfg cs)
          ∙ get_of_Member p s reached.state (Distinct-run cs (new own cfg) tt) m in
        elim (Bool-cases (peer_eq p own)) [
          | inl h ↦ absurd (cc (rw h at eq))
          | inr h ↦ ((λ q. cc (h, (peer_eq_iff p own).1 q)), rw h at eq)
        ]

    module _ (now : ℕ) (model_name : Text) where
      pub CanServe-of_IsEligible :
          (e : Entry F)
          → IsEligible f reached now model_name e
          → (e.0 ≢ own) × CanServe cfg cs now model_name e.0 × (e.1.load ≡ known_load cs e.0)
      CanServe-of_IsEligible (p, s) h =
          let (ne, q) = summary_of_Member (p, s) h.known in
          let (a, r, l) =
            of_summary cfg cs now model_name p s (times p cs) q
              (rw reached_cfg at ((is_alive_iff reached now (p, s)).1 h.alive))
              ((lists_iff model_name s.models).1 h.serves) in
          (ne, record { announced = a; recent = r }, l)

      pub IsEligible-of_CanServe :
          (p : PeerId)
          → p ≢ own
          → CanServe cfg cs now model_name p
          → (s : PeerState F) × IsEligible f reached now model_name (p, s)
            × (s.load ≡ known_load cs p)
      IsEligible-of_CanServe p ne c =
          let (s, q, alive, serves, l) =
            to_summary cfg cs now model_name p (times p cs) c.recent c.announced in
          (
            s,
            record {
              known = Member_of_get p s reached.state (
                  get-run f p own cfg cs
                  ∙ rw (not_own (peer_eq p own) λ h. ne ((peer_eq_iff p own).0 h)) q);
              alive = (is_alive_iff reached now (p, s)).0 (rw reached_cfg alive);
              serves = (lists_iff model_name s.models).0 serves;
            },
            l,
          )
        where
          not_own : (b : Bool) → (b ≢ true) → b ≡ false
          not_own true h = absurd (h refl)
          not_own false h = refl

  -- Every load that a heartbeat carried is a number.
  abbrev pub AllNumbers : List (Call F) → Type 0
  AllNumbers [] = Unit
  AllNumbers (announce t q n ∷ cs) = AllNumbers cs
  AllNumbers (heartbeat t q x ∷ cs) = IsNumber f x × AllNumbers cs

  pub last_or-IsNumber :
      (p : PeerId) (cs : List (Call F)) (d : F)
      → IsNumber f d
      → AllNumbers cs
      → IsNumber f (last_or d (loads p cs))
  last_or-IsNumber p [] d h a = h
  last_or-IsNumber p (announce t q n ∷ cs) d h a = last_or-IsNumber p cs d h a
  last_or-IsNumber p (heartbeat t q x ∷ cs) d h (k, a) = elim (Bool-cases (peer_eq q p)) [
    | inl e ↦ rw e (last_or-IsNumber p cs x k a)
    | inr e ↦ rw e (last_or-IsNumber p cs d h a)
  ]

  load_of_summary :
      (p : PeerId) (cs : List (Call F)) (ts : List ℕ) (s : PeerState F)
      → summary_from f p cs ts ≡ some s
      → known_load cs p ≡ s.load
  load_of_summary p cs [] s h = cc
  load_of_summary p cs (t ∷ ts) s h = ground arith

  module _ (laws : IsIeee f) (own : PeerId) (cfg : MeshConfig) (cs : List (Call F))
      (numbers : AllNumbers cs) where
    pub HasNumbers-reached : HasNumbers f (reached own cfg cs)
    HasNumbers-reached e m =
        rw (← load_of_summary e.0 cs (times e.0 cs) e.1 (summary_of_Member own cfg cs e m).1)
          (last_or-IsNumber e.0 cs f.max_value laws.max_value-IsNumber numbers)
