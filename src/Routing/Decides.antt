-- ===== src/Routing/Decides.antt =====
-- The decision of `route`, against a relation that says which answer is right. The relation
-- determines the answer and does not mention the order in which the table is iterated.
use mathlib.Core.Path.{subst}
use furcate_mesh.Prelude.{
  ℕ, ◌-◌, ◌*◌, ◌^◌, ◌↔◌, any, ltb→lt, lt→ltb, arith, ◌<◌, ◌≤◌, ◌≡◌, ◌≢◌, refl, sym, Bool, true,
  false, Ordering, List, [], ◌∷◌, leb, inl, inr, Result, ok, err, All, Member, All-Member,
  All-of_Member, filter-Member, Member-filter, Member-map, map-Member, Bool-cases, leb→le, leb→lt,
}
use furcate_mesh.Prelude.Text.{Text, text_eq, text_eq_iff}
use furcate_mesh.Prelude.Sort.{head_or, sort_by}
use furcate_mesh.Prelude.Sort.Least.{IsLeast, IsLeast-sort_by}
use furcate_mesh.Core.PeerId.{PeerId}
use furcate_mesh.Core.Float.{Float, IsIeee, IsNumber}
use furcate_mesh.Routing.{
  RoutingError, no_such_model, hop_budget, Decision, local, forward, PeerState, Router,
  candidate_cmp, is_alive, has_model, candidates, choose, route,
}
use furcate_mesh.Routing.Order.{
  candidate_cmp_refl, candidate_cmp_total, candidate_cmp_trans, NotAfter, NotAfter-of_candidate_cmp,
}

abbrev pub Entry : Type 0 → Type 0
Entry F = PeerId × PeerState F

module _ {F : Type 0} (f : Float F) where
  -- A peer of the table that was heard of recently enough and has the model.
  pub record IsEligible (r : Router F) (now : ℕ) (model_name : Text) (e : Entry F) : Type 0 where
    pub known : Member e r.state
    pub alive : now - e.1.last_seen < r.cfg.peer_dead_after_secs * 10 ^ 9
    pub serves : Member model_name e.1.models

  -- The right answers.
  pub data Decides (r : Router F) (now : ℕ) (model_name : Text) (local_has : Bool) (hops : ℕ)
      : Result RoutingError Decision → Type 0 where
    here : local_has ≡ true → Decides r now model_name local_has hops (ok local)
    spent :
        local_has ≡ false
        → r.cfg.max_hops ≤ hops
        → Decides r now model_name local_has hops (err (hop_budget r.cfg.max_hops))
    nobody :
        local_has ≡ false
        → hops < r.cfg.max_hops
        → ((e : Entry F) → ¬ IsEligible r now model_name e)
        → Decides r now model_name local_has hops (err (no_such_model model_name))
    best :
        local_has ≡ false
        → hops < r.cfg.max_hops
        → (e : Entry F) → IsEligible r now model_name e
        → ((d : Entry F)
            → IsEligible r now model_name d
            → NotAfter f (e.0, e.1.load) (d.0, d.1.load))
        → Decides r now model_name local_has hops (ok (forward e.0))

  -- Every load of the table is a number. `f64::MAX`, for a peer with no heartbeat, is one.
  abbrev pub HasNumbers : Router F → Type 0
  HasNumbers r = (e : Entry F) → Member e r.state → IsNumber f e.1.load

pub is_alive_iff :
    {F : Type 0} (r : Router F) (now : ℕ) (e : Entry F)
    → (is_alive r now e ≡ true) ↔ (now - e.1.last_seen < r.cfg.peer_dead_after_secs * 10 ^ 9)
is_alive_iff r now e = (ltb→lt _ _, lt→ltb _ _)

Member_of_any : (m : Text) (ms : List Text) → any (λ k. text_eq k m) ms ≡ true → Member m ms
Member_of_any m [] h = cc
Member_of_any m (k ∷ ms) h = elim (Bool-cases (text_eq k m)) [
  | inl e ↦ inl (sym ((text_eq_iff k m).0 e))
  | inr e ↦ inr (Member_of_any m ms (rw e at h))
]

any_of_Member : (m : Text) (ms : List Text) → Member m ms → any (λ k. text_eq k m) ms ≡ true
any_of_Member m [] h = absurd h
any_of_Member m (k ∷ ms) (inl e) = rw ((text_eq_iff k m).1 (sym e)) refl
any_of_Member m (k ∷ ms) (inr h) = ground (arith, any_of_Member m ms h)

pub lists_iff : (m : Text) (ms : List Text) → (any (λ k. text_eq k m) ms ≡ true) ↔ Member m ms
lists_iff m ms = (Member_of_any m ms, any_of_Member m ms)

module _ {F : Type 0} {f : Float F} (r : Router F) (now : ℕ) (model_name : Text) where
  candidate_of_IsEligible :
      (e : Entry F)
      → IsEligible f r now model_name e
      → Member (e.0, e.1.load) (candidates r now model_name)
  unfolding candidates
  candidate_of_IsEligible e h =
      Member-map (λ e. (e.0, e.1.load)) e _
        (Member-filter (has_model model_name) e _
          (Member-filter (is_alive r now) e _ h.known ((is_alive_iff r now e).1 h.alive))
          ((lists_iff model_name e.1.models).1 h.serves))

  IsEligible-of_candidate :
      (c : PeerId × F)
      → Member c (candidates r now model_name)
      → (e : Entry F) × IsEligible f r now model_name e × (c ≡ (e.0, e.1.load))
  unfolding candidates
  IsEligible-of_candidate c m =
      let (e, n, q) = map-Member (λ (e : Entry F). (e.0, e.1.load)) c _ m in
      let (k, serves) = filter-Member (has_model model_name) e _ n in
      let (known, alive) = filter-Member (is_alive r now) e _ k in
      (
        e,
        record {
          known = known;
          alive = (is_alive_iff r now e).0 alive;
          serves = (lists_iff model_name e.1.models).0 serves;
        },
        q,
      )

  module _ (laws : IsIeee f) (numbers : HasNumbers f r) where
    candidate_numbers : All (λ c. IsNumber f c.1) (candidates r now model_name)
    candidate_numbers =
        All-of_Member _ _
          λ c m. let (e, h, q) = IsEligible-of_candidate c m in rw q (numbers e h.known)

    Decides-least :
        (local_has : Bool) (hops : ℕ) (h : PeerId × F)
        → local_has ≡ false
        → hops < r.cfg.max_hops
        → IsLeast (candidate_cmp f) h (candidates r now model_name)
        → Decides f r now model_name local_has hops (ok (forward h.0))
    Decides-least local_has hops h n g l =
        let (e, k, q) = IsEligible-of_candidate h l.belongs in
        subst (λ c. Decides f r now model_name local_has hops (ok (forward c.0))) (sym q)
          (best n g e k λ d kd.
            NotAfter-of_candidate_cmp laws (e.0, e.1.load) (d.0, d.1.load) (numbers e k.known)
              (numbers d kd.known)
              (subst (λ c. candidate_cmp f c (d.0, d.1.load) ≢ Ordering.gt) q
                (All-Member (λ c. candidate_cmp f h c ≢ Ordering.gt) _ _ l.first
                  (candidate_of_IsEligible d kd))))

    Decides-choose :
        (local_has : Bool) (hops : ℕ) (cs : List (PeerId × F))
        → local_has ≡ false
        → hops < r.cfg.max_hops
        → cs ≡ candidates r now model_name
        → Decides f r now model_name local_has hops (choose f model_name cs)
    unfolding choose
    Decides-choose local_has hops [] h g e =
        nobody h g λ d k. rw (← e) at (candidate_of_IsEligible d k)
    Decides-choose local_has hops (c ∷ cs) h g e = Decides-least local_has hops _ h g (
        subst (IsLeast (candidate_cmp f) (head_or c (sort_by (candidate_cmp f) (c ∷ cs)))) e (
          IsLeast-sort_by (candidate_cmp f) (λ d. IsNumber f d.1) (candidate_cmp_refl laws)
            (candidate_cmp_total laws) (candidate_cmp_trans laws) c cs
            (subst (All (λ d. IsNumber f d.1)) (sym e) candidate_numbers)))

    -- If every load of the table is a number, `route` gives the right answer: it serves locally
    -- exactly if it can, refuses exactly at the hop budget, fails exactly if no live peer has the
    -- model, and otherwise forwards to the least loaded of those peers, the least id among equals.
    pub route-Decides :
        (local_has : Bool) (hops : ℕ)
        → Decides f r now model_name local_has hops (route f r now model_name local_has hops)
    unfolding route
    route-Decides true hops = here refl
    route-Decides false hops = elim (Bool-cases (leb r.cfg.max_hops hops)) [
      | inl e ↦ rw e (spent refl (leb→le r.cfg.max_hops hops e))
      | inr e ↦ rw e (Decides-choose false hops _ refl (leb→lt r.cfg.max_hops hops e) refl)
    ]
