-- ===== src/Routing/Known.antt =====
-- What a router knows of every peer, said without its operations: by the calls that it received.
use furcate_mesh.Prelude.{
  ◌≡◌, refl, sym, ap, ◌∙◌, Bool, true, ◌||◌, not, Option, none, some, List, [], ◌∷◌, ◌++◌,
  append-nil, append_assoc, arith, any, filter, Bool-cases, inl, inr, ℕ, if◌then◌else◌,
}
use furcate_mesh.Prelude.Text.{Text, text_eq, text_eq_iff}
use furcate_mesh.Prelude.Dict.{get}
use furcate_mesh.Core.PeerId.{PeerId, peer_eq, peer_id_eq}
use furcate_mesh.Core.Config.{MeshConfig}
use furcate_mesh.Core.Float.{Float}
use furcate_mesh.Routing.{PeerState, new, push_new}
use furcate_mesh.Routing.History.{
  Call, last_or, push_all, times, loads, names, summary_from, run, get-run,
}

-- the first occurrences, in their order
abbrev pub firsts : List Text → List Text
firsts [] = []
firsts (n ∷ ns) = n ∷ filter (λ k. not (text_eq k n)) (firsts ns)

-- the names that a list does not have
abbrev beyond : List Text → List Text → List Text
beyond ms ns = filter (λ k. not (any (λ m. text_eq m k) ms)) ns

any-snoc : (p : Text → Bool) (ms : List Text) (n : Text) → any p (ms ++ n ∷ []) ≡ (p n || any p ms)
any-snoc p [] n = refl
any-snoc p (m ∷ ms) n = ground (arith, any-snoc p ms n)

beyond-snoc :
    (ms ns : List Text) (n : Text)
    → beyond (ms ++ n ∷ []) ns ≡ beyond ms (filter (λ k. not (text_eq k n)) ns)
beyond-snoc ms [] n = refl
beyond-snoc ms (k ∷ ns) n =
    ground (
      arith,
      any-snoc (λ m. text_eq m k) ms n,
      beyond-snoc ms ns n,
      text_eq_iff k n,
      text_eq_iff n k,
    )

listed :
    (ms : List Text) (n k : Text)
    → any (λ m. text_eq m n) ms ≡ true
    → text_eq k n ≡ true
    → any (λ m. text_eq m k) ms ≡ true
listed ms n k h e = rw ((text_eq_iff k n).0 e) h

beyond-listed :
    (ms ns : List Text) (n : Text)
    → any (λ m. text_eq m n) ms ≡ true
    → beyond ms (filter (λ k. not (text_eq k n)) ns) ≡ beyond ms ns
beyond-listed ms [] n h = refl
beyond-listed ms (k ∷ ns) n h = ground (arith, beyond-listed ms ns n h, listed ms n k h)

push_all-beyond : (ms ns : List Text) → push_all ms ns ≡ ms ++ beyond ms (firsts ns)
unfolding push_new
push_all-beyond ms [] = sym (append-nil ms)
push_all-beyond ms (n ∷ ns) = elim (Bool-cases (any (λ m. text_eq m n) ms)) [
  | inl h ↦
      rw (h, push_new)
        (push_all-beyond ms ns ∙ ap (λ x. ms ++ x) (sym (beyond-listed ms (firsts ns) n h)))
  | inr h ↦
      rw (h, push_new)
        (push_all-beyond (ms ++ n ∷ []) ns
          ∙ append_assoc ms (n ∷ []) (beyond (ms ++ n ∷ []) (firsts ns))
          ∙ ap (λ x. ms ++ n ∷ x) (beyond-snoc ms (firsts ns) n))
]

beyond-nil : (ns : List Text) → beyond [] ns ≡ ns
beyond-nil [] = refl
beyond-nil (n ∷ ns) = ap (λ x. n ∷ x) (beyond-nil ns)

push_all-firsts : (ns : List Text) → push_all [] ns ≡ firsts ns
push_all-firsts ns = push_all-beyond [] ns ∙ beyond-nil (firsts ns)

module _ {F : Type 0} (f : Float F) where
  -- what calls at those times, with those loads and names, say of a peer
  abbrev pub said : List ℕ → List F → List Text → Option (PeerState F)
  said [] xs ns = none
  said (t ∷ ts) xs ns =
      some (record { load = last_or f.max_value xs; last_seen = last_or t ts; models = firsts ns })

  said-summary :
      (p : PeerId) (cs : List (Call F)) (ts : List ℕ)
      → summary_from f p cs ts ≡ said ts (loads p cs) (names p cs)
  said-summary p cs [] = refl
  said-summary p cs (t ∷ ts) = rw (push_all-firsts (names p cs)) refl

  -- After any calls on a fresh router, the table holds for each peer but the router's own exactly what the calls
  -- about that peer say: the load of its last heartbeat, or `f64::MAX` if it sent none, the time of
  -- its last call, and the announced models in the order of their first announcements, each once;
  -- it holds nothing for a peer that no call was about, and nothing for the router's own peer.
  pub known_lem :
      (p own : PeerId) (cfg : MeshConfig) (cs : List (Call F))
      → get p (run f (new own cfg) cs).state
        ≡ (if peer_eq p own then none else said (times p cs) (loads p cs) (names p cs))
  known_lem p own cfg cs =
      get-run f p own cfg cs
      ∙ ap (λ x. if peer_eq p own then none else x) (said-summary p cs (times p cs))
