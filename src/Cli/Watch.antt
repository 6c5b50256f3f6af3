-- ===== src/Cli/Watch.antt =====
-- The observation windows of `peers_list` and `model_list`, and the tables they print.
pub mod Latest
pub mod Table
pub mod Printed
use furcate_mesh.Prelude.{
  ℕ, suc, ◌+◌, ◌-◌, ◌*◌, ◌/◌, ◌^◌, ◌≤◌, ◌≡◌, refl, inl, inr, Bool-cases, arith, Ordering, Option,
  none, some, List, [], ◌∷◌, ◌++◌, map, ◌==◌, ltb, Result, ok, err, if◌then◌else◌,
}
use furcate_mesh.Prelude.Text.{Text, codes}
use furcate_mesh.Prelude.Text.Decimal.{decimal}
use furcate_mesh.Prelude.SortedMap.{Ord, text_ord, pair_ord, insert}
use furcate_mesh.Prelude.Text.Order.{
  bytes_cmp_refl, eq_of_bytes_cmp, bytes_cmp_swap, bytes_cmp_lt_trans,
}
use furcate_mesh.Core.Hex.{Hex}
use furcate_mesh.Core.PeerId.{PeerId, peer_cmp, display}
use furcate_mesh.Core.Event.{MeshEvent, heartbeat, model_announce}
use furcate_mesh.Routing.{from_secs}
use furcate_mesh.Transport.{TransportError}
use furcate_mesh.Cli.{Env}

pub eq_of_peer_cmp : (p q : PeerId) → peer_cmp p q ≡ Ordering.eq → p ≡ q
eq_of_peer_cmp p q h = ground (arith, eq_of_bytes_cmp p.key q.key)

instance abbrev pub peer_ord : Ord PeerId
peer_ord = record {
  cmp = peer_cmp;
  cmp_refl = λ p. bytes_cmp_refl p.key;
  eq_of_cmp = eq_of_peer_cmp;
  cmp_swap = λ p q. bytes_cmp_swap p.key q.key;
  lt_trans = λ p q r. bytes_cmp_lt_trans p.key q.key r.key;
}

instance abbrev pub model_ord : Ord (PeerId × Text)
model_ord = pair_ord peer_ord text_ord

-- `Instant::now() + Duration::from_secs(for_secs)`, which panics where there is no such `Instant`
unfoldable pub deadline_of : {K Ip : Type 0} → Env K Ip → ℕ → Option ℕ
deadline_of env for_secs =
    if ltb env.last_instant (env.started + from_secs for_secs)
    then none
    else some (env.started + from_secs for_secs)

-- the end of the window, where it is an `Instant`
pub deadline_of_lem :
    {K Ip : Type 0} (env : Env K Ip) (for_secs : ℕ)
    → env.started + for_secs * 10 ^ 9 ≤ env.last_instant
    → deadline_of env for_secs ≡ some (env.started + for_secs * 10 ^ 9)
unfolding deadline_of
deadline_of_lem env for_secs h = ground (arith, h)

abbrev pub Item : Type 0 → Type 0
Item F = Result TransportError (MeshEvent F)

-- The loop, `i` turns done: the items are those that come before a wait elapses or the stream ends,
-- and `note` is the arm that takes an item.
unfoldable pub watch :
    {A M : Type 0} → (note : ℕ → A → M → M) (clock : ℕ → ℕ) (deadline i : ℕ) → List A → M → M
watch note clock deadline i [] seen = seen
watch note clock deadline i (item ∷ items) seen =
    let more = watch note clock deadline (suc i) items (note i item seen) in
    if deadline - clock i == 0 then seen else more

pub watch-ext :
    {A M : Type 0} (f g : ℕ → A → M → M) (clock : ℕ → ℕ) (deadline i : ℕ) (xs : List A) (seen : M)
    → ((j : ℕ) (x : A) (m : M) → f j x m ≡ g j x m)
    → watch f clock deadline i xs seen ≡ watch g clock deadline i xs seen
unfolding watch
watch-ext f g clock deadline i [] seen h = refl
watch-ext f g clock deadline i (x ∷ xs) seen h = elim (Bool-cases (deadline - clock i == 0)) [
  | inl e ↦ rw e refl
  | inr e ↦ rw (e, h i x seen) (watch-ext f g clock deadline (suc i) xs (g i x seen) h)
]

-- `unwrap_or_default().as_secs()`
unfoldable pub as_secs : Option ℕ → ℕ
as_secs none = 0
as_secs (some ms) = ms / 1000

abbrev pub Peers : Type 0 → Type 0
Peers F = List (PeerId × (F × ℕ))

unfoldable pub note_heartbeat :
    {F : Type 0} → (wall : ℕ → Option ℕ) → ℕ → Item F → Peers F → Peers F
unfolding as_secs
note_heartbeat wall i (ok (heartbeat who clock load)) seen =
    insert who (load, as_secs (wall i)) seen
note_heartbeat wall i _ seen = seen

abbrev pub Models : Type 0
Models = List ((PeerId × Text) × (Text × Text))

unfoldable pub note_announce : {F : Type 0} → ℕ → Item F → Models → Models
note_announce i (ok (model_announce who clock name digest format)) seen =
    insert (who, name) (digest, format) seen
note_announce i _ seen = seen

abbrev pub peers_heading : Text
peers_heading =
    codes "PEER                                                             LOAD  LAST_SEEN"

abbrev pub models_heading : Text
models_heading = codes "PEER  MODEL  FORMAT  DIGEST"

module _ (hex : Hex) where
  unfoldable pub peer_row : {F : Type 0} → (F → Text) → PeerId × (F × ℕ) → Text
  peer_row two_decimals (who, (load, ts)) =
      display hex who ++ (codes "  " ++ (two_decimals load ++ (codes "  " ++ decimal ts)))

  -- What `peers_list` prints of a table.
  unfoldable pub print_peers : {F : Type 0} → (F → Text) → ℕ → Peers F → List Text
  unfolding peer_row
  print_peers two_decimals for_secs [] =
      (codes "(no peers seen in " ++ (decimal for_secs ++ codes "s)")) ∷ []
  print_peers two_decimals for_secs (row ∷ rows) =
      peers_heading ∷ map (peer_row two_decimals) (row ∷ rows)

  unfoldable pub model_row : (PeerId × Text) × (Text × Text) → Text
  model_row ((who, name), (digest, format)) =
      display hex who
      ++ (codes "  " ++ (name ++ (codes "  " ++ (format ++ (codes "  " ++ digest)))))

  -- What `model_list` prints of a table.
  unfoldable pub print_models : ℕ → Models → List Text
  unfolding model_row
  print_models for_secs [] =
      (codes "(no model announcements in " ++ (decimal for_secs ++ codes "s)")) ∷ []
  print_models for_secs (row ∷ rows) = models_heading ∷ map model_row (row ∷ rows)
