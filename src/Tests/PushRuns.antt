-- ===== src/Tests/PushRuns.antt =====
-- crates/furcate-mesh-cli: a push on one machine and a pull on another, and a sequence of commands.
use furcate_mesh.Prelude.{
  ◌≤◌, arith, ℕ, ◌*◌, ◌^◌, ◌≡◌, ◌↔◌, refl, true, false, Option, none, some, List, [], ◌∷◌, ◌++◌,
  get_elem?, dec_lt, map, Member, inl, replicate, Result, ok, if◌then◌else◌,
}
use furcate_mesh.Prelude.Text.{Text, codes, text_eq}
use furcate_mesh.Prelude.Equality.{text_eq_instance}
use furcate_mesh.Prelude.Dict.{get}
use furcate_mesh.Core.PeerId.{from_bytes, from_hex, display, to_hex}
use furcate_mesh.Core.Clock.{now}
use furcate_mesh.Core.Event.{model_announce}
use furcate_mesh.Transfer.Disk.{read_len}
use furcate_mesh.Transfer.Serve.{root_hash}
use furcate_mesh.Transfer.Service.{selector, serve, serve_loop, answer, strip_prefix, register}
use furcate_mesh.Cli.Watch.{peer_ord, model_ord}
use furcate_mesh.Cli.Peers.{put_event, peer_id}
use furcate_mesh.Cli.Models.{model_push, model_pull, cache_dir_of}
use furcate_mesh.Cli.Models.Fetched.{pull-push, pulled_text}
use furcate_mesh.Cli.Run.Verified.{AllVerified, runs-AllVerified}
use furcate_mesh.Cli.Run.Stable.{runs, peer_id_stable}
use furcate_mesh.Identity.{save, store, load_or_generate}
use furcate_mesh.Identity.Directory.{Vars}
use furcate_mesh.Transport.{new_transport, set_endpoints, Sample, publish, key_for, decode_sample}
use furcate_mesh.Cli.{Cli, model, push, pull, peers, Output, nothing, Env, identify}
use furcate_mesh.Tests.Codecs.{
  encode, decode, plain_hex, plain_hash-IsBlake3, plain_codec-IsHeaderCodec,
}
use furcate_mesh.Tests.Codecs.Events.{
  field, split, to_vec, from_slice, plain_events, plain_events-IsEventCodec,
}
use furcate_mesh.Tests.IdentityRuns.{plain_ed, plain_ed-IsEd25519}
use furcate_mesh.Tests.TransferRuns.{content, digest, sent, sent-SameReplies, calm-IsFaultless}
use furcate_mesh.Tests.TransferRuns.{calm as calm_pull}
use furcate_mesh.Prelude.{◌*◌, ◌^◌, true, ok}
use furcate_mesh.Prelude.Text.Decimal.{decimal}
use furcate_mesh.Cli.{nothing}
use furcate_mesh.Cli.Peers.{peer_up, heartbeat_task, peers_list}
use furcate_mesh.Cli.Peers.Listed.{peers_list-peer_up}
use furcate_mesh.Tests.CliRuns.{lib, env, empty_world, dir, beats, new_key, opens}

-- what a host leaves that pushes a file and is asked for it
abbrev pub host : Env Text ℕ
host = env [] (selector digest ∷ [])

abbrev pushed : Output
pushed =
    (model_push lib host dir (codes "m") (codes "m.gguf") (codes "gguf") 4000 [] false
      empty_world).0

abbrev announcement : Sample
announcement = (
  codes "furcate/mesh/" ++ (encode new_key ++ codes "/model/m"),
  1 ∷ 0 ∷ 0 ∷ field (codes "m") (field digest (field (codes "gguf") new_key)),
)

announces : pushed.put ≡ announcement ∷ []
unfolding model_push put_event publish key_for to_vec field identify load_or_generate save store
    root_hash serve new_transport set_endpoints display to_hex encode now read_len dec_lt text_eq
    furcate_mesh.Identity.peer_id
announces = refl

replies : get_elem? pushed.replies 0 ≡ some sent
unfolding model_push put_event publish key_for to_vec field identify load_or_generate save store
    root_hash serve serve_loop answer strip_prefix selector get register new_transport set_endpoints
    display to_hex encode now read_len dec_lt text_eq furcate_mesh.Transfer.Serve.stream_file_chunks
    furcate_mesh.Prelude.Dict.insert
replies = refl

decodes :
    decode_sample plain_hex plain_events announcement
    ≡ ok (
        model_announce
          (from_bytes new_key)
          (record { wall_ms = 0; counter = 0 })
          (codes "m")
          digest
          (codes "gguf"))
unfolding decode_sample from_slice split field encode
decodes = refl

file_there : host.files (codes "m.gguf") ≡ some content
unfolding text_eq
file_there = refl

not_cached : get digest (empty_world.caches (cache_dir_of dir none)) ≡ none
unfolding get
not_cached = refl

-- the machine that pulls, with the replies of the host
abbrev client : Env Text ℕ
client = record (env [] []) { pulls = calm_pull sent }

abbrev host_hex : Text
host_hex = encode new_key

client_identified : (identify plain_ed client dir empty_world).0 ≡ ok new_key
unfolding identify load_or_generate save store
client_identified = refl

names_host : from_hex plain_hex host_hex ≡ ok (from_bytes new_key)
unfolding from_hex encode decode
names_host = refl

pull-push_example :
    ((model_pull lib client dir host_hex digest none 4000 empty_world).0
      ≡ record nothing { printed = pulled_text content (cache_dir_of dir none) digest ∷ [] })
    × (get digest (
          (model_pull lib client dir host_hex digest none 4000 empty_world).1.caches
            (cache_dir_of dir none))
        ≡ some content)
pull-push_example =
    pull-push lib plain_hash-IsBlake3 plain_codec-IsHeaderCodec plain_events-IsEventCodec host dir
      (codes "m") (codes "m.gguf") (codes "gguf") 4000 [] false empty_world content (λ p. (1, refl))
      (λ o. refl) announcement (from_bytes new_key) (record { wall_ms = 0; counter = 0 })
      (codes "m") digest (codes "gguf") 0 sent sent client dir host_hex none 4000 empty_world
      new_key _ (from_bytes new_key) (cc) file_there (rw announces (inl refl)) decodes refl replies
      sent-SameReplies client_identified opens names_host (calm-IsFaultless sent) refl not_cached

-- an address that is printed again after a push in the same directory and a listing in another
abbrev history : List (Env Text ℕ × Cli)
history =
    (
      host,
      record {
        config_dir = some dir;
        cmd = model (push (codes "m") (codes "m.gguf") (codes "gguf") 4000 [] false);
      },
    )
    ∷ (env beats [], record { config_dir = none; cmd = peers 4 })
    ∷ []

abbrev no_vars : Vars
no_vars name = none

prints : (peer_id lib (env [] []) dir empty_world).0.answer ≡ ok tt
unfolding peer_id identify load_or_generate save store
prints = refl

peer_id_stable_example :
    (peer_id lib host dir
      (runs lib true no_vars history (peer_id lib (env [] []) dir empty_world).1)).0
    ≡ (peer_id lib (env [] []) dir empty_world).0
peer_id_stable_example =
    peer_id_stable lib plain_ed-IsEd25519 true no_vars (env [] []) host dir empty_world history
      prints refl

-- a pull before that history
abbrev pull_first : List (Env Text ℕ × Cli)
pull_first =
    (
      client,
      record { config_dir = some dir; cmd = model (pull host_hex digest none 4000 [] false) },
    )
    ∷ history

empty-AllVerified : AllVerified lib plain_hash-IsBlake3 empty_world
unfolding get
empty-AllVerified d = record { verified = λ j c h. cc }

runs-AllVerified_example :
    AllVerified lib plain_hash-IsBlake3 (runs lib true no_vars pull_first empty_world)
runs-AllVerified_example =
    runs-AllVerified lib plain_hash-IsBlake3 true no_vars pull_first empty_world empty-AllVerified

-- a peer that is up, and a listing that hears its first heartbeat
abbrev first_beat : Sample
first_beat =
    (codes "furcate/mesh/" ++ (encode new_key ++ codes "/heartbeat"), 0 ∷ 0 ∷ 0 ∷ 0 ∷ new_key)

beats_once : Member first_beat (peer_up lib (env [] []) dir [] true 4000 5 empty_world).0.put
unfolding peer_up heartbeat_task put_event publish key_for to_vec identify load_or_generate save
    store new_transport set_endpoints display to_hex encode now furcate_mesh.Identity.peer_id
beats_once = inl refl

host_identified : (identify plain_ed (env [] []) dir empty_world).0 ≡ ok new_key
unfolding identify load_or_generate save store
host_identified = refl

listener_identified : (identify plain_ed (env (first_beat ∷ []) []) dir empty_world).0 ≡ ok new_key
unfolding identify load_or_generate save store
listener_identified = refl

waits : 4 * 10 ^ 9 ≤ 2 ^ 64
waits = omega arith

peers_list-peer_up_example :
    (load : ℕ) × (secs : ℕ) × Member
      (plain_hex.encode (plain_ed.verifying_key new_key)
        ++ (codes "  " ++ (decimal load ++ (codes "  " ++ decimal secs))))
      (peers_list lib (env (first_beat ∷ []) []) dir 4 empty_world).0.printed
peers_list-peer_up_example =
    peers_list-peer_up lib plain_events-IsEventCodec (env [] []) dir [] true 4000 5 empty_world
      new_key first_beat (env (first_beat ∷ []) []) dir 4 empty_world 4000 new_key _ host_identified
      beats_once refl listener_identified opens refl waits (inl refl)
