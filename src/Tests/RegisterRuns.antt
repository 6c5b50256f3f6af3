-- ===== src/Tests/RegisterRuns.antt =====
-- crates/furcate-mesh-cli: a push with more seeds than the channel of discovery takes.
use furcate_mesh.Prelude.{
  ℕ, ◌≡◌, refl, ap, true, false, some, List, [], ◌∷◌, map, ltb, leb, length, replicate, Result, ok,
  if◌then◌else◌,
}
use furcate_mesh.Prelude.Text.{Text, codes}
use furcate_mesh.Discovery.{advertisement, parse_seed}
use furcate_mesh.Discovery.Run.{channel_capacity}
use furcate_mesh.Identity.{peer_id, load_or_generate, save, store}
use furcate_mesh.Transfer.Serve.{root_hash}
use furcate_mesh.Transfer.Disk.{read_len}
use furcate_mesh.Cli.{listen_url, identify}
use furcate_mesh.Cli.Models.{model_push}
use furcate_mesh.Cli.Models.Registered.{services-model_push}
use furcate_mesh.Tests.Codecs.{plain_hex}
use furcate_mesh.Tests.IdentityRuns.{plain_ed}
use furcate_mesh.Tests.TransferRuns.{digest}
use furcate_mesh.Tests.DiscoveryRuns.{net, seed, seeded, seed_parses}
use furcate_mesh.Tests.PushRuns.{host}
use furcate_mesh.Tests.CliRuns.{lib, empty_world, dir, new_key, opens}

abbrev many_seeds : List Text
many_seeds = replicate 33 seed

parses : map (parse_seed net plain_hex) many_seeds ≡ map ok (replicate 33 seeded)
parses = rw seed_parses refl

host_identified : (identify plain_ed host dir empty_world).0 ≡ ok new_key
unfolding identify load_or_generate save store
host_identified = refl

hashed : root_hash lib.blake3 plain_hex host.reads (host.files (codes "m.gguf")) ≡ ok digest
unfolding root_hash read_len furcate_mesh.Prelude.Text.text_eq furcate_mesh.Tests.Codecs.encode
    furcate_mesh.Prelude.dec_lt
hashed = refl

services-model_push_example :
    (model_push lib host dir
      (codes "m")
      (codes "m.gguf")
      (codes "gguf")
      4000
      many_seeds
      false
      empty_world).0.services
    ≡ (if leb (length many_seeds) channel_capacity
        then advertisement plain_hex (peer_id plain_ed new_key) (listen_url 4000) 4000 ∷ []
        else [])
services-model_push_example =
    services-model_push lib host many_seeds (replicate 33 seeded) parses refl refl refl dir
      (codes "m") (codes "m.gguf") (codes "gguf") 4000 empty_world new_key digest _ host_identified
      hashed opens refl
