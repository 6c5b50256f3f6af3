-- ===== src/Cli/Models/Fetched.antt =====
-- `model_push` on one machine and `model_pull` on another.
use mathlib.Core.Path.{subst}
use furcate_mesh.Prelude.{
  ℕ, ◌≡◌, ◌≢◌, refl, sym, Bool, true, Option, none, some, List, [], ◌∷◌, ◌++◌, arith, length,
  get_elem?, Member, ok,
}
use furcate_mesh.Prelude.Text.{Bytes, Text, codes, text_eq_refl}
use furcate_mesh.Prelude.Text.Decimal.{decimal}
use furcate_mesh.Prelude.Equality.{text_eq_instance}
use furcate_mesh.Prelude.Dict.{get, insert}
use furcate_mesh.Core.PeerId.{PeerId, from_hex}
use furcate_mesh.Core.Clock.{HybridLogicalClock}
use furcate_mesh.Core.Event.{model_announce}
use furcate_mesh.Identity.{peer_id as peer_id_of}
use furcate_mesh.Identity.Directory.{join}
use furcate_mesh.Transfer.{IsBlake3, IsHeaderCodec, chunk_hash}
use furcate_mesh.Transfer.Serve.{root_hash, Reply}
use furcate_mesh.Transfer.Pull.{Cache, pull_with_options}
use furcate_mesh.Transfer.Pull.Complete.{NeverFails, IsFaultless, root_hash_total}
use furcate_mesh.Transfer.RoundTrip.{SameReplies}
use furcate_mesh.Transfer.Service.{register, selector}
use furcate_mesh.Transfer.Service.Hosted.{pull-answer}
use furcate_mesh.Transport.{IsEventCodec, Sample, decode_sample, new_transport}
use furcate_mesh.Cli.{Output, nothing, World, Libraries, Env, listening, identify}
use furcate_mesh.Cli.Models.Shared.{answers, HasPushed, push_lem, get_elem?-map}
use furcate_mesh.Cli.Models.{model_push, pull_from, pulled_line, model_pull, cache_dir_of}

-- what a pull prints
abbrev pub pulled_text : Bytes → Text → Text → Text
pulled_text content dir name =
    codes "pulled " ++ (decimal (length content) ++ (codes " bytes into " ++ join dir name))

module _ {K C S Addr Ip H F : Type 0} (lib : Libraries K C S Addr Ip H F) where
  pull_lem :
      (env : Env K Ip) (dir hex_of digest : Text) (cache_dir : Option Text) (port : ℕ) (w : World)
      (own : K) (session : S) (source : PeerId) (content : Bytes)
      → (identify lib.ed25519 env dir w).0 ≡ ok own
      → new_transport lib.zenoh (listening port) ≡ ok session
      → from_hex lib.hex hex_of ≡ ok source
      → env.stats ≡ true
      → ((pull_with_options lib.blake3 lib.hex lib.headers env.pulls source digest
            (w.caches (cache_dir_of dir cache_dir))).0
          ≡ ok digest)
      → (get digest
            (pull_with_options lib.blake3 lib.hex lib.headers env.pulls source digest
              (w.caches (cache_dir_of dir cache_dir))).1
          ≡ some content)
      → ((model_pull lib env dir hex_of digest cache_dir port w).0 ≡ record nothing {
        printed = pulled_text content (cache_dir_of dir cache_dir) digest ∷ [];
      })
        × (get digest (
              (model_pull lib env dir hex_of digest cache_dir port w).1.caches
                (cache_dir_of dir cache_dir))
            ≡ some content)
  unfolding model_pull pull_from pulled_line identify
  pull_lem env dir hex_of digest cache_dir port w own session source content hi ht hs hm hp hg =
      ground (arith, hi, ht, hs, hm, hp, hg, text_eq_refl (cache_dir_of dir cache_dir))

  hosted : (digest path : Text) → get digest (register digest path []) ≡ some path
  unfolding register get insert
  hosted digest path = rw (text_eq_refl digest) refl

  -- the pull of a digest that another peer answers with the file that has it
  pulled :
      (laws : IsBlake3 lib.blake3) (headers : IsHeaderCodec lib.headers) (host : Env K Ip)
      (path digest : Text) (content : Bytes) (rs : List Reply) (env : Env K Ip) (source : PeerId)
      (m : Cache)
      → NeverFails host.reads
      → ((o : ℕ) → host.sends o ≡ true)
      → content ≢ []
      → host.files path ≡ some content
      → digest ≡ chunk_hash lib.blake3 lib.hex content
      → SameReplies rs (answers lib host (register digest path []) (selector digest))
      → IsFaultless env.pulls rs
      → get digest m ≡ none
      → ((pull_with_options lib.blake3 lib.hex lib.headers env.pulls source digest m).0 ≡ ok digest)
        × (get digest (pull_with_options lib.blake3 lib.hex lib.headers env.pulls source digest m).1
            ≡ some content)
  pulled laws headers host path digest content rs env source m never sends_all ne file d same free
        absent =
      subst
        (λ g.
          SameReplies rs (answers lib host (register g path []) (selector g))
          → get g m ≡ none
          → ((pull_with_options lib.blake3 lib.hex lib.headers env.pulls source g m).0 ≡ ok g)
            × (get g (pull_with_options lib.blake3 lib.hex lib.headers env.pulls source g m).1
                ≡ some content))
        (sym d)
        (λ same' absent'.
          pull-answer lib.blake3 lib.hex lib.headers host.sends host.reads host.files laws headers
            never sends_all (register (chunk_hash lib.blake3 lib.hex content) path []) path content
            rs env.pulls source m ne (hosted (chunk_hash lib.blake3 lib.hex content) path) file
            same' free absent')
        same absent

  -- the digest of an announcement, and the replies to a query for it
  announced_digest :
      (json : IsEventCodec lib.events) (laws : IsBlake3 lib.blake3) (host : Env K Ip)
      (name path format hashed : Text) (own : PeerId) (announcement : Sample) (out : Output)
      (content : Bytes) (who : PeerId) (clock : HybridLogicalClock) (model_name digest tag : Text)
      → NeverFails host.reads
      → host.files path ≡ some content
      → root_hash lib.blake3 lib.hex host.reads (host.files path) ≡ ok hashed
      → HasPushed lib json host name path format hashed own announcement out
      → decode_sample lib.hex lib.events announcement
        ≡ ok (model_announce who clock model_name digest tag)
      → (digest ≡ hashed) × (digest ≡ chunk_hash lib.blake3 lib.hex content)
  announced_digest json laws host name path format hashed own announcement out content who clock
        model_name digest tag never file root pushed announced =
      ground (
        arith,
        file,
        root,
        pushed.announces,
        announced,
        root_hash_total lib.blake3 laws lib.hex lib.headers host.reads content never,
      )

  module _ (laws : IsBlake3 lib.blake3) (headers : IsHeaderCodec lib.headers)
      (json : IsEventCodec lib.events) where
    -- A digest that `model push` announces for a file that is not empty can be pulled: where the
    -- sender's reads and sends do not fail and its replies to a query for the digest arrive in any
    -- order and any number of times, `model pull` with that digest, over a working disk and network
    -- and into a cache without it, leaves the file, byte for byte, and prints its length and path.
    pub pull-push :
        (host : Env K Ip) (host_dir name path format : Text) (host_port : ℕ) (seeds : List Text)
        (seeds_only : Bool) (host_world : World) (content : Bytes) (never : NeverFails host.reads)
        (sends_all : (o : ℕ) → host.sends o ≡ true) (announcement : Sample) (who : PeerId)
        (clock : HybridLogicalClock) (model_name digest tag : Text) (i : ℕ) (sent rs : List Reply)
        (env : Env K Ip) (dir hex_of : Text) (cache_dir : Option Text) (port : ℕ) (w : World)
        (own : K) (session : S) (source : PeerId)
        → content ≢ []
        → host.files path ≡ some content
        → Member announcement
            (model_push lib host host_dir name path format host_port seeds seeds_only
              host_world).0.put
        → decode_sample lib.hex lib.events announcement
          ≡ ok (model_announce who clock model_name digest tag)
        → get_elem? host.queries i ≡ some (selector digest)
        → get_elem?
            (model_push lib host host_dir name path format host_port seeds seeds_only
              host_world).0.replies
            i
          ≡ some sent
        → SameReplies rs sent
        → (identify lib.ed25519 env dir w).0 ≡ ok own
        → new_transport lib.zenoh (listening port) ≡ ok session
        → from_hex lib.hex hex_of ≡ ok source
        → IsFaultless env.pulls rs
        → env.stats ≡ true
        → get digest (w.caches (cache_dir_of dir cache_dir)) ≡ none
        → ((model_pull lib env dir hex_of digest cache_dir port w).0 ≡ record nothing {
          printed = pulled_text content (cache_dir_of dir cache_dir) digest ∷ [];
        })
          × (get digest (
                (model_pull lib env dir hex_of digest cache_dir port w).1.caches
                  (cache_dir_of dir cache_dir))
              ≡ some content)
    pull-push host host_dir name path format host_port seeds seeds_only host_world content never
          sends_all announcement who clock model_name digest tag i sent rs env dir hex_of cache_dir
          port w own session source ne file put announced asked answered same hi ht hs free hm
          absent =
        let (key, hashed, root, pushed) =
          push_lem lib json host host_dir name path format host_port seeds seeds_only host_world
            announcement put in
        let (h, d) =
          announced_digest json laws host name path format hashed (peer_id_of lib.ed25519 key)
            announcement
            (model_push lib host host_dir name path format host_port seeds seeds_only host_world).0
            content who clock model_name digest tag never file root pushed announced in
        let reply =
          get_elem?-map (answers lib host (register hashed path [])) i (selector digest)
            host.queries asked in
        let got =
          pulled laws headers host path digest content rs env source
            (w.caches (cache_dir_of dir cache_dir)) never sends_all ne file d
            (subst (SameReplies rs) (cc (answered, pushed.answered, reply, h)) same) free absent in
        pull_lem env dir hex_of digest cache_dir port w own session source content hi ht hs hm got.0
          got.1
