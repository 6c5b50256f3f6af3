-- ===== src/Cli/Models/Shared.antt =====
-- What `model_push` has done where it announced a model.
use furcate_mesh.Prelude.{
  ℕ, zero, suc, ◌≡◌, inl, inr, refl, ap, ◌∙◌, Bool, some, List, [], ◌∷◌, map, arith, get_elem?,
  Member, ok, Result-cases,
}
use furcate_mesh.Prelude.Text.{Text}
use furcate_mesh.Prelude.Equality.{text_eq_instance}
use furcate_mesh.Core.PeerId.{PeerId}
use furcate_mesh.Core.Clock.{now}
use furcate_mesh.Core.Event.{model_announce}
use furcate_mesh.Identity.{peer_id as peer_id_of}
use furcate_mesh.Transfer.Serve.{root_hash, Reply}
use furcate_mesh.Transfer.Service.{ArtefactIndex, asks, register, answer, serve_loop, serve}
use furcate_mesh.Transport.{IsEventCodec, Sample, decode_sample}
use furcate_mesh.Cli.{listen_url, Output, nothing, World, Libraries, Env, identify}
use furcate_mesh.Cli.Peers.Put.{put_decodes}
use furcate_mesh.Cli.Models.{unread_discovery, open_service, serving, announce, push_as, model_push}

pub get_elem?-map :
    {A B : Type 0} (f : A → B) (i : ℕ) (x : A) (xs : List A)
    → get_elem? xs i ≡ some x
    → get_elem? (map f xs) i ≡ some (f x)
get_elem?-map f i x [] h = absurd (ground (arith, h))
get_elem?-map f zero x (y ∷ ys) h = ground (arith, h)
get_elem?-map f (suc i) x (y ∷ ys) h = get_elem?-map f i x ys h

module _ {K C S Addr Ip H F : Type 0} (lib : Libraries K C S Addr Ip H F) where
  -- the replies to a query, from a table of artefacts
  abbrev pub answers : Env K Ip → ArtefactIndex → Text → List Reply
  answers env = answer lib.blake3 lib.hex lib.headers env.sends env.reads env.files

  serve_asks :
      (env : Env K Ip) (artefacts : ArtefactIndex) (keys : List Text)
      → serve_loop lib.blake3 lib.hex lib.headers env.sends env.reads env.files artefacts
          (map asks keys)
        ≡ map (answers env artefacts) keys
  unfolding serve_loop
  serve_asks env artefacts [] = refl
  serve_asks env artefacts (key ∷ keys) =
      ap (◌∷◌ (answers env artefacts key)) (serve_asks env artefacts keys)

  module _ (json : IsEventCodec lib.events) where
    -- what a push that announced itself has done
    pub record HasPushed (env : Env K Ip) (name path format digest : Text) (own : PeerId)
        (s : Sample) (out : Output) : Type 0 where
      pub answered : out.replies ≡ map (answers env (register digest path [])) env.queries
      pub announces :
          decode_sample lib.hex lib.events s
          ≡ ok (model_announce own (now (env.wall 0)) name digest format)

    -- what a push has before it announces
    abbrev opened : Env K Ip → ℕ → List Text → Bool → PeerId → List (List Reply) → Output
    opened env port seeds seeds_only own replies = record nothing {
      replies = replies;
      services = unread_discovery lib env (record {
        local_peer = some own;
        local_zenoh_url = some (listen_url port);
        port = port;
        seeds = seeds;
        seeds_only = seeds_only;
      });
    }

    announce_lem :
        (env : Env K Ip) (name format digest : Text) (own : PeerId) (out : Output) (s : Sample)
        → out.put ≡ []
        → Member s (announce lib env name format digest own out).put
        → ((announce lib env name format digest own out).replies ≡ out.replies)
          × (decode_sample lib.hex lib.events s
              ≡ ok (model_announce own (now (env.wall 0)) name digest format))
    unfolding announce
    announce_lem env name format digest own out s h m = ground (
      arith,
      h,
      m,
      put_decodes lib json (env.puts 0) (model_announce own (now (env.wall 0)) name digest format)
          s,
    )

    open_service_lem :
        (env : Env K Ip) (path : Text) (port : ℕ) (digest : Text) (replies : List (List Reply))
        → open_service lib env path port digest ≡ ok replies
        → replies ≡ map (answers env (register digest path [])) env.queries
    unfolding open_service serve
    open_service_lem env path port digest replies h =
        ground (arith, h, serve_asks env (register digest path []) env.queries)

    push_as_lem :
        (env : Env K Ip) (name path format : Text) (port : ℕ) (seeds : List Text)
        (seeds_only : Bool) (own : PeerId) (digest : Text) (s : Sample)
        → Member s (push_as lib env name path format port seeds seeds_only own digest).put
        → HasPushed env name path format digest own s
            (push_as lib env name path format port seeds seeds_only own digest)
    unfolding push_as serving
    push_as_lem env name path format port seeds seeds_only own digest s m =
        elim (Result-cases (open_service lib env path port digest)) [
          | inl (e, q) ↦ absurd (rw (push_as, q) at m)
          | inr (replies, q) ↦
              rw (push_as, q)
                (let (answered, announces) =
                    announce_lem env name format digest own
                      (opened env port seeds seeds_only own replies) s refl
                      (rw (push_as, q) at m) in
                  record {
                    answered = answered ∙ open_service_lem env path port digest replies q;
                    announces = announces;
                  })
        ]

    pub push_lem :
        (env : Env K Ip) (dir name path format : Text) (port : ℕ) (seeds : List Text)
        (seeds_only : Bool) (w : World) (s : Sample)
        → Member s (model_push lib env dir name path format port seeds seeds_only w).0.put
        → (own : K) × (digest : Text) × (root_hash lib.blake3 lib.hex env.reads (env.files path)
            ≡ ok digest)
          × HasPushed env name path format digest
              (peer_id_of lib.ed25519 own)
              s
              (model_push lib env dir name path format port seeds seeds_only w).0
    unfolding model_push
    push_lem env dir name path format port seeds seeds_only w s m =
        elim (Result-cases (identify lib.ed25519 env dir w).0) [
          | inl (e, q) ↦ absurd (rw (model_push, q) at m)
          | inr (own, q) ↦
              elim (Result-cases (root_hash lib.blake3 lib.hex env.reads (env.files path))) [
                | inl (e, r) ↦ absurd (rw (model_push, q, r) at m)
                | inr (digest, r) ↦
                    rw (model_push, q)
                      (
                        own,
                        digest,
                        r,
                        rw r (
                            push_as_lem env name path format port seeds seeds_only
                              (peer_id_of lib.ed25519 own) digest s (rw (model_push, q, r) at m)),
                      )
              ]
        ]
