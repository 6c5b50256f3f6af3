-- ===== src/Cli.antt =====
-- crates/furcate-mesh-cli/src/main.rs: the commands, and what they are run with. The crates that the
-- binary calls are the other modules of this library; what the outside does during a command is a
-- record of arguments. Lines of the log are left out, and so are the arguments' defaults and help.
pub mod Watch
pub mod Peers
pub mod Models
pub mod Run
use furcate_mesh.Prelude.{
  ℕ, Bool, Option, none, some, List, [], ◌∷◌, ◌++◌, map, Result, ok, err, map_err, if◌then◌else◌,
}
use furcate_mesh.Prelude.Text.{Bytes, Text, codes, text_eq}
use furcate_mesh.Prelude.Text.Decimal.{decimal}
use furcate_mesh.Core.Hex.{Hex}
use furcate_mesh.Core.PeerId.{PeerIdError}
use furcate_mesh.Discovery.{Net, ServiceInfo}
use furcate_mesh.Discovery.Run.{Env as DiscoveryEnv}
use furcate_mesh.Identity.{Ed25519, IdentityError, KeyFile, Env as IdentityEnv, load_or_generate}
use furcate_mesh.Transfer.{Blake3, HeaderCodec, TransferError}
use furcate_mesh.Transfer.Disk.{Reads}
use furcate_mesh.Transfer.Serve.{Reply, Sends}
use furcate_mesh.Transfer.Pull.{Cache, Env as PullEnv}
use furcate_mesh.Transport.{TransportConfig, TransportError, EventCodec, Sample, Zenoh}

pub data PeerCmd : Type 0 where
  up : (seeds : List Text) (seeds_only : Bool) (port heartbeat_secs : ℕ) → PeerCmd
  id : PeerCmd

pub data ModelCmd : Type 0 where
  push : (name path format : Text) (port : ℕ) (seeds : List Text) (seeds_only : Bool) → ModelCmd
  pull :
      (peer digest : Text) (cache_dir : Option Text) (port : ℕ) (seeds : List Text)
      (seeds_only : Bool)
      → ModelCmd
  list : (for_secs : ℕ) → ModelCmd

pub data RouteCmd : Type 0 where
  inspect : RouteCmd

pub data Cmd : Type 0 where
  peer : PeerCmd → Cmd
  peers : (for_secs : ℕ) → Cmd
  model : ModelCmd → Cmd
  route : RouteCmd → Cmd

pub record Cli : Type 0 where
  pub config_dir : Option Text
  pub cmd : Cmd

-- The errors that a command ends with, by the step that they come from; `panic` is the overflow of
-- an `Instant`.
pub data Failure : Type 0 where
  bind : Failure
  identity : IdentityError → Failure
  session : TransportError → Failure
  subscription : TransportError → Failure
  panic : Failure
  hashing : TransferError → Failure
  queryable : TransferError → Failure
  publishing : TransportError → Failure
  signal : Failure
  peer_hex : PeerIdError → Failure
  pulling : TransferError → Failure
  metadata : Failure

-- What a command leaves outside the file system: the lines it prints, the samples it puts, the
-- replies to the queries it answers, the services it registers with mDNS.
pub record Output : Type 0 where
  pub printed : List Text
  pub warned : List Text
  pub put : List Sample
  pub replies : List (List Reply)
  pub services : List ServiceInfo
  pub answer : Result Failure (Unit {0})

abbrev pub nothing : Output
nothing = record {
  printed = [];
  warned = [];
  put = [];
  replies = [];
  services = [];
  answer = ok tt;
}

abbrev pub failed : Failure → Output
failed e = record nothing { answer = err e }

-- The key file in each configuration directory, and the files in each cache directory.
pub record World : Type 0 where
  pub keys : Text → Option KeyFile
  pub caches : Text → Cache

abbrev pub set_at {ℓ} : {A : Type ℓ} → Text → A → (Text → A) → Text → A
set_at dir a f = λ d. if text_eq dir d then a else f d

-- The crates from outside the repository, with `{:>4.2}` and 0.0 of f64.
pub record Libraries (K C S Addr Ip H F : Type 0) : Type 0 where
  pub ed25519 : Ed25519 K
  pub zenoh : Zenoh C S
  pub net : Net Addr Ip
  pub hex : Hex
  pub blake3 : Blake3 H
  pub headers : HeaderCodec
  pub events : EventCodec F
  pub two_decimals : F → Text
  pub zero_load : F

-- What the outside does during a command.
pub record Env (K Ip : Type 0) : Type 0 where
  -- the file system at the key file, and the key that is drawn
  pub key_file : IdentityEnv
  pub fresh : K
  -- the port that the system gives
  pub free_port : Option ℕ
  -- whether Zenoh takes the subscription and the queryable, and each put
  pub subscribes : Bool
  pub declares : Bool
  pub puts : ℕ → Bool
  -- the samples under the keys of the subscription, until a wait elapses or the stream ends
  pub samples : List Sample
  -- the `Instant` before the loop and at its head, and the last `Instant` there is
  pub started : ℕ
  pub clock : ℕ → ℕ
  pub last_instant : ℕ
  -- the wall clock in milliseconds, at each reading
  pub wall : ℕ → Option ℕ
  -- mDNS, and the ticks of the heartbeat until Ctrl-C
  pub discovery : DiscoveryEnv Ip
  pub ticks : ℕ
  pub ctrl_c : Bool
  -- the files outside the directories, how they are read, and the queries that arrive
  pub files : Text → Option Bytes
  pub reads : Reads
  pub queries : List Text
  pub sends : Sends
  pub pulls : PullEnv
  pub stats : Bool

-- `format!("tcp/0.0.0.0:{port}")`
unfoldable pub listen_url : ℕ → Text
listen_url port = codes "tcp/0.0.0.0:" ++ decimal port

-- The transport that every command opens.
abbrev pub listening : ℕ → TransportConfig
listening port = record { listen = some (listen_url port); connect = [] }

-- `PeerIdentity::load_or_generate(config_dir)`
unfoldable pub identify :
    {K Ip : Type 0} → Ed25519 K → Env K Ip → Text → World → Result Failure K × World
identify ed env config_dir w =
    let loaded = load_or_generate ed env.key_file env.fresh (w.keys config_dir) in
    (map_err identity loaded.0, record w { keys = set_at config_dir loaded.1 w.keys })
