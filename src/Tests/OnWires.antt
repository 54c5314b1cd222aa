-- ===== src/Tests/OnWires.antt =====
-- The theorems on frames, at concrete inputs.
use lane_switchboards.Base.{
  nat_eq, string_eq, pair_eq, ℕ, ◌+◌, ◌≤◌, String, ◌≡◌, refl, true, false, none, some, List, [],
  ◌∷◌, ◌++◌, arith, if◌then◌else◌, ◌==◌, length, get_elem?, All, lookup,
}
use lane_switchboards.Config.{DistributedConfig, default_distributed_config}
use lane_switchboards.Frames.{
  after_body, after_length, and_spawn, decode, done, ended, eof, frame_length, handle_conn,
  le_bytes, le_value, read_body, read_u32_le_timeout, take_exact, write_frame, silent,
}
use lane_switchboards.Frames.Node.{Channel, run_tasks}
use lane_switchboards.Frames.Faithful.{IsFaithful}
use lane_switchboards.Frames.Server.{
  NodeEvent, accept_fails, accepts, bind, in_flight, permitted, reads, registers, run, runs,
}
use mathlib.Core.List.{Permᴰ}
use lane_switchboards.Frames.Stream.{handle_conn-write_frame}
use lane_switchboards.Frames.Writer.{accepted, drain, put, remote_write_loop, whole}
use lane_switchboards.Frames.Delivery.{remote_write_loop-delivers, taken_by, IsReceived}
use lane_switchboards.Frames.Dispatch.{messages_for, run_tasks-any_order}
use lane_switchboards.HashRing.Address.{host_from_addr, rsplit_colon}
use lane_switchboards.Tls.{
  Rustls, ServerConfig, and_then, client_verifier, connect, for_clients, for_host, handshake,
  key_of, load_ca_store, load_certs, load_private_key, or_error, over_tcp, server_config_from_pem,
  tls_client, with_single_cert, pkcs1, load_rsa_key, add_each,
}
use lane_switchboards.Tls.Laws.{connect-IsSecured, IsSecured}
use lane_switchboards.Frames.Permits.{run-IsWithin}
use lane_switchboards.Frames.Reach.{remote_write_loop-reaches, after_refusals}
use lane_switchboards.Tls.Configs.{server_config-IsDemanded, IsDemanded}
use lane_switchboards.Tests.Wires.{
  wire, encode, parse, one_byte, one_byte-IsCodec, two_frames, wire-IsWritten,
}
use lane_switchboards.Tests.Meshes.{node_b, first_channel, two_channels, bad_network}

abbrev small_tls : Rustls
small_tls = record {
  Cert = ℕ;
  Key = ℕ;
  Roots = List ℕ;
  Name = String;
  open_file = λ path. if path == "ca.pem" then done (7 ∷ []) else done (3 ∷ []);
  certs = λ bytes. some bytes;
  pkcs8_private_key = λ bytes. some none;
  rsa_private_key = λ bytes. some (some 3);
  empty_roots = [];
  add_root = λ cert roots. some (cert ∷ roots);
  webpki_roots = [];
  has_verifier = λ roots. true;
  accepts_pair = λ chain key. true;
  server_name = λ host. some host;
  tcp_connect = λ addr. done tt;
  client_handshake = λ name. done tt;
  server_handshake = done tt;
}

abbrev narrow : DistributedConfig
narrow = record default_distributed_config { max_in_flight = 1 }

abbrev crossing : List NodeEvent
crossing =
    accepts true wire eof
    ∷ accepts true wire silent
    ∷ accepts false wire eof
    ∷ reads 0
    ∷ reads 1
    ∷ permitted 1
    ∷ permitted 0
    ∷ reads 1
    ∷ registers "w" 0
    ∷ runs 0 true
    ∷ permitted 0
    ∷ accept_fails
    ∷ runs 0 false
    ∷ reads 0
    ∷ []

abbrev small_config : ServerConfig small_tls
small_config = record { client_roots = some (7 ∷ []); cert_chain = 3 ∷ []; key = pkcs1 3 }

run-IsWithin_example :
    let s = run one_byte narrow crossing (bind narrow node_b two_channels) in
    (s.permits + length s.tasks ≡ in_flight narrow)
    × (length s.tasks ≤ in_flight narrow)
    × (1 ≤ in_flight narrow)
    × All (IsFaithful one_byte narrow) s.conns
run-IsWithin_example = run-IsWithin one_byte narrow crossing node_b two_channels

handle_conn-write_frame_example :
    handle_conn one_byte 11 default_distributed_config wire eof ≡ (two_frames, some ended)
handle_conn-write_frame_example =
    handle_conn-write_frame one_byte two_frames 11 default_distributed_config wire one_byte-IsCodec
      (omega arith) wire-IsWritten (omega arith)

remote_write_loop-delivers_example :
    (let (connections, left) =
        remote_write_loop one_byte "w" default_distributed_config.max_frame_bytes bad_network
          (5 ∷ 6 ∷ 7 ∷ []) in
      (taken_by connections ++ left ≡ (5 ∷ 6 ∷ 7 ∷ []))
      × All (IsReceived one_byte "w" default_distributed_config) connections)
remote_write_loop-delivers_example =
    remote_write_loop-delivers one_byte "w" default_distributed_config bad_network (5 ∷ 6 ∷ 7 ∷ [])
      one_byte-IsCodec (omega arith)

run_tasks-any_order_example :
    (c' : Channel ℕ) × (later : List ℕ) × (get_elem?
        (run_tasks node_b (("x", 6) ∷ ("w", 5) ∷ []) two_channels)
        0
      ≡ some c')
    × (c'.closed ≡ false)
    × (c'.queue ≡ first_channel.queue ++ later)
    × Permᴰ (messages_for node_b 0 (("w", 5) ∷ ("x", 6) ∷ [])) later
run_tasks-any_order_example =
    run_tasks-any_order node_b 0 (("w", 5) ∷ ("x", 6) ∷ []) (("x", 6) ∷ ("w", 5) ∷ []) two_channels
      first_channel (Permᴰ.swap refl refl) refl refl

remote_write_loop-reaches_example :
    (remote_write_loop one_byte "w" default_distributed_config.max_frame_bytes
        (after_refusals 2 (accepted (whole ∷ whole ∷ []) ∷ []))
        (5 ∷ 6 ∷ [])
      ≡ (
        drain one_byte "w" default_distributed_config.max_frame_bytes
              (whole ∷ whole ∷ [])
              (5 ∷ 6 ∷ [])
            ∷ [],
        [],
      ))
    × (later : List ℕ) × (c' : Channel ℕ) × (get_elem?
          (run_tasks node_b (("w", 6) ∷ ("w", 5) ∷ []) two_channels)
          0
        ≡ some c')
    × (c'.queue ≡ first_channel.queue ++ later)
    × Permᴰ (5 ∷ 6 ∷ []) later
unfolding drain put write_frame le_bytes encode handle_conn read_u32_le_timeout take_exact le_value
    frame_length after_length read_body after_body decode parse and_spawn lookup
remote_write_loop-reaches_example =
    remote_write_loop-reaches one_byte "w" default_distributed_config 2 (whole ∷ whole ∷ []) []
      (5 ∷ 6 ∷ []) 11 node_b 0 (("w", 6) ∷ ("w", 5) ∷ []) two_channels first_channel
      one_byte-IsCodec (omega arith) (refl, (refl, tt)) (omega arith)
      ((1 ∷ 0 ∷ 0 ∷ 0 ∷ 5 ∷ [], refl), ((1 ∷ 0 ∷ 0 ∷ 0 ∷ 6 ∷ [], refl), tt)) (omega arith)
      (Permᴰ.swap refl refl) refl refl refl

connect-IsSecured_example :
    (small_tls.tcp_connect "mesh.example:443" ≡ done tt)
    × IsSecured small_tls "mesh.example:443" true (tls_client "mesh.example")
unfolding connect over_tcp and_then or_error for_host handshake host_from_addr rsplit_colon
connect-IsSecured_example =
    connect-IsSecured small_tls "mesh.example:443" true (tls_client "mesh.example") refl

server_config-IsDemanded_example :
    IsDemanded small_tls (some "ca.pem") small_config.client_roots
    × (load_certs small_tls "cert.pem" ≡ done small_config.cert_chain)
    × (load_private_key small_tls "key.pem" ≡ done small_config.key)
    × (small_tls.accepts_pair small_config.cert_chain (key_of small_tls small_config.key) ≡ true)
unfolding server_config_from_pem for_clients client_verifier with_single_cert load_certs
    load_private_key load_rsa_key load_ca_store add_each and_then or_error
server_config-IsDemanded_example =
    server_config-IsDemanded small_tls "cert.pem" "key.pem" (some "ca.pem") small_config refl
