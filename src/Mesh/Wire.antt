-- ===== src/Mesh/Wire.antt =====
-- A request over the control plane of src/mesh.rs, from the client through the registry and back.
use mathlib.Core.List.{append_assoc, append-nil}
use lane_switchboards.Base.{
  nat_eq, string_eq, pair_eq, ℕ, ◌%◌, ◌^◌, ◌≤◌, ◌<◌, ◌≡◌, ap, ◌∙◌, inl, inr, none, some, List, ◌++◌,
  arith, ltb, Bool-cases, Option-cases, ==_iff, length, refl, sym, ◌⊎◌, [], ◌∷◌, true, Option,
}
use lane_switchboards.Frames.{Tail, silent, Read, got, take_exact, le_bytes, done}
use lane_switchboards.Frames.Stream.{le_value-le_bytes, read_body-append}
use lane_switchboards.Mesh.Registry.{
  MeshRegistry, MeshControlMsg, message, waiting, answer, handle_registry_conn,
}
use lane_switchboards.Mesh.Control.{
  ControlJson, max_control_frame, control_length, read_control_len, write_control, parse_control,
  after_control_len, read_control, parsed, arrival_of, is_writable, written, react, turn_of,
  registry_turn,
}
use lane_switchboards.Mesh.Client.{
  Exchange, MeshRegistryClient, conn, reply_of, settle, ask, request,
}

-- What is assumed of serde_json: no message is empty, and it reads what it wrote.
abbrev pub IsControlCodec : ControlJson → Type 0
IsControlCodec json =
    (msg : MeshControlMsg) (body : List ℕ)
    → json.to_vec msg ≡ some body
    → (0 < length body) × (json.from_slice body ≡ some msg)

read_control_len-le_bytes :
    (n : ℕ) (rest : List ℕ) (tail : Tail)
    → 0 < n
    → n ≤ max_control_frame
    → read_control_len (le_bytes n ++ rest) tail ≡ (got n, rest)
unfolding read_control_len le_bytes take_exact control_length
read_control_len-le_bytes n rest tail p h =
    rw (le_value-le_bytes n (omega (arith, h)), le_bytes)
      (ap (λ (r : Read ℕ). (r, rest)) (ground (arith, ==_iff n 0)))

module _ (json : ControlJson) where
  write_control-done :
      (msg : MeshControlMsg) (bytes : List ℕ)
      → write_control json msg ≡ done bytes
      → (body : List ℕ) × (json.to_vec msg ≡ some body)
        × (length body ≤ max_control_frame)
        × (bytes ≡ le_bytes (length body % 2 ^ 32) ++ body)
  unfolding write_control
  write_control-done msg bytes e = elim (Option-cases (json.to_vec msg)) [
    | inl gone ↦ absurd (ground arith)
    | inr (body, made) ↦ elim (Bool-cases (ltb max_control_frame (length body))) [
      | inl long ↦ absurd (ground arith)
      | inr short ↦ (body, made, ground arith, ground arith)
    ]
  ]

  -- What was written is what is read.
  pub read_control-write_control :
      (msg : MeshControlMsg) (bytes rest : List ℕ) (tail : Tail)
      → IsControlCodec json
      → write_control json msg ≡ done bytes
      → read_control json (bytes ++ rest) tail ≡ (got msg, rest)
  unfolding read_control after_control_len parse_control parsed
  read_control-write_control msg bytes rest tail c w =
      let (body, made, short, e) = write_control-done msg bytes w in
      let (p, read) = c msg body made in
      let len : length body % 2 ^ 32 ≡ length body = omega (arith, short) in
      let whole : bytes ++ rest ≡ le_bytes (length body) ++ (body ++ rest) =
        ap (λ f. f ++ rest) (e ∙ ap (λ n. le_bytes n ++ body) len)
        ∙ append_assoc (le_bytes (length body)) body rest in
      let first = read_control_len-le_bytes (length body) (body ++ rest) tail p short in
      ap (λ b. after_control_len json (read_control_len b tail) tail) whole
      ∙ ap (λ r. after_control_len json r tail) first
      ∙ ap (parse_control json) (read_body-append body rest tail)
      ∙ ap (λ o. (parsed json o, rest)) read

  react-answer :
      (now : ℕ) (msg reply : MeshControlMsg) (reg reg' : MeshRegistry) (out : List ℕ)
      → answer now msg reg ≡ (reg', some reply)
      → write_control json reply ≡ done out
      → react json now (message msg) reg ≡ (reg', reply ∷ [], waiting)
  unfolding react handle_registry_conn is_writable
  react-answer now msg reply reg reg' out e w =
      let free : is_writable json now (message msg) reg ≡ true = rw (e, is_writable) (rw w refl) in
      rw (e, free, react, handle_registry_conn)
        (ap (λ (p : MeshRegistry × Option MeshControlMsg). (p.0, reply ∷ [], waiting)) e)

  -- The registry's turn on one written message writes the reply to it.
  pub registry_turn-answer :
      (now : ℕ) (msg reply : MeshControlMsg) (reg reg' : MeshRegistry) (bytes out : List ℕ)
      → IsControlCodec json
      → answer now msg reg ≡ (reg', some reply)
      → write_control json msg ≡ done bytes
      → write_control json reply ≡ done out
      → registry_turn json now bytes reg ≡ (reg', out, silent)
  unfolding registry_turn turn_of written arrival_of
  registry_turn-answer now msg reply reg reg' bytes out c e w w' =
      let read : read_control json bytes silent ≡ (got msg, []) =
        ap (λ b. read_control json b silent) (sym (append-nil bytes))
        ∙ read_control-write_control msg bytes [] silent c w in
      let out_ : written json (reply ∷ []) ≡ out = rw (w', written) (append-nil out) in
      ap
        (λ (r : Read MeshControlMsg × List ℕ).
          turn_of json (react json now (arrival_of json r.0) reg))
        read
      ∙ ap (turn_of json) (react-answer now msg reply reg reg' out e w')
      ∙ ap (λ b. (reg', b, silent)) out_

-- A registry at the other end of a network that works.
abbrev pub served : ControlJson → ℕ → MeshRegistry → Exchange
served json now reg = record {
  connect = done tt;
  write = done tt;
  peer = λ bytes. let (reg', out, tail) = registry_turn json now bytes reg in (out, tail);
}

-- No reply is left unread on the client's connection, if it has one.
abbrev pub IsIdle : MeshRegistryClient → Type 0
IsIdle client = (client.stream ≡ none) ⊎ (client.stream ≡ some [])

conn-idle :
    (net : Exchange) (client : MeshRegistryClient)
    → net.connect ≡ done tt
    → IsIdle client
    → conn net client ≡ (record client { stream = some [] }, done [])
unfolding conn
conn-idle net client c (inl e) = rw (e, c, conn) refl
conn-idle net client c (inr e) = rw (e, conn) (ap (λ s. (record client { stream = s }, done [])) e)

module _ (json : ControlJson) where
  -- A request to a registry that is there is answered by it, and leaves the connection idle.
  pub request-answer :
      (now : ℕ) (msg reply : MeshControlMsg) (reg reg' : MeshRegistry) (bytes out : List ℕ)
      (client : MeshRegistryClient)
      → IsControlCodec json
      → answer now msg reg ≡ (reg', some reply)
      → write_control json msg ≡ done bytes
      → write_control json reply ≡ done out
      → IsIdle client
      → request json msg (served json now reg) client
        ≡ (record client { stream = some [] }, done reply)
  unfolding request settle ask reply_of
  request-answer now msg reply reg reg' bytes out client c e w w' idle =
      let net = served json now reg in
      let client' : MeshRegistryClient = record client { stream = some [] } in
      let turn = registry_turn-answer json now msg reply reg reg' bytes out c e w w' in
      let read : read_control json out silent ≡ (got reply, []) =
        ap (λ b. read_control json b silent) (sym (append-nil out))
        ∙ read_control-write_control json reply out [] silent c w' in
      ap (λ k. settle (ask json msg net k)) (conn-idle net client refl idle)
      ∙ rw (w, turn, ask) (ap (λ r. settle (reply_of client' r)) read)
