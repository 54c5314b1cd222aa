-- ===== src/Mesh/Request.antt =====
-- What a request of the client in src/mesh.rs leaves of its connection.
use lane_switchboards.Base.{
  nat_eq, string_eq, pair_eq, ℕ, ◌≡◌, refl, ap, ◌⊎◌, inl, inr, none, some, List, [], arith,
  Option-cases, sym, ◌∙◌, ◌++◌,
}
use lane_switchboards.Frames.{ErrorKind, Read, got, ended, failed, Io, done, error}
use lane_switchboards.Mesh.Registry.{MeshControlMsg}
use lane_switchboards.Mesh.Control.{ControlJson, write_control, read_control}
use lane_switchboards.Mesh.Client.{
  Exchange, MeshRegistryClient, invalidate, conn, reply_of, settle, ask, request,
}

Io-cases :
    {A : Type 0} (r : Io A) → ((a : A) × (r ≡ done a)) ⊎ ((kind : ErrorKind) × (r ≡ error kind))
Io-cases (done a) = inl (a, refl)
Io-cases (error kind) = inr (kind, refl)

settle-error :
    (r : MeshRegistryClient × Io MeshControlMsg) (kind : ErrorKind)
    → (settle r).1 ≡ error kind
    → (settle r).0.stream ≡ none
unfolding settle invalidate
settle-error (client, done msg) kind e = cc
settle-error (client, error k) kind e = refl

settle-done :
    (r : MeshRegistryClient × Io MeshControlMsg) (reply : MeshControlMsg)
    → (settle r).1 ≡ done reply
    → (r.1 ≡ done reply) × ((settle r).0 ≡ r.0)
unfolding settle
settle-done (client, done msg) reply e = (e, refl)
settle-done (client, error k) reply e = cc

reply_of-done :
    (client : MeshRegistryClient) (read : Read MeshControlMsg × List ℕ) (reply : MeshControlMsg)
    → (reply_of client read).1 ≡ done reply
    → (rest : List ℕ) × (read ≡ (got reply, rest)) × ((reply_of client read).0.stream ≡ some rest)
unfolding reply_of
reply_of-done client (got msg, rest) reply e =
    let same : msg ≡ reply = cc in (rest, ap (λ m. (got m, rest)) same, refl)
reply_of-done client (ended, rest) reply e = cc
reply_of-done client (failed kind, rest) reply e = cc

conn-done :
    (net : Exchange) (client : MeshRegistryClient) (unread : List ℕ)
    → (conn net client).1 ≡ done unread
    → (client.stream ≡ some unread) ⊎ ((client.stream ≡ none) × (unread ≡ []))
unfolding conn
conn-done net client unread e = elim (Option-cases client.stream) [
  | inr (bytes, q) ↦ inl (ground arith)
  | inl q ↦ elim (Io-cases net.connect) [
    | inl (u, c) ↦ inr (ground arith)
    | inr (kind, c) ↦ absurd (ground arith)
  ]
]

module _ (json : ControlJson) where
  -- The reply was read off the connection after the message was written.
  abbrev pub IsAnswered :
      MeshControlMsg → Exchange → List ℕ → MeshControlMsg → MeshRegistryClient → Type 0
  IsAnswered msg net unread reply client =
      (asked : List ℕ) × (rest : List ℕ) × (write_control json msg ≡ done asked)
      × (net.write ≡ done tt)
      × (read_control json (unread ++ (net.peer asked).0) (net.peer asked).1 ≡ (got reply, rest))
      × (client.stream ≡ some rest)

  ask-done :
      (msg reply : MeshControlMsg) (net : Exchange) (held : MeshRegistryClient × Io (List ℕ))
      → (ask json msg net held).1 ≡ done reply
      → (unread : List ℕ) × (held.1 ≡ done unread)
        × IsAnswered msg net unread reply (ask json msg net held).0
  unfolding ask
  ask-done msg reply net (client, error kind) e = cc
  ask-done msg reply net (client, done unread) e = elim (Io-cases (write_control json msg)) [
    | inr (kind, w) ↦ absurd (ground arith)
    | inl (asked, w) ↦ elim (Io-cases net.write) [
      | inr (kind, o) ↦ absurd (ground arith)
      | inl (u, o) ↦
          let read = read_control json (unread ++ (net.peer asked).0) (net.peer asked).1 in
          let here : ask json msg net (client, done unread) ≡ reply_of client read =
            rw (w, o, ask) refl in
          let (rest, e1, e2) = reply_of-done client read reply (ap (λ r. r.1) (sym here) ∙ e) in
          (
            unread,
            refl,
            (
              asked,
              rest,
              w,
              o,
              e1,
              ap (λ (r : MeshRegistryClient × Io MeshControlMsg). r.0.stream) here ∙ e2,
            ),
          )
    ]
  ]

  -- A request either fails, and then the connection is gone, whatever the error: the next request
  -- makes a new one and cannot read a reply that came late; or it gives the message that was read
  -- whole off the connection, a new one or the one that there was, after the request was written,
  -- and keeps the connection with the bytes after the reply.
  pub request-settled :
      (msg : MeshControlMsg) (net : Exchange) (client : MeshRegistryClient)
      → ((kind : ErrorKind) × ((request json msg net client).1 ≡ error kind)
          × ((request json msg net client).0.stream ≡ none))
        ⊎ ((reply : MeshControlMsg) × (unread : List ℕ) × ((request json msg net client).1
              ≡ done reply)
            × ((client.stream ≡ some unread) ⊎ ((client.stream ≡ none) × (unread ≡ [])))
            × IsAnswered msg net unread reply (request json msg net client).0)
  unfolding request
  request-settled msg net client =
      let held = conn net client in
      elim (Io-cases (request json msg net client).1) [
        | inr (kind, e) ↦ inl (kind, e, settle-error (ask json msg net held) kind e)
        | inl (reply, e) ↦
            let (e1, same) = settle-done (ask json msg net held) reply e in
            let (unread, e2, (asked, rest, w, o, e3, e4)) = ask-done msg reply net held e1 in
            inr (
              reply,
              unread,
              e,
              conn-done net client unread e2,
              (asked, rest, w, o, e3, ap (λ c. c.stream) same ∙ e4),
            )
      ]
