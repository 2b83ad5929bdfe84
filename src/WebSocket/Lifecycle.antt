-- ===== src/WebSocket/Lifecycle.antt =====
-- A connection from its opening to its end, while no other task runs.
use ara_notification_service.Common.{
  ℕ, ◌≡◌, ◌⊎◌, refl, sym, ◌∙◌, ap, inl, inr, arith, Bool, false, not, Bool-cases, if◌then◌else◌,
  Option, none, some, List, [], ◌∷◌, is_empty, Str, nat_key, get, get-insert, ◌==◌, Result, ok, err,
  length, ltb, leb, ◌&&◌,
}
use ara_notification_service.Connection.Types.{
  ConnectionHandle, ConnectionManager, ConnectionError, new_handle, total_limit_exceeded,
  user_limit_exceeded,
}
use ara_notification_service.Connection.Manager.{
  register, register_with_limits, add_connection, user_conn_count,
}
use ara_notification_service.Connection.Valid.{IsValid}
use ara_notification_service.Connection.Invariant.{unregister-IsValid}
use ara_notification_service.Connection.Stale.{get-unregister}
use ara_notification_service.Queue.Models.{StoredMessage}
use ara_notification_service.WebSocket.Message.{ServerMessage}
use ara_notification_service.WebSocket.Handler.{
  Outside, AppState, Effect, Message, process_message, registry,
}
use ara_notification_service.WebSocket.Session.{
  Claims, tenant_id, Opening, refused, opened, replay_queue, opening, open_socket, receive,
  close_socket, serve, handle_socket,
}
use ara_notification_service.WebSocket.Opening.{open_socket-registry}
use ara_notification_service.WebSocket.Valid.{open_socket-IsValid, process_message-IsValid}
use ara_notification_service.WebSocket.Keeping.{ParsesUtf8, process_message-Everywhere}

-- Every other connection is stored as it was.
abbrev pub Others : ℕ → AppState → AppState → Type 0
Others id s s' =
    (i : ℕ)
    → (i == id) ≡ false
    → get i s'.connection_manager.connections ≡ get i s.connection_manager.connections

-- Whether the replay of an opening waits for a place in the buffer.
abbrev pub waits : Opening → Bool
waits (refused e) = false
waits (opened h buffer waiting) = not (is_empty waiting)

-- The connection that an opening registered.
abbrev pub registered : Opening → Option ConnectionHandle
registered (refused e) = none
registered (opened h buffer waiting) = some h

module _ (w : Outside) (reads : ParsesUtf8 w) where
  process_message-Others :
      (now : ℕ) (msg : Message) (s : AppState) (h : ConnectionHandle)
      → Others h.id s (process_message w now msg s h).0
  process_message-Others now msg s h =
      process_message-Everywhere w reads
        (λ i o. (i == h.id) ≡ false → o ≡ get i s.connection_manager.connections) s.tenant_manager h
        (record {
          added = λ k name plain old n. absurd (ground arith);
          removed = λ k channel old n. absurd (ground arith);
          seen = λ k at old n. absurd (ground arith);
        })
        now msg s refl (λ i n. refl)

  -- What the frames of a client leave of the registry.
  receive_lem :
      (frames : List (ℕ × Option Message)) (s : AppState) (h : ConnectionHandle)
      → IsValid s.connection_manager
      → let out = (receive w frames s h).0 in IsValid out.connection_manager × Others h.id s out
  unfolding receive
  receive_lem [] s h v = (v, λ i n. refl)
  receive_lem ((now, none) ∷ frames) s h v = (v, λ i n. refl)
  receive_lem ((now, some msg) ∷ frames) s h v =
      let (s', effects, stays) = process_message w now msg s h in
      let v' = process_message-IsValid w now msg s h v in
      let others = process_message-Others now msg s h in
      let (v'', more) = receive_lem frames s' h v' in
      elim (Bool-cases stays) [
        | inl e ↦ rw e (v'', λ i n. more i n ∙ others i n)
        | inr e ↦ rw e (v', others)
      ]

  -- After the frames of a connection that is filed at `id`, if at all.
  serve_lem :
      (frames : List (ℕ × Option Message)) (id : ℕ) (before s : AppState) (effects : List Effect)
      (o : Opening)
      → IsValid s.connection_manager
      → Others id before s
      → get id s.connection_manager.connections ≡ registered o
      → ((h : ConnectionHandle) → registered o ≡ some h → h.id ≡ id)
      → let out = (serve w frames (s, effects, o)).0 in
        IsValid out.connection_manager
        × Others id before out
        × (get id out.connection_manager.connections ≡ (if waits o then registered o else none))
  unfolding serve close_socket
  serve_lem frames id before s effects (refused e) v others at own = (v, others, at)
  serve_lem frames id before s effects (opened h buffer (x ∷ waiting)) v others at own =
      (v, others, at)
  serve_lem frames id before s effects (opened h buffer []) v others at own =
      let s' = (receive w frames s h).0 in
      let (v', more) = receive_lem frames s h v in
      let same = own h refl in
      (
        unregister-IsValid s'.connection_manager h.id v',
        λ i n. ground (arith, get-unregister s'.connection_manager h.id i, more i, others i),
        ground (arith, get-unregister s'.connection_manager h.id id),
      )

registered-replay_queue :
    (w : Outside) (clock : StoredMessage → ℕ) (s : AppState) (h : ConnectionHandle)
    (others : List ServerMessage)
    → registered (replay_queue w clock s h others).1 ≡ some h
unfolding replay_queue
registered-replay_queue w clock s h others = elim (Bool-cases s.queue_backend.config.enabled) [
  | inl e ↦ rw e refl
  | inr e ↦ rw e refl
]

-- The connection that an opening registers, if any, from the result of `register`.
abbrev pub handle_of : Result ConnectionHandle ConnectionError → Option ConnectionHandle
handle_of (ok h) = some h
handle_of (err e) = none

registered-opening :
    (w : Outside) (now : ℕ) (clock : StoredMessage → ℕ) (others : List ServerMessage) (s : AppState)
    (r : Result ConnectionHandle ConnectionError)
    → registered (opening w now clock others s r).2 ≡ handle_of r
unfolding opening
registered-opening w now clock others s (err e) = refl
registered-opening w now clock others s (ok h) = registered-replay_queue w clock s h others

registered-open_socket :
    (w : Outside) (now : ℕ) (clock : StoredMessage → ℕ) (id sender : ℕ) (claims : Claims)
    (s : AppState)
    → registered (open_socket w now clock id sender claims [] s).2
      ≡ handle_of
          (register w.chrono now id s.connection_manager claims.sub
            (tenant_id claims)
            claims.roles
            sender).1
unfolding open_socket
registered-open_socket w now clock id sender claims s =
    let (m, result) =
      register w.chrono now id s.connection_manager claims.sub (tenant_id claims) claims.roles
        sender in
    registered-opening w now clock [] (registry s m) result

-- The two ways in which `register` ends.
register-cases :
    (w : Outside) (now id : ℕ) (m : ConnectionManager) (user t : Str) (roles : List Str)
    (sender : ℕ)
    → let out = register w.chrono now id m user t roles sender in
      let h = new_handle w.chrono now id user t roles sender in
      ((e : ConnectionError) × (out ≡ (m, err e))) ⊎ (out ≡ (add_connection m h, ok h))
unfolding register register_with_limits
register-cases w now id m user t roles sender =
    let total = length m.connections in
    let current = user_conn_count m user in
    elim (Bool-cases (ltb 0 m.limits.max_connections && leb m.limits.max_connections total)) [
      | inl e ↦ inl (total_limit_exceeded total m.limits.max_connections, rw e refl)
      | inr e ↦
          elim (Bool-cases (
            ltb 0 m.limits.max_connections_per_user
            && leb m.limits.max_connections_per_user current)) [
              | inl k ↦ inl (
                user_limit_exceeded user current m.limits.max_connections_per_user,
                rw (e, k) refl,
              )
              | inr k ↦ inr (rw (e, k) refl)
            ]
    ]

-- What `register` leaves at a new identifier, and elsewhere.
register-fresh :
    (w : Outside) (now id : ℕ) (m : ConnectionManager) (user t : Str) (roles : List Str)
    (sender : ℕ)
    → get id m.connections ≡ none
    → let (m', r) = register w.chrono now id m user t roles sender in
      (get id m'.connections ≡ handle_of r)
      × ((h : ConnectionHandle) → handle_of r ≡ some h → h.id ≡ id)
      × ((i : ℕ) → (i == id) ≡ false → get i m'.connections ≡ get i m.connections)
unfolding add_connection new_handle
register-fresh w now id m user t roles sender fresh =
    let h = new_handle w.chrono now id user t roles sender in
    elim (register-cases w now id m user t roles sender) [
      | inl (e, k) ↦ rw k (fresh, λ h p. absurd (ground arith), λ i n. refl)
      | inr k ↦ rw k (
        ground (arith, get-insert id id h m.connections),
        λ j p. ground arith,
        λ i n. ground (arith, get-insert i id h m.connections),
      )
    ]

-- Whatever a client sends, and whether it is refused or served, its connection leaves a valid registry
-- in which every other connection is stored as before. The connection itself is gone, unless its
-- replay waits: then it stays registered. This is of a run of `handle_socket` during which no other
-- task runs, from a valid registry, with a new identifier, where every text parsed is in UTF-8.
pub handle_socket_lem :
    (w : Outside) (now : ℕ) (clock : StoredMessage → ℕ) (id sender : ℕ) (claims : Claims)
    (frames : List (ℕ × Option Message)) (s : AppState)
    → ParsesUtf8 w
    → IsValid s.connection_manager
    → get id s.connection_manager.connections ≡ none
    → let out = (handle_socket w now clock id sender claims frames s).0 in
      let o = (open_socket w now clock id sender claims [] s).2 in
      IsValid out.connection_manager
      × Others id s out
      × (get id out.connection_manager.connections ≡ (if waits o then registered o else none))
unfolding handle_socket
handle_socket_lem w now clock id sender claims frames s reads v fresh =
    let (s', effects, o) = open_socket w now clock id sender claims [] s in
    let (at, own, others) =
      register-fresh w now id s.connection_manager claims.sub (tenant_id claims) claims.roles sender
        fresh in
    let same = (open_socket-registry w now clock id sender claims [] s).0 in
    let r = registered-open_socket w now clock id sender claims s in
    serve_lem w reads frames id s s' effects o
      (open_socket-IsValid w now clock id sender claims [] s fresh v)
      (λ i n. ap (λ m. get i m.connections) same ∙ others i n)
      (ap (λ m. get id m.connections) same ∙ at ∙ sym r) (λ h p. own h (sym r ∙ p))
