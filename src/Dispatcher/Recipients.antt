-- ===== src/Dispatcher/Recipients.antt =====
-- `send_to_connections`, and the gathering of connections in `send_to_channels`.
use mathlib.Core.Path.{subst}
use ara_notification_service.Common.{
  ℕ, ◌+◌, ◌≡◌, refl, sym, ◌∙◌, ap, arith, inl, inr, Bool, true, not, ◌||◌, Bool-cases, Option, some,
  List, [], ◌∷◌, ◌++◌, is_empty, count, any, contains, contains-append, contains-one, push-IsUnique,
  IsUnique, get, Str, nat_key, str_key, ◌==◌, ==_iff,
}
use ara_notification_service.Connection.Types.{ConnectionHandle, ConnectionManager}
use ara_notification_service.Connection.Queries.{get_channel_connections}
use ara_notification_service.Connection.Lookup.{
  ids, AllStored, Exact, get_channel_connections-Exact,
}
use ara_notification_service.Connection.Valid.{IsValid, of_channel}
use ara_notification_service.Ack.Memory.{MemoryAckBackend}
use ara_notification_service.Dispatcher.Model.{World, track_sent, send_loop, send_to_connections}
use ara_notification_service.Dispatcher.Handlers.{add_unseen, channels_loop}

-- Concurrent sends end once each, in some order.
abbrev pub IsShuffle : World → Type 0
IsShuffle w =
    (p : ConnectionHandle → Bool) (hs : List ConnectionHandle)
    → count p (w.unordered hs) ≡ count p hs

module _ (w : World) where
  abbrev pub refuses : ConnectionHandle → Bool
  refuses h = not (w.takes h)

  send_loop-counts :
      (id : ℕ) (hs : List ConnectionHandle) (ack : Option MemoryAckBackend) (n k : ℕ)
      → let (ack', delivered, failed) = send_loop w id hs ack n k in
        (delivered ≡ n + count w.takes hs) × (failed ≡ k + count refuses hs)
  unfolding send_loop
  send_loop-counts id [] ack n k = (omega arith, omega arith)
  send_loop-counts id (h ∷ hs) ack n k = ground (
    arith,
    send_loop-counts id hs (track_sent w id h ack) (n + 1) k,
    send_loop-counts id hs ack n (k + 1),
  )

  pub send_to_connections-counts :
      (id : ℕ) (hs : List ConnectionHandle) (ack : Option MemoryAckBackend)
      → IsShuffle w
      → let (ack', delivered, failed) = send_to_connections w id hs ack in
        (delivered ≡ count w.takes hs) × (failed ≡ count refuses hs)
  unfolding send_to_connections
  send_to_connections-counts id hs ack sh = ground (
    arith,
    send_loop-counts id hs ack 0 0,
    send_loop-counts id (w.unordered hs) ack 0 0,
    sh w.takes hs,
    sh refuses hs,
    none_left hs,
  )
    where
      none_left :
          (l : List ConnectionHandle)
          → is_empty l ≡ true
          → (count w.takes l ≡ 0) × (count refuses l ≡ 0)
      none_left [] e = (refl, refl)
      none_left (x ∷ l) e = absurd (ground arith)

ids-append : (xs ys : List ConnectionHandle) → ids (xs ++ ys) ≡ ids xs ++ ids ys
ids-append [] ys = refl
ids-append (x ∷ xs) ys = ap (λ l. x.id ∷ l) (ids-append xs ys)

-- Is a connection subscribed to one of the channels?
abbrev pub of_channels : List Str → Option ConnectionHandle → Bool
of_channels chs o = any (λ ch. of_channel ch o) chs

module _ (m : ConnectionManager) (v : IsValid m) where
  AllStored-append :
      (xs : List ConnectionHandle) (h : ConnectionHandle)
      → AllStored m.connections xs
      → get h.id m.connections ≡ some h
      → AllStored m.connections (xs ++ h ∷ [])
  AllStored-append [] h a e = (e, tt)
  AllStored-append (x ∷ xs) h a e = (a.0, AllStored-append xs h a.1 e)

  -- The connections gathered so far: each once, as they are stored, and noted as seen.
  abbrev Gathered : List ℕ × List ConnectionHandle → Type 0
  Gathered (seen, all) = (seen ≡ ids all) × IsUnique seen × AllStored m.connections all

  add_unseen-Gathered :
      (hs : List ConnectionHandle) (acc : List ℕ × List ConnectionHandle)
      → AllStored m.connections hs
      → Gathered acc
      → Gathered (add_unseen hs acc)
        × ((i : ℕ) → contains i (add_unseen hs acc).0 ≡ (contains i (ids hs) || contains i acc.0))
  unfolding add_unseen contains
  add_unseen-Gathered [] acc a g = (g, λ i. refl)
  add_unseen-Gathered (h ∷ hs) (seen, all) a (e, u, st) = elim (Bool-cases (contains h.id seen)) [
    | inl c ↦
        let (g', k) = add_unseen-Gathered hs (seen, all) a.1 (e, u, st) in
        rw (c, add_unseen) (g', λ i. ground (arith, k i, contains_eq i h.id seen c))
    | inr c ↦
        let next : Gathered (seen ++ h.id ∷ [], all ++ h ∷ []) = (
          ap (λ l. l ++ h.id ∷ []) e ∙ sym (ids-append all (h ∷ [])),
          push-IsUnique h.id seen c u,
          AllStored-append all h st a.0,
        ) in
        let (g', k) = add_unseen-Gathered hs (seen ++ h.id ∷ [], all ++ h ∷ []) a.1 next in
        rw (c, add_unseen)
          (g', λ i. ground (arith, k i, contains-append i seen (h.id ∷ []), contains-one h.id i))
  ]
    where
      contains_eq :
          (i j : ℕ) (l : List ℕ) → contains j l ≡ true → (i == j) ≡ true → contains i l ≡ true
      contains_eq i j l p q = ap (λ x. contains x l) ((==_iff i j).0 q) ∙ p

  channels_loop-Gathered :
      (chs : List Str) (acc : List ℕ × List ConnectionHandle)
      → Gathered acc
      → Gathered (channels_loop m chs acc)
        × ((i : ℕ)
            → contains i (channels_loop m chs acc).0
              ≡ (of_channels chs (get i m.connections) || contains i acc.0))
  unfolding channels_loop
  channels_loop-Gathered [] acc g = (g, λ i. refl)
  channels_loop-Gathered (ch ∷ chs) acc g =
      let exact = get_channel_connections-Exact m v ch in
      let (g', k) = add_unseen-Gathered (get_channel_connections m ch) acc exact.stored g in
      let (g2, k2) =
        channels_loop-Gathered chs (add_unseen (get_channel_connections m ch) acc) g' in
      (g2, λ i. ground (arith, k i, k2 i, exact.complete i))

  -- In a valid registry `send_to_channels` gathers the stored handle of every connection that is
  -- subscribed to at least one of the channels, each once however many channels it shares, and no other.
  pub channels_loop-Exact :
      (chs : List Str) → Exact m (of_channels chs) (channels_loop m chs ([], [])).1
  unfolding contains
  channels_loop-Exact chs =
      let ((e, u, st), k) = channels_loop-Gathered chs ([], []) (refl, tt, tt) in
      record {
        complete = λ i. ground (arith, ap (contains i) e, k i);
        once = subst IsUnique e u;
        stored = st;
      }
