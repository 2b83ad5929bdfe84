-- ===== src/Tenant/Counts.antt =====
-- The counters of a tenant after any history of the service.
use ara_notification_service.Common.{
  ℕ, ◌+◌, ◌-◌, ◌%◌, ◌^◌, ◌≤◌, ◌≡◌, refl, arith, ◌⊎◌, inl, true, if◌then◌else◌, is_some, List, [],
  ◌∷◌, Str, str_key, ◌==◌, get, get-insert,
}
use ara_notification_service.Tenant.Manager.{
  TenantConfig, TenantStats, TenantManager, new, get_stats, stats_or_default, connected,
  disconnected, sent, delivered, record_connection, record_disconnection, record_message_sent,
  record_message_delivered,
}

pub data Event : Type 0 where
  connects : Str → Event
  disconnects : Str → Event
  sends : Str → Event
  delivers : Str → ℕ → Event

unfoldable pub step : TenantManager → Event → TenantManager
unfolding record_connection record_disconnection record_message_sent record_message_delivered
step m (connects t) = record_connection m t
step m (disconnects t) = record_disconnection m t
step m (sends t) = record_message_sent m t
step m (delivers t n) = record_message_delivered m t n

abbrev pub run : TenantManager → List Event → TenantManager
run m [] = m
run m (e ∷ es) = run (step m e) es

-- What the events do to the counts of one tenant: open connections, and connections, messages sent
-- and messages delivered so far. A connection that was never opened is not closed.
pub record Tally : Type 0 where
  pub opened : ℕ
  pub closed : ℕ
  pub messages : ℕ
  pub deliveries : ℕ

abbrev pub tally : Str → Tally → Event → Tally
tally u n (connects t) = if u == t then record n { opened = n.opened + 1 } else n
tally u n (disconnects t) = if u == t then record n { closed = n.closed + 1 } else n
tally u n (sends t) = if u == t then record n { messages = n.messages + 1 } else n
tally u n (delivers t k) = if u == t then record n { deliveries = n.deliveries + k } else n

abbrev pub tally_all : Str → Tally → List Event → Tally
tally_all u n [] = n
tally_all u n (e ∷ es) = tally_all u (tally u n e) es

-- Never more closed than opened.
abbrev pub Balanced : Str → Tally → List Event → Type 0
Balanced u n [] = n.closed ≤ n.opened
Balanced u n (e ∷ es) = (n.closed ≤ n.opened) × Balanced u (tally u n e) es

abbrev pub Counts : TenantStats → Tally → Type 0
Counts s n =
    (s.active_connections ≡ (n.opened - n.closed) % 2 ^ 64)
    × (s.total_connections ≡ n.opened % 2 ^ 64)
    × (s.messages_sent ≡ n.messages % 2 ^ 64)
    × (s.messages_delivered ≡ n.deliveries % 2 ^ 64)

-- A tenant that has opened a connection has counters.
abbrev Known : Str → TenantManager → Tally → Type 0
Known u m n = (n.opened ≡ 0) ⊎ (is_some (get u m.stats) ≡ true)

step-Counts :
    (u : Str) (m : TenantManager) (n : Tally) (e : Event)
    → n.closed ≤ n.opened
    → (tally u n e).closed ≤ (tally u n e).opened
    → Known u m n
    → Counts (get_stats m u) n
    → Counts (get_stats (step m e) u) (tally u n e)
unfolding step get_stats record_connection record_disconnection record_message_sent
    record_message_delivered
step-Counts u m n (connects t) b b' k h =
    ground (arith, get-insert u t (connected (stats_or_default (get t m.stats))) m.stats, h)
step-Counts u m n (disconnects t) b b' k h =
    ground (arith, get-insert u t (disconnected (stats_or_default (get t m.stats))) m.stats, h)
step-Counts u m n (sends t) b b' k h =
    ground (arith, get-insert u t (sent (stats_or_default (get t m.stats))) m.stats, h)
step-Counts u m n (delivers t d) b b' k h =
    ground (arith, get-insert u t (delivered d (stats_or_default (get t m.stats))) m.stats, h)

step-Known :
    (u : Str) (m : TenantManager) (n : Tally) (e : Event)
    → Known u m n
    → Known u (step m e) (tally u n e)
unfolding step record_connection record_disconnection record_message_sent record_message_delivered
step-Known u m n (connects t) k =
    ground (arith, get-insert u t (connected (stats_or_default (get t m.stats))) m.stats, k)
step-Known u m n (disconnects t) k =
    ground (arith, get-insert u t (disconnected (stats_or_default (get t m.stats))) m.stats, k)
step-Known u m n (sends t) k =
    ground (arith, get-insert u t (sent (stats_or_default (get t m.stats))) m.stats, k)
step-Known u m n (delivers t d) k =
    ground (arith, get-insert u t (delivered d (stats_or_default (get t m.stats))) m.stats, k)

abbrev pub no_tally : Tally
no_tally = record { opened = 0; closed = 0; messages = 0; deliveries = 0 }

first-Balanced : (u : Str) (n : Tally) (es : List Event) → Balanced u n es → n.closed ≤ n.opened
first-Balanced u n [] b = b
first-Balanced u n (e ∷ es) b = b.0

-- After any history in which a tenant never has more disconnections than connections, its statistics
-- show the connections still open, and the connections, messages and deliveries so far, each counted
-- for this tenant alone (as 64-bit counters, which wrap).
pub get_stats-Counts :
    (u : Str) (config : TenantConfig) (es : List Event)
    → Balanced u no_tally es
    → Counts (get_stats (run (new config) es) u) (tally_all u no_tally es)
unfolding new get_stats get
get_stats-Counts u config es b = go (new config) no_tally es b (inl refl) (refl, refl, refl, refl)
  where
    go :
        (m : TenantManager) (n : Tally) (es : List Event)
        → Balanced u n es
        → Known u m n
        → Counts (get_stats m u) n
        → Counts (get_stats (run m es) u) (tally_all u n es)
    go m n [] b k h = h
    go m n (e ∷ es) b k h =
        go (step m e) (tally u n e) es b.1 (step-Known u m n e k)
          (step-Counts u m n e b.0 (first-Balanced u (tally u n e) es b.1) k h)
