-- ===== src/Tenant/Manager.antt =====
-- `TenantManager` of src/domain/tenant/mod.rs: the limits and the counters of each tenant.
use ara_notification_service.Common.{
  ℕ, Bool, false, ltb, if◌then◌else◌, Option, none, some, List, [], ◌∷◌, HashMap, Str, str_key, get,
  insert, fetch_add, fetch_sub,
}
use ara_notification_service.Connection.Types.{ConnectionLimits, default_limits}
use ara_notification_service.Tenant.Context.{TenantContext, default_tenant}
use ara_notification_service.Tenant.Context

pub record TenantLimitsConfig : Type 0 where
  pub max_connections : ℕ
  pub max_connections_per_user : ℕ
  pub max_subscriptions_per_connection : ℕ

abbrev pub default_tenant_limits : TenantLimitsConfig
default_tenant_limits = record {
  max_connections = 1000;
  max_connections_per_user = 5;
  max_subscriptions_per_connection = 50;
}

pub record TenantConfig : Type 0 where
  pub enabled : Bool
  pub default_limits : TenantLimitsConfig
  pub tenant_overrides : HashMap Str TenantLimitsConfig

abbrev pub default_config : TenantConfig
default_config = record {
  enabled = false;
  default_limits = default_tenant_limits;
  tenant_overrides = [];
}

-- `From<&TenantLimitsConfig> for ConnectionLimits`.
abbrev pub to_limits : TenantLimitsConfig → ConnectionLimits
to_limits g = record {
  max_connections = g.max_connections;
  max_connections_per_user = g.max_connections_per_user;
  max_subscriptions_per_connection = g.max_subscriptions_per_connection;
}

pub record TenantStats : Type 0 where
  pub active_connections : ℕ
  pub total_connections : ℕ
  pub messages_sent : ℕ
  pub messages_delivered : ℕ

-- `TenantStats::new`, and the default of the snapshot, which has the same fields.
abbrev pub no_stats : TenantStats
no_stats = record {
  active_connections = 0;
  total_connections = 0;
  messages_sent = 0;
  messages_delivered = 0;
}

abbrev pub connected : TenantStats → TenantStats
connected s = record s {
  active_connections = fetch_add s.active_connections 1;
  total_connections = fetch_add s.total_connections 1;
}

abbrev pub disconnected : TenantStats → TenantStats
disconnected s = record s { active_connections = fetch_sub s.active_connections 1 }

abbrev pub sent : TenantStats → TenantStats
sent s = record s { messages_sent = fetch_add s.messages_sent 1 }

abbrev pub delivered : ℕ → TenantStats → TenantStats
delivered count s = record s { messages_delivered = fetch_add s.messages_delivered count }

pub record TenantManager : Type 0 where
  pub config : TenantConfig
  pub stats : HashMap Str TenantStats

unfoldable pub new : TenantConfig → TenantManager
new config = record { config = config; stats = [] }

abbrev pub limits_for : Option TenantLimitsConfig → TenantLimitsConfig → ConnectionLimits
limits_for none d = to_limits d
limits_for (some override_config) d = to_limits override_config

unfoldable pub get_limits : TenantManager → Str → ConnectionLimits
get_limits m tenant_id =
    if m.config.enabled
    then limits_for (get tenant_id m.config.tenant_overrides) m.config.default_limits
    else default_limits

unfoldable pub create_context : TenantManager → Str → TenantContext
create_context m tenant_id = if m.config.enabled then Context.new tenant_id else default_tenant

abbrev pub stats_or_default : Option TenantStats → TenantStats
stats_or_default none = no_stats
stats_or_default (some s) = s

unfoldable pub get_stats : TenantManager → Str → TenantStats
get_stats m tenant_id = stats_or_default (get tenant_id m.stats)

-- `entry(tenant_id).or_insert_with(TenantStats::new)`, then a change.
abbrev pub update_stats : (TenantStats → TenantStats) → TenantManager → Str → TenantManager
update_stats f m tenant_id = record m {
  stats = insert tenant_id (f (stats_or_default (get tenant_id m.stats))) m.stats;
}

unfoldable pub record_connection : TenantManager → Str → TenantManager
record_connection = update_stats connected

unfoldable pub record_disconnection : TenantManager → Str → TenantManager
record_disconnection m tenant_id = elim (get tenant_id m.stats) [
  | none ↦ m
  | some s ↦ record m { stats = insert tenant_id (disconnected s) m.stats }
]

unfoldable pub record_message_sent : TenantManager → Str → TenantManager
record_message_sent = update_stats sent

-- `count as u64`, where a `usize` has 64 bits.
unfoldable pub record_message_delivered : TenantManager → Str → ℕ → TenantManager
record_message_delivered m tenant_id count = update_stats (delivered count) m tenant_id

abbrev active_only : HashMap Str TenantStats → HashMap Str TenantStats
active_only [] = []
active_only ((t, s) ∷ m) =
    let rest = active_only m in if ltb 0 s.active_connections then (t, s) ∷ rest else rest

unfoldable pub list_active_tenants : TenantManager → List (Str × TenantStats)
list_active_tenants m = active_only m.stats

abbrev pub all_stats : TenantManager → HashMap Str TenantStats
all_stats m = m.stats
