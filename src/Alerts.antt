-- ===== src/Alerts.antt =====
-- runner/alerts.ts: channel routing and the fan-out of an alert. The transports (sendEmail and
-- sendWebhook, which call Azure Communication Services and the webhook's host) are the parameter
-- `send`, whose answer is the rejection's message, or nothing when the send succeeded.
pub mod Delivery
use synthwatch.Prelude.{
  ℕ, suc, String, Option, none, some, Bool, true, false, ◌&&◌, ◌||◌, List, [], ◌∷◌, if◌then◌else◌,
  ◌==◌, str_eq, length, filter, any, not,
}
use synthwatch.Types.{Severity, critical, warning}

pub data ChannelType : Type 0 where
  email webhook : ChannelType

-- A row of `channels`: how many recipients its config has, and whether it has a URL.
pub record Channel : Type 0 where
  pub id : ℕ
  pub name : String
  pub type : ChannelType
  pub to : List String
  pub url : Option String
  pub enabled : Bool

-- The transport settings of the process.
pub record Transport : Type 0 where
  pub acs_email_connection_string : Bool
  pub alert_email_from : Bool

pub data Reason : Type 0 where
  disabled no_connection_string no_sender no_recipients no_url : Reason

type_reason : Transport → ChannelType → Channel → Option Reason
type_reason env email c =
    if not env.acs_email_connection_string
    then some no_connection_string
    else if not env.alert_email_from
    then some no_sender
    else if length c.to == 0
    then some no_recipients
    else none
type_reason env webhook c = elim c.url [
  | none ↦ some no_url
  | some u ↦ if str_eq u "" then some no_url else none
]

-- `channelDeliverabilityReason`
unfoldable pub channel_deliverability_reason : Transport → Channel → Option Reason
unfolding type_reason
channel_deliverability_reason env c =
    if not c.enabled then some disabled else type_reason env c.type c

-- `channelDeliverable`
unfoldable pub channel_deliverable : Transport → Channel → Bool
unfolding channel_deliverability_reason
channel_deliverable env c = elim (channel_deliverability_reason env c) [
  | none ↦ true
  | some _ ↦ false
]

-- A row of `alert_routes`: a severity default, or the route of one check.
pub record AlertRoute : Type 0 where
  pub channel_id : ℕ
  pub severity : Option Severity
  pub check_id : Option ℕ

pub record TagRoute : Type 0 where
  pub channel_id : ℕ
  pub tag_key : String
  pub tag_value : String

pub record CheckTag : Type 0 where
  pub check_id : ℕ
  pub key : String
  pub value : String

-- The routing tables.
pub record Routing : Type 0 where
  pub channels : List Channel
  pub alert_routes : List AlertRoute
  pub tag_routes : List TagRoute
  pub check_tags : List CheckTag

abbrev pub same_severity : Severity → Severity → Bool
same_severity critical critical = true
same_severity warning warning = true
same_severity _ _ = false

-- `severity = $2 AND check_id IS NULL`
unfoldable pub severity_default : Severity → AlertRoute → Bool
severity_default sev r = elim r.check_id [
  | none ↦ elim r.severity [ none ↦ false | some s ↦ same_severity s sev ]
  | some _ ↦ false
]

-- `check_id = $1`
unfoldable pub per_check : ℕ → AlertRoute → Bool
per_check check_id r = elim r.check_id [ none ↦ false | some c ↦ c == check_id ]

-- A tag rule that matches a tag of the check.
unfoldable pub tag_rule : ℕ → List CheckTag → TagRoute → Bool
tag_rule check_id tags tr =
    any (λ ct. str_eq ct.key tr.tag_key && str_eq ct.value tr.tag_value && ct.check_id == check_id)
      tags

-- The `ch.id IN (… UNION … UNION …)` of `resolveChannels`.
unfoldable pub is_routed : Routing → ℕ → Severity → Channel → Bool
unfolding severity_default per_check tag_rule
is_routed t check_id sev ch =
    any (λ r. severity_default sev r && r.channel_id == ch.id) t.alert_routes
    || any (λ r. per_check check_id r && r.channel_id == ch.id) t.alert_routes
    || any (λ tr. tag_rule check_id t.check_tags tr && tr.channel_id == ch.id) t.tag_routes

-- `resolveChannels`; `channels` stands in the order of its ids.
unfoldable pub resolve_channels : Routing → ℕ → Severity → List Channel
unfolding is_routed
resolve_channels t check_id sev =
    filter (λ ch. ch.enabled && is_routed t check_id sev ch) t.channels

pub record ChannelDeliveryResult : Type 0 where
  pub channel_id : ℕ
  pub ok : Bool
  pub error : Option String

pub record DispatchResult : Type 0 where
  pub active : ℕ
  pub delivered : ℕ
  pub results : List ChannelDeliveryResult

-- The outcome of each send, in order: `Promise.allSettled`, then the loop over the settled sends.
unfoldable pub settle {ℓ} :
    {P : Type ℓ} → (Channel → P → Option String) → P → List Channel → DispatchResult
settle send p [] = record { active = 0; delivered = 0; results = [] }
settle send p (c ∷ cs) =
    let rest = settle send p cs in
    elim (send c p) [
      | none ↦ record {
        active = suc rest.active;
        delivered = suc rest.delivered;
        results = record { channel_id = c.id; ok = true; error = none } ∷ rest.results;
      }
      | some e ↦ record {
        active = suc rest.active;
        delivered = rest.delivered;
        results = record { channel_id = c.id; ok = false; error = some e } ∷ rest.results;
      }
    ]

-- `dispatchAlerts`
unfoldable pub dispatch_alerts {ℓ} :
    {P : Type ℓ} → Transport → (Channel → P → Option String) → P → List Channel → DispatchResult
unfolding settle
dispatch_alerts env send p channels = settle send p (filter (channel_deliverable env) channels)
