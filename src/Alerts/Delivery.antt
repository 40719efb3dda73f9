-- ===== src/Alerts/Delivery.antt =====
-- The accounting of a dispatch, and what a route adds, for runner/alerts.ts.
use synthwatch.Prelude.{
  ℕ, ◌+◌, String, Option, some, Bool, true, false, ◌&&◌, List, [], ◌∷◌, ◌≡◌, refl, arith, length,
  filter, any, count, length-filter, All, not, ◌==◌, Option-cases, inl, inr,
}
use synthwatch.Types.{Severity}
use synthwatch.Alerts.{
  Channel, Transport, channel_deliverable, AlertRoute, Routing, is_routed, ChannelDeliveryResult,
  settle, dispatch_alerts, severity_default,
}

-- A result that is not a delivery, as the failure report of a dispatch selects it.
abbrev pub is_rejected : ChannelDeliveryResult → Bool
is_rejected r = not r.ok

module _ {ℓ} {P : Type ℓ} (send : Channel → P → Option String) (p : P) where
  settle_counts :
      (cs : List Channel)
      → let r = settle send p cs in
        (r.active ≡ length cs)
        × (length r.results ≡ r.active)
        × (r.delivered + count is_rejected r.results ≡ r.active)
  unfolding settle
  settle_counts [] = (refl, refl, omega arith)
  settle_counts (c ∷ cs) = ground (arith, settle_counts cs)

  settle-All_rejected :
      (cs : List Channel)
      → (settle send p cs).delivered ≡ 0
      → All (λ c. (x : String) × (send c p ≡ some x)) cs
  unfolding settle
  settle-All_rejected [] h = tt
  settle-All_rejected (c ∷ cs) h = elim (Option-cases (send c p)) [
    | inl e ↦ absurd (ground (arith, e))
    | inr (x, e) ↦ ((x, e), settle-All_rejected cs (ground (arith, e)))
  ]

  -- A dispatch tries exactly the deliverable channels, reports one outcome for each, and its
  -- deliveries and its rejections add up to the channels tried.
  pub dispatch_alerts_counts :
      (env : Transport) (channels : List Channel)
      → let r = dispatch_alerts env send p channels in
        (r.active ≡ count (channel_deliverable env) channels)
        × (length r.results ≡ r.active)
        × (r.delivered + count is_rejected r.results ≡ r.active)
  unfolding dispatch_alerts
  dispatch_alerts_counts env channels =
      let (a, b, c) = settle_counts (filter (channel_deliverable env) channels) in
      (omega (arith, length-filter (channel_deliverable env) channels), b, c)

  -- With no delivery every deliverable channel has rejected the alert.
  pub dispatch_alerts_none_delivered :
      (env : Transport) (channels : List Channel)
      → (dispatch_alerts env send p channels).delivered ≡ 0
      → All (λ c. (x : String) × (send c p ≡ some x)) (filter (channel_deliverable env) channels)
  unfolding dispatch_alerts
  dispatch_alerts_none_delivered env channels h =
      settle-All_rejected (filter (channel_deliverable env) channels) h

-- Routing is additive: a further route of any kind keeps every channel that was resolved.
pub is_routed_add_route :
    (t : Routing) (r : AlertRoute) (check_id : ℕ) (sev : Severity) (ch : Channel)
    → is_routed t check_id sev ch ≡ true
    → is_routed (record t { alert_routes = r ∷ t.alert_routes }) check_id sev ch ≡ true
unfolding is_routed
is_routed_add_route t r check_id sev ch h = ground arith

-- The per-check and the tag routes of a check do not depend on the severity: a channel that one
-- severity resolves and another does not is a severity default.
pub is_routed_severity :
    (t : Routing) (check_id : ℕ) (sev sev' : Severity) (ch : Channel)
    → is_routed t check_id sev ch ≡ true
    → is_routed t check_id sev' ch ≡ false
    → any (λ r. severity_default sev r && r.channel_id == ch.id) t.alert_routes ≡ true
unfolding is_routed
is_routed_severity t check_id sev sev' ch h k = ground arith
