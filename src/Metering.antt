-- ===== src/Metering.antt =====
-- Events for the meter and for outgoing webhooks (`emit` of internal/service/service.go and
-- `fireWebhook` of internal/service/webhooks.go). Both are calls whose errors nobody sees; a
-- webhook is delivered later.
use buktio.Base.{ℕ, String, List, [], ◌∷◌}
use buktio.Runtime.World.{Exec, ◌>>◌, pure, call_out, meter_emit, fire_webhook}
use buktio.Runtime.Facade.{Services, Context, tenant}

unfoldable pub emit : Services → Context → {E : Type 0} → String → String → ℕ → Exec E (Unit {0})
emit s ctx type subject qty = call_out (meter_emit type (tenant s ctx).org_id subject qty)

unfoldable pub fire : {E : Type 0} → String → String → String → Exec E (Unit {0})
fire bucket event key = call_out (fire_webhook bucket event key)

-- One event for each key.
unfoldable pub fire_each : {E : Type 0} → String → String → List String → Exec E (Unit {0})
unfolding fire
fire_each bucket event [] = pure tt
fire_each bucket event (key ∷ keys) = do fire bucket event key; fire_each bucket event keys
