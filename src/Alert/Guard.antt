-- ===== src/Alert/Guard.antt =====
-- What a request without the token may do: nothing.
use nms.Prelude.{◌≡◌, refl, false, String, Option, str_eq, Bool-cases, inl, inr, ◌⊎◌}
use nms.Alert.Webhook.{
  Services, alert_webhook_authorized, AlertRequest, AlertState, status_code, alert_webhook,
}

-- A request without the webhook's token is answered 401, or 405 for another method: it uses up none
-- of its address's requests, and no alert of it is remembered.
pub stranger_changes_nothing :
    (sv : Services) (stored : Option String) (r : AlertRequest) (s : AlertState)
    → alert_webhook_authorized sv stored r.authorization ≡ false
    → (alert_webhook sv stored r s ≡ (status_code 401, s))
      ⊎ (alert_webhook sv stored r s ≡ (status_code 405, s))
unfolding alert_webhook
stranger_changes_nothing sv stored r s h = elim (Bool-cases (str_eq r.method "POST")) [
  | inl post ↦ inl (rw (post, h) refl)
  | inr other ↦ inr (rw other refl)
]
