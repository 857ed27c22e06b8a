-- ===== src/AuthBroker/Routes.antt =====
-- cmd/authbroker/main.go: the routes of `main`, and the runs of the broker.
use collator.Model.{Result}
use collator.Prelude.{Option}
use collator.Auth.{Crypto}
use collator.AuthBroker.State.{Response, Request, Net}
use collator.AuthBroker.Flow.{Handler}
use collator.AuthBroker.Access.{caddy_only, health}
use collator.AuthBroker.Login.{Credentials, login}
use collator.AuthBroker.Bootstrap.{
  Enrolment, Confirmation, bootstrap_status, bootstrap_start, bootstrap_confirm,
}
use collator.AuthBroker.Sessions.{require_auth, logout}
use collator.AuthBroker.Actions.{
  Submit, RestartOrder, GapOrder, SettingsOrder, restart, acknowledge_reward_gap, update_settings,
}

-- A request by its route, with what `readJSON` makes of its body.
pub data Call : Type 0 where
  ask_health : Result (Unit {0}) → Call
  ask_bootstrap : Call
  start_bootstrap : Option Enrolment → Call
  confirm_bootstrap : Option Confirmation → Call
  sign_in : Option Credentials → Call
  sign_out : Call
  order_restart : Option RestartOrder → Call
  order_gap : Option GapOrder → Call
  change_settings : Option SettingsOrder → Call

-- The handler of each route.
unfoldable pub route : Crypto → Net → Submit → Request → Call → Handler Response
unfolding health bootstrap_status bootstrap_start bootstrap_confirm login require_auth logout
    restart acknowledge_reward_gap update_settings
route c net submit request (ask_health controller) = health request controller
route c net submit request ask_bootstrap = bootstrap_status request
route c net submit request (start_bootstrap body) = bootstrap_start c net request body
route c net submit request (confirm_bootstrap body) = bootstrap_confirm c net request body
route c net submit request (sign_in body) = login c net request body
route c net submit request sign_out = require_auth c request (λ x. logout c request)
route c net submit request (order_restart body) =
    require_auth c request (restart c request submit body)
route c net submit request (order_gap body) =
    require_auth c request (acknowledge_reward_gap c request submit body)
route c net submit request (change_settings body) =
    require_auth c request (update_settings c request body)

unfoldable pub handle : Crypto → Net → Submit → Request → Call → Handler Response
unfolding caddy_only route
handle c net submit request call = caddy_only net request (route c net submit request call)
