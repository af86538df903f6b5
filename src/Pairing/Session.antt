-- ===== src/Pairing/Session.antt =====
-- `PairingSession` of go-bridge/pairing_session.go. The mutex makes each method one step; the time
-- of `time.Now()`, the random identifier and the outcome of `GenerateDeviceToken` are arguments.
-- `QRPayload` and `WebQRPayload`, which the methods never read, and `RelayClaim` are left out.
pub mod Lifecycle
pub mod Claims
use cccode_macbridge.Base.{
  ℕ, ◌+◌, String, Bool, true, false, not, Option, none, some, List, [], ◌∷◌, ltb, if◌then◌else◌,
  str_eq,
}

pub data PairingState : Type 0 where
  created claimed approved completed rejected expired : PairingState

pub data PairingError : Type 0 where
  pairing_expired already_claimed token_failed : PairingError
  invalid_state : PairingState → PairingError

pub record PairingSession : Type 0 where
  pub id : String
  pub manual_code : String
  pub state : PairingState
  pub bridge_id : String
  pub display_name : String
  pub local_url : String
  pub claiming_device_id : String
  pub claiming_device_name : String
  pub claiming_platform : String
  pub created_at : ℕ
  pub expires_at : ℕ
  pub device_token : String
  pub device_token_hash : String
  pub device_id : String

-- `id` and `manual_code` are the random ones.
unfoldable pub new_pairing_session :
    String → String → String → String → String → ℕ → ℕ → PairingSession
new_pairing_session id manual_code bridge_id display_name local_url ttl now = record {
  id = id;
  manual_code = manual_code;
  state = created;
  bridge_id = bridge_id;
  display_name = display_name;
  local_url = local_url;
  claiming_device_id = "";
  claiming_device_name = "";
  claiming_platform = "";
  created_at = now;
  expires_at = now + ttl;
  device_token = "";
  device_token_hash = "";
  device_id = "";
}

unfoldable pub is_expired : PairingSession → ℕ → Bool
is_expired s now = ltb s.expires_at now

-- `Claim` by the state, on a session that has not expired.
unfoldable pub claim_in :
    PairingState → PairingSession → String → String → String → PairingSession × Option PairingError
claim_in created s device_id device_name platform = (
  record s {
    state = claimed;
    claiming_device_id = device_id;
    claiming_device_name = device_name;
    claiming_platform = platform;
  },
  none,
)
claim_in claimed s device_id device_name platform = (s, some already_claimed)
claim_in other s device_id device_name platform = (s, some (invalid_state other))

unfoldable pub claim :
    PairingSession → ℕ → String → String → String → PairingSession × Option PairingError
unfolding claim_in is_expired
claim s now device_id device_name platform =
    if is_expired s now
    then (s, some pairing_expired)
    else claim_in s.state s device_id device_name platform

-- `Approve` by the outcome of `GenerateDeviceToken`: the plain token and its hash.
unfoldable pub approve_with :
    PairingSession → Option (String × String) → String → PairingSession × Option PairingError
approve_with s none random = (s, some token_failed)
approve_with s (some (plain, hash)) random = (
  record s {
    state = approved;
    device_token = plain;
    device_token_hash = hash;
    device_id = if str_eq s.claiming_device_id "" then random else s.claiming_device_id;
  },
  none,
)

unfoldable pub approve_in :
    PairingState
    → PairingSession
    → Option (String × String)
    → String
    → PairingSession × Option PairingError
unfolding approve_with
approve_in claimed s token random = approve_with s token random
approve_in other s token random = (s, some (invalid_state other))

unfoldable pub approve :
    PairingSession → Option (String × String) → String → PairingSession × Option PairingError
unfolding approve_in
approve s token random = approve_in s.state s token random

unfoldable pub reject_in : PairingState → PairingSession → PairingSession × Option PairingError
reject_in claimed s = (record s { state = rejected }, none)
reject_in other s = (s, some (invalid_state other))

unfoldable pub reject : PairingSession → PairingSession × Option PairingError
unfolding reject_in
reject s = reject_in s.state s

unfoldable pub complete_in : PairingState → PairingSession → PairingSession × Option PairingError
complete_in approved s = (record s { state = completed; device_token = "" }, none)
complete_in other s = (s, some (invalid_state other))

unfoldable pub complete : PairingSession → PairingSession × Option PairingError
unfolding complete_in
complete s = complete_in s.state s

-- A call of a method that changes the session.
pub data Call : Type 0 where
  claims : ℕ → String → String → String → Call
  approves : Option (String × String) → String → Call
  rejects completes : Call

unfoldable pub step : PairingSession → Call → PairingSession × Option PairingError
unfolding claim approve reject complete
step s (claims now device_id device_name platform) = claim s now device_id device_name platform
step s (approves token random) = approve s token random
step s rejects = reject s
step s completes = complete s

unfoldable pub run : PairingSession → List Call → PairingSession
unfolding step
run s [] = s
run s (c ∷ cs) = run (step s c).0 cs
