-- ===== src/Devices.antt =====
-- go-bridge/trusted_device_store.go: the devices that are paired with the bridge. Each method runs
-- under a mutex and is one step; the time of `time.Now()` is an argument. A record is a value here,
-- so `Clone` of a record is the record itself.
pub mod Replace
pub mod Index
pub mod Revoked
pub mod File
mod Tests
use cccode_macbridge.Base.{
  ℕ, String, Bool, true, false, ◌&&◌, ◌||◌, not, Option, none, some, List, [], ◌∷◌, ◌++◌, map,
  if◌then◌else◌, str_eq, ◌==◌, ◌⊎◌, inl, inr,
}
use Prim.Native.String.{len, slice}
use text.Mathlib.Text.{starts_with}
use cccode_macbridge.Base.Dict.{Dict, get, put, remove}

pub record TrustedDeviceRecord : Type 0 where
  pub device_id : String
  pub display_name : String
  pub platform : String
  pub token_hash : String
  pub identity_public_key : String
  pub relay_enabled : Bool
  pub relay_channel_generation : ℕ
  pub created_at : ℕ
  pub last_seen_at : ℕ
  pub last_remote_address : String
  pub revoked_at : Option ℕ

-- Go's zero value, which a missing key of `byID` gives.
abbrev pub zero_record : TrustedDeviceRecord
zero_record = record {
  device_id = "";
  display_name = "";
  platform = "";
  token_hash = "";
  identity_public_key = "";
  relay_enabled = false;
  relay_channel_generation = 0;
  created_at = 0;
  last_seen_at = 0;
  last_remote_address = "";
  revoked_at = none;
}

-- `by_token` takes a token's hash to a device's identifier.
pub record MemoryDeviceStore : Type 0 where
  pub by_id : Dict TrustedDeviceRecord
  pub by_token : Dict String

abbrev pub new_memory_device_store : MemoryDeviceStore
new_memory_device_store = record { by_id = []; by_token = [] }

pub data DeviceError : Type 0 where
  device_exists device_missing device_revoked identity_bound : String → DeviceError
  write_failed : DeviceError

unfoldable pub store_record : MemoryDeviceStore → TrustedDeviceRecord → MemoryDeviceStore
store_record s r = record {
  by_id = put r.device_id r s.by_id;
  by_token = put r.token_hash r.device_id s.by_token;
}

unfoldable pub add_at :
    MemoryDeviceStore
    → TrustedDeviceRecord
    → Option TrustedDeviceRecord
    → MemoryDeviceStore × Option DeviceError
unfolding store_record
add_at s r (some _) = (s, some (device_exists r.device_id))
add_at s r none = (store_record s r, none)

unfoldable pub add_device :
    MemoryDeviceStore → TrustedDeviceRecord → MemoryDeviceStore × Option DeviceError
unfolding add_at
add_device s r = add_at s r (get r.device_id s.by_id)

unfoldable pub lookup_by_device_id : MemoryDeviceStore → String → Option TrustedDeviceRecord
lookup_by_device_id s id = get id s.by_id

abbrev pub or_zero : Option TrustedDeviceRecord → TrustedDeviceRecord
or_zero none = zero_record
or_zero (some r) = r

unfoldable pub lookup_of : MemoryDeviceStore → Option String → Option TrustedDeviceRecord
lookup_of s none = none
lookup_of s (some id) = some (or_zero (get id s.by_id))

unfoldable pub lookup_by_token_hash : MemoryDeviceStore → String → Option TrustedDeviceRecord
unfolding lookup_of
lookup_by_token_hash s hash = lookup_of s (get hash s.by_token)

abbrev pub is_revoked : TrustedDeviceRecord → Bool
is_revoked r = elim r.revoked_at [ none ↦ false | some _ ↦ true ]

abbrev pub is_bound_elsewhere : TrustedDeviceRecord → String → Bool
is_bound_elsewhere r key =
    not (str_eq r.identity_public_key "") && not (str_eq r.identity_public_key key)

unfoldable pub enable_at :
    MemoryDeviceStore
    → String
    → String
    → ℕ
    → Option TrustedDeviceRecord
    → MemoryDeviceStore × Option DeviceError
enable_at s id key generation none = (s, some (device_missing id))
enable_at s id key generation (some r) =
    if is_revoked r
    then (s, some (device_revoked id))
    else (if is_bound_elsewhere r key then (s, some (identity_bound id)) else (
      record s {
        by_id =
            put id
              (record r {
                identity_public_key = key;
                relay_enabled = true;
                relay_channel_generation = generation;
              })
              s.by_id;
      },
      none,
    ))

unfoldable pub enable_relay :
    MemoryDeviceStore → String → String → ℕ → MemoryDeviceStore × Option DeviceError
unfolding enable_at
enable_relay s id key generation = enable_at s id key generation (get id s.by_id)

unfoldable pub revoke_at :
    MemoryDeviceStore
    → String
    → ℕ
    → Option TrustedDeviceRecord
    → MemoryDeviceStore × Option DeviceError
revoke_at s id now none = (s, some (device_missing id))
revoke_at s id now (some r) =
    (record s { by_id = put id (record r { revoked_at = some now }) s.by_id }, none)

unfoldable pub revoke_device :
    MemoryDeviceStore → String → ℕ → MemoryDeviceStore × Option DeviceError
unfolding revoke_at
revoke_device s id now = revoke_at s id now (get id s.by_id)

-- sameDeviceID || sameLegacyIdentity
abbrev pub is_replaced_by : TrustedDeviceRecord → String → TrustedDeviceRecord → Bool
is_replaced_by r id existing =
    str_eq id r.device_id
    || (str_eq existing.platform r.platform && str_eq existing.display_name r.display_name)

unfoldable pub forget : Bool → String → TrustedDeviceRecord → MemoryDeviceStore → MemoryDeviceStore
forget false id existing s = s
forget true id existing s = record {
  by_id = remove id s.by_id;
  by_token = remove existing.token_hash s.by_token;
}

abbrev pub replaced_id : Bool → TrustedDeviceRecord → String → List String
replaced_id false r id = []
replaced_id true r id = if str_eq id r.device_id then [] else id ∷ []

-- The loop of `ReplaceDevice`, over the entries that `byID` has when it starts.
unfoldable pub forget_all :
    TrustedDeviceRecord
    → Dict TrustedDeviceRecord
    → MemoryDeviceStore
    → List String
    → MemoryDeviceStore × List String
unfolding forget
forget_all r [] s replaced = (s, replaced)
forget_all r ((id, existing) ∷ entries) s replaced =
    forget_all r entries (forget (is_replaced_by r id existing) id existing s)
      (replaced ++ replaced_id (is_replaced_by r id existing) r id)

unfoldable pub replace_device :
    MemoryDeviceStore → TrustedDeviceRecord → MemoryDeviceStore × List String
unfolding forget_all store_record
replace_device s r =
    let (forgotten, replaced) = forget_all r s.by_id s [] in (store_record forgotten r, replaced)

unfoldable pub list_devices : MemoryDeviceStore → List TrustedDeviceRecord
list_devices s = active s.by_id
  where
    active : Dict TrustedDeviceRecord → List TrustedDeviceRecord
    active [] = []
    active ((id, r) ∷ d) = if is_revoked r then active d else r ∷ active d

-- A call of a method that changes the store.
pub data Call : Type 0 where
  adds replaces : TrustedDeviceRecord → Call
  enables : String → String → ℕ → Call
  revokes : String → ℕ → Call

unfoldable pub step : MemoryDeviceStore → Call → MemoryDeviceStore
unfolding add_device replace_device enable_relay revoke_device
step s (adds r) = (add_device s r).0
step s (replaces r) = (replace_device s r).0
step s (enables id key generation) = (enable_relay s id key generation).0
step s (revokes id now) = (revoke_device s id now).0

unfoldable pub run : MemoryDeviceStore → List Call → MemoryDeviceStore
unfolding step
run s [] = s
run s (c ∷ cs) = run (step s c) cs

pub data AuthError : Type 0 where
  missing_token invalid_token revoked : AuthError

-- `ValidateDeviceAuth` from the looked-up record on.
unfoldable pub check_record : String → Option TrustedDeviceRecord → TrustedDeviceRecord ⊎ AuthError
check_record device_id none = inr invalid_token
check_record device_id (some r) =
    if not (str_eq device_id "") && not (str_eq r.device_id device_id)
    then inr invalid_token
    else (if is_revoked r then inr revoked else inl r)

abbrev pub token_prefix : String
token_prefix = "ccb1_"

abbrev pub token_byte_len : ℕ
token_byte_len = 32

-- How many bytes of payload the token must decode to, if it decodes.
unfoldable pub has_token_len : Option ℕ → Bool
has_token_len none = false
has_token_len (some n) = n == token_byte_len

-- Whether `ValidateTokenPrefix` accepts; `decode` gives the number of bytes that
-- base64.RawURLEncoding.DecodeString returns.
unfoldable pub validate_token_prefix : (String → Option ℕ) → String → Bool
unfolding has_token_len
validate_token_prefix decode token =
    starts_with token token_prefix
    && has_token_len (decode (slice token (len token_prefix) (len token)))

-- `digest` is `HashToken`: "sha256:" and the hexadecimal digest by crypto/sha256.
unfoldable pub validate_device_auth :
    (String → String)
    → (String → Option ℕ)
    → MemoryDeviceStore
    → String
    → String
    → TrustedDeviceRecord ⊎ AuthError
unfolding check_record lookup_by_token_hash validate_token_prefix
validate_device_auth digest decode s token device_id =
    if str_eq token ""
    then inr missing_token
    else (if validate_token_prefix decode token
        then check_record device_id (lookup_by_token_hash s (digest token))
        else inr invalid_token)
