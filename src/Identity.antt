-- ===== src/Identity.antt =====
-- internal/identity/service.go: the registration, lookup and withdrawal of devices.
use offline_pay.Prelude.{String, Bool, true, false, ◌||◌, none, if◌then◌else◌, ite, str_dec}
use offline_pay.Prelude.Int.{pos}
use offline_pay.Domain.{Device, DeviceStatus, Time}
use offline_pay.Database.{Error, ⊤, Db, ◌>>=◌, ◌>>◌, pure, raise_if, clock}
use offline_pay.Repository.{create_device, get_device, update_device_status}

abbrev is_blank : String → Bool
is_blank s = ite (str_dec s "") true false

unfoldable pub is_incomplete : String → String → String → Bool
is_incomplete device_id owner_id public_key =
    is_blank device_id || is_blank owner_id || is_blank public_key

unfoldable pub new_device : String → String → String → Time → Device
new_device device_id owner_id public_key now = record {
  device_id = device_id;
  owner_id = owner_id;
  public_key = public_key;
  trust_score = pos 1000;
  status = DeviceStatus.active;
  created_at = now;
  revoked_at = none;
}

unfoldable pub register_device : String → String → String → Db Device
unfolding is_incomplete
register_device device_id owner_id public_key = do
  raise_if (is_incomplete device_id owner_id public_key)
      (Error.message "missing required registration fields")
  now ← clock
  let dev = new_device device_id owner_id public_key now
  create_device dev
  pure dev

unfoldable pub lookup_device : String → Db Device
lookup_device device_id = get_device device_id

unfoldable pub withdrawn_status : Bool → DeviceStatus
withdrawn_status compromised =
    if compromised then DeviceStatus.compromised else DeviceStatus.revoked

unfoldable pub revoke_device : String → Bool → Db ⊤
revoke_device device_id compromised = update_device_status device_id (withdrawn_status compromised)
