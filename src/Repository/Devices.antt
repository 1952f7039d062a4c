-- ===== src/Repository/Devices.antt =====
-- The device and attestation methods of internal/repository/repository.go.
use offline_pay.Prelude.{
  String, Bool, true, false, not, Option, none, some, List, ◌∷◌, ite, str_dec, if◌then◌else◌,
}
use offline_pay.Domain.{Device, DeviceStatus, DeviceAttestation, Time}
use offline_pay.Database.{
  Error, ok, require, device_key, attestation_key, find, exists, update, where_rows, ⊤, Db, direct,
  exec, query, query_row,
}

-- `INSERT INTO devices`; `device_id` is the primary key.
unfoldable pub create_device : Device → Db ⊤
create_device dev = exec direct λ now s.
    require (not (exists device_key dev.device_id s.devices)) Error.duplicate_key
      (ok (record s { devices = dev ∷ s.devices }))

unfoldable pub get_device : String → Db Device
get_device device_id = query_row direct (λ s. find device_key device_id s.devices)

abbrev is_withdrawn : DeviceStatus → Bool
is_withdrawn DeviceStatus.active = false
is_withdrawn DeviceStatus.revoked = true
is_withdrawn DeviceStatus.compromised = true
is_withdrawn (DeviceStatus.other _) = false

abbrev set_device_status : DeviceStatus → Time → Device → Device
set_device_status status now d = record d {
  status = status;
  revoked_at = if is_withdrawn status then some now else none;
}

unfoldable pub update_device_status : String → DeviceStatus → Db ⊤
update_device_status device_id status = exec direct λ now s.
    ok (record s { devices = update device_key device_id (set_device_status status now) s.devices })

abbrev pub owned_by : String → Device → Bool
owned_by owner_id d = ite (str_dec d.owner_id owner_id) true false

unfoldable pub get_devices_by_owner : String → Db (List Device)
get_devices_by_owner owner_id = query direct (λ s. where_rows (owned_by owner_id) s.devices)

-- A device with no attestation is no error.
unfoldable pub get_device_attestation : String → Db (Option DeviceAttestation)
get_device_attestation device_id = query direct (λ s. find attestation_key device_id s.attestations)
