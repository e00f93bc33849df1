-- ===== src/Core/Ota.antt =====
-- _do_ota of src/core/src/MBT_core.c: the address from which a new firmware is fetched, in a buffer of 128
-- bytes. What httpclient_get_file returns is not used.
use modbus_things.Base.{◌≤◌, ◌≡◌, sym, ◌∙◌, ◌++◌, length, take, take-front}
use modbus_things.Base.Text.{Text, codes}
use modbus_things.Core.BulkService.{default_server_fqdn}

-- the address up to the version
abbrev pub ota_prefix : Text → Text → Text
ota_prefix token title =
    default_server_fqdn
    ++ (codes "/api/v1/" ++ (token ++ (codes "/firmware?title=" ++ (title ++ codes "&version="))))

-- "%s/%s/%s/%s?title=%s&version=%s"
unfoldable pub ota_uri : Text → Text → Text → Text
ota_uri token title version = take 127 (ota_prefix token title ++ version)

-- Where the address up to the version fills the buffer, the version is not asked for: the same file is
-- fetched for every version.
pub ota_uri_cut :
    (token title version other : Text)
    → 127 ≤ length (ota_prefix token title)
    → ota_uri token title version ≡ ota_uri token title other
unfolding ota_uri
ota_uri_cut token title version other h =
    take-front 127 (ota_prefix token title) version h
    ∙ sym (take-front 127 (ota_prefix token title) other h)
