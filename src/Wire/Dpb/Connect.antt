-- ===== src/Wire/Dpb/Connect.antt =====
-- `buildConnectDPB`, `getOSUser` and `getHostname` of internal/wire/handshake.go: the parameter buffer
-- of op_attach. What the operating system and the package strings answer is a parameter.
use go_firebird_driver.Prelude.{
  ℕ, ◌≡◌, ap, Bool, not, ◌&&◌, List, [], ◌∷◌, ◌++◌, Option, none, some, arith, if◌then◌else◌, ◌==◌,
  map, All,
}
use go_firebird_driver.Prelude.Bytes.{Bytes, byte, codes, is_empty}
use go_firebird_driver.Wire.Protocol.{
  isc_dpb_lc_ctype, isc_dpb_sql_dialect, isc_dpb_user_name, isc_dpb_auth_plugin_name,
  isc_dpb_auth_plugin_list, isc_dpb_utf8_filename, isc_dpb_client_version, isc_dpb_remote_protocol,
  isc_dpb_host_name, isc_dpb_os_user, isc_dpb_set_bind, isc_dpb_session_time_zone,
}
use go_firebird_driver.Wire.Dpb.{
  new_dpb_builder, write_string, write_marker, write_byte_tag, bytes, Call, string, marker,
  byte_tag, calls,
}
use mathlib.Core.Option
use go_firebird_driver.Wire.Dpb.Decode.{Clumplet, Fits, meant, decode, decode-calls}

-- The fields of `ProtocolConfig` that the buffer is built from.
pub record ProtocolConfig : Type 0 where
  pub charset : Bytes
  pub user : Bytes
  pub dialect : ℕ
  pub role : Bytes
  pub data_type_bind : Bytes
  pub session_time_zone : Bytes
  pub auth_plugin_list : Bytes

-- What is not under the repository: strings.ToUpper, strings.EqualFold, user.Current and os.Hostname
-- (`none` where they fail).
pub record Host : Type 0 where
  pub to_upper : Bytes → Bytes
  pub equal_fold : Bytes → Bytes → Bool
  pub current_user : Option Bytes
  pub hostname : Option Bytes

-- `getOSUser`
unfoldable pub get_os_user : Host → Bytes
get_os_user h = elim h.current_user [ none ↦ codes "unknown" | some u ↦ u ]

-- `getHostname`
unfoldable pub get_hostname : Host → Bytes
get_hostname h = elim h.hostname [ none ↦ codes "unknown" | some n ↦ n ]

-- `cfg.SessionTimeZone != "" && !strings.EqualFold(cfg.SessionTimeZone, "server")`
unfoldable pub sends_time_zone : Host → Bytes → Bool
sends_time_zone h tz = not (is_empty tz) && not (h.equal_fold tz (codes "server"))

-- The tag that the source writes as the literal 63 before `cfg.Role`.
abbrev role_tag : ℕ
role_tag = 63

-- `buildConnectDPB`
pub build_connect_dpb : Host → ProtocolConfig → Bytes → Bytes
build_connect_dpb h cfg plugin_name =
    let b0 = write_string new_dpb_builder isc_dpb_lc_ctype cfg.charset in
    let b1 = write_byte_tag b0 isc_dpb_sql_dialect (byte cfg.dialect) in
    let b2 = write_string b1 isc_dpb_user_name (h.to_upper cfg.user) in
    let b3 = write_string b2 isc_dpb_auth_plugin_name plugin_name in
    let b4 = write_string b3 isc_dpb_auth_plugin_list cfg.auth_plugin_list in
    let b5 = write_marker b4 isc_dpb_utf8_filename in
    let b6 = write_string b5 isc_dpb_client_version (codes "go-firebird-driver/1.0") in
    let b7 = write_string b6 isc_dpb_remote_protocol (codes "TCP") in
    let b8 = write_string b7 isc_dpb_host_name (get_hostname h) in
    let b9 = write_string b8 isc_dpb_os_user (get_os_user h) in
    let b10 = if not (is_empty cfg.role) then write_string b9 role_tag cfg.role else b9 in
    let b11 =
      if not (is_empty cfg.data_type_bind)
      then write_string b10 isc_dpb_set_bind cfg.data_type_bind
      else b10 in
    let b12 =
      if sends_time_zone h cfg.session_time_zone
      then write_string b11 isc_dpb_session_time_zone cfg.session_time_zone
      else b11 in
    bytes b12

abbrev only_if : Bool → Call → List Call
only_if b c = if b then c ∷ [] else []

-- What the attach request tells the server, in order.
abbrev pub attach_calls : Host → ProtocolConfig → Bytes → List Call
unfolding get_os_user get_hostname sends_time_zone
attach_calls h cfg plugin_name =
    string isc_dpb_lc_ctype cfg.charset
    ∷ byte_tag isc_dpb_sql_dialect (byte cfg.dialect)
    ∷ string isc_dpb_user_name (h.to_upper cfg.user)
    ∷ string isc_dpb_auth_plugin_name plugin_name
    ∷ string isc_dpb_auth_plugin_list cfg.auth_plugin_list
    ∷ marker isc_dpb_utf8_filename
    ∷ string isc_dpb_client_version (codes "go-firebird-driver/1.0")
    ∷ string isc_dpb_remote_protocol (codes "TCP")
    ∷ string isc_dpb_host_name (get_hostname h)
    ∷ string isc_dpb_os_user (get_os_user h)
    ∷ (only_if (not (is_empty cfg.role)) (string role_tag cfg.role)
        ++ (only_if (not (is_empty cfg.data_type_bind)) (string isc_dpb_set_bind cfg.data_type_bind)
            ++ only_if (sends_time_zone h cfg.session_time_zone)
                (string isc_dpb_session_time_zone cfg.session_time_zone)))

build-calls :
    (h : Host) (cfg : ProtocolConfig) (p : Bytes)
    → build_connect_dpb h cfg p ≡ bytes (calls (attach_calls h cfg p) new_dpb_builder)
unfolding build_connect_dpb calls get_os_user get_hostname sends_time_zone
build-calls h cfg p = ground arith

-- The buffer of op_attach reads back as exactly the parameters of `attach_calls`, in order, the
-- optional ones where they are configured, if each value is shorter than 2 ^ 32 bytes.
pub decode-build :
    (h : Host) (cfg : ProtocolConfig) (p : Bytes)
    → All Fits (map meant (attach_calls h cfg p))
    → decode (build_connect_dpb h cfg p) ≡ some (map meant (attach_calls h cfg p))
decode-build h cfg p fit = rw (build-calls h cfg p) (decode-calls (attach_calls h cfg p) fit)

-- The values under one tag.
abbrev pub values_of : ℕ → List Clumplet → List Bytes
values_of t [] = []
values_of t (c ∷ cs) = let later = values_of t cs in if c.tag == t then c.value ∷ later else later

dialect_calls :
    (h : Host) (cfg : ProtocolConfig) (p : Bytes)
    → values_of isc_dpb_sql_dialect (map meant (attach_calls h cfg p))
      ≡ (byte cfg.dialect ∷ []) ∷ (if is_empty cfg.role then [] else cfg.role ∷ [])
unfolding get_os_user get_hostname sends_time_zone
dialect_calls h cfg p = ground arith

-- The role is sent under the tag of the SQL dialect: whenever a role is configured, the server
-- finds two values there, the dialect's byte and the role's name, if each value of the buffer is
-- shorter than 2 ^ 32 bytes.
pub dialect_values :
    (h : Host) (cfg : ProtocolConfig) (p : Bytes)
    → All Fits (map meant (attach_calls h cfg p))
    → Option.map (values_of isc_dpb_sql_dialect) (decode (build_connect_dpb h cfg p))
      ≡ some ((byte cfg.dialect ∷ []) ∷ (if is_empty cfg.role then [] else cfg.role ∷ []))
dialect_values h cfg p fit = rw (decode-build h cfg p fit) (ap some (dialect_calls h cfg p))
