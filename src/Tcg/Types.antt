-- ===== src/Tcg/Types.antt =====
-- The constants of include/jcu-dparm/tcg/tcg_types.h and src/tcg/tcg_constants.cc: buffer sizes,
-- feature codes, the values of the token enums, the status codes with their texts, and the UIDs.
-- An enum value is its number, as the code casts bytes to these enums without a check.
mod Status
pub use Status.{tcg_status_to_string}
use jcu_dparm.Common.{ℕ, List, [], ◌∷◌}

abbrev pub io_buffer_alignment : ℕ
io_buffer_alignment = 1024

abbrev pub max_buffer_length : ℕ
max_buffer_length = 61440

abbrev pub min_buffer_length : ℕ
min_buffer_length = 2048

-- sizeof(opal_com_packet_t), sizeof(opal_packet_t) and sizeof(opal_header_t), all packed.
abbrev pub com_packet_size : ℕ
com_packet_size = 20

abbrev pub packet_size : ℕ
packet_size = 24

abbrev pub header_size : ℕ
header_size = 56

-- The device classes of tcg_device.h.
pub data TcgDeviceType : Type 0 where
  generic_device opal_v1_device opal_v2_device opal_enterprise_device : TcgDeviceType

abbrev pub fc_tper : ℕ
fc_tper = 0x0001

abbrev pub fc_locking : ℕ
fc_locking = 0x0002

abbrev pub fc_geometry_reporting : ℕ
fc_geometry_reporting = 0x0003

abbrev pub fc_enterprise : ℕ
fc_enterprise = 0x0100

abbrev pub fc_data_store : ℕ
fc_data_store = 0x0202

abbrev pub fc_single_user : ℕ
fc_single_user = 0x0201

abbrev pub fc_opal_ssc_v100 : ℕ
fc_opal_ssc_v100 = 0x0200

abbrev pub fc_opal_ssc_v200 : ℕ
fc_opal_ssc_v200 = 0x0203

abbrev pub start_column : ℕ
start_column = 0x03

abbrev pub end_column : ℕ
end_column = 0x04

abbrev pub credential_pin : ℕ
credential_pin = 0x03

abbrev pub tokenid_bytestring : ℕ
tokenid_bytestring = 0xe0

abbrev pub tokenid_sint : ℕ
tokenid_sint = 0xe1

abbrev pub tokenid_uint : ℕ
tokenid_uint = 0xe2

abbrev pub start_list : ℕ
start_list = 0xf0

abbrev pub end_list : ℕ
end_list = 0xf1

abbrev pub start_name : ℕ
start_name = 0xf2

abbrev pub end_name : ℕ
end_name = 0xf3

abbrev pub call : ℕ
call = 0xf8

abbrev pub end_of_data : ℕ
end_of_data = 0xf9

abbrev pub end_of_session : ℕ
end_of_session = 0xfa

abbrev pub empty_atom : ℕ
empty_atom = 0xff

abbrev pub uint_00 : ℕ
uint_00 = 0x00

abbrev pub uint_01 : ℕ
uint_01 = 0x01

abbrev pub uint_03 : ℕ
uint_03 = 0x03

abbrev pub bytestring8 : ℕ
bytestring8 = 0xa8

abbrev pub status_success : ℕ
status_success = 0x00

abbrev pub smuid_uid : List ℕ
smuid_uid = 0x00 ∷ 0x00 ∷ 0x00 ∷ 0x00 ∷ 0x00 ∷ 0x00 ∷ 0x00 ∷ 0xff ∷ []

abbrev pub thissp_uid : List ℕ
thissp_uid = 0x00 ∷ 0x00 ∷ 0x00 ∷ 0x00 ∷ 0x00 ∷ 0x00 ∷ 0x00 ∷ 0x01 ∷ []

abbrev pub adminsp_uid : List ℕ
adminsp_uid = 0x00 ∷ 0x00 ∷ 0x02 ∷ 0x05 ∷ 0x00 ∷ 0x00 ∷ 0x00 ∷ 0x01 ∷ []

abbrev pub lockingsp_uid : List ℕ
lockingsp_uid = 0x00 ∷ 0x00 ∷ 0x02 ∷ 0x05 ∷ 0x00 ∷ 0x00 ∷ 0x00 ∷ 0x02 ∷ []

abbrev pub enterprise_lockingsp_uid : List ℕ
enterprise_lockingsp_uid = 0x00 ∷ 0x00 ∷ 0x02 ∷ 0x05 ∷ 0x00 ∷ 0x01 ∷ 0x00 ∷ 0x01 ∷ []

abbrev pub anybody_uid : List ℕ
anybody_uid = 0x00 ∷ 0x00 ∷ 0x00 ∷ 0x09 ∷ 0x00 ∷ 0x00 ∷ 0x00 ∷ 0x01 ∷ []

abbrev pub sid_uid : List ℕ
sid_uid = 0x00 ∷ 0x00 ∷ 0x00 ∷ 0x09 ∷ 0x00 ∷ 0x00 ∷ 0x00 ∷ 0x06 ∷ []

abbrev pub admin1_uid : List ℕ
admin1_uid = 0x00 ∷ 0x00 ∷ 0x00 ∷ 0x09 ∷ 0x00 ∷ 0x01 ∷ 0x00 ∷ 0x01 ∷ []

abbrev pub user1_uid : List ℕ
user1_uid = 0x00 ∷ 0x00 ∷ 0x00 ∷ 0x09 ∷ 0x00 ∷ 0x03 ∷ 0x00 ∷ 0x01 ∷ []

abbrev pub user2_uid : List ℕ
user2_uid = 0x00 ∷ 0x00 ∷ 0x00 ∷ 0x09 ∷ 0x00 ∷ 0x03 ∷ 0x00 ∷ 0x02 ∷ []

abbrev pub psid_uid : List ℕ
psid_uid = 0x00 ∷ 0x00 ∷ 0x00 ∷ 0x09 ∷ 0x00 ∷ 0x01 ∷ 0xff ∷ 0x01 ∷ []

abbrev pub enterprise_bandmaster0_uid : List ℕ
enterprise_bandmaster0_uid = 0x00 ∷ 0x00 ∷ 0x00 ∷ 0x09 ∷ 0x00 ∷ 0x00 ∷ 0x80 ∷ 0x01 ∷ []

abbrev pub enterprise_erasemaster_uid : List ℕ
enterprise_erasemaster_uid = 0x00 ∷ 0x00 ∷ 0x00 ∷ 0x09 ∷ 0x00 ∷ 0x00 ∷ 0x84 ∷ 0x01 ∷ []

abbrev pub lockingrange_global : List ℕ
lockingrange_global = 0x00 ∷ 0x00 ∷ 0x08 ∷ 0x02 ∷ 0x00 ∷ 0x00 ∷ 0x00 ∷ 0x01 ∷ []

abbrev pub lockingrange_ace_rdlocked : List ℕ
lockingrange_ace_rdlocked = 0x00 ∷ 0x00 ∷ 0x00 ∷ 0x08 ∷ 0x00 ∷ 0x03 ∷ 0xe0 ∷ 0x01 ∷ []

abbrev pub lockingrange_ace_wrlocked : List ℕ
lockingrange_ace_wrlocked = 0x00 ∷ 0x00 ∷ 0x00 ∷ 0x08 ∷ 0x00 ∷ 0x03 ∷ 0xe8 ∷ 0x01 ∷ []

abbrev pub mbrcontrol : List ℕ
mbrcontrol = 0x00 ∷ 0x00 ∷ 0x08 ∷ 0x03 ∷ 0x00 ∷ 0x00 ∷ 0x00 ∷ 0x01 ∷ []

abbrev pub mbr : List ℕ
mbr = 0x00 ∷ 0x00 ∷ 0x08 ∷ 0x04 ∷ 0x00 ∷ 0x00 ∷ 0x00 ∷ 0x00 ∷ []

abbrev pub authority_table : List ℕ
authority_table = 0x00 ∷ 0x00 ∷ 0x00 ∷ 0x09 ∷ 0x00 ∷ 0x00 ∷ 0x00 ∷ 0x00 ∷ []

abbrev pub c_pin_table : List ℕ
c_pin_table = 0x00 ∷ 0x00 ∷ 0x00 ∷ 0x0b ∷ 0x00 ∷ 0x00 ∷ 0x00 ∷ 0x00 ∷ []

abbrev pub locking_info_table : List ℕ
locking_info_table = 0x00 ∷ 0x00 ∷ 0x08 ∷ 0x01 ∷ 0x00 ∷ 0x00 ∷ 0x00 ∷ 0x01 ∷ []

abbrev pub enterprise_locking_info_table : List ℕ
enterprise_locking_info_table = 0x00 ∷ 0x00 ∷ 0x08 ∷ 0x01 ∷ 0x00 ∷ 0x00 ∷ 0x00 ∷ 0x00 ∷ []

abbrev pub c_pin_msid : List ℕ
c_pin_msid = 0x00 ∷ 0x00 ∷ 0x00 ∷ 0x0b ∷ 0x00 ∷ 0x00 ∷ 0x84 ∷ 0x02 ∷ []

abbrev pub c_pin_sid : List ℕ
c_pin_sid = 0x00 ∷ 0x00 ∷ 0x00 ∷ 0x0b ∷ 0x00 ∷ 0x00 ∷ 0x00 ∷ 0x01 ∷ []

abbrev pub c_pin_admin1 : List ℕ
c_pin_admin1 = 0x00 ∷ 0x00 ∷ 0x00 ∷ 0x0b ∷ 0x00 ∷ 0x01 ∷ 0x00 ∷ 0x01 ∷ []

abbrev pub half_uid_authority_obj_ref : List ℕ
half_uid_authority_obj_ref = 0x00 ∷ 0x00 ∷ 0x0c ∷ 0x05 ∷ 0xff ∷ 0xff ∷ 0xff ∷ 0xff ∷ []

abbrev pub half_uid_boolean_ace : List ℕ
half_uid_boolean_ace = 0x00 ∷ 0x00 ∷ 0x04 ∷ 0x0e ∷ 0xff ∷ 0xff ∷ 0xff ∷ 0xff ∷ []

abbrev pub uid_hexff : List ℕ
uid_hexff = 0xff ∷ 0xff ∷ 0xff ∷ 0xff ∷ 0xff ∷ 0xff ∷ 0xff ∷ 0xff ∷ []

abbrev pub method_properties : List ℕ
method_properties = 0x00 ∷ 0x00 ∷ 0x00 ∷ 0x00 ∷ 0x00 ∷ 0x00 ∷ 0xff ∷ 0x01 ∷ []

abbrev pub method_startsession : List ℕ
method_startsession = 0x00 ∷ 0x00 ∷ 0x00 ∷ 0x00 ∷ 0x00 ∷ 0x00 ∷ 0xff ∷ 0x02 ∷ []

abbrev pub method_revert : List ℕ
method_revert = 0x00 ∷ 0x00 ∷ 0x00 ∷ 0x06 ∷ 0x00 ∷ 0x00 ∷ 0x02 ∷ 0x02 ∷ []

abbrev pub method_activate : List ℕ
method_activate = 0x00 ∷ 0x00 ∷ 0x00 ∷ 0x06 ∷ 0x00 ∷ 0x00 ∷ 0x02 ∷ 0x03 ∷ []

abbrev pub method_eget : List ℕ
method_eget = 0x00 ∷ 0x00 ∷ 0x00 ∷ 0x06 ∷ 0x00 ∷ 0x00 ∷ 0x00 ∷ 0x06 ∷ []

abbrev pub method_eset : List ℕ
method_eset = 0x00 ∷ 0x00 ∷ 0x00 ∷ 0x06 ∷ 0x00 ∷ 0x00 ∷ 0x00 ∷ 0x07 ∷ []

abbrev pub method_next : List ℕ
method_next = 0x00 ∷ 0x00 ∷ 0x00 ∷ 0x06 ∷ 0x00 ∷ 0x00 ∷ 0x00 ∷ 0x08 ∷ []

abbrev pub method_eauthenticate : List ℕ
method_eauthenticate = 0x00 ∷ 0x00 ∷ 0x00 ∷ 0x06 ∷ 0x00 ∷ 0x00 ∷ 0x00 ∷ 0x0c ∷ []

abbrev pub method_getacl : List ℕ
method_getacl = 0x00 ∷ 0x00 ∷ 0x00 ∷ 0x06 ∷ 0x00 ∷ 0x00 ∷ 0x00 ∷ 0x0d ∷ []

abbrev pub method_genkey : List ℕ
method_genkey = 0x00 ∷ 0x00 ∷ 0x00 ∷ 0x06 ∷ 0x00 ∷ 0x00 ∷ 0x00 ∷ 0x10 ∷ []

abbrev pub method_revertsp : List ℕ
method_revertsp = 0x00 ∷ 0x00 ∷ 0x00 ∷ 0x06 ∷ 0x00 ∷ 0x00 ∷ 0x00 ∷ 0x11 ∷ []

abbrev pub method_get : List ℕ
method_get = 0x00 ∷ 0x00 ∷ 0x00 ∷ 0x06 ∷ 0x00 ∷ 0x00 ∷ 0x00 ∷ 0x16 ∷ []

abbrev pub method_set : List ℕ
method_set = 0x00 ∷ 0x00 ∷ 0x00 ∷ 0x06 ∷ 0x00 ∷ 0x00 ∷ 0x00 ∷ 0x17 ∷ []

abbrev pub method_authenticate : List ℕ
method_authenticate = 0x00 ∷ 0x00 ∷ 0x00 ∷ 0x06 ∷ 0x00 ∷ 0x00 ∷ 0x00 ∷ 0x1c ∷ []

abbrev pub method_random : List ℕ
method_random = 0x00 ∷ 0x00 ∷ 0x00 ∷ 0x06 ∷ 0x00 ∷ 0x00 ∷ 0x06 ∷ 0x01 ∷ []

abbrev pub method_erase : List ℕ
method_erase = 0x00 ∷ 0x00 ∷ 0x00 ∷ 0x06 ∷ 0x00 ∷ 0x00 ∷ 0x08 ∷ 0x03 ∷ []
