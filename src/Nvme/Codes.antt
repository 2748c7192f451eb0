-- ===== src/Nvme/Codes.antt =====
-- The status codes of include/jcu-dparm/nvme_types.h.
use jcu_dparm.Common.{ℕ}

abbrev pub sc_success : ℕ
sc_success = 0x0

abbrev pub sc_invalid_opcode : ℕ
sc_invalid_opcode = 0x1

abbrev pub sc_invalid_field : ℕ
sc_invalid_field = 0x2

abbrev pub sc_cmdid_conflict : ℕ
sc_cmdid_conflict = 0x3

abbrev pub sc_data_xfer_error : ℕ
sc_data_xfer_error = 0x4

abbrev pub sc_power_loss : ℕ
sc_power_loss = 0x5

abbrev pub sc_internal : ℕ
sc_internal = 0x6

abbrev pub sc_abort_req : ℕ
sc_abort_req = 0x7

abbrev pub sc_abort_queue : ℕ
sc_abort_queue = 0x8

abbrev pub sc_fused_fail : ℕ
sc_fused_fail = 0x9

abbrev pub sc_fused_missing : ℕ
sc_fused_missing = 0xa

abbrev pub sc_invalid_ns : ℕ
sc_invalid_ns = 0xb

abbrev pub sc_cmd_seq_error : ℕ
sc_cmd_seq_error = 0xc

abbrev pub sc_sgl_invalid_last : ℕ
sc_sgl_invalid_last = 0xd

abbrev pub sc_sgl_invalid_count : ℕ
sc_sgl_invalid_count = 0xe

abbrev pub sc_sgl_invalid_data : ℕ
sc_sgl_invalid_data = 0xf

abbrev pub sc_sgl_invalid_metadata : ℕ
sc_sgl_invalid_metadata = 0x10

abbrev pub sc_sgl_invalid_type : ℕ
sc_sgl_invalid_type = 0x11

abbrev pub sc_cmb_invalid_use : ℕ
sc_cmb_invalid_use = 0x12

abbrev pub sc_prp_invalid_offset : ℕ
sc_prp_invalid_offset = 0x13

abbrev pub sc_atomic_write_unit_exceeded : ℕ
sc_atomic_write_unit_exceeded = 0x14

abbrev pub sc_operation_denied : ℕ
sc_operation_denied = 0x15

abbrev pub sc_sgl_invalid_offset : ℕ
sc_sgl_invalid_offset = 0x16

abbrev pub sc_inconsistent_host_id : ℕ
sc_inconsistent_host_id = 0x18

abbrev pub sc_keep_alive_expired : ℕ
sc_keep_alive_expired = 0x19

abbrev pub sc_keep_alive_invalid : ℕ
sc_keep_alive_invalid = 0x1A

abbrev pub sc_preempt_abort : ℕ
sc_preempt_abort = 0x1B

abbrev pub sc_sanitize_failed : ℕ
sc_sanitize_failed = 0x1C

abbrev pub sc_sanitize_in_progress : ℕ
sc_sanitize_in_progress = 0x1D

abbrev pub sc_iocs_not_supported : ℕ
sc_iocs_not_supported = 0x129

abbrev pub sc_iocs_not_enabled : ℕ
sc_iocs_not_enabled = 0x12A

abbrev pub sc_iocs_combination_rejected : ℕ
sc_iocs_combination_rejected = 0x12B

abbrev pub sc_invalid_iocs : ℕ
sc_invalid_iocs = 0x12C

abbrev pub sc_lba_range : ℕ
sc_lba_range = 0x80

abbrev pub sc_ns_write_protected : ℕ
sc_ns_write_protected = 0x20

abbrev pub sc_transient_transport : ℕ
sc_transient_transport = 0x22

abbrev pub sc_cap_exceeded : ℕ
sc_cap_exceeded = 0x81

abbrev pub sc_ns_not_ready : ℕ
sc_ns_not_ready = 0x82

abbrev pub sc_reservation_conflict : ℕ
sc_reservation_conflict = 0x83

abbrev pub sc_format_in_progress : ℕ
sc_format_in_progress = 0x84

abbrev pub sc_zone_boundary_error : ℕ
sc_zone_boundary_error = 0x1B8

abbrev pub sc_zone_is_full : ℕ
sc_zone_is_full = 0x1B9

abbrev pub sc_zone_is_read_only : ℕ
sc_zone_is_read_only = 0x1BA

abbrev pub sc_zone_is_offline : ℕ
sc_zone_is_offline = 0x1BB

abbrev pub sc_zone_invalid_write : ℕ
sc_zone_invalid_write = 0x1BC

abbrev pub sc_too_many_active_zones : ℕ
sc_too_many_active_zones = 0x1BD

abbrev pub sc_too_many_open_zones : ℕ
sc_too_many_open_zones = 0x1BE

abbrev pub sc_zone_invalid_state_transition : ℕ
sc_zone_invalid_state_transition = 0x1BF

abbrev pub sc_cq_invalid : ℕ
sc_cq_invalid = 0x100

abbrev pub sc_qid_invalid : ℕ
sc_qid_invalid = 0x101

abbrev pub sc_queue_size : ℕ
sc_queue_size = 0x102

abbrev pub sc_abort_limit : ℕ
sc_abort_limit = 0x103

abbrev pub sc_abort_missing : ℕ
sc_abort_missing = 0x104

abbrev pub sc_async_limit : ℕ
sc_async_limit = 0x105

abbrev pub sc_firmware_slot : ℕ
sc_firmware_slot = 0x106

abbrev pub sc_firmware_image : ℕ
sc_firmware_image = 0x107

abbrev pub sc_invalid_vector : ℕ
sc_invalid_vector = 0x108

abbrev pub sc_invalid_log_page : ℕ
sc_invalid_log_page = 0x109

abbrev pub sc_invalid_format : ℕ
sc_invalid_format = 0x10a

abbrev pub sc_fw_needs_conv_reset : ℕ
sc_fw_needs_conv_reset = 0x10b

abbrev pub sc_invalid_queue : ℕ
sc_invalid_queue = 0x10c

abbrev pub sc_feature_not_saveable : ℕ
sc_feature_not_saveable = 0x10d

abbrev pub sc_feature_not_changeable : ℕ
sc_feature_not_changeable = 0x10e

abbrev pub sc_feature_not_per_ns : ℕ
sc_feature_not_per_ns = 0x10f

abbrev pub sc_fw_needs_subsys_reset : ℕ
sc_fw_needs_subsys_reset = 0x110

abbrev pub sc_fw_needs_reset : ℕ
sc_fw_needs_reset = 0x111

abbrev pub sc_fw_needs_max_time : ℕ
sc_fw_needs_max_time = 0x112

abbrev pub sc_fw_activate_prohibited : ℕ
sc_fw_activate_prohibited = 0x113

abbrev pub sc_overlapping_range : ℕ
sc_overlapping_range = 0x114

abbrev pub sc_ns_insufficient_cap : ℕ
sc_ns_insufficient_cap = 0x115

abbrev pub sc_ns_id_unavailable : ℕ
sc_ns_id_unavailable = 0x116

abbrev pub sc_ns_already_attached : ℕ
sc_ns_already_attached = 0x118

abbrev pub sc_ns_is_private : ℕ
sc_ns_is_private = 0x119

abbrev pub sc_ns_not_attached : ℕ
sc_ns_not_attached = 0x11a

abbrev pub sc_thin_prov_not_supp : ℕ
sc_thin_prov_not_supp = 0x11b

abbrev pub sc_ctrl_list_invalid : ℕ
sc_ctrl_list_invalid = 0x11c

abbrev pub sc_device_self_test_in_progress : ℕ
sc_device_self_test_in_progress = 0x11d

abbrev pub sc_bp_write_prohibited : ℕ
sc_bp_write_prohibited = 0x11e

abbrev pub sc_invalid_ctrl_id : ℕ
sc_invalid_ctrl_id = 0x11f

abbrev pub sc_invalid_secondary_ctrl_state : ℕ
sc_invalid_secondary_ctrl_state = 0x120

abbrev pub sc_invalid_num_ctrl_resource : ℕ
sc_invalid_num_ctrl_resource = 0x121

abbrev pub sc_invalid_resource_id : ℕ
sc_invalid_resource_id = 0x122

abbrev pub sc_ana_invalid_group_id : ℕ
sc_ana_invalid_group_id = 0x124

abbrev pub sc_ana_attach_fail : ℕ
sc_ana_attach_fail = 0x125

abbrev pub sc_bad_attributes : ℕ
sc_bad_attributes = 0x180

abbrev pub sc_cmd_size_limit_exceeded : ℕ
sc_cmd_size_limit_exceeded = 0x183

abbrev pub sc_write_fault : ℕ
sc_write_fault = 0x280

abbrev pub sc_read_error : ℕ
sc_read_error = 0x281

abbrev pub sc_guard_check : ℕ
sc_guard_check = 0x282

abbrev pub sc_apptag_check : ℕ
sc_apptag_check = 0x283

abbrev pub sc_reftag_check : ℕ
sc_reftag_check = 0x284

abbrev pub sc_compare_failed : ℕ
sc_compare_failed = 0x285

abbrev pub sc_access_denied : ℕ
sc_access_denied = 0x286

abbrev pub sc_unwritten_block : ℕ
sc_unwritten_block = 0x287

abbrev pub sc_ana_persistent_loss : ℕ
sc_ana_persistent_loss = 0x301

abbrev pub sc_ana_inaccessible : ℕ
sc_ana_inaccessible = 0x302

abbrev pub sc_ana_transition : ℕ
sc_ana_transition = 0x303

abbrev pub sc_cmd_interrupted : ℕ
sc_cmd_interrupted = 0x21

abbrev pub sc_pmr_san_prohibited : ℕ
sc_pmr_san_prohibited = 0x123
