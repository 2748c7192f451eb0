-- ===== src/Nvme/GeneralTexts.antt =====
-- The general cases and those of the zones in `nvmeStatusToString` of src/nvme_utils.cc.
use Prim.Native.String.{String}
use jcu_dparm.Common.{ℕ, List, [], ◌∷◌}
use jcu_dparm.Nvme.Codes

unfoldable pub general_texts : List (ℕ × String)
general_texts =
    (Codes.sc_success, "SUCCESS: The command completed successfully")
    ∷ (Codes.sc_invalid_opcode, "INVALID_OPCODE: The associated command opcode field is not valid")
    ∷ (
      Codes.sc_invalid_field,
      "INVALID_FIELD: A reserved coded value or an unsupported value in a defined field",
    )
    ∷ (Codes.sc_cmdid_conflict, "CMDID_CONFLICT: The command identifier is already in use")
    ∷ (
      Codes.sc_data_xfer_error,
      "DATA_XFER_ERROR: Error while trying to transfer the data or metadata",
    )
    ∷ (Codes.sc_power_loss, "POWER_LOSS: Command aborted due to power loss notification")
    ∷ (
      Codes.sc_internal,
      "INTERNAL: The command was not completed successfully due to an internal error",
    )
    ∷ (Codes.sc_abort_req, "ABORT_REQ: The command was aborted due to a Command Abort request")
    ∷ (
      Codes.sc_abort_queue,
      "ABORT_QUEUE: The command was aborted due to a Delete I/O Submission Queue request",
    )
    ∷ (
      Codes.sc_fused_fail,
      "FUSED_FAIL: The command was aborted due to the other command in a fused operation failing",
    )
    ∷ (
      Codes.sc_fused_missing,
      "FUSED_MISSING: The command was aborted due to a Missing Fused Command",
    )
    ∷ (Codes.sc_invalid_ns, "INVALID_NS: The namespace or the format of that namespace is invalid")
    ∷ (
      Codes.sc_cmd_seq_error,
      "CMD_SEQ_ERROR: The command was aborted due to a protocol violation in a multicommand sequence",
    )
    ∷ (
      Codes.sc_sgl_invalid_last,
      "SGL_INVALID_LAST: The command includes an invalid SGL Last Segment or SGL Segment descriptor.",
    )
    ∷ (
      Codes.sc_sgl_invalid_count,
      "SGL_INVALID_COUNT: There is an SGL Last Segment descriptor or an SGL Segment descriptor in a location other than the last descriptor of a segment based on the length indicated.",
    )
    ∷ (
      Codes.sc_sgl_invalid_data,
      "SGL_INVALID_DATA: This may occur if the length of a Data SGL is too short.",
    )
    ∷ (
      Codes.sc_sgl_invalid_metadata,
      "SGL_INVALID_METADATA: This may occur if the length of a Metadata SGL is too short",
    )
    ∷ (
      Codes.sc_sgl_invalid_type,
      "SGL_INVALID_TYPE: The type of an SGL Descriptor is a type that is not supported by the controller.",
    )
    ∷ (
      Codes.sc_cmb_invalid_use,
      "CMB_INVALID_USE: The attempted use of the Controller Memory Buffer is not supported by the controller.",
    )
    ∷ (
      Codes.sc_prp_invalid_offset,
      "PRP_INVALID_OFFSET: The Offset field for a PRP entry is invalid.",
    )
    ∷ (
      Codes.sc_atomic_write_unit_exceeded,
      "ATOMIC_WRITE_UNIT_EXCEEDED: The length specified exceeds the atomic write unit size.",
    )
    ∷ (
      Codes.sc_operation_denied,
      "OPERATION_DENIED: The command was denied due to lack of access rights.",
    )
    ∷ (
      Codes.sc_sgl_invalid_offset,
      "SGL_INVALID_OFFSET: The offset specified in a descriptor is invalid.",
    )
    ∷ (
      Codes.sc_inconsistent_host_id,
      "INCONSISTENT_HOST_ID: The NVM subsystem detected the simultaneous use of 64-bit and 128-bit Host Identifier values on different controllers.",
    )
    ∷ (Codes.sc_keep_alive_expired, "KEEP_ALIVE_EXPIRED: The Keep Alive Timer expired.")
    ∷ (
      Codes.sc_keep_alive_invalid,
      "KEEP_ALIVE_INVALID: The Keep Alive Timeout value specified is invalid.",
    )
    ∷ (
      Codes.sc_preempt_abort,
      "PREEMPT_ABORT: The command was aborted due to a Reservation Acquire command with the Reservation Acquire Action (RACQA) set to 010b (Preempt and Abort).",
    )
    ∷ (
      Codes.sc_sanitize_failed,
      "SANITIZE_FAILED: The most recent sanitize operation failed and no recovery actions has been successfully completed",
    )
    ∷ (
      Codes.sc_sanitize_in_progress,
      "SANITIZE_IN_PROGRESS: The requested function is prohibited while a sanitize operation is in progress",
    )
    ∷ (Codes.sc_iocs_not_supported, "IOCS_NOT_SUPPORTED: The I/O command set is not supported")
    ∷ (Codes.sc_iocs_not_enabled, "IOCS_NOT_ENABLED: The I/O command set is not enabled")
    ∷ (
      Codes.sc_iocs_combination_rejected,
      "IOCS_COMBINATION_REJECTED: The I/O command set combination is rejected",
    )
    ∷ (Codes.sc_invalid_iocs, "INVALID_IOCS: the I/O command set is invalid")
    ∷ (
      Codes.sc_lba_range,
      "LBA_RANGE: The command references a LBA that exceeds the size of the namespace",
    )
    ∷ (
      Codes.sc_ns_write_protected,
      "NS_WRITE_PROTECTED: The command is prohibited while the namespace is write protected by the host.",
    )
    ∷ (
      Codes.sc_transient_transport,
      "TRANSIENT_TRANSPORT: A transient transport error was detected.",
    )
    ∷ (
      Codes.sc_cap_exceeded,
      "CAP_EXCEEDED: The execution of the command has caused the capacity of the namespace to be exceeded",
    )
    ∷ (
      Codes.sc_ns_not_ready,
      "NS_NOT_READY: The namespace is not ready to be accessed as a result of a condition other than a condition that is reported as an Asymmetric Namespace Access condition",
    )
    ∷ (
      Codes.sc_reservation_conflict,
      "RESERVATION_CONFLICT: The command was aborted due to a conflict with a reservation held on the accessed namespace",
    )
    ∷ (
      Codes.sc_format_in_progress,
      "FORMAT_IN_PROGRESS: A Format NVM command is in progress on the namespace.",
    )
    ∷ (Codes.sc_zone_boundary_error, "ZONE_BOUNDARY_ERROR: Invalid Zone Boundary crossing")
    ∷ (Codes.sc_zone_is_full, "ZONE_IS_FULL: The accessed zone is in ZSF:Full state")
    ∷ (
      Codes.sc_zone_is_read_only, "ZONE_IS_READ_ONLY: The accessed zone is in ZSRO:Read Only state",
    )
    ∷ (Codes.sc_zone_is_offline, "ZONE_IS_OFFLINE: The access zone is in ZSO:Offline state")
    ∷ (
      Codes.sc_zone_invalid_write,
      "ZONE_INVALID_WRITE: The write to zone was not at the write pointer offset",
    )
    ∷ (
      Codes.sc_too_many_active_zones,
      "TOO_MANY_ACTIVE_ZONES: The controller does not allow additional active zones",
    )
    ∷ (
      Codes.sc_too_many_open_zones,
      "TOO_MANY_OPEN_ZONES: The controller does not allow additional open zones",
    )
    ∷ (
      Codes.sc_zone_invalid_state_transition,
      "INVALID_ZONE_STATE_TRANSITION: The zone state change was invalid",
    )
    ∷ []
