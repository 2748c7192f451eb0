-- ===== src/Nvme/CommandTexts.antt =====
-- The cases of single commands in `nvmeStatusToString` of src/nvme_utils.cc.
use Prim.Native.String.{String}
use jcu_dparm.Common.{ℕ, List, [], ◌∷◌}
use jcu_dparm.Nvme.Codes

unfoldable pub command_texts : List (ℕ × String)
command_texts =
    (
      Codes.sc_cq_invalid,
      "CQ_INVALID: The Completion Queue identifier specified in the command does not exist",
    )
    ∷ (
      Codes.sc_qid_invalid,
      "QID_INVALID: The creation of the I/O Completion Queue failed due to an invalid queue identifier specified as part of the command. An invalid queue identifier is one that is currently in use or one that is outside the range supported by the controller",
    )
    ∷ (
      Codes.sc_queue_size,
      "QUEUE_SIZE: The host attempted to create an I/O Completion Queue with an invalid number of entries",
    )
    ∷ (
      Codes.sc_abort_limit,
      "ABORT_LIMIT: The number of concurrently outstanding Abort commands has exceeded the limit indicated in the Identify Controller data structure",
    )
    ∷ (Codes.sc_abort_missing, "ABORT_MISSING: The abort command is missing")
    ∷ (
      Codes.sc_async_limit,
      "ASYNC_LIMIT: The number of concurrently outstanding Asynchronous Event Request commands has been exceeded",
    )
    ∷ (
      Codes.sc_firmware_slot,
      "FIRMWARE_SLOT: The firmware slot indicated is invalid or read only. This error is indicated if the firmware slot exceeds the number supported",
    )
    ∷ (
      Codes.sc_firmware_image,
      "FIRMWARE_IMAGE: The firmware image specified for activation is invalid and not loaded by the controller",
    )
    ∷ (
      Codes.sc_invalid_vector,
      "INVALID_VECTOR: The creation of the I/O Completion Queue failed due to an invalid interrupt vector specified as part of the command",
    )
    ∷ (
      Codes.sc_invalid_log_page,
      "INVALID_LOG_PAGE: The log page indicated is invalid. This error condition is also returned if a reserved log page is requested",
    )
    ∷ (
      Codes.sc_invalid_format,
      "INVALID_FORMAT: The LBA Format specified is not supported. This may be due to various conditions",
    )
    ∷ (
      Codes.sc_fw_needs_conv_reset,
      "FW_NEEDS_CONVENTIONAL_RESET: The firmware commit was successful, however, activation of the firmware image requires a conventional reset",
    )
    ∷ (
      Codes.sc_invalid_queue,
      "INVALID_QUEUE: This error indicates that it is invalid to delete the I/O Completion Queue specified. The typical reason for this error condition is that there is an associated I/O Submission Queue that has not been deleted.",
    )
    ∷ (
      Codes.sc_feature_not_saveable,
      "FEATURE_NOT_SAVEABLE: The Feature Identifier specified does not support a saveable value",
    )
    ∷ (
      Codes.sc_feature_not_changeable,
      "FEATURE_NOT_CHANGEABLE: The Feature Identifier is not able to be changed",
    )
    ∷ (
      Codes.sc_feature_not_per_ns,
      "FEATURE_NOT_PER_NS: The Feature Identifier specified is not namespace specific. The Feature Identifier settings apply across all namespaces",
    )
    ∷ (
      Codes.sc_fw_needs_subsys_reset,
      "FW_NEEDS_SUBSYSTEM_RESET: The firmware commit was successful, however, activation of the firmware image requires an NVM Subsystem",
    )
    ∷ (
      Codes.sc_fw_needs_reset,
      "FW_NEEDS_RESET: The firmware commit was successful; however, the image specified does not support being activated without a reset",
    )
    ∷ (
      Codes.sc_fw_needs_max_time,
      "FW_NEEDS_MAX_TIME_VIOLATION: The image specified if activated immediately would exceed the Maximum Time for Firmware Activation (MTFA) value reported in Identify Controller. To activate the firmware, the Firmware Commit command needs to be re-issued and the image activated using a reset",
    )
    ∷ (
      Codes.sc_fw_activate_prohibited,
      "FW_ACTIVATION_PROHIBITED: The image specified is being prohibited from activation by the controller for vendor specific reasons",
    )
    ∷ (
      Codes.sc_overlapping_range,
      "OVERLAPPING_RANGE: This error is indicated if the firmware image has overlapping ranges",
    )
    ∷ (
      Codes.sc_ns_insufficient_cap,
      "NS_INSUFFICIENT_CAPACITY: Creating the namespace requires more free space than is currently available. The Command Specific Information field of the Error Information Log specifies the total amount of NVM capacity required to create the namespace in bytes",
    )
    ∷ (
      Codes.sc_ns_id_unavailable,
      "NS_ID_UNAVAILABLE: The number of namespaces supported has been exceeded",
    )
    ∷ (
      Codes.sc_ns_already_attached,
      "NS_ALREADY_ATTACHED: The controller is already attached to the namespace specified",
    )
    ∷ (
      Codes.sc_ns_is_private,
      "NS_IS_PRIVATE: The namespace is private and is already attached to one controller",
    )
    ∷ (
      Codes.sc_ns_not_attached,
      "NS_NOT_ATTACHED: The request to detach the controller could not be completed because the controller is not attached to the namespace",
    )
    ∷ (
      Codes.sc_thin_prov_not_supp,
      "THIN_PROVISIONING_NOT_SUPPORTED: Thin provisioning is not supported by the controller",
    )
    ∷ (
      Codes.sc_ctrl_list_invalid,
      "CONTROLLER_LIST_INVALID: The controller list provided is invalid",
    )
    ∷ (
      Codes.sc_device_self_test_in_progress,
      "DEVICE_SELF_TEST_IN_PROGRESS: The controller or NVM subsystem already has a device self-test operation in process.",
    )
    ∷ (
      Codes.sc_bp_write_prohibited,
      "BOOT PARTITION WRITE PROHIBITED: The command is trying to modify a Boot Partition while it is locked",
    )
    ∷ (Codes.sc_invalid_ctrl_id, "INVALID_CTRL_ID: An invalid Controller Identifier was specified.")
    ∷ (
      Codes.sc_invalid_secondary_ctrl_state,
      "INVALID_SECONDARY_CTRL_STATE: The action requested for the secondary controller is invalid based on the current state of the secondary controller and its primary controller.",
    )
    ∷ (
      Codes.sc_invalid_num_ctrl_resource,
      "INVALID_NUM_CTRL_RESOURCE: The specified number of Flexible Resources is invalid",
    )
    ∷ (
      Codes.sc_invalid_resource_id,
      "INVALID_RESOURCE_ID: At least one of the specified resource identifiers was invalid",
    )
    ∷ (
      Codes.sc_ana_invalid_group_id,
      "ANA_INVALID_GROUP_ID: The specified ANA Group Identifier (ANAGRPID) is not supported in the submitted command.",
    )
    ∷ (
      Codes.sc_ana_attach_fail,
      "ANA_ATTACH_FAIL: The controller is not attached to the namespace as a result of an ANA condition",
    )
    ∷ (Codes.sc_bad_attributes, "BAD_ATTRIBUTES: Bad attributes were given")
    ∷ (Codes.sc_cmd_size_limit_exceeded, "CMD_SIZE_LIMIT_EXCEEDED: Command size limit exceeded")
    ∷ []
