-- ===== src/Nvme/MediaTexts.antt =====
-- The cases of the media and of the paths in `nvmeStatusToString` of src/nvme_utils.cc.
use Prim.Native.String.{String}
use jcu_dparm.Common.{ℕ, List, [], ◌∷◌}
use jcu_dparm.Nvme.Codes

unfoldable pub media_texts : List (ℕ × String)
media_texts =
    (Codes.sc_write_fault, "WRITE_FAULT: The write data could not be committed to the media")
    ∷ (Codes.sc_read_error, "READ_ERROR: The read data could not be recovered from the media")
    ∷ (
      Codes.sc_guard_check,
      "GUARD_CHECK: The command was aborted due to an end-to-end guard check failure",
    )
    ∷ (
      Codes.sc_apptag_check,
      "APPTAG_CHECK: The command was aborted due to an end-to-end application tag check failure",
    )
    ∷ (
      Codes.sc_reftag_check,
      "REFTAG_CHECK: The command was aborted due to an end-to-end reference tag check failure",
    )
    ∷ (
      Codes.sc_compare_failed,
      "COMPARE_FAILED: The command failed due to a miscompare during a Compare command",
    )
    ∷ (
      Codes.sc_access_denied,
      "ACCESS_DENIED: Access to the namespace and/or LBA range is denied due to lack of access rights",
    )
    ∷ (
      Codes.sc_unwritten_block,
      "UNWRITTEN_BLOCK: The command failed due to an attempt to read from an LBA range containing a deallocated or unwritten logical block",
    )
    ∷ (
      Codes.sc_ana_persistent_loss,
      "ASYMMETRIC_NAMESPACE_ACCESS_PERSISTENT_LOSS: The requested function (e.g., command) is not able to be performed as a result of the relationship between the controller and the namespace being in the ANA Persistent Loss state",
    )
    ∷ (
      Codes.sc_ana_inaccessible,
      "ASYMMETRIC_NAMESPACE_ACCESS_INACCESSIBLE: The requested function (e.g., command) is not able to be performed as a result of the relationship between the controller and the namespace being in the ANA Inaccessible state",
    )
    ∷ (
      Codes.sc_ana_transition,
      "ASYMMETRIC_NAMESPACE_ACCESS_TRANSITION: The requested function (e.g., command) is not able to be performed as a result of the relationship between the controller and the namespace transitioning between Asymmetric Namespace Access states",
    )
    ∷ (
      Codes.sc_cmd_interrupted,
      "CMD_INTERRUPTED: Command processing was interrupted and the controller is unable to successfully complete the command. The host should retry the command.",
    )
    ∷ (
      Codes.sc_pmr_san_prohibited,
      "Sanitize Prohibited While Persistent Memory Region is Enabled: A sanitize operation is prohibited while the Persistent Memory Region is enabled.",
    )
    ∷ []
