-- ===== src/Nvme.antt =====
-- `nvmeStatusToString` of src/nvme_utils.cc: the text of a completion status. The cases of the
-- `switch` are three tables, in the order of the code.
pub mod Codes
pub mod GeneralTexts
pub mod CommandTexts
pub mod MediaTexts
use Prim.Native.String.{String}
use jcu_dparm.Common.{ℕ, List, [], ◌∷◌, ◌++◌, ◌≡◌, refl, ◌==◌, if◌then◌else◌, bit_and}
use GeneralTexts.{general_texts}
use CommandTexts.{command_texts}
use MediaTexts.{media_texts}

-- The cases of a `switch` have different values, so the first that fits is the only one.
unfoldable pub case_text : ℕ → List (ℕ × String) → String
case_text code [] = "Unknown"
case_text code ((c, text) ∷ cases) = if c == code then text else case_text code cases

unfoldable pub nvme_status_to_string : ℕ → String
unfolding case_text general_texts command_texts media_texts
nvme_status_to_string status =
    case_text (bit_and status 0x3ff) (general_texts ++ (command_texts ++ media_texts))

-- A status with its do-not-retry bit.
media_text :
    nvme_status_to_string 0x4281 ≡ "READ_ERROR: The read data could not be recovered from the media"
unfolding nvme_status_to_string case_text general_texts command_texts media_texts
media_text = refl
