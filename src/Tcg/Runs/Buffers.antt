-- ===== src/Tcg/Runs/Buffers.antt =====
-- The theorems on the command buffer, the tokens and the response at concrete input.
use jcu_dparm.Common.{ℕ, ◌+◌, ◌≤◌, ◌≡◌, ◌≢◌, refl, arith, List, [], ◌∷◌, ◌++◌, map}
use jcu_dparm.Common.{true, false, length, drop, All, swap32}
use jcu_dparm.Common.{done, fault, stuck}
use jcu_dparm.Err.{success}
use jcu_dparm.Tcg.Command
use jcu_dparm.Tcg.Command.{Command, IsValid, empty_command, put_bytes, cmd_pos, get_cmd_buf}
use jcu_dparm.Tcg.Command.Encoding.{string_encoding, number_encoding, big_endian}
use jcu_dparm.Tcg.Command.Invariant.{Step, constructed, next, Reach-IsValid}
use jcu_dparm.Tcg.Command.Layout.{IsCompleted, complete-IsCompleted}
use jcu_dparm.Tcg.Response
use jcu_dparm.Tcg.Response.{Response, commit, commit_from, host_u32, token_length, align_pointer}
use jcu_dparm.Tcg.Response.Framing.{IsFramed, flat, without_empty, commit-ne-stuck}
use jcu_dparm.Tcg.Response.Tiling.{IsTiling, commit-IsTiling, commit_from_overread}
use jcu_dparm.Tcg.RoundTrip.{Item, form, write_all, commit-write_all}
use jcu_dparm.Tcg.Runs
use jcu_dparm.Tcg.Runs.{answer}

abbrev items : List Item
items =
    Item.control 0xf0
    ∷ Item.number 300
    ∷ Item.text (0x50 ∷ 0x49 ∷ 0x4e ∷ [])
    ∷ Item.control 0xf1
    ∷ []

abbrev written : Command
written = (Command.complete false (write_all items empty_command)).0

items_fit : 56 + length (flat (map form items)) ≤ 2048
unfolding flat form number_encoding string_encoding big_endian
items_fit = omega arith

commit-write_all_example :
    commit (record { mem = get_cmd_buf written; tokens = [] })
    ≡ done (success, record { mem = get_cmd_buf written; tokens = without_empty (map form items) })
commit-write_all_example = commit-write_all items [] (ground arith) items_fit

abbrev pin : List ℕ
pin = 0x50 ∷ 0x49 ∷ 0x4e ∷ []

new-IsValid : IsValid empty_command
new-IsValid = omega arith

Reach-IsValid_example :
    IsValid (Command.complete true (Command.add_string_token pin empty_command).0).0
Reach-IsValid_example =
    Reach-IsValid
      (next (next constructed (Step.add_string_token pin (ground arith))) (Step.complete true))

complete-IsCompleted_example :
    IsCompleted ([] ++ Command.end_of_data_list) (Command.complete true empty_command).0
    × ((Command.complete true empty_command).1 ≡ true)
complete-IsCompleted_example = complete-IsCompleted true empty_command new-IsValid (omega arith)

number_fits : 56 + length (number_encoding 300) ≤ 61440
unfolding number_encoding big_endian
number_fits = omega arith

abbrev row : Response
row = record { mem = answer 2; tokens = [] }

commit-ne-stuck_example : commit row ≢ stuck
commit-ne-stuck_example = commit-ne-stuck row

abbrev short_tokens : List (List ℕ)
short_tokens = (0xf0 ∷ []) ∷ (0x82 ∷ 0x10 ∷ 0x01 ∷ []) ∷ (0xff ∷ []) ∷ (0xf1 ∷ []) ∷ []

abbrev short_response : Response
short_response = record {
  mem = Runs.header 6 ++ (0xf0 ∷ 0x82 ∷ 0x10 ∷ 0x01 ∷ 0xff ∷ 0xf1 ∷ []);
  tokens = [];
}

short-IsFramed : All IsFramed short_tokens
unfolding token_length
short-IsFramed = (refl, (refl, (refl, (refl, tt))))

short_flat : flat short_tokens ≡ 0xf0 ∷ 0x82 ∷ 0x10 ∷ 0x01 ∷ 0xff ∷ 0xf1 ∷ []
unfolding flat
short_flat = refl

commit_now :
    commit short_response
    ≡ done (
      success,
      record short_response { tokens = (0xf0 ∷ []) ∷ (0x82 ∷ 0x10 ∷ 0x01 ∷ []) ∷ (0xf1 ∷ []) ∷ [] },
    )
unfolding commit commit_from Response.commit_loop token_length host_u32 Response.is_empty_atom
    swap32
commit_now = refl

commit-IsTiling_example :
    (raw : ℕ) × (host_u32 short_response.mem 52 ≡ done raw)
    × IsTiling
        (swap32 raw)
        (drop 56 short_response.mem)
        []
        ((0xf0 ∷ []) ∷ (0x82 ∷ 0x10 ∷ 0x01 ∷ []) ∷ (0xf1 ∷ []) ∷ [])
    × (short_response.mem ≡ short_response.mem)
commit-IsTiling_example =
    commit-IsTiling short_response
      (record short_response {
        tokens = (0xf0 ∷ []) ∷ (0x82 ∷ 0x10 ∷ 0x01 ∷ []) ∷ (0xf1 ∷ []) ∷ [];
      })
      commit_now

-- A long atom that announces 65540 bytes, in a subpacket of 4.
abbrev long_response : Response
long_response = record { mem = Runs.header 4 ++ (0xe0 ∷ 0x01 ∷ 0x00 ∷ 0x00 ∷ []); tokens = [] }

long_announced : token_length (drop 56 long_response.mem) ≡ done 65540
unfolding token_length
long_announced = refl

commit_from_overread_example : commit_from long_response 4 ≡ fault
commit_from_overread_example =
    commit_from_overread long_response 4 65540 (omega arith) (omega arith) long_announced
      (omega arith)
