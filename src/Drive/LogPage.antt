-- ===== src/Drive/LogPage.antt =====
-- `doNvmeGetLogPage` and `doNvmeGetLogPageCmd`: a log page in transfers of at most 4096 bytes.
use jcu_dparm.Common.{
  ℕ, zero, suc, ◌+◌, ◌-◌, ◌*◌, ◌/◌, ◌%◌, ◌^◌, ◌≤◌, ◌<◌, ◌≡◌, ◌≢◌, refl, sym, ap, ◌∙◌, arith,
}
use jcu_dparm.Common.{Bool, false, Bool-cases, inl, inr, List, ◌++◌, if◌then◌else◌, ltb}
use jcu_dparm.Common.{
  bit_and, bit_or, u32, ◌<<<◌, ◌>>>◌, length, take, drop, length-take, take-add, take-append,
}
use jcu_dparm.Common.Bits.{bit_and_ones, bit_or_low, bit_or-zero}
use jcu_dparm.Common.{length-append, length-drop, append_assoc, take_all}
use jcu_dparm.Common.{Outcome, done, stuck}
use jcu_dparm.Err.{DparmResult, is_ok, success, returning}
use jcu_dparm.Drive.Driver.{Driver, NvmeAdminCmd, zero_cmd}

-- The command of `doNvmeGetLogPageCmd`. The number of dwords counts from 0, in `uint32_t`.
unfoldable pub log_page_cmd : ℕ → ℕ → ℕ → ℕ → ℕ → Bool → ℕ → ℕ → List ℕ → NvmeAdminCmd
log_page_cmd nsid log_id lsp lpo lsi rae uuid_ix data_len addr =
    let numd = u32 ((data_len >>> 2) + 2 ^ 32 - 1) in
    let numdh = bit_and (numd >>> 16) 0xffff in
    let numdl = bit_and numd 0xffff in
    record zero_cmd {
      opcode = 0x02;
      nsid = nsid;
      addr = addr;
      data_len = data_len;
      cdw10 =
          bit_or (bit_or (bit_or log_id (u32 (numdl <<< 16))) (if rae then 2 ^ 15 else 0))
            (u32 (lsp <<< 8));
      cdw11 = bit_or numdh (lsi <<< 16);
      cdw12 = u32 lpo;
      cdw13 = u32 (lpo >>> 32);
      cdw14 = uuid_ix;
    }

-- `xfer_len` of a round.
abbrev pub xfer_len : ℕ → ℕ → ℕ
xfer_len data_len offset = if ltb 4096 (data_len - offset) then 4096 else data_len - offset

module _ {W : Type 0} (driver : Driver W) (nsid log_id : ℕ) (rae : Bool) (data_len : ℕ) where
  -- One transfer into `data` from `offset` on.
  unfoldable pub transfer : ℕ → List ℕ → W → DparmResult × List ℕ × W
  transfer offset data' w =
      let n = xfer_len data_len offset in
      let cmd = log_page_cmd nsid log_id 0 offset 0 rae 0 n (take n (drop offset data')) in
      let (r, got, w') = driver.do_nvme_admin_passthru cmd w in
      (r.result, take offset data' ++ (got ++ drop (offset + n) data'), w')

  -- `do … while (offset < data_len)`, with fuel. `offset` never passes `data_len`, which is a
  -- `uint32_t`, so no sum wraps.
  unfoldable pub transfers : ℕ → ℕ → List ℕ → W → Outcome (DparmResult × List ℕ × W)
  transfers zero offset data' w = stuck
  transfers (suc fuel) offset data' w =
      let (r, data'', w') = transfer offset data' w in
      let offset' = offset + xfer_len data_len offset in
      let rest = transfers fuel offset' data'' w' in
      if is_ok r
      then (if ltb offset' data_len then rest else done (r, data'', w'))
      else done (r, data'', w')

  -- The fuel: one round for each 4096 bytes, and one more.
  unfoldable pub do_nvme_get_log_page : List ℕ → W → Outcome (DparmResult × List ℕ × W)
  do_nvme_get_log_page data' w =
      if driver.has_specific_nvme_get_log_page
      then done (driver.do_nvme_get_log_page nsid log_id rae data_len data' w)
      else transfers (data_len / 4096 + 1) 0 data' w

  transfers-ne-stuck :
      (fuel offset : ℕ) (data' : List ℕ) (w : W)
      → 0 < fuel
      → data_len ≤ offset + fuel * 4096
      → transfers fuel offset data' w ≢ stuck
  unfolding transfers
  transfers-ne-stuck zero offset data' w pos h = absurd (omega arith)
  transfers-ne-stuck (suc fuel) offset data' w pos h =
      elim (Bool-cases (is_ok (transfer offset data' w).0)) [
        | inl good ↦ rw good (elim (Bool-cases (ltb (offset + xfer_len data_len offset) data_len)) [
          | inl more ↦ rw more (
              transfers-ne-stuck fuel (offset + xfer_len data_len offset) _ _ (ground arith)
                (ground arith))
          | inr last ↦ rw last (λ e. cc)
        ])
        | inr bad ↦ rw bad (λ e. cc)
      ]

  -- `doNvmeGetLogPage` ends for every driver, whatever it answers.
  pub do_nvme_get_log_page-ne-stuck :
      (data' : List ℕ) (w : W) → do_nvme_get_log_page data' w ≢ stuck
  unfolding do_nvme_get_log_page
  do_nvme_get_log_page-ne-stuck data' w = elim (Bool-cases driver.has_specific_nvme_get_log_page) [
    | inl own ↦ simp own (λ e. cc)
    | inr split ↦
        simp split (transfers-ne-stuck (data_len / 4096 + 1) 0 data' w (omega arith) (omega arith))
  ]

-- The command for a page of `n` dwords at a 64-bit offset: the offset stands in its two words, the
-- page's identifier in the low byte, and `n - 1` in its two halves, when the event is not retained.
pub log_page_cmd_fields :
    (nsid log_id lpo n : ℕ) (addr : List ℕ)
    → lpo < 2 ^ 64
    → log_id < 256
    → 0 < n
    → n < 2 ^ 30
    → (let cmd = log_page_cmd nsid log_id 0 lpo 0 false 0 (n * 4) addr in
        (cmd.cdw12 + cmd.cdw13 * 2 ^ 32 ≡ lpo)
        × (cmd.cdw10 % 256 ≡ log_id)
        × (cmd.cdw10 / 2 ^ 16 + cmd.cdw11 * 2 ^ 16 + 1 ≡ n))
unfolding log_page_cmd
log_page_cmd_fields nsid log_id lpo n addr h hl pos hn =
    let numd : u32 (n * 4 / 4 + 2 ^ 32 - 1) ≡ n - 1 = omega arith in
    let low : u32 (bit_and (n - 1) 0xffff * 2 ^ 16) ≡ (n - 1) % 2 ^ 16 * 2 ^ 16 =
      omega (arith, bit_and_ones 16 (n - 1)) in
    let high : bit_and ((n - 1) / 2 ^ 16) 0xffff ≡ (n - 1) / 2 ^ 16 =
      omega (arith, bit_and_ones 16 ((n - 1) / 2 ^ 16)) in
    let word = bit_or_low 16 ((n - 1) % 2 ^ 16) log_id (omega arith) in
    rw (numd, low, high, word, bit_or-zero, bit_or-zero, bit_or-zero)
      (omega arith, omega arith, omega arith)

module _ {W : Type 0} (driver : Driver W) (nsid log_id : ℕ) (rae : Bool) (data_len : ℕ)
    (page : List ℕ) (plain : driver.has_specific_nvme_get_log_page ≡ false)
    (long : data_len ≤ length page) (small : data_len < 2 ^ 32)
    (serves : (cmd : NvmeAdminCmd) (w : W)
      → cmd.opcode ≡ 0x02
      → driver.do_nvme_admin_passthru cmd w ≡ (
        returning success 0,
        take cmd.data_len (drop (cmd.cdw12 + cmd.cdw13 * 2 ^ 32) page),
        w,
      )) where
  served :
      (offset n : ℕ) (addr : List ℕ) (w : W)
      → offset < 2 ^ 32
      → driver.do_nvme_admin_passthru (log_page_cmd nsid log_id 0 offset 0 rae 0 n addr) w
        ≡ (returning success 0, take n (drop offset page), w)
  unfolding log_page_cmd
  served offset n addr w h =
      let whole : u32 offset + u32 (offset >>> 32) * 2 ^ 32 ≡ offset = omega arith in
      serves (log_page_cmd nsid log_id 0 offset 0 rae 0 n addr) w refl
      ∙ ap (λ i. (returning success 0, take n (drop i page), w)) whole

  -- What a round leaves in the buffer.
  abbrev filled : ℕ → List ℕ → List ℕ
  filled offset data' =
      let n = xfer_len data_len offset in
      take offset data' ++ (take n (drop offset page) ++ drop (offset + n) data')

  transfer_lem :
      (offset : ℕ) (data' : List ℕ) (w : W)
      → offset ≤ data_len
      → transfer driver nsid log_id rae data_len offset data' w ≡ (success, filled offset data', w)
  unfolding transfer
  transfer_lem offset data' w h =
      ap
        (λ t. (
          t.0.result,
          take offset data' ++ (t.1 ++ drop (offset + xfer_len data_len offset) data'),
          t.2,
        ))
        (served offset (xfer_len data_len offset)
          (take (xfer_len data_len offset) (drop offset data')) w (omega arith))

  xfer_len-fits : (offset : ℕ) → offset ≤ data_len → offset + xfer_len data_len offset ≤ data_len
  xfer_len-fits offset h = ground arith

  filled-length :
      (offset : ℕ) (data' : List ℕ)
      → offset ≤ data_len
      → length data' ≡ data_len
      → length (filled offset data') ≡ data_len
  filled-length offset data' h size =
      let n = xfer_len data_len offset in
      let fits = xfer_len-fits offset h in
      rw
        (
          length-append (take offset data') (take n (drop offset page) ++ drop (offset + n) data'),
          length-append (take n (drop offset page)) (drop (offset + n) data'),
          length-take offset data',
          length-take n (drop offset page),
          length-drop offset page,
          length-drop (offset + n) data',
          size,
        )
        (omega arith)

  filled-take :
      (offset : ℕ) (data' : List ℕ)
      → offset ≤ data_len
      → take offset data' ≡ take offset page
      → (let n = xfer_len data_len offset in
          take (offset + n) (filled offset data') ≡ take (offset + n) page)
  filled-take offset data' h same =
      let n = xfer_len data_len offset in
      let fits = xfer_len-fits offset h in
      let size : length (take (offset + n) page) ≡ offset + n =
        omega (arith, length-take (offset + n) page) in
      let split : filled offset data' ≡ take (offset + n) page ++ drop (offset + n) data' =
        ap (λ l. l ++ (take n (drop offset page) ++ drop (offset + n) data')) same
        ∙ sym
            (append_assoc (take offset page) (take n (drop offset page)) (drop (offset + n) data'))
        ∙ ap (λ l. l ++ drop (offset + n) data') (sym (take-add offset n page)) in
      ap (take (offset + n)) split
      ∙ ap (λ k. take k (take (offset + n) page ++ drop (offset + n) data')) (sym size)
      ∙ take-append (take (offset + n) page) (drop (offset + n) data')

  transfers_lem :
      (fuel offset : ℕ) (data' : List ℕ) (w : W)
      → 0 < fuel
      → data_len ≤ offset + fuel * 4096
      → offset ≤ data_len
      → length data' ≡ data_len
      → take offset data' ≡ take offset page
      → transfers driver nsid log_id rae data_len fuel offset data' w
        ≡ done (success, take data_len page, w)
  unfolding transfers
  transfers_lem zero offset data' w pos enough h size same = absurd (omega arith)
  transfers_lem (suc fuel) offset data' w pos enough h size same =
      let n = xfer_len data_len offset in
      let fits = xfer_len-fits offset h in
      let size' = filled-length offset data' h size in
      let same' = filled-take offset data' h same in
      elim (Bool-cases (ltb (offset + n) data_len)) [
        | inl more ↦
            simp (transfer_lem offset data' w h, more)
              (transfers_lem fuel (offset + n) (filled offset data') w (ground arith) (ground arith)
                fits size' same')
        | inr last ↦
            let full : offset + n ≡ data_len = ground arith in
            let whole : filled offset data' ≡ take data_len page =
              sym (take_all (offset + n) (filled offset data') (omega arith))
              ∙ same'
              ∙ ap (λ k. take k page) full in
            simp (transfer_lem offset data' w h, last) (ap (λ d. done (success, d, w)) whole)
      ]

  -- From a driver without a method of its own, which serves the bytes of a page at the offset that
  -- the command's words name, the transfers fill a buffer of `data_len` bytes with the first bytes of
  -- the page.
  pub do_nvme_get_log_page_lem :
      (data' : List ℕ) (w : W)
      → length data' ≡ data_len
      → do_nvme_get_log_page driver nsid log_id rae data_len data' w
        ≡ done (success, take data_len page, w)
  unfolding do_nvme_get_log_page
  do_nvme_get_log_page_lem data' w size = simp plain (
      transfers_lem (data_len / 4096 + 1) 0 data' w (omega arith) (omega arith) (omega arith) size
        refl)
