-- ===== src/Drive/Security.antt =====
-- `DriveHandleBase::doSecurityCommand`: the driver's own security command, and the fallbacks by an
-- NVMe admin command or by the ATA trusted commands.
use jcu_dparm.Common.{ℕ, ◌+◌, ◌*◌, ◌/◌, ◌%◌, ◌^◌, ◌<◌, ◌≡◌, arith, Bool, true, false, List}
use jcu_dparm.Common.{if◌then◌else◌, bit_and, bit_or, u8, u32, ◌<<<◌, ◌>>>◌}
use jcu_dparm.Common.Bits.{bit_and_ones, bit_or_high}
use jcu_dparm.Err.{DparmResult, is_ok, failed, not_supported}
use jcu_dparm.Ata.{Tf, zero_tf, zero_regs}
use jcu_dparm.Drive.Driver.{Driver, Dma, NvmeAdminCmd, zero_cmd, is_nvme, is_atapi}

-- `rw ? NVME_ADMIN_OP_SECURITY_SEND : NVME_ADMIN_OP_SECURITY_RECV` and the two command words.
unfoldable pub security_cmd : Bool → ℕ → ℕ → List ℕ → ℕ → NvmeAdminCmd
security_cmd send protocol com_id buffer len = record zero_cmd {
  opcode = if send then 0x81 else 0x82;
  addr = buffer;
  data_len = len;
  cdw10 = bit_or (u32 (bit_and protocol 0xff <<< 24)) (u32 (bit_and com_id 0xffff <<< 8));
  cdw11 = len;
}

-- TRUSTED SEND, TRUSTED SEND DMA, TRUSTED RECEIVE, TRUSTED RECEIVE DMA.
unfoldable pub trusted_tf : Bool → Bool → ℕ → ℕ → ℕ → Tf
trusted_tf send dma protocol com_id len = record zero_tf {
  command = if send then (if dma then 0x5f else 0x5e) else (if dma then 0x5d else 0x5c);
  lob = record zero_regs {
    feat = u8 protocol;
    nsect = u8 (len / 512);
    lbam = u8 com_id;
    lbah = u8 (com_id >>> 8);
  };
}

abbrev pub dma_flag : Bool → Dma
dma_flag true = Dma.dma
dma_flag false = Dma.pio

module _ {W : Type 0} (driver : Driver W) where
  -- The fallback once the driver's own command has failed in the state `w`.
  unfoldable pub fallback : Bool → Bool → ℕ → ℕ → List ℕ → ℕ → W → DparmResult × List ℕ × W
  fallback send dma protocol com_id buffer len w =
      if is_nvme driver.driving_type
      then (let (r, data', w') =
            driver.do_nvme_admin_passthru (security_cmd send protocol com_id buffer len) w in
          (r.result, data', w'))
      else if is_atapi driver.driving_type
      then (let (r, tf', data', w') =
            driver.do_taskfile_cmd send (dma_flag dma) (trusted_tf send dma protocol com_id len)
              buffer len 15 w in
          (r, data', w'))
      else (failed not_supported, buffer, w)

  unfoldable pub do_security_command :
      Bool → Bool → ℕ → ℕ → List ℕ → ℕ → W → DparmResult × List ℕ × W
  do_security_command send dma protocol com_id buffer len w =
      let (r, data', w') = driver.do_security_command protocol com_id send buffer len 5 w in
      if is_ok r then (r, data', w') else fallback send dma protocol com_id data' len w'

-- The NVMe command carries the protocol in bits 31 to 24 and the com id in bits 23 to 8, and the
-- ATA registers carry the protocol, the com id in two bytes, and the number of sectors of a
-- transfer below 128 KiB: both forms can be read back.
pub security_fields :
    (send dma : Bool) (protocol com_id : ℕ) (buffer : List ℕ) (sectors : ℕ)
    → protocol < 256
    → com_id < 2 ^ 16
    → sectors < 256
    → (let cmd = security_cmd send protocol com_id buffer (sectors * 512) in
        let tf = trusted_tf send dma protocol com_id (sectors * 512) in
        (cmd.cdw10 / 2 ^ 24 ≡ protocol)
        × (cmd.cdw10 / 2 ^ 8 % 2 ^ 16 ≡ com_id)
        × (cmd.cdw10 % 2 ^ 8 ≡ 0)
        × (tf.lob.feat ≡ protocol)
        × (tf.lob.lbah * 256 + tf.lob.lbam ≡ com_id)
        × (tf.lob.nsect ≡ sectors))
unfolding security_cmd trusted_tf
security_fields send dma protocol com_id buffer sectors hp hc hs =
    let word = bit_or_high 24 protocol (com_id * 2 ^ 8) (omega arith) in
    let low : u32 (bit_and protocol 0xff * 2 ^ 24) ≡ protocol * 2 ^ 24 =
      omega (arith, bit_and_ones 8 protocol) in
    let high : u32 (bit_and com_id 0xffff * 2 ^ 8) ≡ com_id * 2 ^ 8 =
      omega (arith, bit_and_ones 16 com_id) in
    rw (low, high, word)
      (omega arith, omega arith, omega arith, omega arith, omega arith, omega arith)
