-- ===== src/Win/Nvme/Transfers.antt =====
-- The lengths of the transfers of the two NVMe drivers.
use jcu_dparm.Common.{ℕ, zero, suc, ◌+◌, ◌-◌, ◌≤◌, ◌<◌, ◌≡◌, ◌≢◌, refl, ap, sym, ◌∙◌, arith, min}
use jcu_dparm.Common.{
  List, [], ◌∷◌, ◌++◌, take, drop, length, ltb, if◌then◌else◌, Bool, true, false,
}
use jcu_dparm.Common.{read_bytes, read_bytes-take, done, fault, replicate, length-take, drop_nil}
use jcu_dparm.Common.{drop-append_long, drop-add, ◌>>=◌, Outcome}
use jcu_dparm.Err.{success, returning}
use jcu_dparm.Drive.Driver.{NvmeAdminCmd}
use jcu_dparm.Win.Nvme.{NvmeCalls, answered, memcpy}
use jcu_dparm.Win.Nvme.{win_admin_passthru, win_get_log_page, log_query, passed, queried}

read_bytes_overread : (n : ℕ) (m : List ℕ) → length m < n → read_bytes n m ≡ fault
read_bytes_overread zero m h = absurd (omega arith)
read_bytes_overread (suc n) [] h = refl
read_bytes_overread (suc n) (x ∷ m) h = rw (read_bytes_overread n m (omega arith)) refl

memcpy_lem :
    (dest src : List ℕ) (n : ℕ)
    → n ≤ length dest
    → n ≤ length src
    → memcpy dest src n ≡ done (take n src ++ drop n dest)
memcpy_lem dest src n fits there =
    let inside : ltb (length dest) n ≡ false = ground arith in
    rw (read_bytes-take n src there, inside) refl

memcpy_overread : (dest src : List ℕ) (n : ℕ) → length src < n → memcpy dest src n ≡ fault
memcpy_overread dest src n h = rw (read_bytes_overread n src h) refl

-- Behind what was copied, nothing changes.
drop-memcpy :
    (dest src : List ℕ) (n k : ℕ)
    → n ≤ length src
    → n ≤ k
    → drop k (take n src ++ drop n dest) ≡ drop k dest
drop-memcpy dest src n k there below =
    let taken : length (take n src) ≡ n = omega (arith, length-take n src) in
    let split : length (take n src) + (k - n) ≡ k = omega (arith, taken) in
    let parts : n + (k - n) ≡ k = omega arith in
    ap (λ (t : ℕ). drop t (take n src ++ drop n dest)) (sym split)
    ∙ drop-append_long (k - n) (take n src) (drop n dest)
    ∙ sym (drop-add n (k - n) dest)
    ∙ ap (λ (t : ℕ). drop t dest) parts

module _ {W : Type 0} (calls : NvmeCalls W) (h : ℕ) where
  -- Where the miniport answers with a buffer, an admin command gets its first bytes and a good
  -- result, if it asks for no more than the buffer and its own memory hold; if it asks for more
  -- than the buffer holds, the driver reads past it.
  pub win_admin_passthru_lem :
      (cmd : NvmeAdminCmd) (buffer : List ℕ) (w w' : W)
      → calls.scsi_miniport h (record cmd { addr = replicate 4096 0 }) w ≡ (answered buffer, w')
      → ((cmd.data_len ≤ length cmd.addr)
          → (cmd.data_len ≤ length buffer)
          → win_admin_passthru calls h cmd w
            ≡ done
                (returning success 0, take cmd.data_len buffer ++ drop cmd.data_len cmd.addr, w'))
        × ((length buffer < cmd.data_len) → win_admin_passthru calls h cmd w ≡ fault)
  unfolding win_admin_passthru
  win_admin_passthru_lem cmd buffer w w' e = (
    λ fits there. ap (passed cmd) e ∙ rw (memcpy_lem cmd.addr buffer cmd.data_len fits there) refl,
    λ long. ap (passed cmd) e ∙ rw (memcpy_overread cmd.addr buffer cmd.data_len long) refl,
  )

  -- Where the call answers with no more bytes than it was asked for, the log page is read without a
  -- fault and the result is good; but what lies behind the first 4096 bytes of the data is left as
  -- it was, however long the page is.
  pub win_get_log_page_lem :
      (log_id n : ℕ) (buffer data' : List ℕ) (w w' : W)
      → calls.query_property h (log_query log_id (length data')) w ≡ (answered (n, buffer), w')
      → n ≤ (log_query log_id (length data')).data_length
      → n ≤ length buffer
      → (b : List ℕ) × (win_get_log_page calls h log_id (length data') data' w
          ≡ done (success, b, w'))
        × (take n b ≡ take n buffer)
        × (drop 4096 b ≡ drop 4096 data')
  unfolding win_get_log_page
  win_get_log_page_lem log_id n buffer data' w w' e asked there =
      let fits : n ≤ length data' = ground arith in
      let page : n ≤ 4096 = ground arith in
      (
        take n buffer ++ drop n data',
        ap (queried data') e ∙ rw (memcpy_lem data' buffer n fits there) refl,
        front (take n buffer) (drop n data') n (omega (arith, length-take n buffer)),
        drop-memcpy data' buffer n 4096 there page,
      )
    where
      front : (xs ys : List ℕ) (k : ℕ) → k ≡ length xs → take k (xs ++ ys) ≡ xs
      front xs ys k same =
          ap (λ (t : ℕ). take t (xs ++ ys)) same ∙ jcu_dparm.Common.Lists.take-append xs ys
