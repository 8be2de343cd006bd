-- ===== src/Sense/Layout.antt =====
-- The layout of built sense data. A buffer of enough bytes is taken apart byte by byte, so that every
-- write computes.
use viji_osc_osd.Base.{ℕ, ◌+◌, ◌≤◌, ◌<◌, ◌^◌, ◌≡◌, refl, List, ◌∷◌, length, drop, arith}
use viji_osc_osd.Base.Bytes.{write_at, get8}
use viji_osc_osd.Wire.RoundTrip.{get-set}
use viji_osc_osd.Wire.{get_ntohll, set_htonl_le, set_htonll_le}
use viji_osc_osd.Sense.{asc, ascq, sense_basic_build, sense_build_sdd, sense_build_sdd_csi}

-- What an initiator finds in the buffer: the header with its additional length, and the object that
-- the command named.
pub record Identifies (sense : List ℕ) (additional key code pid oid : ℕ) : Type 0 where
  pub response_code : get8 sense 0 ≡ 0x72
  pub sense_key : get8 sense 1 ≡ key
  pub sense_code : (get8 sense 2 ≡ asc code) × (get8 sense 3 ≡ ascq code)
  pub additional_length : get8 sense 7 ≡ additional
  pub descriptor : (get8 sense 8 ≡ 0x6) × (get8 sense 9 ≡ 0x1e)
  pub partition : get_ntohll (drop 24 sense) ≡ pid
  pub object : get_ntohll (drop 32 sense) ≡ oid

module _ (key code pid oid : ℕ) (hp : pid < 2 ^ 64) (ho : oid < 2 ^ 64) where
  -- On a buffer of 40 bytes or more, `sense_build_sdd` returns 40, which counts the header's 8 bytes
  -- and its additional length, the buffer identifies the object, and what lies behind is unchanged;
  -- `sense_basic_build` does the same.
  pub sense_build_sdd_lem :
      (sense : List ℕ)
      → 40 ≤ length sense
      → let r = sense_build_sdd sense key code pid oid in
        (r.0 ≡ 8 + 32)
        × Identifies r.1 32 key code pid oid
        × (drop 40 r.1 ≡ drop 40 sense)
        × (sense_basic_build sense key code pid oid ≡ r)
  unfolding sense_build_sdd sense_basic_build write_at set_htonl_le set_htonll_le
  sense_build_sdd_lem
        (x0 ∷ x1 ∷ x2 ∷ x3 ∷ x4 ∷ x5 ∷ x6 ∷ x7 ∷ x8 ∷ x9 ∷ x10 ∷ x11 ∷ x12 ∷ x13 ∷ x14 ∷ x15 ∷ x16
          ∷ x17 ∷ x18 ∷ x19 ∷ x20 ∷ x21 ∷ x22 ∷ x23 ∷ x24 ∷ x25 ∷ x26 ∷ x27 ∷ x28 ∷ x29 ∷ x30 ∷ x31
          ∷ x32 ∷ x33 ∷ x34 ∷ x35 ∷ x36 ∷ x37 ∷ x38 ∷ x39 ∷ rest)
        h =
      (
        refl,
        record {
          response_code = refl;
          sense_key = refl;
          sense_code = (refl, refl);
          additional_length = refl;
          descriptor = (refl, refl);
          partition = (get-set pid _).2 hp;
          object = (get-set oid _).2 ho;
        },
        refl,
        refl,
      )
  sense_build_sdd_lem _ h = absurd (omega arith)

  -- With the command-specific descriptor 52 of the buffer's bytes are used, and a reader finds the
  -- object and the 64-bit value, such as the number of bytes that were read.
  pub sense_build_sdd_csi_lem :
      (csi : ℕ) (sense : List ℕ)
      → csi < 2 ^ 64
      → 52 ≤ length sense
      → let r = sense_build_sdd_csi sense key code pid oid csi in
        (r.0 ≡ 8 + 44)
        × Identifies r.1 44 key code pid oid
        × (get_ntohll (drop 44 r.1) ≡ csi)
        × (drop 52 r.1 ≡ drop 52 sense)
  unfolding sense_build_sdd_csi write_at set_htonl_le set_htonll_le
  sense_build_sdd_csi_lem csi
        (x0 ∷ x1 ∷ x2 ∷ x3 ∷ x4 ∷ x5 ∷ x6 ∷ x7 ∷ x8 ∷ x9 ∷ x10 ∷ x11 ∷ x12 ∷ x13 ∷ x14 ∷ x15 ∷ x16
          ∷ x17 ∷ x18 ∷ x19 ∷ x20 ∷ x21 ∷ x22 ∷ x23 ∷ x24 ∷ x25 ∷ x26 ∷ x27 ∷ x28 ∷ x29 ∷ x30 ∷ x31
          ∷ x32 ∷ x33 ∷ x34 ∷ x35 ∷ x36 ∷ x37 ∷ x38 ∷ x39 ∷ x40 ∷ x41 ∷ x42 ∷ x43 ∷ x44 ∷ x45 ∷ x46
          ∷ x47 ∷ x48 ∷ x49 ∷ x50 ∷ x51 ∷ rest)
        hc h =
      (
        refl,
        record {
          response_code = refl;
          sense_key = refl;
          sense_code = (refl, refl);
          additional_length = refl;
          descriptor = (refl, refl);
          partition = (get-set pid _).2 hp;
          object = (get-set oid _).2 ho;
        },
        (get-set csi _).2 hc,
        refl,
      )
  sense_build_sdd_csi_lem csi _ hc h = absurd (omega arith)
