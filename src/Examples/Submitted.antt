-- ===== src/Examples/Submitted.antt =====
-- The theorems on whole commands at a concrete descriptor block.
use viji_osc_osd.Base.{ℕ, ◌≤◌, ◌≡◌, refl, some, none, List, [], ◌∷◌, ◌++◌, replicate, drop, arith}
use viji_osc_osd.Wire.{set_htonll, set_htonll_le, get_ntohll, get_ntohl_le}
use viji_osc_osd.Wire.RoundTrip.{get-set_wrap}
use viji_osc_osd.Exec.{Post}
use viji_osc_osd.Memory.{memory}
use viji_osc_osd.Memory.Disk.{disk_files-Contents}
use viji_osc_osd.Io.{lend}
use viji_osc_osd.Io.Content.{splice}
use viji_osc_osd.Io.Opened.{Unwritten}
use viji_osc_osd.Data.Written.{Rewritten}
use viji_osc_osd.Cdb.Service.Plain.{write, punch, asked}
use viji_osc_osd.Cdb.Submit.{osdemu_cmd_submit}
use viji_osc_osd.Cdb.Submit.Handled.{
  IsBlock, request, answered, Told, osdemu_cmd_submit-asked, osdemu_cmd_submit-write,
}
use viji_osc_osd.Examples.Commands.{stored, quiet}

-- Three bytes at offset 4 of the object 0x10001.
abbrev fields : List ℕ
fields =
    set_htonll 0x10000
    ++ (set_htonll 0x10001 ++ (set_htonll 3 ++ (set_htonll 4 ++ replicate 188 0)))

abbrev block : ℕ → List ℕ
block action =
    0x7f ∷ 0 ∷ 0 ∷ 0 ∷ 0 ∷ 0 ∷ 0 ∷ 228 ∷ 0x88 ∷ action ∷ 0 ∷ 0x10 ∷ 0 ∷ 0 ∷ 0 ∷ 0 ∷ fields

write_block : IsBlock write (block 0x86)
unfolding set_htonll_le get_ntohl_le
write_block = record {
  opcode = refl;
  rest = refl;
  action = refl;
  format = refl;
  alone = refl;
  no_page = refl;
}

punch_block : IsBlock punch (block 0x84)
unfolding set_htonll_le get_ntohl_le
punch_block = record {
  opcode = refl;
  rest = refl;
  action = refl;
  format = refl;
  alone = refl;
  no_page = refl;
}

three_bytes : get_ntohll (drop 32 (block 0x86)) ≤ 3
unfolding set_htonll_le
three_bytes = omega (arith, (get-set_wrap 3 (set_htonll 4 ++ replicate 188 0)).2)

osdemu_cmd_submit-asked_example :
    osdemu_cmd_submit quiet (block 0x84) (some []) 0 none 0 stored
    ≡ answered 0 (asked punch (request (block 0x84) [] 0) stored)
osdemu_cmd_submit-asked_example =
    osdemu_cmd_submit-asked quiet punch (block 0x84) [] 0 0 stored punch_block

osdemu_cmd_submit-write_example :
    let pid = get_ntohll (drop 16 (block 0x86)) in
    let oid = get_ntohll (drop 24 (block 0x86)) in
    Post
      (Told
        (λ _.
          Rewritten disk_files-Contents pid oid
            (splice
              (get_ntohll (drop 40 (block 0x86)))
              (lend (get_ntohll (drop 32 (block 0x86))) (7 ∷ 8 ∷ 9 ∷ [])))
            stored)
        (Unwritten memory disk_files-Contents pid oid
          (disk_files-Contents.view stored.fs)
          stored.conn))
      (λ _ _. ⊥)
      (osdemu_cmd_submit quiet (block 0x86) (some (7 ∷ 8 ∷ 9 ∷ [])) 3 none 0 stored)
osdemu_cmd_submit-write_example =
    osdemu_cmd_submit-write disk_files-Contents quiet (block 0x86) (7 ∷ 8 ∷ 9 ∷ []) 3 0 stored
      write_block three_bytes
