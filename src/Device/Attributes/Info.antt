-- ===== src/Device/Attributes/Info.antt =====
-- The information attributes of osd-target/attr.c and osd.c: `attr_get_attr` and `attr_set_attr`, and what
-- calls them.
use viji_osc_osd.Base.{
  ℕ, ◌-◌, ◌*◌, ◌%◌, ◌^◌, Bool, ◌&&◌, Option, none, some, List, [], ◌∷◌, ◌++◌, take, replicate, ltb,
  ◌==◌, if◌then◌else◌, ◌≡◌, ◌≢◌, refl, ==_ne,
}
use viji_osc_osd.Base.Bytes.{write_at}
use viji_osc_osd.Wire.{set_htonl, set_htonll, get_ntohll}
use viji_osc_osd.Db.{Ret, osd_ok, osd_error, enoent}
use viji_osc_osd.Store.{Sqlite}
use viji_osc_osd.Store.Coll.{set_attr}
use viji_osc_osd.Files.{Files}
use viji_osc_osd.Exec.{Exec, pure, value, ◌>>=◌}
use viji_osc_osd.Attr.{AttrRet, code, invalid, asserted, Retrieval, attr_page_id_len}
use viji_osc_osd.Attr.Table.{attr_get_row}
use viji_osc_osd.Device.{Device, sub64, db, sys}
use viji_osc_osd.Device.Attributes.{
  Shown, shows, returns, error_with, found_size, pack_as, incits, user_info_pg, root_info_pg,
}

abbrev pub uiap_username : ℕ
uiap_username = 0x9

abbrev pub uiap_logical_len : ℕ
uiap_logical_len = 0x82

abbrev pub riap_osd_system_id : ℕ
riap_osd_system_id = 0x3

abbrev pub riap_osd_name : ℕ
riap_osd_name = 0x9

abbrev pub riap_osd_system_id_len : ℕ
riap_osd_system_id_len = 20

-- `OSD_FORMAT_OSD`, and the field of `struct cur_cmd_attr_pg` that is compared with it: the device is
-- allocated with zeros and nothing assigns the field.
abbrev act_format : ℕ
act_format = 0x8881

abbrev cdb_srvc_act : ℕ
cdb_srvc_act = 0

abbrev user_info_name : List ℕ
user_info_name =
    incits
    ++ (0x55 ∷ 0x73 ∷ 0x65 ∷ 0x72 ∷ 0x20 ∷ 0x4F ∷ 0x62 ∷ 0x6A ∷ 0x65 ∷ 0x63 ∷ 0x74 ∷ 0x20 ∷ 0x49
        ∷ 0x6E ∷ 0x66 ∷ 0x6F ∷ 0x72 ∷ 0x6D ∷ 0x61 ∷ 0x74 ∷ 0x69 ∷ 0x6F ∷ 0x6E ∷ 0x00 ∷ [])

abbrev root_info_name : List ℕ
root_info_name =
    incits
    ++ (0x52 ∷ 0x6F ∷ 0x6F ∷ 0x74 ∷ 0x20 ∷ 0x49 ∷ 0x6E ∷ 0x66 ∷ 0x6F ∷ 0x72 ∷ 0x6D ∷ 0x61 ∷ 0x74
        ∷ 0x69 ∷ 0x6F ∷ 0x6E ∷ 0x00 ∷ [])

-- "\xf1\x81\x00\x0eOSC     OSDEMU\x00\x00"
abbrev default_system_id : List ℕ
default_system_id =
    (0xF1 ∷ 0x81 ∷ 0x00 ∷ 0x0E ∷ [])
    ++ (0x4F ∷ 0x53 ∷ 0x43 ∷ 0x20 ∷ 0x20 ∷ 0x20 ∷ 0x20 ∷ 0x20 ∷ 0x4F ∷ 0x53 ∷ 0x44 ∷ 0x45 ∷ 0x4D
        ∷ 0x55 ∷ 0x00 ∷ 0x00 ∷ [])

abbrev block_sz : ℕ
block_sz = 512

-- A number of 8 bytes in network order, unless the system call before failed.
number_or_error : ℕ → List ℕ → Option ℕ → Shown
number_or_error used outdata none = returns (error_with used outdata)
number_or_error used outdata (some n) = shows 8 (some (set_htonll (n % 2 ^ 64)))

-- The length and the capacity of an object's file, and of the file system that it is in.
module _ (f : Files) where
  logical_len : ℕ → ℕ → f.Fs → Option ℕ
  logical_len pid oid s = found_size (f.stat pid oid s)

  blocks_used : ℕ → ℕ → f.Fs → Option ℕ
  blocks_used pid oid s = elim (found_size (f.stat pid oid s)) [
    | none ↦ none
    | some size ↦ some (f.blocks pid oid s * block_sz)
  ]

  used_capacity : ℕ → ℕ → f.Fs → Option ℕ
  used_capacity pid oid s =
      if oid == 0
      then elim (f.statfs pid oid s) [
        | none ↦ none
        | some (f_blocks, f_bfree) ↦ some (sub64 f_blocks f_bfree * block_sz)
      ]
      else blocks_used pid oid s

  capacity_quota : ℕ → ℕ → f.Fs → Option ℕ
  capacity_quota pid oid s = elim (f.statfs pid oid s) [
    | none ↦ none
    | some (f_blocks, f_bfree) ↦ some (f_blocks * block_sz)
  ]

-- `name` and `ll` are the local arrays of `attr_get_attr`, which it does not initialize.
module _ (name ll : List ℕ) where
  -- The attributes of USER_INFO_PG, less the one that is a row of the table. The two identifiers are the
  -- same in the source.
  user_info : (f : Files) → ℕ → ℕ → ℕ → ℕ → List ℕ → f.Fs → Shown
  user_info f pid oid number used outdata s =
      if number == 0
      then shows attr_page_id_len (some (write_at 0 user_info_name name))
      else if number == 0x1
      then shows 8 (some (set_htonll pid))
      else if number == 0x2
      then shows 8 (some (set_htonll pid))
      else if number == 0x81
      then number_or_error used outdata (used_capacity f pid oid s)
      else if number == uiap_logical_len
      then number_or_error used outdata (logical_len f pid oid s)
      else if number == 0x10001
      then number_or_error used outdata (capacity_quota f pid oid s)
      else returns (error_with used outdata)

  -- Those of ROOT_INFO_PG, less the two that are rows. `sizeof` of a string counts its last 0.
  root_info : ℕ → ℕ → List ℕ → Shown
  root_info number used outdata =
      if number == 0
      then shows attr_page_id_len (some (write_at 0 root_info_name name))
      else if number == 0x4
      then shows 4 (some (0x4F ∷ 0x53 ∷ 0x43 ∷ 0 ∷ []))
      else if number == 0x5
      then shows 7 (some (0x4F ∷ 0x53 ∷ 0x44 ∷ 0x45 ∷ 0x4D ∷ 0x55 ∷ 0 ∷ []))
      else if number == 0x6
      then shows 8 (some (0x4F ∷ 0x53 ∷ 0x44 ∷ 0x32 ∷ 0x72 ∷ 0x30 ∷ 0x35 ∷ 0 ∷ []))
      else if number == 0x7
      then shows 4 (some (write_at 0 (set_htonl 117) ll))
      else if number == 0x8
      then shows 2 (some (0x32 ∷ 0 ∷ []))
      else if number == 0x80
      then shows 8 (some (set_htonll (2 ^ 64 - 1)))
      else if number == 0x81
      then shows 8 (some (set_htonll (2 ^ 64 - 1)))
      else if number == 0xC0
      then shows 8 (some (set_htonll 17))
      else if number == 0x100
      then shows 6 (some (write_at 0 (set_htonl 0) ll))
      else returns (error_with used outdata)

-- The identifier that is sent when none was set, which is looked up under the number 20. What the lookup
-- wrote is then written again.
system_id : Retrieval → Shown
system_id r = elim r.ret [
  | code enoent ↦ shows riap_osd_system_id_len (some default_system_id)
  | code osd_ok ↦ returns r
  | code osd_error ↦ returns r
  | code Ret.osd_repeat ↦ returns r
  | code Ret.eexist ↦ returns r
  | invalid ↦ returns r
  | asserted ↦ returns r
]

info_packed : Bool → ℕ → ℕ → ℕ → ℕ → ℕ → ℕ → ℕ → List ℕ → Shown → Retrieval
info_packed ndebug addr listfmt used oid outlen page number outdata (returns r) = r
info_packed ndebug addr listfmt used oid outlen page number outdata (shows len val) =
    pack_as ndebug addr listfmt used oid outlen page number len val outdata

module _ {q : Sqlite} {f : Files} where
  info_row : Bool → ℕ → ℕ → ℕ → ℕ → ℕ → ℕ → List ℕ → ℕ → ℕ → Exec (Device q f) Retrieval
  info_row ndebug addr pid oid page number outlen outdata listfmt used =
      db (attr_get_row q ndebug addr pid oid page number outlen outdata listfmt used)

  -- The value that the switches of `attr_get_attr` find.
  info_of :
      Bool → ℕ → List ℕ → List ℕ → ℕ → ℕ → ℕ → ℕ → ℕ → List ℕ → ℕ → ℕ → Exec (Device q f) Shown
  info_of ndebug addr name ll pid oid page number outlen outdata listfmt used d =
      if page == user_info_pg
      then (if number == uiap_username
          then (do
            r ← info_row ndebug addr pid oid user_info_pg uiap_username outlen outdata listfmt used
            pure (returns r))
              d
          else (value (user_info name ll f pid oid number used outdata d.fs), d))
      else if page == root_info_pg
      then (if number == riap_osd_system_id
          then (do
            r ←
                info_row ndebug addr pid oid root_info_pg riap_osd_system_id_len outlen outdata
                  listfmt used
            pure (system_id r))
              d
          else if number == riap_osd_name
          then (do
            r ← info_row ndebug addr pid oid root_info_pg riap_osd_name outlen outdata listfmt used
            pure (returns r))
              d
          else (value (root_info name ll number used outdata), d))
      else (value (shows 0 none), d)

  pub attr_get_attr :
      Bool → ℕ → List ℕ → List ℕ → ℕ → ℕ → ℕ → ℕ → ℕ → List ℕ → ℕ → ℕ → Exec (Device q f) Retrieval
  attr_get_attr ndebug addr name ll pid oid page number outlen outdata listfmt used = do
    info ← info_of ndebug addr name ll pid oid page number outlen outdata listfmt used
    pure (info_packed ndebug addr listfmt used oid outlen page number outdata info)

  -- `_attr_set_attr` and `attr_set_conversion`
  unfoldable pub set_row : ℕ → ℕ → ℕ → ℕ → List ℕ → ℕ → Exec (Device q f) AttrRet
  set_row pid oid page number val len = do
    r ← db (set_attr q pid oid page number (take len val))
    pure (code r)

  truncate_to : ℕ → ℕ → ℕ → Exec (Device q f) AttrRet
  truncate_to pid oid len = do
    done ← sys (f.truncate pid oid len)
    pure (code (if done then osd_ok else osd_error))

  -- The value, filled up with zeros.
  set_system_id : ℕ → ℕ → List ℕ → ℕ → Exec (Device q f) AttrRet
  set_system_id pid oid val len =
      if ltb riap_osd_system_id_len len
      then pure invalid
      else set_row pid oid root_info_pg riap_osd_system_id
          (if ltb len riap_osd_system_id_len then take len val ++ replicate 20 0 else val) len

  -- The attributes that cannot be set are left as they are, and the result is OSD_OK.
  pub attr_set_attr : ℕ → ℕ → ℕ → ℕ → List ℕ → ℕ → Exec (Device q f) AttrRet
  attr_set_attr pid oid page number val len =
      if page == user_info_pg
      then (if number == uiap_username
          then set_row pid oid user_info_pg uiap_username val len
          else if number == uiap_logical_len
          then truncate_to pid oid (get_ntohll val)
          else pure (code osd_ok))
      else if page == root_info_pg
      then (if number == riap_osd_system_id
          then (if cdb_srvc_act == act_format
              then set_system_id pid oid val len
              else pure (code osd_error))
          else if number == riap_osd_name
          then set_row pid oid root_info_pg riap_osd_name val len
          else pure (code osd_ok))
      else set_row pid oid page number val len

  -- On any other page the attribute is a row of the table.
  pub attr_set_attr-set_row :
      (pid oid page number : ℕ) (val : List ℕ) (len : ℕ)
      → page ≢ user_info_pg
      → page ≢ root_info_pg
      → attr_set_attr pid oid page number val len ≡ set_row pid oid page number val len
  unfolding attr_set_attr
  attr_set_attr-set_row pid oid page number val len h k =
      rw (==_ne page user_info_pg h, ==_ne page root_info_pg k) refl

  -- `set_uiap` keeps the length in a number of 16 bits.
  pub set_uiap : ℕ → ℕ → ℕ → List ℕ → ℕ → Exec (Device q f) AttrRet
  set_uiap pid oid number val len =
      if number == uiap_username
      then set_row pid oid user_info_pg number val len
      else if number == uiap_logical_len
      then truncate_to pid oid (get_ntohll val % 2 ^ 16)
      else pure (code osd_error)

  pub set_riap : ℕ → ℕ → ℕ → List ℕ → ℕ → Exec (Device q f) AttrRet
  set_riap pid oid number val len =
      if number == riap_osd_system_id && cdb_srvc_act == act_format
      then (if ltb riap_osd_system_id_len len
          then pure invalid
          else if ltb len riap_osd_system_id_len
          then attr_set_attr pid oid root_info_pg number (take len val ++ replicate 20 0) len
          else pure (code osd_error))
      else attr_set_attr pid oid root_info_pg number val len
