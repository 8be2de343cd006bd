-- ===== src/Device/Attributes/RoundTrip.antt =====
-- An attribute of a page of its own that is set, and then got as a list.
use viji_osc_osd.Base.{
  ℕ, ◌+◌, ◌%◌, ◌^◌, ◌≤◌, ◌<◌, ◌≡◌, subst, arith, Bool, List, ◌++◌, length, take, drop, length-take,
}
use viji_osc_osd.ListEntry.Pack.{entry}
use viji_osc_osd.Store.{Sqlite, Behaves}
use viji_osc_osd.Store.Fetch.{Fetches}
use viji_osc_osd.Files.{Files}
use viji_osc_osd.Exec.{Post, bind, given, weaken, ◌>>◌}
use viji_osc_osd.Attr.{rtrvd_set_attr_list}
use viji_osc_osd.Device.{Device}
use viji_osc_osd.Device.Attributes.Getting.{osd_getattr_list}
use viji_osc_osd.Device.Attributes.Getting.Listed.{Room, gets}
use viji_osc_osd.Device.Attributes.Setting.{osd_set_attributes}
use viji_osc_osd.Device.Attributes.Setting.Defines.{sets}
use viji_osc_osd.Device.Attributes.Own.{Own, Refused}

-- An attribute of a page of user objects between 0x10000 and 0x1FFFFFFF that is set to `len` bytes and
-- then got, in a buffer that is aligned and has room for it, is the entry of its page, number, length
-- and value: it is written to the front of the buffer, which is otherwise as before, and its length is
-- what is counted as used. The two handlers refuse with one of three replies, or do this.
pub osd_set_attributes-osd_getattr_list :
    {q : Sqlite} (f : Files) (b : Behaves q) (fe : Fetches q b) (ndebug : Bool)
    (addr pid oid page number len outlen used : ℕ) (val outbuf name ll : List ℕ) (d : Device q f)
    → Own page number
    → len ≤ length val
    → len < 2 ^ 16
    → (addr % 8 ≡ 0) × (outlen % 8 ≡ 0)
    → (16 + len ≤ outlen) × (outlen ≤ length outbuf) × (outlen < 2 ^ 32)
    → let item = entry page number len (take len val) in
      Post
        (λ (out, n) _. (out ≡ item ++ drop (length item) outbuf) × (n ≡ length item))
        (λ r _. Refused pid oid r)
        ((osd_set_attributes pid oid page number val len
            >> osd_getattr_list ndebug addr name ll pid oid page number outbuf outlen
                rtrvd_set_attr_list used)
          d)
osd_set_attributes-osd_getattr_list f b fe ndebug addr pid oid page number len outlen used val
      outbuf name ll d own hlen small (aligned, even) (fits, lent, narrow) =
    let v = take len val in
    let e : length v ≡ len = omega (arith, length-take len val) in
    (bind (sets f b pid oid page number val len own) (λ _. given (λ long.
        let room : Room f b fe ndebug addr pid oid page number v outbuf outlen = record {
          aligned = aligned;
          even = even;
          narrow = narrow;
          shown = ground (arith, e);
          short = omega (arith, e);
          fits = omega (arith, e);
          lent = lent;
        } in
        weaken (gets f b fe ndebug addr pid oid page number v outbuf outlen used name ll room own)
          (λ d k. k)
          (λ (out, n) d (h, m, k).
            subst
              (λ l.
                let item = entry page number l v in
                (out ≡ item ++ drop (length item) outbuf) × (n ≡ length item))
              e (h, m))
          (λ r d h. h)))).at
      d tt
