-- ===== src/Memory/Disk.antt =====
-- A file system that keeps its files in memory, with one descriptor.
use viji_osc_osd.Base.{
  ℕ, ◌≡◌, inl, refl, ap, ◌∙◌, Bool, true, false, Option, none, some, List, take, drop, length, ◌==◌,
  if◌then◌else◌, arith, take-all,
}
use viji_osc_osd.Files.{Files, Stat, regular, absent, never}
use viji_osc_osd.Io.{lend}
use viji_osc_osd.Io.Content.{Disk, Contents, update, splice}

-- The files, and what the descriptor 3 is open on.
pub record Mounted : Type 0 where
  pub disk : Disk
  pub opened : Option (ℕ × ℕ)

unfoldable pub open_at : ℕ → ℕ → Option (List ℕ) → Mounted → Option ℕ × Mounted
open_at p o none s = (none, s)
open_at p o (some c) s = (some 3, record s { opened = some (p, o) })

-- The contents behind an open descriptor.
unfoldable pub found : Option (ℕ × ℕ) → Disk → Option (List ℕ)
found none g = none
found (some (p, o)) g = g p o

unfoldable pub read_from : ℕ → ℕ → Option (List ℕ) → Option (List ℕ)
read_from len off none = none
read_from len off (some c) = some (take len (drop off c))

unfoldable pub write_to :
    ℕ → List ℕ → Option (ℕ × ℕ) → Option (List ℕ) → Mounted → Option ℕ × Mounted
write_to off src (some (p, o)) (some c) s =
    (some (length src), record s { disk = update p o (splice off src c) s.disk })
write_to off src w c s = (none, s)

unfoldable pub end_of : Option (List ℕ) → Option ℕ
end_of none = none
end_of (some c) = some (length c)

unfoldable pub stat_of : Option (List ℕ) → Stat
stat_of none = absent
stat_of (some c) = regular (length c)

unfoldable pub cut : ℕ → ℕ → ℕ → Option (List ℕ) → Mounted → Bool × Mounted
cut p o n none s = (false, s)
cut p o n (some c) s = (true, record s { disk = update p o (lend n c) s.disk })

abbrev pub disk_files : Files
disk_files = record {
  Fs = Mounted;
  stat = λ p o s. stat_of (s.disk p o);
  creat = λ p o s. (some 3, record s { disk = update p o List.[] s.disk; opened = some (p, o) });
  unlink = λ p o s. (true, s);
  open_file = λ p o s. open_at p o (s.disk p o) s;
  close = λ fd s. (true, s);
  pread = λ fd len off s. (read_from len off (found s.opened s.disk), s);
  pwrite = λ fd src off s. write_to off src s.opened (found s.opened s.disk) s;
  seek_end = λ fd s. (end_of (found s.opened s.disk), s);
  truncate = λ p o n s. cut p o n (s.disk p o) s;
  fdatasync = λ fd s. (true, s);
  sync_file_range = λ fd off len s. (true, s);
  alloc = λ n s. (true, s);
  blocks = λ pid oid s. 0;
  times = λ pid oid s. never;
  db_times = λ s. none;
  statfs = λ pid oid s. none;
}

abbrev pub file_of : ℕ → Mounted → Option (ℕ × ℕ)
file_of fd s = if fd == 3 then s.opened else none

pub is_open : (fd p o : ℕ) (s : Mounted) → file_of fd s ≡ some (p, o) → s.opened ≡ some (p, o)
is_open fd p o s h = ground arith

pub open_keeps : (p o : ℕ) (c : Option (List ℕ)) (s : Mounted) → (open_at p o c s).1.disk ≡ s.disk
unfolding open_at
open_keeps p o none s = refl
open_keeps p o (some c) s = refl

pub open_shows :
    (p o fd : ℕ) (w : Option (List ℕ)) (s : Mounted)
    → (open_at p o w s).0 ≡ some fd
    → (c : List ℕ) × (w ≡ some c) × (file_of fd (open_at p o w s).1 ≡ some (p, o))
unfolding open_at
open_shows p o fd none s h = absurd (cc h)
open_shows p o fd (some c) s h = let e : fd ≡ 3 = ground arith in (c, refl, rw e)

pub write_keeps :
    (off : ℕ) (src : List ℕ) (w : Option (ℕ × ℕ)) (c : Option (List ℕ)) (s : Mounted)
    → (write_to off src w c s).1.opened ≡ s.opened
unfolding write_to
write_keeps off src (some (p, o)) (some c) s = refl
write_keeps off src (some (p, o)) none s = refl
write_keeps off src none c s = refl

pub write_fails :
    (off : ℕ) (src : List ℕ) (w : Option (ℕ × ℕ)) (c : Option (List ℕ)) (s : Mounted)
    → (write_to off src w c s).0 ≡ none
    → (write_to off src w c s).1.disk ≡ s.disk
unfolding write_to
write_fails off src (some (p, o)) (some c) s h = absurd (cc h)
write_fails off src (some (p, o)) none s h = refl
write_fails off src none c s h = refl

pub write_writes :
    (off p o n : ℕ) (src c : List ℕ) (s : Mounted)
    → (write_to off src (some (p, o)) (some c) s).0 ≡ some n
    → (write_to off src (some (p, o)) (some c) s).1.disk
      ≡ update p o (splice off (take n src) c) s.disk
unfolding write_to
write_writes off p o n src c s h =
    let e : n ≡ length src = ground arith in rw (e, take-all (length src) src (omega arith))

pub cut_fails :
    (p o n : ℕ) (c : Option (List ℕ)) (s : Mounted)
    → (cut p o n c s).0 ≡ false
    → (cut p o n c s).1.disk ≡ s.disk
unfolding cut
cut_fails p o n none s h = refl
cut_fails p o n (some c) s h = absurd (cc h)

pub found_at :
    (w : Option (ℕ × ℕ)) (g : Disk) (p o : ℕ) (c : List ℕ)
    → w ≡ some (p, o)
    → g p o ≡ some c
    → found w g ≡ some c
unfolding found
found_at w g p o c h e = rw h e

pub read_reads :
    (len off : ℕ) (c bytes : List ℕ) (w : Option (List ℕ))
    → w ≡ some c
    → read_from len off w ≡ some bytes
    → bytes ≡ take len (drop off c)
unfolding read_from
read_reads len off c bytes none h e = absurd (cc h)
read_reads len off c bytes (some d) h e =
    let e' : bytes ≡ take len (drop off d) = cc e in
    let same : d ≡ c = cc h in e' ∙ ap (λ x. take len (drop off x)) same

pub end_at :
    (off : ℕ) (c : List ℕ) (w : Option (List ℕ)) → w ≡ some c → end_of w ≡ some off → off ≡ length c
unfolding end_of
end_at off c none h e = absurd (cc h)
end_at off c (some d) h e =
    let e' : off ≡ length d = cc e in
    let same : d ≡ c = cc h in e' ∙ ap (λ (x : List ℕ). length x) same

pub write_at_open :
    (off p o n : ℕ) (src c : List ℕ) (w : Option (ℕ × ℕ)) (v : Option (List ℕ)) (s : Mounted)
    → w ≡ some (p, o)
    → v ≡ some c
    → (write_to off src w v s).0 ≡ some n
    → (write_to off src w v s).1.disk ≡ update p o (splice off (take n src) c) s.disk
write_at_open off p o n src c w v s h k = rw (h, k) (write_writes off p o n src c s)

unfoldable pub disk_files-Contents : Contents disk_files
unfolding stat_of cut
disk_files-Contents = record {
  view = λ s. s.disk;
  file = file_of;
  open_keeps = λ p o s. open_keeps p o (s.disk p o) s;
  open_shows = λ p o fd s h. open_shows p o fd (s.disk p o) s h;
  close_keeps = λ fd s. refl;
  pread_keeps = λ fd len off s. (refl, λ n. refl);
  pread_reads = λ fd len off p o c bytes s h there e.
      read_reads len off c bytes (found s.opened s.disk)
        (found_at s.opened s.disk p o c (is_open fd p o s h) there) e;
  pwrite_fails = λ fd off src s h. write_fails off src s.opened (found s.opened s.disk) s h;
  pwrite_writes = λ fd off p o n src c s h there e.
      let w = is_open fd p o s h in
      write_at_open off p o n src c s.opened (found s.opened s.disk) s w
        (found_at s.opened s.disk p o c w there) e;
  pwrite_shows = λ fd off n src s.
      ap (λ w. if n == 3 then w else none) (write_keeps off src s.opened (found s.opened s.disk) s);
  end_keeps = λ fd s. (refl, λ n. refl);
  end_found = λ fd p o off c s h there e.
      end_at off c (found s.opened s.disk)
        (found_at s.opened s.disk p o c (is_open fd p o s h) there) e;
  stat_sees = λ p o c s e. inl (rw e);
  truncate_fails = λ p o n s h. cut_fails p o n (s.disk p o) s h;
  truncate_cuts = λ p o n c s e h. rw e;
  alloc_keeps = λ n s. (refl, λ k. refl);
}
