-- ===== src/Tools/ReadZone.antt =====
-- tools/read_zone/zbc_read_zone.c. The test of the bytes read for a pattern only prints a message,
-- since the code that it sets is overwritten, and is left out.
use Prim.Native.String.{String}
use libzbc.Base.{
  ℕ, zero, suc, ◌+◌, ◌*◌, ◌%◌, bit_or, Bool, true, not, ◌&&◌, ◌||◌, Option, none, some, List, ◌==◌,
  leb, if◌then◌else◌, u64, sub64, ◌⊎◌, ℤ, pos, is_zero, is_neg, is_pos, pos_part, neg_enomem,
  get_or, length,
}
use libzbc.Device.{Device, Zone}
use libzbc.Device.ZoneTests.{zbc_zone_sequential_req, zbc_zone_full}
use libzbc.Device.Driver.{Drv}
use libzbc.Open.{Backend, Handle, zbc_open, zbc_close}
use libzbc.Rw.{zbc_pread, zbc_preadv}
use libzbc.Tools.{Plan, iosize, chunk, move, Tally}
use libzbc.Tools.Args.{Numbers}
use libzbc.Zones.Listing.{listed_zones}
use libzbc.Zones.{no_zone, zbc_list_zones}
use libzbc.Tools.ReadLine.{ReadAsked, parse_read}

-- Where the reading of the zone ends, from its start.
unfoldable pub read_max : Zone → ℕ
read_max z =
    if zbc_zone_sequential_req z && not (zbc_zone_full z)
    then sub64 z.zbz_write_pointer z.zbz_start
    else z.zbz_length

module _ {S : Type 0} (page_size : ℕ) (drv : Drv S) (dev : Device) (aborted : S → Bool)
    (write : Option (ℕ → S → ℤ × S)) (p : Plan) where
  -- The bytes in the buffer, to the file if there is one.
  abbrev pub to_file : Option (ℕ → S → ℤ × S) → ℕ → S → ℤ × S
  to_file none n s = (pos 0, s)
  to_file (some f) n s = f n s

  -- The `while` loop, by the rounds left. `aborted` says whether a signal has come. Nothing stands
  -- for rounds that are used up, which the sectors of a zone are not.
  unfoldable pub read_loop : ℕ → ℕ → ℕ → ℕ → S → Option (Tally × S)
  read_loop zero ofst bcount iocount s = none
  read_loop (suc rounds) ofst bcount iocount s =
      let c = chunk p ofst in
      let (ret, s₁) =
        move (zbc_pread page_size drv dev) (zbc_preadv page_size drv dev) p c (u64 (p.start + ofst))
          s in
      let n = pos_part ret in
      let (saved, s₂) = to_file write (n * 512) s₁ in
      let at = λ (r : ℤ) (o b i : ℕ).
        let t : Tally = record { ret = r; ofst = o; bcount = b; iocount = i } in t in
      let next = read_loop rounds (ofst + n) (bcount + n * 512) (iocount + 1) s₂ in
      if aborted s || (c == 0)
      then some (at (pos 0) ofst bcount iocount, s)
      else if not (is_pos ret)
      then some (at (pos 1) ofst bcount iocount, s₁)
      else if is_neg saved
      then some (at (pos 1) ofst bcount iocount, s₂)
      else if not (p.ionum == 0) && leb p.ionum (iocount + 1)
      then some (at (pos 0) (ofst + n) (bcount + n * 512) (iocount + 1), s₂)
      else next

-- What the tool calls besides the library. `calloc` and `memalign` say whether an allocation
-- succeeds; `open_file` opens the output and says whether that succeeds; `finish_file` closes it,
-- and removes it when the code is not 0.
pub record World (S : Type 0) : Type 0 where
  pub page_size : ℕ
  pub realpath : String → ℕ ⊎ String
  pub calloc : ℕ → Bool
  pub memalign : ℕ → Bool
  pub aborted : S → Bool
  pub open_file : String → S → Bool × S
  pub write : ℕ → S → ℤ × S
  pub finish_file : ℤ → S → S

module _ {S : Type 0} (w : World S) (drivers : List (Backend String S)) (junk : ℤ) where
  -- The output after the loop, if there is one.
  abbrev pub close_output : Option String → Option (Tally × S) → Option (ℤ × S)
  close_output file none = none
  close_output none (some (t, s)) = some (t.ret, s)
  close_output (some name) (some (t, s)) = some (t.ret, w.finish_file t.ret s)

  -- The file of the output, if there is one.
  abbrev pub output : Option String → S → Bool × S
  output none s = (true, s)
  output (some name) s = w.open_file name s

  abbrev pub writer : Option String → Option (ℕ → S → ℤ × S)
  writer none = none
  writer (some name) = some w.write

  -- From the list of the zones on: the code and the state at the label `out`. Nothing stands for a
  -- division by zero.
  unfoldable pub read_from : ReadAsked → Device → Drv S → List Zone → S → Option (ℤ × S)
  unfolding read_max read_loop
  read_from a dev drv zones s =
      let z = get_or zones a.zidx no_zone in
      let p : Plan = record {
        start = z.zbz_start;
        max = read_max z;
        bufsize = a.bufsize;
        iovcnt = a.iovcnt;
        vio = a.vio;
        ionum = a.ionum;
        buf = 1;
      } in
      let align = dev.zbd_info.zbd_lblock_size in
      let (opened, s') = output a.file s in
      let loop =
        read_loop w.page_size drv dev w.aborted (writer a.file) p (suc p.max) a.ofst 0 0 s' in
      if leb (length zones) a.zidx
      then some (pos 1, s)
      else if align == 0
      then none
      else if not (a.bufsize % align == 0)
      then some (pos 1, s)
      else if a.vio && not (w.calloc a.iovcnt)
      then some (neg_enomem, s)
      else if not (w.memalign (iosize p))
      then some (pos 1, s)
      else if not opened
      then some (pos 1, s')
      else close_output a.file loop

  -- The close of the device.
  abbrev pub finish_device : Backend String S → Device → Option (ℤ × S) → Option (ℤ × S)
  finish_device b dev none = none
  finish_device b dev (some (ret, s)) = some (ret, (zbc_close b dev s).1)

  unfoldable pub read_device : ReadAsked → Backend String S → Device → S → Option (ℤ × S)
  unfolding read_from listed_zones
  read_device a b dev s =
      let ((ret, out), s') = zbc_list_zones b.drv junk dev w.calloc 0 0 s in
      finish_device b dev
        (if is_zero ret then read_from a dev b.drv (listed_zones out) s' else some (pos 1, s'))

  unfoldable pub opened_read : ReadAsked → Option (Handle String S) → S → Option (ℤ × S)
  unfolding read_device
  opened_read a none s = none
  opened_read a (some h) s =
      if not (is_zero h.ret)
      then some (pos 1, s)
      else elim h.pdev [ none ↦ none | some (b, dev) ↦ read_device a b dev s ]

  -- main of the tool, with the arguments behind the name of the program.
  unfoldable pub read_zone_tool : Numbers → List String → S → Option (ℤ × S)
  unfolding parse_read opened_read
  read_zone_tool num args s = elim (parse_read num args) [
    | none ↦ some (pos 1, s)
    | some a ↦
        let (h, s') = zbc_open drivers w.realpath w.calloc a.path (bit_or a.oflags a.flags) s in
        opened_read a h s'
  ]
